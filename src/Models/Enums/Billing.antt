-- ===== src/Models/Enums/Billing.antt =====
-- `models/enums.py`: the enumerations of billing.
use civio.Base.{String, [], ◌∷◌, map}
use civio.Schema.Ddl.{ColumnType, enum}

pub data BillingScope : Type 0 where
  user community free : BillingScope

abbrev pub billing_scope_value : BillingScope → String
billing_scope_value user = "user"
billing_scope_value community = "community"
billing_scope_value free = "free"

abbrev pub billing_scope_type : ColumnType
billing_scope_type = enum "billing_scope" (map billing_scope_value (user ∷ community ∷ free ∷ []))
