-- ===== src/Models/Classes/Billing.antt =====
-- The mapped classes of `models/`: `PaymentOrder`, `TokenLedger`, `BillingRecord`.
use civio.Base.{true, false, some, none, [], ◌∷◌}
use civio.Schema.Ddl.{uuid, bigint, timestamptz, varchar, numeric, check, index}
use civio.Models.Mapping.{references, primary, unique, autoincrement, mapped, MappedClass}
use civio.Models.Enums.Calls.{token_scope_type}
use civio.Models.Enums.Billing.{billing_scope_type}

abbrev pub payment_order_class : MappedClass
payment_order_class = record {
  tablename = "payment_orders";
  fields =
      (mapped "id" uuid false none (some "uuid_generate_v4()") (primary ∷ []))
      ∷ (mapped "user_id" uuid false (some false) none (references "users" "id" none ∷ []))
      ∷ (mapped "community_id" uuid false (some false) none
          (references "communities" "id" none ∷ []))
      ∷ (mapped "provider" (varchar 32) false (some false) none [])
      ∷ (mapped "provider_ref" (varchar 128) true none none [])
      ∷ (mapped "amount" (numeric 18 2) false (some false) none [])
      ∷ (mapped "currency" (varchar 8) false (some false) (some "'TWD'") [])
      ∷ (mapped "token_credit" (numeric 18 4) false (some false) none [])
      ∷ (mapped "status" (varchar 16) false (some false) (some "'pending'") [])
      ∷ (mapped "created_at" timestamptz false (some false) (some "now()") [])
      ∷ (mapped "completed_at" timestamptz true none none [])
      ∷ [];
  unique_keys = [];
  checks = [];
  indexes =
      (index "idx_payment_user" ("user_id" ∷ "created_at DESC" ∷ []) false none)
      ∷ (index "idx_payment_provider_ref" ("provider" ∷ "provider_ref" ∷ []) false none)
      ∷ [];
}

abbrev pub token_ledger_class : MappedClass
token_ledger_class = record {
  tablename = "token_ledger";
  fields =
      (mapped "id" bigint false none none (primary ∷ autoincrement ∷ []))
      ∷ (mapped "scope" token_scope_type false (some false) none [])
      ∷ (mapped "community_id" uuid false (some false) none
          (references "communities" "id" (some "RESTRICT") ∷ []))
      ∷ (mapped "user_id" uuid true none none (references "users" "id" (some "SET NULL") ∷ []))
      ∷ (mapped "delta" (numeric 18 4) false (some false) none [])
      ∷ (mapped "balance_after" (numeric 18 4) false (some false) none [])
      ∷ (mapped "reason" (varchar 64) false (some false) none [])
      ∷ (mapped "external_ref" (varchar 128) true none none [])
      ∷ (mapped "idempotency_key" (varchar 128) true none none (unique ∷ []))
      ∷ (mapped "created_at" timestamptz false (some false) (some "now()") [])
      ∷ [];
  unique_keys = [];
  checks =
      (check "ck_scope_owner"
        "(scope = 'community' AND user_id IS NULL) OR (scope = 'user' AND user_id IS NOT NULL)")
      ∷ [];
  indexes =
      (index "idx_ledger_community" ("community_id" ∷ "created_at DESC" ∷ []) false none)
      ∷ (index "idx_ledger_user" ("user_id" ∷ "created_at DESC" ∷ []) false
          (some "user_id IS NOT NULL"))
      ∷ [];
}

abbrev pub billing_record_class : MappedClass
billing_record_class = record {
  tablename = "billing_records";
  fields =
      (mapped "id" uuid false none (some "uuid_generate_v4()") (primary ∷ []))
      ∷ (mapped "call_id" uuid false (some false) none
          (references "call_logs" "id" (some "RESTRICT") ∷ unique ∷ []))
      ∷ (mapped "community_id" uuid false (some false) none
          (references "communities" "id" none ∷ []))
      ∷ (mapped "token_cost" (numeric 18 4) false (some false) none [])
      ∷ (mapped "billing_scope" billing_scope_type false (some false) none [])
      ∷ (mapped "ledger_entry_id" bigint true none none (references "token_ledger" "id" none ∷ []))
      ∷ (mapped "created_at" timestamptz false (some false) (some "now()") [])
      ∷ [];
  unique_keys = [];
  checks = [];
  indexes =
      (index "idx_billing_community" ("community_id" ∷ "created_at DESC" ∷ []) false none) ∷ [];
}
