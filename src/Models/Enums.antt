-- ===== src/Models/Enums.antt =====
-- `models/enums.py`: the enumerations and the texts that the database stores for them.
pub mod Community
pub mod Residents
pub mod Calls
pub mod Billing
pub mod Sync
use civio.Base.{String, List, [], ◌∷◌, map}
use civio.Schema.Ddl.{ColumnType, enum}

pub data UserRole : Type 0 where
  owner tenant family admin staff : UserRole

abbrev pub role_value : UserRole → String
role_value owner = "owner"
role_value tenant = "tenant"
role_value family = "family"
role_value admin = "admin"
role_value staff = "staff"

pub data AuthStatus : Type 0 where
  pending verified revoked : AuthStatus

abbrev pub auth_status_value : AuthStatus → String
auth_status_value pending = "pending"
auth_status_value verified = "verified"
auth_status_value revoked = "revoked"

abbrev pub user_role_type : ColumnType
user_role_type = enum "user_role" (map role_value (owner ∷ tenant ∷ family ∷ admin ∷ staff ∷ []))

abbrev pub auth_status_type : ColumnType
auth_status_type = enum "auth_status" (map auth_status_value (pending ∷ verified ∷ revoked ∷ []))
