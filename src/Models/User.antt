-- ===== src/Models/User.antt =====
-- `models/user.py`: a row of `users`. UUIDs are numbers, timestamps are microseconds.
use civio.Base.{ℕ, Bool, Option, Text}
use civio.Errors.Classes.{Details}
use civio.Models.Enums.{UserRole, AuthStatus}

pub record User : Type 0 where
  pub id : ℕ
  pub community_id : ℕ
  pub name : Text
  pub mobile : Text
  pub email : Option Text
  pub role : UserRole
  pub auth_status : AuthStatus
  pub call_policy_group : Option Text
  pub friendship_enabled : Bool
  pub user_metadata : Details
  pub created_at : ℕ
  pub updated_at : ℕ

abbrev pub user_id : User → ℕ
user_id u = u.id
