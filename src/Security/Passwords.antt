-- ===== src/Security/Passwords.antt =====
-- `hash_password` and `verify_password` of `core/security.py`, over the password hashing of passlib.
use civio.Base.{ℕ, Text, Bool, true, ◌≡◌}

-- bcrypt with a cost and a random salt. Documented: a password verifies against its own hash, whatever
-- the cost.
pub record CryptContext : Type 1 where
  pub Salt : Type 0
  pub hash : ℕ → Salt → Text → Text
  pub verify : Text → Text → Bool

pub record VerifiesHashes (C : CryptContext) : Type 0 where
  pub verify-hash :
      (rounds : ℕ) (salt : C.Salt) (plain : Text) → C.verify plain (C.hash rounds salt plain) ≡ true

abbrev pub bcrypt_rounds : ℕ
bcrypt_rounds = 12

module _ (C : CryptContext) where
  abbrev pub hash_password : C.Salt → Text → Text
  hash_password salt plain = C.hash bcrypt_rounds salt plain

  abbrev pub verify_password : Text → Text → Bool
  verify_password plain hashed = C.verify plain hashed
