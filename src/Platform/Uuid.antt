-- ===== src/Platform/Uuid.antt =====
-- `str(uuid)` and `UUID(text)`; a UUID is its 128-bit number.
use civio.Base.{ℕ, ◌≡◌, String, Option, some}

pub record Uuid : Type 0 where
  pub show : ℕ → String
  pub parse : String → Option ℕ

pub record IsLawful (U : Uuid) : Type 0 where
  pub parse-show : (u : ℕ) → U.parse (U.show u) ≡ some u
