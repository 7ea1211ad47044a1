-- ===== src/Platform/Json.antt =====
-- `json.dumps` and `json.loads` of dicts of one shape; only they read the JSON texts, whose type is left
-- open.
use civio.Base.{◌≡◌, Option, some}

pub record Json (Doc A : Type 0) : Type 0 where
  pub dumps : A → Doc
  pub loads : Doc → Option A

pub record IsLawful {Doc A : Type 0} (J : Json Doc A) : Type 0 where
  pub loads-dumps : (a : A) → J.loads (J.dumps a) ≡ some a
