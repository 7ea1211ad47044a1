-- ===== src/AuthService/Data.antt =====
-- The data of `AuthService` and of its responses (`services/auth_service.py`, `schemas/auth.py`), and the
-- pure steps of its methods.
use civio.Base.{ℕ, String, Bool, List, [], ◌∷◌, Text, text_eq, is_ascii, ◌&&◌, if◌then◌else◌}
use civio.Errors.Classes.{other}
use civio.Errors.Outcome.{Outcome, ok, err, ◌>>=◌, or_raise}
use civio.Models.User.{User, user_id}
use civio.Platform.Uuid
use civio.Platform.Uuid.{Uuid}
use civio.Platform.Json
use civio.Platform.Json.{Json}
use civio.Platform.Jwt
use civio.Platform.Jwt.{Jwt, Validator}
use civio.Platform.Redis
use civio.Platform.Redis.{Redis}
use civio.Platform.Session
use civio.Platform.Session.{Session}

-- The payload dict of a challenge.
pub record Challenge : Type 0 where
  pub mobile : Text
  pub code : Text
  pub attempts : ℕ
  pub user_ids : List String

-- `OtpChallenge`
pub record OtpChallenge : Type 0 where
  pub challenge_id : ℕ
  pub mobile : Text
  pub expires_at : ℕ

-- `TokenPair`
pub record TokenPair (Token : Type 0) : Type 0 where
  pub access_token : Token
  pub refresh_token : Token
  pub token_type : String

-- `_MAX_ATTEMPTS`
abbrev pub max_attempts : ℕ
max_attempts = 5

-- `hmac.compare_digest` on two `str`: a `TypeError` unless both are ASCII.
unfoldable pub compare_digest : Text → Text → Outcome Bool
compare_digest a b = if is_ascii a && is_ascii b then ok (text_eq a b) else err (other "TypeError")

-- `[UUID(uid) for uid in …]`
unfoldable pub parse_uuids : Uuid → List String → Outcome (List ℕ)
parse_uuids U [] = ok []
parse_uuids U (s ∷ ss) = do
  u ← or_raise (U.parse s) (other "ValueError")
  us ← parse_uuids U ss
  ok (u ∷ us)

-- What a call reads from its environment while it runs.
pub record Readings : Type 0 where
  pub read_at : ℕ
  pub write_at : ℕ
  pub access_at : ℕ
  pub access_jti : String
  pub refresh_at : ℕ
  pub refresh_jti : String

-- The packages that the service is built on, with the types of the tokens and of the JSON texts.
pub record Platform : Type 1 where
  pub Token : Type 0
  pub Doc : Type 0
  pub redis : Redis Doc
  pub session : Session User
  pub uuid : Uuid
  pub json : Json Doc Challenge
  pub jwt : Jwt Token
  pub validator : Validator

-- The packages behave as documented.
pub record IsLawful (P : Platform) : Type 0 where
  pub redis : Redis.IsLawful P.redis
  pub session : Session.IsLawful P.session user_id
  pub uuid : Uuid.IsLawful P.uuid
  pub json : Json.IsLawful P.json
  pub jwt : Jwt.IsLawful P.jwt
  pub validator : Jwt.IsExact P.validator
