-- ===== src/Security/Tokens.antt =====
-- The JWTs of `core/security.py`: `_build_token`, `create_access_token`, `create_refresh_token` and
-- `decode_token`. The current time is in microseconds, as a `datetime` has it.
pub mod Laws
use civio.Base.{
  ℕ, ◌+◌, ◌*◌, ◌/◌, String, Bool, true, false, Option, none, some, List, [], ◌∷◌, ◌<>◌, ◌||◌, any,
  keep, not, str_eq, if◌then◌else◌,
}
use civio.Base.Dict.{lookup, update}
use civio.Errors.Classes.{Value, text, num, other, raised, token_expired_error, invalid_token_error}
use civio.Errors.Outcome.{Outcome, ok, err, ◌>>=◌, ◌>>◌, raise_if, or_raise}
use civio.Platform.Jwt.{Claims, Decoded, claims, expired, jwt_error, Jwt, Validator}
use civio.Config.{Settings}

pub data TokenType : Type 0 where
  access refresh : TokenType

abbrev pub type_value : TokenType → String
type_value access = "access"
type_value refresh = "refresh"

-- `_RESERVED_CLAIMS`
unfoldable pub is_reserved : String → Bool
is_reserved k =
    str_eq k "sub" || str_eq k "type" || str_eq k "iat" || str_eq k "exp" || str_eq k "jti"

abbrev pub jwt_algorithm : String
jwt_algorithm = "HS256"

-- `extra` holds the claims that the model allows beside its fields.
pub record TokenPayload : Type 0 where
  pub sub : String
  pub type : TokenType
  pub iat : ℕ
  pub exp : ℕ
  pub jti : String
  pub extra : Claims

-- `int(t.timestamp())` for a time in microseconds.
abbrev pub whole_seconds : ℕ → ℕ
whole_seconds t = t / 1_000_000

abbrev pub names_reserved : String × Value → Bool
names_reserved e = is_reserved e.0

-- The five claims that every token has; `ttl` is in seconds.
abbrev pub standard_claims : String → TokenType → ℕ → ℕ → String → Claims
standard_claims sub type now ttl jti =
    ("sub", text sub)
    ∷ ("type", text (type_value type))
    ∷ ("iat", num (whole_seconds now))
    ∷ ("exp", num (whole_seconds (now + ttl * 1_000_000)))
    ∷ ("jti", text jti)
    ∷ []

module _ {Token : Type 0} (J : Jwt Token) (settings : Settings) where
  -- `jti` is what `uuid4().hex` returned; no `extra` and the empty one behave alike.
  unfoldable pub build_token : String → TokenType → ℕ → Claims → ℕ → String → Outcome Token
  build_token sub type ttl extra now jti = do
    raise_if (any names_reserved extra) (other "ValueError")
    ok (
        J.encode (update (standard_claims sub type now ttl jti) extra) settings.jwt_secret
          jwt_algorithm)

  unfoldable pub create_access_token : String → Claims → ℕ → String → Outcome Token
  unfolding build_token
  create_access_token sub extra = build_token sub access (settings.jwt_access_ttl_min * 60) extra

  unfoldable pub create_refresh_token : String → ℕ → String → Outcome Token
  unfolding build_token
  create_refresh_token sub = build_token sub refresh (settings.jwt_refresh_ttl_days * 86_400) []

-- The field `type: Literal["access", "refresh"]`.
abbrev pub token_type : Value → Option TokenType
token_type (text s) =
    if str_eq s "access" then some access else if str_eq s "refresh" then some refresh else none
token_type _ = none

-- A required field of the model, read from the claims.
abbrev pub field {ℓ} : {A : Type ℓ} → String → (Value → Option A) → Claims → Option A
field k read c = elim (lookup k c) [ none ↦ none | some v ↦ read v ]

module _ (V : Validator) where
  -- `TokenPayload.model_validate(raw)`, with its `ValueError` made an `InvalidTokenError`.
  unfoldable pub validate_payload : Claims → Outcome TokenPayload
  validate_payload raw = do
    let invalid = raised invalid_token_error ("invalid token payload: " <> V.describe raw)
    sub ← or_raise (field "sub" V.as_str raw) invalid
    type ← or_raise (field "type" token_type raw) invalid
    iat ← or_raise (field "iat" V.as_int raw) invalid
    exp ← or_raise (field "exp" V.as_int raw) invalid
    jti ← or_raise (field "jti" V.as_str raw) invalid
    ok (record {
      sub = sub;
      type = type;
      iat = iat;
      exp = exp;
      jti = jti;
      extra = keep (λ e. not (names_reserved e)) raw;
    })

  abbrev pub payload_of : Decoded → Outcome TokenPayload
  payload_of (claims raw) = validate_payload raw
  payload_of expired = err (raised token_expired_error "token expired")
  payload_of (jwt_error m) = err (raised invalid_token_error m)

module _ {Token : Type 0} (J : Jwt Token) (V : Validator) (settings : Settings) where
  -- `now` is the time at which the library reads its clock.
  unfoldable pub decode_token : Token → ℕ → Outcome TokenPayload
  unfolding validate_payload
  decode_token token now =
      payload_of V (J.decode token settings.jwt_secret (jwt_algorithm ∷ []) (whole_seconds now))
