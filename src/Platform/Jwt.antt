-- ===== src/Platform/Jwt.antt =====
-- The JWT library and the validation of claims by the model class.
use civio.Base.{ℕ, ◌≡◌, String, Option, none, some, List, [], ◌∷◌, Text, ltb, if◌then◌else◌}
use civio.Base.Dict.{lookup}
use civio.Errors.Classes.{Value, text, num, Details}

abbrev pub Claims : Type 0
Claims = Details

-- How `jwt.decode` ends: the claims, `ExpiredSignatureError`, or another `JWTError` with its text.
pub data Decoded : Type 0 where
  claims : Claims → Decoded
  expired : Decoded
  jwt_error : String → Decoded

-- Tokens are texts that only the library reads, so their type is left open.
pub record Jwt (Token : Type 0) : Type 0 where
  -- claims, secret and algorithm
  pub encode : Claims → Text → String → Token
  -- token, secret, algorithms, and the current time in whole seconds
  pub decode : Token → Text → List String → ℕ → Decoded

-- Claims whose registered names are of the types that the library checks, with no name whose check
-- needs more than the secret.
pub record IsStandard (c : Claims) (sub jti : String) (iat exp : ℕ) : Type 0 where
  pub has_sub : lookup "sub" c ≡ some (text sub)
  pub has_jti : lookup "jti" c ≡ some (text jti)
  pub has_iat : lookup "iat" c ≡ some (num iat)
  pub has_exp : lookup "exp" c ≡ some (num exp)
  pub no_nbf : lookup "nbf" c ≡ none
  pub no_aud : lookup "aud" c ≡ none
  pub no_at_hash : lookup "at_hash" c ≡ none

-- Decoding under the secret of the encoding gives the claims back until `exp` has passed.
pub record IsLawful {Token : Type 0} (J : Jwt Token) : Type 0 where
  pub decode-encode :
      (c : Claims) (secret : Text) (alg sub jti : String) (iat exp now : ℕ)
      → IsStandard c sub jti iat exp
      → J.decode (J.encode c secret alg) secret (alg ∷ []) now
        ≡ (if ltb exp now then expired else claims c)

-- Reading a claim as a `str` or an `int` field (the library may convert), and the text of a
-- validation error.
pub record Validator : Type 0 where
  pub as_str : Value → Option String
  pub as_int : Value → Option ℕ
  pub describe : Claims → String

-- A value that has the type of the field is taken as it is.
pub record IsExact (V : Validator) : Type 0 where
  pub as_str-text : (s : String) → V.as_str (text s) ≡ some s
  pub as_int-num : (n : ℕ) → V.as_int (num n) ≡ some n
