-- ===== src/Security/Tokens/Laws.antt =====
-- What decoding makes of the tokens that the module issues: the claims while the token is valid,
-- `TokenExpiredError` afterwards, and no way to override a standard claim.
use civio.Base.{
  ℕ, ◌+◌, ◌*◌, ◌≤◌, ◌≡◌, refl, sym, inl, inr, Bool-cases, ◌↔◌, ◌∙◌, String, Bool, true, false,
  Option, none, some, [], ◌∷◌, any, arith, keep, not, ltb, eq_iff, if◌then◌else◌,
}
use civio.Base.Dict.{lookup, update, or_else, lookup-update}
use civio.Errors.Classes.{Value, text, other, raised, token_expired_error}
use civio.Errors.Outcome.{ok, err}
use civio.Platform.Jwt.{Claims, claims, expired, Jwt, Validator, IsStandard, IsLawful, IsExact}
use civio.Config.{Settings}
use civio.Security.Tokens.{
  TokenType, access, refresh, type_value, TokenPayload, is_reserved, jwt_algorithm, whole_seconds,
  names_reserved, standard_claims, token_type, field, payload_of, validate_payload, build_token,
  decode_token,
}

-- Extra claims that name no standard claim, and none that the library checks by itself.
pub record IsPlain (extra : Claims) : Type 0 where
  pub unreserved : any names_reserved extra ≡ false
  pub no_nbf : lookup "nbf" extra ≡ none
  pub no_aud : lookup "aud" extra ≡ none
  pub no_at_hash : lookup "at_hash" extra ≡ none

lookup_reserved :
    (k : String) (extra : Claims)
    → any names_reserved extra ≡ false
    → is_reserved k ≡ true
    → lookup k extra ≡ none
lookup_reserved k [] h r = refl
lookup_reserved k ((j, v) ∷ extra) h r =
    ground (arith, eq_iff k j, lookup_reserved k extra (ground arith) r)

lookup-keep :
    (k : String) (c : Claims)
    → is_reserved k ≡ false
    → lookup k (keep (λ e. not (names_reserved e)) c) ≡ lookup k c
lookup-keep k [] h = refl
lookup-keep k ((j, v) ∷ c) h = ground (arith, eq_iff k j, lookup-keep k c h)

-- The claims that a token is built from.
abbrev pub all_claims : String → TokenType → ℕ → ℕ → String → Claims → Claims
all_claims sub type now ttl jti extra = update (standard_claims sub type now ttl jti) extra

module _ (sub : String) (type : TokenType) (now ttl : ℕ) (jti : String) (extra : Claims)
    (plain : IsPlain extra) where
  lookup-all_claims :
      (k : String)
      → is_reserved k ≡ true
      → lookup k (all_claims sub type now ttl jti extra)
        ≡ lookup k (standard_claims sub type now ttl jti)
  lookup-all_claims k r = rw (lookup-update, lookup_reserved k extra plain.unreserved r)

  all_claims-IsStandard :
      IsStandard
        (all_claims sub type now ttl jti extra)
        sub
        jti
        (whole_seconds now)
        (whole_seconds (now + ttl * 1_000_000))
  unfolding is_reserved
  all_claims-IsStandard = record {
    has_sub = lookup-all_claims "sub" refl;
    has_jti = lookup-all_claims "jti" refl;
    has_iat = lookup-all_claims "iat" refl;
    has_exp = lookup-all_claims "exp" refl;
    no_nbf = rw (lookup-update, plain.no_nbf);
    no_aud = rw (lookup-update, plain.no_aud);
    no_at_hash = rw (lookup-update, plain.no_at_hash);
  }

-- What `model_validate` makes of the claims of a token.
abbrev pub issued_payload : String → TokenType → ℕ → ℕ → String → Claims → TokenPayload
issued_payload sub type now ttl jti extra = record {
  sub = sub;
  type = type;
  iat = whole_seconds now;
  exp = whole_seconds (now + ttl * 1_000_000);
  jti = jti;
  extra = keep (λ e. not (names_reserved e)) (all_claims sub type now ttl jti extra);
}

token_type-type_value : (type : TokenType) → token_type (text (type_value type)) ≡ some type
token_type-type_value access = refl
token_type-type_value refresh = refl

field-of_lookup {ℓ} :
    {A : Type ℓ} (k : String) (read : Value → Option A) (c : Claims) {v : Value} {a : A}
    → lookup k c ≡ some v
    → read v ≡ some a
    → field k read c ≡ some a
field-of_lookup k read c h r = rw (h, field) r

validate_payload-fields :
    (V : Validator) (raw : Claims) (p : TokenPayload)
    → field "sub" V.as_str raw ≡ some p.sub
    → field "type" token_type raw ≡ some p.type
    → field "iat" V.as_int raw ≡ some p.iat
    → field "exp" V.as_int raw ≡ some p.exp
    → field "jti" V.as_str raw ≡ some p.jti
    → p.extra ≡ keep (λ e. not (names_reserved e)) raw
    → validate_payload V raw ≡ ok p
unfolding validate_payload
validate_payload-fields V raw p s t i e j x = rw (s, t, i, e, j, ← x) refl

module _ (V : Validator) (E : IsExact V) (sub : String) (type : TokenType) (now ttl : ℕ)
    (jti : String) (extra : Claims) (plain : IsPlain extra) where
  validate_payload-all_claims :
      validate_payload V (all_claims sub type now ttl jti extra)
      ≡ ok (issued_payload sub type now ttl jti extra)
  unfolding is_reserved
  validate_payload-all_claims =
      validate_payload-fields V _ (issued_payload sub type now ttl jti extra)
        (field-of_lookup "sub" V.as_str raw (found "sub" refl) (E.as_str-text sub))
        (field-of_lookup "type" token_type raw (found "type" refl) (token_type-type_value type))
        (field-of_lookup "iat" V.as_int raw (found "iat" refl) (E.as_int-num _))
        (field-of_lookup "exp" V.as_int raw (found "exp" refl) (E.as_int-num _))
        (field-of_lookup "jti" V.as_str raw (found "jti" refl) (E.as_str-text jti)) refl
    where
      raw : Claims
      raw = all_claims sub type now ttl jti extra

      found :
          (k : String)
          → is_reserved k ≡ true
          → lookup k (all_claims sub type now ttl jti extra)
            ≡ lookup k (standard_claims sub type now ttl jti)
      found = lookup-all_claims sub type now ttl jti extra plain

-- `exp` is `iat` plus the time to live, in whole seconds.
whole_seconds-add : (now ttl : ℕ) → whole_seconds (now + ttl * 1_000_000) ≡ whole_seconds now + ttl
whole_seconds-add now ttl = omega arith

payload_of-if :
    (V : Validator) (late : Bool) (c : Claims)
    → payload_of V (if late then expired else claims c)
      ≡ (if late then err (raised token_expired_error "token expired") else validate_payload V c)
payload_of-if V true c = refl
payload_of-if V false c = refl

module _ {Token : Type 0} (J : Jwt Token) (LJ : IsLawful J) (V : Validator) (E : IsExact V)
    (settings : Settings) where
  -- Decoding the encoding of the claims of a token.
  pub decode_token-encode :
      (sub : String) (type : TokenType) (ttl : ℕ) (extra : Claims) (now : ℕ) (jti : String)
      (later : ℕ)
      → IsPlain extra
      → decode_token J V settings
          (J.encode (all_claims sub type now ttl jti extra) settings.jwt_secret jwt_algorithm)
          later
        ≡ (if ltb (whole_seconds now + ttl) (whole_seconds later)
            then err (raised token_expired_error "token expired")
            else ok (issued_payload sub type now ttl jti extra))
  unfolding decode_token
  decode_token-encode sub type ttl extra now jti later plain = rw (
    LJ.decode-encode (all_claims sub type now ttl jti extra) settings.jwt_secret jwt_algorithm sub
        jti _ _ (whole_seconds later) (all_claims-IsStandard sub type now ttl jti extra plain),
    payload_of-if,
    validate_payload-all_claims V E sub type now ttl jti extra plain,
    whole_seconds-add now ttl,
  )

  -- What decodes has not expired, and is what it was encoded from.
  pub decoded_claims :
      (sub : String) (type : TokenType) (ttl : ℕ) (extra : Claims) (now : ℕ) (jti : String)
      (later : ℕ) {payload : TokenPayload}
      → IsPlain extra
      → decode_token J V settings
          (J.encode (all_claims sub type now ttl jti extra) settings.jwt_secret jwt_algorithm)
          later
        ≡ ok payload
      → (payload ≡ issued_payload sub type now ttl jti extra)
        × (whole_seconds later ≤ whole_seconds now + ttl)
  decoded_claims sub type ttl extra now jti later plain h =
      let e = sym (decode_token-encode sub type ttl extra now jti later plain) ∙ h in
      elim (Bool-cases (ltb (whole_seconds now + ttl) (whole_seconds later))) [
        | inl late ↦ cc (rw late at e)
        | inr early ↦ (cc (rw early at e), ground (arith, early))
      ]

  -- A token that is built with plain extra claims decodes, under the same settings, to the claims that
  -- it was built from until the second after the one in which it expires, and to `TokenExpiredError`
  -- from then on. Its `exp` is its `iat` plus the time to live.
  pub decode_token-build_token :
      (sub : String) (type : TokenType) (ttl : ℕ) (extra : Claims) (now : ℕ) (jti : String)
      (later : ℕ)
      → IsPlain extra
      → (token : Token) × (build_token J settings sub type ttl extra now jti ≡ ok token)
        × (decode_token J V settings token later ≡ (
            if ltb (whole_seconds now + ttl) (whole_seconds later)
            then err (raised token_expired_error "token expired")
            else ok (issued_payload sub type now ttl jti extra)))
        × ((issued_payload sub type now ttl jti extra).exp
            ≡ (issued_payload sub type now ttl jti extra).iat + ttl)
  unfolding build_token
  decode_token-build_token sub type ttl extra now jti later plain = (
    J.encode (all_claims sub type now ttl jti extra) settings.jwt_secret jwt_algorithm,
    rw plain.unreserved,
    decode_token-encode sub type ttl extra now jti later plain,
    whole_seconds-add now ttl,
  )

lookup-standard_claims :
    (k sub : String) (type : TokenType) (now ttl : ℕ) (jti : String)
    → is_reserved k ≡ false
    → lookup k (standard_claims sub type now ttl jti) ≡ none
unfolding is_reserved
lookup-standard_claims k sub type now ttl jti free = ground arith

or_else-none : (o : Option Value) → or_else o none ≡ o
or_else-none none = refl
or_else-none (some v) = refl

-- Under every name that is not reserved, the payload of a token shows what the extra claims had there:
-- the value that was given, or nothing.
pub lookup-issued_payload :
    (k sub : String) (type : TokenType) (now ttl : ℕ) (jti : String) (extra : Claims)
    → is_reserved k ≡ false
    → lookup k (issued_payload sub type now ttl jti extra).extra ≡ lookup k extra
lookup-issued_payload k sub type now ttl jti extra free =
    lookup-keep k (all_claims sub type now ttl jti extra) free
    ∙ lookup-update k (standard_claims sub type now ttl jti) extra
    ∙ rw (lookup-standard_claims k sub type now ttl jti free) (or_else-none (lookup k extra))

-- A token is refused with a `ValueError` exactly when an extra claim has a reserved name.
pub build_token_refuses :
    {Token : Type 0} (J : Jwt Token) (settings : Settings) (sub : String) (type : TokenType)
    (ttl : ℕ) (extra : Claims) (now : ℕ) (jti : String)
    → (build_token J settings sub type ttl extra now jti ≡ err (other "ValueError"))
      ↔ (any names_reserved extra ≡ true)
unfolding build_token
build_token_refuses J settings sub type ttl extra now jti = ground arith
