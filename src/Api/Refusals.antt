-- ===== src/Api/Refusals.antt =====
-- The exceptions that the client is to blame for, by the status that the handlers of `core/exceptions.py`
-- give them, and those of `decode_token`.
use civio.Base.{ℕ, ◌≡◌, ◌⊎◌, inl, inr, refl, Option, none, some, [], ◌∷◌, String, ◌<>◌}
use civio.Errors.Classes.{
  Details, Exn, raised, raised_with, authentication_error, validation_error, token_expired_error,
  invalid_token_error,
}
use civio.Errors.Handlers.{JsonResponse, Dispatcher, IsMroDispatcher, respond}
use civio.Errors.Laws.{respond_lem}
use civio.Errors.Outcome.{Outcome, ok, err, or_raise, ◌>>=◌}
use civio.Config.{Settings}
use civio.Platform.Jwt.{Claims, Jwt, Decoded, claims, expired, jwt_error, Validator}
use civio.Security.Tokens.{
  jwt_algorithm, whole_seconds, payload_of, field, token_type, validate_payload, decode_token,
}

module _ (D : Dispatcher) (M : IsMroDispatcher D) where
  -- The client is told that it is not authenticated, or that its request is not valid.
  abbrev pub IsRefusal : Exn → Type 0
  IsRefusal e =
      (r : JsonResponse) × (respond D e ≡ some r) × ((r.status_code ≡ 401) ⊎ (r.status_code ≡ 422))

  pub data IsOkOrRefused {A : Type 0} : Outcome A → Type 0 where
    returned : (a : A) → IsOkOrRefused (ok a)
    refused : {e : Exn} → IsRefusal e → IsOkOrRefused (err e)

  pub unauthenticated :
      (m : String) (ds : Details) → IsRefusal (raised_with authentication_error m ds)
  unauthenticated m ds = (_, respond_lem D M (raised_with authentication_error m ds), inl refl)

  pub unprocessable : (m : String) (ds : Details) → IsRefusal (raised_with validation_error m ds)
  unprocessable m ds = (_, respond_lem D M (raised_with validation_error m ds), inr refl)

  token_expired : (m : String) → IsRefusal (raised token_expired_error m)
  token_expired m = (_, respond_lem D M (raised token_expired_error m), inl refl)

  invalid_token : (m : String) → IsRefusal (raised invalid_token_error m)
  invalid_token m = (_, respond_lem D M (raised invalid_token_error m), inl refl)

  read-IsOkOrRefused :
      {A B : Type 0} (o : Option A) (m : String) (f : A → Outcome B)
      → ((a : A) → IsOkOrRefused (f a))
      → IsOkOrRefused (or_raise o (raised invalid_token_error m) >>= f)
  read-IsOkOrRefused none m f h = refused (invalid_token m)
  read-IsOkOrRefused (some a) m f h = h a

  validate_payload-IsOkOrRefused :
      (V : Validator) (raw : Claims) → IsOkOrRefused (validate_payload V raw)
  unfolding validate_payload
  validate_payload-IsOkOrRefused V raw =
      let note = "invalid token payload: " <> V.describe raw in
      read-IsOkOrRefused (field "sub" V.as_str raw) note _ (λ sub.
        read-IsOkOrRefused (field "type" token_type raw) note _ (λ type.
          read-IsOkOrRefused (field "iat" V.as_int raw) note _ (λ iat.
            read-IsOkOrRefused (field "exp" V.as_int raw) note _
              (λ exp. read-IsOkOrRefused (field "jti" V.as_str raw) note _ (λ jti. returned _)))))

  payload_of-IsOkOrRefused : (V : Validator) (d : Decoded) → IsOkOrRefused (payload_of V d)
  payload_of-IsOkOrRefused V (claims raw) = validate_payload-IsOkOrRefused V raw
  payload_of-IsOkOrRefused V expired = refused (token_expired "token expired")
  payload_of-IsOkOrRefused V (jwt_error m) = refused (invalid_token m)

  pub decode_token-IsOkOrRefused :
      {Token : Type 0} (J : Jwt Token) (V : Validator) (settings : Settings) (token : Token)
      (now : ℕ)
      → IsOkOrRefused (decode_token J V settings token now)
  unfolding decode_token
  decode_token-IsOkOrRefused J V settings token now =
      payload_of-IsOkOrRefused V
        (J.decode token settings.jwt_secret (jwt_algorithm ∷ []) (whole_seconds now))
