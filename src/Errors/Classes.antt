-- ===== src/Errors/Classes.antt =====
-- The hierarchy of `CivioException` (`core/exceptions.py`, `core/security.py`). A class attribute
-- is looked up along the method resolution order, as Python does.
use civio.Base.{ℕ, String, Text, Option, none, some, List, [], ◌∷◌}

-- The values that `details` and token claims hold; `chars` is a text that is kept by its code points.
pub data Value : Type 0 where
  text : String → Value
  chars : Text → Value
  num : ℕ → Value
  texts : List String → Value

abbrev pub Details : Type 0
Details = List (String × Value)

-- The classes derived from `CivioException`, itself included.
pub data ErrorClass : Type 0 where
  civio_exception authentication_error authorization_error not_found_error conflict_error :
      ErrorClass
  validation_error token_error token_expired_error invalid_token_error : ErrorClass

-- The bases of a class, itself first, up to `CivioException`.
unfoldable pub mro : ErrorClass → List ErrorClass
mro civio_exception = civio_exception ∷ []
mro authentication_error = authentication_error ∷ civio_exception ∷ []
mro authorization_error = authorization_error ∷ civio_exception ∷ []
mro not_found_error = not_found_error ∷ civio_exception ∷ []
mro conflict_error = conflict_error ∷ civio_exception ∷ []
mro validation_error = validation_error ∷ civio_exception ∷ []
mro token_error = token_error ∷ authentication_error ∷ civio_exception ∷ []
mro token_expired_error =
    token_expired_error ∷ token_error ∷ authentication_error ∷ civio_exception ∷ []
mro invalid_token_error =
    invalid_token_error ∷ token_error ∷ authentication_error ∷ civio_exception ∷ []

-- The attribute `code` that the body of a class sets, if it does.
unfoldable pub own_code : ErrorClass → Option String
own_code civio_exception = some "civio_error"
own_code authentication_error = some "authentication_error"
own_code authorization_error = some "authorization_error"
own_code not_found_error = some "not_found"
own_code conflict_error = some "conflict"
own_code validation_error = some "validation_error"
own_code token_error = none
own_code token_expired_error = some "token_expired"
own_code invalid_token_error = some "token_invalid"

-- The attribute `http_status` that the body of a class sets, if it does.
unfoldable pub own_status : ErrorClass → Option ℕ
own_status civio_exception = some 500
own_status authentication_error = some 401
own_status authorization_error = some 403
own_status not_found_error = some 404
own_status conflict_error = some 409
own_status validation_error = some 422
own_status token_error = none
own_status token_expired_error = none
own_status invalid_token_error = none

-- The first class of the order that sets the attribute decides; the default is never reached.
abbrev pub resolve {ℓ} : {A : Type ℓ} → A → (ErrorClass → Option A) → List ErrorClass → A
resolve d own [] = d
resolve d own (c ∷ cs) = elim (own c) [ some a ↦ a | none ↦ resolve d own cs ]

unfoldable pub code : ErrorClass → String
unfolding mro own_code
code c = resolve "" own_code (mro c)

unfoldable pub http_status : ErrorClass → ℕ
unfolding mro own_status
http_status c = resolve 0 own_status (mro c)

-- A raised `CivioException`: `details or {}` makes a missing dict the empty one.
pub record CivioError : Type 0 where
  pub cls : ErrorClass
  pub message : String
  pub details : Details

unfoldable pub civio_error : ErrorClass → String → Option Details → CivioError
civio_error c m none = record { cls = c; message = m; details = [] }
civio_error c m (some d) = record { cls = c; message = m; details = d }

-- Every exception that the modelled code lets out: a domain error, FastAPI's validation error with
-- its `errors()`, an `HTTPException` of the framework with its status and detail, or another Python
-- exception by the name of its class.
pub data Exn : Type 0 where
  domain : CivioError → Exn
  request_validation : List String → Exn
  http_exception : ℕ → String → Exn
  other : String → Exn

-- `raise C(message)` and `raise C(message, details=d)`.
abbrev pub raised : ErrorClass → String → Exn
raised c m = domain (record { cls = c; message = m; details = [] })

abbrev pub raised_with : ErrorClass → String → Details → Exn
raised_with c m d = domain (record { cls = c; message = m; details = d })
