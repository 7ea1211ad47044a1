-- ===== src/Errors/Handlers.antt =====
-- The exception handlers of `core/exceptions.py` and the table that `register_handlers` fills.
-- Which registered handler the framework picks is a parameter with its documented rule.
use civio.Base.{ℕ, ◌≡◌, String, Bool, true, false, Option, none, some, List, [], ◌∷◌, ◌++◌, map}
use civio.Base.{if◌then◌else◌, ◌==◌, str_eq}
use civio.Errors.Classes.{
  texts, Details, ErrorClass, Exn, domain, request_validation, http_exception, other, mro, code,
  http_status,
}

pub record Body : Type 0 where
  pub code : String
  pub message : String
  pub details : Details

-- What a response holds: the body of the application's errors, or the `detail` of the framework's.
pub data Content : Type 0 where
  error : Body → Content
  detail : String → Content

pub record JsonResponse : Type 0 where
  pub status_code : ℕ
  pub content : Content

-- `_payload`
unfoldable pub payload : String → String → Details → Content
payload c m d = error (record { code = c; message = m; details = d })

-- A handler; `none` is the failed `assert isinstance(exc, …)` of its first line.
unfoldable pub civio_exception_handler : Exn → Option JsonResponse
unfolding payload
civio_exception_handler (domain e) =
    some (record {
      status_code = http_status e.cls;
      content = payload (code e.cls) e.message e.details;
    })
civio_exception_handler (request_validation errors) = none
civio_exception_handler (http_exception status d) = none
civio_exception_handler (other n) = none

unfoldable pub request_validation_handler : Exn → Option JsonResponse
unfolding payload
request_validation_handler (domain e) = none
request_validation_handler (request_validation errors) = some (record {
  status_code = 422;
  content = payload "validation_error" "request validation failed" (("errors", texts errors) ∷ []);
})
request_validation_handler (http_exception status d) = none
request_validation_handler (other n) = none

unfoldable pub unhandled_exception_handler : Exn → Option JsonResponse
unfolding payload
unhandled_exception_handler e =
    some
      (record { status_code = 500; content = payload "internal_error" "internal server error" [] })

-- The classes by which handlers are registered and looked up.
pub data PyClass : Type 0 where
  civio_class : ErrorClass → PyClass
  request_validation_class : PyClass
  http_exception_class : PyClass
  other_class : String → PyClass
  exception_class : PyClass

pub data Handler : Type 0 where
  on_civio on_request_validation on_unhandled on_http_exception : Handler

unfoldable pub register_handlers : List (PyClass × Handler)
register_handlers =
    (civio_class ErrorClass.civio_exception, on_civio)
    ∷ (request_validation_class, on_request_validation)
    ∷ (exception_class, on_unhandled)
    ∷ []

-- The method resolution order of the class of a raised value, as far as handlers go by it.
unfoldable pub bases : Exn → List PyClass
unfolding mro
bases (domain e) = map civio_class (mro e.cls) ++ (exception_class ∷ [])
bases (request_validation errors) = request_validation_class ∷ exception_class ∷ []
bases (http_exception status d) = http_exception_class ∷ exception_class ∷ []
bases (other n) = other_class n ∷ exception_class ∷ []

abbrev rank : ErrorClass → ℕ
rank ErrorClass.civio_exception = 0
rank ErrorClass.authentication_error = 1
rank ErrorClass.authorization_error = 2
rank ErrorClass.not_found_error = 3
rank ErrorClass.conflict_error = 4
rank ErrorClass.validation_error = 5
rank ErrorClass.token_error = 6
rank ErrorClass.token_expired_error = 7
rank ErrorClass.invalid_token_error = 8

unfoldable pub same_class : PyClass → PyClass → Bool
same_class (civio_class c) (civio_class d) = rank c == rank d
same_class request_validation_class request_validation_class = true
same_class http_exception_class http_exception_class = true
same_class (other_class m) (other_class n) = str_eq m n
same_class exception_class exception_class = true
same_class _ _ = false

unfoldable pub registered : PyClass → List (PyClass × Handler) → Option Handler
unfolding same_class
registered c [] = none
registered c ((d, h) ∷ table) = if same_class c d then some h else registered c table

-- The framework's choice of a handler, from the table and the bases of the raised class, and the handler
-- that it brings itself.
pub record Dispatcher : Type 0 where
  pub find : List (PyClass × Handler) → List PyClass → Option Handler
  pub http_exception_handler : ℕ → String → JsonResponse

-- Documented: the handler of the first base that has one; and an `HTTPException` is answered with its
-- status and its detail.
pub record IsMroDispatcher (D : Dispatcher) : Type 0 where
  pub find-nil : (table : List (PyClass × Handler)) → D.find table [] ≡ none
  pub find-cons :
      (table : List (PyClass × Handler)) (c : PyClass) (cs : List PyClass)
      → D.find table (c ∷ cs)
        ≡ elim (registered c table) [ some h ↦ some h | none ↦ D.find table cs ]
  pub answers :
      (status : ℕ) (d : String)
      → D.http_exception_handler status d ≡ record { status_code = status; content = detail d }

-- The handlers of the application, which come before those that the framework has without it.
abbrev pub handlers : List (PyClass × Handler)
handlers = register_handlers ++ ((http_exception_class, on_http_exception) ∷ [])

abbrev on_http : Dispatcher → Exn → Option JsonResponse
on_http D (http_exception status d) = some (D.http_exception_handler status d)
on_http D _ = none

abbrev pub run_handler : Dispatcher → Handler → Exn → Option JsonResponse
run_handler D on_civio e = civio_exception_handler e
run_handler D on_request_validation e = request_validation_handler e
run_handler D on_unhandled e = unhandled_exception_handler e
run_handler D on_http_exception e = on_http D e

-- The response to a raised exception; `none` if no handler is found or its assertion fails.
unfoldable pub respond : Dispatcher → Exn → Option JsonResponse
unfolding register_handlers bases
respond D e = elim (D.find handlers (bases e)) [ some h ↦ run_handler D h e | none ↦ none ]
