-- ===== src/Errors/Laws.antt =====
-- What a client sees of an exception, whichever handler is picked.
use civio.Base.{ℕ, String, ap, ◌≡◌, refl, Option, none, some, List, [], ◌∷◌, ◌++◌, map, arith}
use civio.Errors.Classes.{
  texts, Exn, domain, request_validation, http_exception, other, code, http_status,
}
use civio.Errors.Classes.{ErrorClass, mro, own_code, own_status}
use civio.Errors.Handlers.{
  JsonResponse, PyClass, civio_class, Handler, on_civio, Dispatcher, IsMroDispatcher, registered,
  register_handlers, handlers, error, detail, civio_exception_handler, request_validation_handler,
  unhandled_exception_handler, respond, payload,
}

-- The status and the code that the contract has for each class.
abbrev pub contract : ErrorClass → ℕ × String
contract ErrorClass.civio_exception = (500, "civio_error")
contract ErrorClass.authentication_error = (401, "authentication_error")
contract ErrorClass.authorization_error = (403, "authorization_error")
contract ErrorClass.not_found_error = (404, "not_found")
contract ErrorClass.conflict_error = (409, "conflict")
contract ErrorClass.validation_error = (422, "validation_error")
contract ErrorClass.token_error = (401, "authentication_error")
contract ErrorClass.token_expired_error = (401, "token_expired")
contract ErrorClass.invalid_token_error = (401, "token_invalid")

-- The response that the contract promises for an exception.
abbrev pub promised : Exn → JsonResponse
promised (domain e) = record {
  status_code = (contract e.cls).0;
  content = error (record { code = (contract e.cls).1; message = e.message; details = e.details });
}
promised (request_validation errors) = record {
  status_code = 422;
  content = error (record {
    code = "validation_error";
    message = "request validation failed";
    details = ("errors", texts errors) ∷ [];
  });
}
promised (http_exception status d) = record { status_code = status; content = detail d }
promised (other n) = record {
  status_code = 500;
  content =
      error (record { code = "internal_error"; message = "internal server error"; details = [] });
}

contract_lem : (c : ErrorClass) → (http_status c, code c) ≡ contract c
unfolding http_status code mro own_status own_code
contract_lem ErrorClass.civio_exception = refl
contract_lem _ = refl

-- The handler of the first base that has one, as a plain recursion.
abbrev pub first_registered : List (PyClass × Handler) → List PyClass → Option Handler
first_registered table [] = none
first_registered table (c ∷ cs) = elim (registered c table) [
  | some h ↦ some h
  | none ↦ first_registered table cs
]

-- Each class of the hierarchy reaches `CivioException`, and with it its handler.
first_registered-mro :
    (c : ErrorClass) (rest : List PyClass)
    → first_registered handlers (map civio_class (mro c) ++ rest) ≡ some on_civio
unfolding registered register_handlers mro
first_registered-mro ErrorClass.civio_exception rest = refl
first_registered-mro _ rest = refl

module _ (D : Dispatcher) (L : IsMroDispatcher D) where
  find-eq-first_registered :
      (table : List (PyClass × Handler)) (cs : List PyClass)
      → D.find table cs ≡ first_registered table cs
  find-eq-first_registered table [] = L.find-nil table
  find-eq-first_registered table (c ∷ cs) =
      ground (arith, L.find-cons table c cs, find-eq-first_registered table cs)

  pub respond_lem : (e : Exn) → respond D e ≡ some (promised e)
  unfolding respond registered civio_exception_handler request_validation_handler
      unhandled_exception_handler payload
  respond_lem (domain e) =
      rw (find-eq-first_registered, respond, first_registered-mro e.cls)
        (ap
          (λ (x : ℕ × String). some (record {
            status_code = x.0;
            content = error (record { code = x.1; message = e.message; details = e.details });
          }))
          (contract_lem e.cls))
  respond_lem (request_validation errors) = rw (find-eq-first_registered, respond) refl
  respond_lem (http_exception status d) =
      rw (find-eq-first_registered, respond, L.answers status d) refl
  respond_lem (other n) = rw (find-eq-first_registered, respond) refl
