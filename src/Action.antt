-- ===== src/Action.antt =====
-- A method with effects: it takes the state, and returns how it ended and the state that it left,
-- which stays as it was written when an exception is raised.
use civio.Base.{Option, none, some}
use civio.Errors.Classes.{Exn}
use civio.Errors.Outcome.{Outcome, ok, err}

abbrev pub Action : Type 0 → Type 0 → Type 0
Action W A = W → Outcome A × W

-- What follows a step, for how the step ended.
abbrev pub proceed : {W A B : Type 0} → (A → Action W B) → Outcome A × W → Outcome B × W
proceed f (ok a, w) = f a w
proceed f (err e, w) = (err e, w)

infixl 5 ◌>>=◌ ◌>>◌
abbrev pub ◌>>=◌ : {W A B : Type 0} → Action W A → (A → Action W B) → Action W B
◌>>=◌ m f w = proceed f (m w)

abbrev pub ◌>>◌ : {W A B : Type 0} → Action W A → Action W B → Action W B
m >> k = m >>= λ _. k

module _ {W A : Type 0} where
  abbrev pub pure : A → Action W A
  pure a w = (ok a, w)

  abbrev pub throw : Exn → Action W A
  throw e w = (err e, w)

  abbrev pub gets : (W → A) → Action W A
  gets f w = (ok (f w), w)

  -- a fallible computation without effects
  abbrev pub lift : Outcome A → Action W A
  lift r w = (r, w)

  abbrev pub or_throw : Option A → Exn → Action W A
  or_throw none e = throw e
  or_throw (some a) e = pure a

abbrev pub modify : {W : Type 0} → (W → W) → Action W (Unit {0})
modify f w = (ok tt, f w)
