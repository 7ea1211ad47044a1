-- ===== src/Errors/Outcome.antt =====
-- Fallible code without state: the exception that was raised, or a value.
use civio.Base.{◌≡◌, refl, ◌⊎◌, inl, inr, Bool, true, false, Option, none, some}
use civio.Errors.Classes.{Exn}

pub data Outcome {ℓ} (Value : Type ℓ) : Type ℓ where
  err : (raised : Exn) → Outcome Value
  ok : (value : Value) → Outcome Value

module _ {ℓ κ} {Value : Type ℓ} {Next : Type κ} where
  infixl 5 ◌>>=◌
  abbrev pub ◌>>=◌ : Outcome Value → (Value → Outcome Next) → Outcome Next
  err raised >>= next = err raised
  ok value >>= next = next value

module _ {κ} {Next : Type κ} where
  infixl 5 ◌>>◌
  abbrev pub ◌>>◌ : Outcome (Unit {0}) → Outcome Next → Outcome Next
  err raised >> next = err raised
  ok done >> next = next

abbrev pub raise_if : Bool → Exn → Outcome (Unit {0})
raise_if false raised = ok tt
raise_if true raised = err raised

-- The value, or the exception when there is none.
abbrev pub or_raise {ℓ} : {Value : Type ℓ} → Option Value → Exn → Outcome Value
or_raise (some value) raised = ok value
or_raise none raised = err raised

pub Outcome-cases {ℓ} :
    {Value : Type ℓ} (o : Outcome Value)
    → ((x : Exn) × (o ≡ err x)) ⊎ ((value : Value) × (o ≡ ok value))
Outcome-cases (err x) = inl (x, refl)
Outcome-cases (ok value) = inr (value, refl)
