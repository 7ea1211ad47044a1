-- ===== src/Platform/Orm.antt =====
-- A SQLAlchemy session on the rows of one model, with new and deleted instances: what
-- `repositories/base.py` uses. The laws are for a session in which nothing waits to be flushed, as it
-- is at the start and after each flush.
use civio.Base.{ℕ, ◌≡◌, Option, none, some, List, String, ◌==◌, if◌then◌else◌}
use civio.Errors.Classes.{Exn, other}
use civio.Errors.Outcome.{Outcome, ok, err}
use civio.Platform.Session.{Query, updated}

pub record Orm (Row : Type 0) : Type 1 where
  pub State : Type 0
  -- an instance that `add` has made known to the session
  pub Instance : Type 0
  pub get : State → ℕ → Option Row
  pub execute : State → Query Row → List Row
  pub add : State → Row → State × Instance
  -- the attributes of an instance; after a flush, the server's defaults are among them
  pub attributes : State → Instance → Row
  pub assign : State → ℕ → (Row → Row) → State
  pub remove : State → ℕ → State
  pub flush : State → Outcome State

pub record IsLawful {Row : Type 0} (O : Orm Row) (key : Row → ℕ) : Type 1 where
  pub IsClean : O.State → Type 0
  -- the second row has the attributes that are set in the first, and defaults for the others
  pub Completes : Row → Row → Type 0
  pub flush-IsClean : (s : O.State) {s' : O.State} → O.flush s ≡ ok s' → IsClean s'
  pub flush-other : (s : O.State) {e : Exn} → O.flush s ≡ err e → (name : String) × (e ≡ other name)
  -- an INSERT takes an identifier that no row has
  pub added :
      (s : O.State) (r : Row) {s' : O.State}
      → IsClean s
      → O.flush (O.add s r).0 ≡ ok s'
      → let r' = O.attributes s' (O.add s r).1 in
        Completes r r'
        × (O.get s (key r') ≡ none)
        × ((j : ℕ) → O.get s' j ≡ (if j == key r' then some r' else O.get s j))
  pub get-assign :
      (s : O.State) (i j : ℕ) (f : Row → Row)
      → O.get (O.assign s i f) j ≡ (if j == i then updated f (O.get s i) else O.get s j)
  -- assignments, which add and remove no row
  pub IsAssigned : O.State → Type 0
  pub clean-IsAssigned : (s : O.State) → IsClean s → IsAssigned s
  pub assign-IsAssigned :
      (s : O.State) (i : ℕ) (f : Row → Row)
      → ((r : Row) → key (f r) ≡ key r)
      → IsAssigned s
      → IsAssigned (O.assign s i f)
  pub get-flush :
      (s : O.State) (j : ℕ) {s' : O.State}
      → IsAssigned s
      → O.flush s ≡ ok s'
      → O.get s' j ≡ O.get s j
  pub removed :
      (s : O.State) (i j : ℕ) {s' : O.State}
      → IsClean s
      → O.flush (O.remove s i) ≡ ok s'
      → O.get s' j ≡ (if j == i then none else O.get s j)
