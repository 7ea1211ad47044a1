-- ===== src/Platform/Session.antt =====
-- The ORM session over the rows of one model, with the documented effects of its methods. A row stands
-- for the mapped instance: `get` and `execute` return the instance with the assignments made to it.
use civio.Base.{
  ℕ, String, ◌≡◌, Bool, true, Option, none, some, List, [], ◌∷◌, All, ◌==◌, if◌then◌else◌,
}
use civio.Errors.Classes.{Exn, other}
use civio.Errors.Outcome.{Outcome, ok, err}

-- A `SELECT`: the `WHERE` conditions, `OFFSET`, `LIMIT` and `ORDER BY`.
pub record Query (Row : Type 0) : Type 0 where
  pub wheres : List (Row → Bool)
  pub skip : ℕ
  pub limit : Option ℕ
  pub order_by : Option (Row → ℕ)

pub record Session (Row : Type 0) : Type 1 where
  pub Database : Type 0
  pub State : Type 0
  -- a session on the committed database, and the database that a rollback goes back to
  pub begin : Database → State
  pub base : State → Database
  pub get : State → ℕ → Option Row
  pub execute : State → Query Row → List Row
  -- attribute assignment on the instance with this identifier
  pub assign : State → ℕ → (Row → Row) → State
  pub flush : State → Outcome State
  pub commit : State → Outcome Database
  pub rollback : State → Database

abbrev pub updated {ℓ} : {A : Type ℓ} → (A → A) → Option A → Option A
updated f none = none
updated f (some a) = some (f a)

abbrev pub Matches : {Row : Type 0} → List (Row → Bool) → Row → Type 0
Matches [] r = Unit
Matches (w ∷ ws) r = (w r ≡ true) × Matches ws r

pub record IsLawful {Row : Type 0} (S : Session Row) (key : Row → ℕ) : Type 0 where
  pub get-key : (d : S.Database) (i : ℕ) {r : Row} → S.get (S.begin d) i ≡ some r → key r ≡ i
  pub get-assign :
      (s : S.State) (i j : ℕ) (f : Row → Row)
      → S.get (S.assign s i f) j ≡ (if j == i then updated f (S.get s i) else S.get s j)
  pub get-flush : (s : S.State) (j : ℕ) {s' : S.State} → S.flush s ≡ ok s' → S.get s' j ≡ S.get s j
  -- in a fresh session each row that a statement returns meets its conditions and is the instance
  -- that `get` returns for its identifier
  pub execute-sound :
      (d : S.Database) (q : Query Row)
      → All
          (λ r. Matches q.wheres r × (S.get (S.begin d) (key r) ≡ some r))
          (S.execute (S.begin d) q)
  -- what the database refuses is raised as an exception of the library
  pub flush-other : (s : S.State) {e : Exn} → S.flush s ≡ err e → (name : String) × (e ≡ other name)
  pub base-begin : (d : S.Database) → S.base (S.begin d) ≡ d
  pub base-assign : (s : S.State) (i : ℕ) (f : Row → Row) → S.base (S.assign s i f) ≡ S.base s
  pub base-flush : (s : S.State) {s' : S.State} → S.flush s ≡ ok s' → S.base s' ≡ S.base s
  pub rollback-base : (s : S.State) → S.rollback s ≡ S.base s
