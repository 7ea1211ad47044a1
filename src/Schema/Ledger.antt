-- ===== src/Schema/Ledger.antt =====
-- The table `token_ledger` of the initial migration, with its check, its unique keys and its triggers.
-- A table is a list with the newest row first; the community and the user that a new row names are
-- taken to exist.
use mathlib.Core.Int.{ℤ}
use mathlib.Core.List.{append_assoc}
use civio.Base.{
  sym, ap, ◌∙◌, ℕ, ◌≡◌, refl, String, str_eq, Bool, true, false, ◌||◌, Option, none, some, List, [],
  ◌∷◌, ◌++◌, any, not, ◌==◌, if◌then◌else◌, inl, inr, Bool-cases,
}
use civio.Errors.Classes.{other}
use civio.Errors.Outcome.{Outcome, ok, err}
use civio.Models.Enums.Calls.{TokenScope, community, user}

-- A row; amounts are in units of 0.0001.
pub record LedgerRow : Type 0 where
  pub id : ℕ
  pub scope : TokenScope
  pub community_id : ℕ
  pub user_id : Option ℕ
  pub delta : ℤ
  pub balance_after : ℤ
  pub reason : String
  pub external_ref : Option String
  pub idempotency_key : Option String
  pub created_at : ℕ

-- `ck_scope_owner`
abbrev pub ck_scope_owner : TokenScope → Option ℕ → Bool
ck_scope_owner community none = true
ck_scope_owner community (some u) = false
ck_scope_owner user none = false
ck_scope_owner user (some u) = true

-- Equal keys; a NULL is equal to nothing.
abbrev same_key : Option String → Option String → Bool
same_key (some a) (some b) = str_eq a b
same_key _ _ = false

-- A row of the table has the identifier or the idempotency key of the new one.
abbrev pub taken : LedgerRow → List LedgerRow → Bool
taken e t = any (λ x. (x.id == e.id) || same_key x.idempotency_key e.idempotency_key) t

pub data Statement : Type 0 where
  insert : LedgerRow → Statement
  update : (LedgerRow → Bool) → (LedgerRow → LedgerRow) → Statement
  delete : (LedgerRow → Bool) → Statement
  truncate : Statement

-- `forbid_ledger_mutation`, before each row of an UPDATE or a DELETE
unfoldable pub forbid_ledger_mutation :
    (LedgerRow → Bool) → List LedgerRow → Outcome (List LedgerRow)
forbid_ledger_mutation where_clause t =
    if any where_clause t then err (other "token_ledger is append-only") else ok t

-- `TRUNCATE` fires neither of the row triggers.
unfoldable pub execute : Statement → List LedgerRow → Outcome (List LedgerRow)
unfolding forbid_ledger_mutation
execute (insert e) t =
    if not (ck_scope_owner e.scope e.user_id)
    then err (other "CheckViolation")
    else if taken e t
    then err (other "UniqueViolation")
    else ok (e ∷ t)
execute (update where_clause set_clause) t = forbid_ledger_mutation where_clause t
execute (delete where_clause) t = forbid_ledger_mutation where_clause t
execute truncate t = ok []

-- A statement that is refused leaves the table as it was.
abbrev pub committed_or : List LedgerRow → Outcome (List LedgerRow) → List LedgerRow
committed_or t (ok t') = t'
committed_or t (err e) = t

unfoldable pub after_statements : List Statement → List LedgerRow → List LedgerRow
unfolding execute
after_statements [] t = t
after_statements (st ∷ sts) t = after_statements sts (committed_or t (execute st t))

-- Every row meets the check, and no two share an identifier or an idempotency key.
abbrev pub IsValid : List LedgerRow → Type 0
IsValid [] = Unit {0}
IsValid (e ∷ t) = (ck_scope_owner e.scope e.user_id ≡ true) × (taken e t ≡ false) × IsValid t

-- The rows of a table are the last rows of the other.
abbrev pub IsExtendedTo : List LedgerRow → List LedgerRow → Type 0
IsExtendedTo t t' = (new : List LedgerRow) × (t' ≡ new ++ t)

abbrev pub is_truncate : Statement → Bool
is_truncate truncate = true
is_truncate _ = false

-- Every row stays in its place, unless the table was truncated.
abbrev pub IsKept : Bool → List LedgerRow → List LedgerRow → Type 0
IsKept true t t' = Unit {0}
IsKept false t t' = IsExtendedTo t t'

execute-IsKept :
    (st : Statement) (t : List LedgerRow)
    → IsValid t
    → IsValid (committed_or t (execute st t))
      × IsKept (is_truncate st) t (committed_or t (execute st t))
unfolding execute
execute-IsKept (insert e) t v = elim (Bool-cases (ck_scope_owner e.scope e.user_id)) [
  | inr bad ↦ rw bad (v, ([], refl))
  | inl good ↦ elim (Bool-cases (taken e t)) [
    | inl old ↦ rw (good, old) (v, ([], refl))
    | inr free ↦ rw (good, free) ((good, free, v), (e ∷ [], refl))
  ]
]
execute-IsKept (update w f) t v = elim (Bool-cases (any w t)) [
  | inl hit ↦ rw hit (v, ([], refl))
  | inr miss ↦ rw miss (v, ([], refl))
]
execute-IsKept (delete w) t v = elim (Bool-cases (any w t)) [
  | inl hit ↦ rw hit (v, ([], refl))
  | inr miss ↦ rw miss (v, ([], refl))
]
execute-IsKept truncate t v = (tt, tt)

IsKept-trans :
    (a b : Bool) (t t' t'' : List LedgerRow)
    → IsKept a t t'
    → IsKept b t' t''
    → IsKept (a || b) t t''
IsKept-trans true b t t' t'' k k' = tt
IsKept-trans false true t t' t'' k k' = tt
IsKept-trans false false t t' t'' (new, e) (newer, e') =
    (newer ++ new, e' ∙ ap (λ x. newer ++ x) e ∙ sym (append_assoc newer new t))

-- Whatever INSERT, UPDATE, DELETE and TRUNCATE statements are executed, each of them refused or not: if the
-- rows met their check and their unique keys, they all do; and if no statement is a TRUNCATE, every row that
-- was in the ledger stays in it, unchanged and in its place.
pub after_statements-IsValid :
    (sts : List Statement) (t : List LedgerRow)
    → IsValid t
    → IsValid (after_statements sts t) × IsKept (any is_truncate sts) t (after_statements sts t)
unfolding after_statements
after_statements-IsValid [] t v = (v, ([], refl))
after_statements-IsValid (st ∷ sts) t v =
    let (valid, more) = execute-IsKept st t v in
    let (valid', more') = after_statements-IsValid sts (committed_or t (execute st t)) valid in
    (valid', IsKept-trans (is_truncate st) (any is_truncate sts) t _ _ more more')

abbrev named : ℕ → Option ℕ → Bool
named u none = false
named u (some v) = v == u

abbrev names : ℕ → LedgerRow → Bool
names u e = named u e.user_id

-- `ForeignKeyConstraint(["user_id"], ["users.id"], ondelete="SET NULL")`: what this foreign
-- key executes on the ledger when a user is deleted
unfoldable pub set_user_null : ℕ → List LedgerRow → Outcome (List LedgerRow)
unfolding execute
set_user_null u t = execute (update (names u) (λ e. record e { user_id = none })) t
