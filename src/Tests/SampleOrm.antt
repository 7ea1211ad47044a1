-- ===== src/Tests/SampleOrm.antt =====
-- A small session on the rows of `users`, which meets the laws that `BaseRepository` relies on.
use civio.Base.{
  ℕ, zero, suc, ◌≤◌, ◌≡◌, refl, ap, ◌∙◌, Bool, ◌&&◌, Option, none, some, List, [], ◌∷◌, All, length,
  arith, ◌==◌, inl, inr, ==_iff, Bool-cases, if◌then◌else◌,
}
use civio.Errors.Classes.{Exn, other}
use civio.Errors.Outcome.{Outcome, ok, err}
use civio.Models.User.{User, user_id}
use civio.Platform.Orm
use civio.Platform.Orm.{Orm}
use civio.Platform.Session.{Matches, updated}
use civio.Tests.Sample.{matches, matches-Matches}

pub data Waiting : Type 0 where
  nothing : Waiting
  adding : User → Waiting
  removing : ℕ → Waiting

-- The identifiers that have been in use, the row of each, and what the next flush does.
pub record Users : Type 0 where
  pub ids : List ℕ
  pub look : ℕ → Option User
  pub waiting : Waiting

abbrev take : ℕ → List User → List User
take zero us = []
take (suc n) [] = []
take (suc n) (u ∷ us) = u ∷ take n us

abbrev drop : ℕ → List User → List User
drop zero us = us
drop (suc n) [] = []
drop (suc n) (u ∷ us) = drop n us

abbrev limited : Option ℕ → List User → List User
limited none us = us
limited (some n) us = take n us

abbrev kept : List (User → Bool) → ℕ → Option User → List User → List User
kept ws i none us = us
kept ws i (some u) us = if u.id == i && matches ws u then u ∷ us else us

abbrev matching : (ℕ → Option User) → List (User → Bool) → List ℕ → List User
matching look ws [] = []
matching look ws (i ∷ is) = kept ws i (look i) (matching look ws is)

abbrev with_row : User → Users → Users
with_row r s = record {
  ids = r.id ∷ s.ids;
  look = λ j. if j == r.id then some r else s.look j;
  waiting = nothing;
}

abbrev inserted : User → Users → Option User → Outcome Users
inserted r s (some u) = err (other "IntegrityError")
inserted r s none = ok (with_row r s)

abbrev flush_as : Waiting → Users → Outcome Users
flush_as nothing s = ok (record s { waiting = nothing })
flush_as (adding r) s = inserted r s (s.look r.id)
flush_as (removing i) s =
    ok (record s { look = λ j. if j == i then none else s.look j; waiting = nothing })

abbrev pub user_orm : Orm User
user_orm = record {
  State = Users;
  Instance = User;
  get = λ s i. s.look i;
  execute = λ s q. limited q.limit (drop q.skip (matching s.look q.wheres s.ids));
  add = λ s r. (record s { waiting = adding r }, r);
  attributes = λ s r. r;
  assign = λ s i f. record s { look = λ j. if j == i then updated f (s.look i) else s.look j };
  remove = λ s i. record s { waiting = removing i };
  flush = λ s. flush_as s.waiting s;
}

inserted_clean :
    (r : User) (s : Users) (o : Option User) {s' : Users}
    → inserted r s o ≡ ok s'
    → s'.waiting ≡ nothing
inserted_clean r s (some u) h = cc
inserted_clean r s none h = cc

flush_clean : (w : Waiting) (s : Users) {s' : Users} → flush_as w s ≡ ok s' → s'.waiting ≡ nothing
flush_clean nothing s h = cc
flush_clean (adding r) s h = inserted_clean r s (s.look r.id) h
flush_clean (removing i) s h = cc

inserted_other :
    (r : User) (s : Users) (o : Option User) {e : Exn}
    → inserted r s o ≡ err e
    → (n : _) × (e ≡ other n)
inserted_other r s (some u) h = ("IntegrityError", cc)
inserted_other r s none h = cc

flush_other : (w : Waiting) (s : Users) {e : Exn} → flush_as w s ≡ err e → (n : _) × (e ≡ other n)
flush_other nothing s h = cc
flush_other (adding r) s h = inserted_other r s (s.look r.id) h
flush_other (removing i) s h = cc

inserted_added :
    (r : User) (s : Users) (o : Option User) {s' : Users}
    → s.look r.id ≡ o
    → inserted r s o ≡ ok s'
    → (r ≡ r)
      × (s.look r.id ≡ none)
      × ((j : ℕ) → s'.look j ≡ (if j == r.id then some r else s.look j))
inserted_added r s (some u) e h = cc
inserted_added r s none {s'} e h =
    let same : s' ≡ with_row r s = cc in (refl, e, λ j. ap (λ (x : Users). x.look j) same)

flush_look :
    (w : Waiting) (s : Users) (j : ℕ) {s' : Users}
    → w ≡ nothing
    → flush_as w s ≡ ok s'
    → s'.look j ≡ s.look j
flush_look nothing s j e h = cc
flush_look (adding r) s j e h = cc
flush_look (removing i) s j e h = cc

IsRow : Users → List (User → Bool) → User → Type 0
IsRow s ws u = Matches ws u × (s.look u.id ≡ some u)

kept-All :
    (s : Users) (ws : List (User → Bool)) (i : ℕ) (o : Option User) (us : List User)
    → s.look i ≡ o
    → All (IsRow s ws) us
    → All (IsRow s ws) (kept ws i o us)
unfolding IsRow
kept-All s ws i none us e all = all
kept-All s ws i (some u) us e all = elim (Bool-cases (u.id == i)) [
  | inr apart ↦ rw apart all
  | inl same ↦ elim (Bool-cases (matches ws u)) [
    | inl good ↦
        rw (same, good) ((matches-Matches ws u good, ap s.look ((==_iff u.id i).0 same) ∙ e), all)
    | inr bad ↦ rw (same, bad) all
  ]
]

matching-All :
    (s : Users) (ws : List (User → Bool)) (is : List ℕ) → All (IsRow s ws) (matching s.look ws is)
matching-All s ws [] = tt
matching-All s ws (i ∷ is) = kept-All s ws i (s.look i) _ refl (matching-All s ws is)

drop-All : (P : User → Type 0) (n : ℕ) (us : List User) → All P us → All P (drop n us)
drop-All P zero us all = all
drop-All P (suc n) [] all = all
drop-All P (suc n) (u ∷ us) all = drop-All P n us all.1

take-All : (P : User → Type 0) (n : ℕ) (us : List User) → All P us → All P (take n us)
take-All P zero us all = tt
take-All P (suc n) [] all = tt
take-All P (suc n) (u ∷ us) all = (all.0, take-All P n us all.1)

limited-All : (P : User → Type 0) (l : Option ℕ) (us : List User) → All P us → All P (limited l us)
limited-All P none us all = all
limited-All P (some n) us all = take-All P n us all

length-take : (n : ℕ) (us : List User) → length (take n us) ≤ n
length-take zero us = omega arith
length-take (suc n) [] = omega arith
length-take (suc n) (u ∷ us) = omega (arith, length-take n us)

pub user_orm-IsLawful : Orm.IsLawful user_orm user_id
unfolding IsRow
user_orm-IsLawful = record {
  IsClean = λ s. s.waiting ≡ nothing;
  Completes = λ r r'. r' ≡ r;
  flush-IsClean = λ s h. flush_clean s.waiting s h;
  flush-other = λ s h. flush_other s.waiting s h;
  added = λ s r clean h. inserted_added r s (s.look r.id) refl h;
  get-assign = λ s i j f. refl;
  IsAssigned = λ s. s.waiting ≡ nothing;
  clean-IsAssigned = λ s h. h;
  assign-IsAssigned = λ s i f keep h. h;
  get-flush = λ s j a h. flush_look s.waiting s j a h;
  removed = λ s i j clean h. cc;
}

pub settled-IsClean : (s : Users) → s.waiting ≡ nothing → user_orm-IsLawful.IsClean s
unfolding user_orm-IsLawful
settled-IsClean s h = h
