-- ===== src/Schema/Versions.antt =====
-- The trigger `tg_bump_community_version` of the initial migration, on the tables that it is attached to.
use civio.Base.{
  subst, ℕ, ◌+◌, ◌≡◌, ◌≢◌, refl, ◌↔◌, sym, ap, ◌∙◌, String, str_eq, Bool, true, false, ◌&&◌, Option,
  none, some, List, [], ◌∷◌, map, any, All, not, ◌||◌, ◌==◌, if◌then◌else◌, arith,
}
use civio.Errors.Classes.{other}
use civio.Errors.Outcome.{Outcome, ok, err, ◌>>=◌}
use civio.Schema.Ddl.{Column, Table}
use civio.Schema.Entities.{Entity, friend_mapping, user, unit, sip_endpoint, created}

-- The identifiers in the columns of a row; `none` is NULL.
abbrev pub Row : Type 0
Row = String → Option ℕ

-- `tg_set_updated_at`, before an UPDATE: the new row that is stored, with `NOW()` in `updated_at`
abbrev pub tg_set_updated_at : ℕ → Row → Row
tg_set_updated_at now new k = if str_eq k "updated_at" then some now else new k

-- A row-level operation: an INSERT of a row, an UPDATE from a row to a row, a DELETE of a row.
pub data Change : Type 0 where
  inserted : Row → Change
  changed : Row → Row → Change
  deleted : Row → Change

-- `NEW` and `OLD`, which are null where the operation has none.
abbrev new_row : Change → Option Row
new_row (inserted r) = some r
new_row (changed old new) = some new
new_row (deleted r) = none

abbrev old_row : Change → Option Row
old_row (inserted r) = none
old_row (changed old new) = some old
old_row (deleted r) = some r

abbrev value : String → Option Row → Option ℕ
value k none = none
value k (some r) = r k

abbrev coalesce : Option ℕ → Option ℕ → Option ℕ
coalesce (some a) o = some a
coalesce none o = o

-- `current_version` of each community
abbrev pub Versions : Type 0
Versions = ℕ → ℕ

-- `UPDATE communities … WHERE id = cid`, which meets no row for NULL
abbrev incremented : Option ℕ → Versions → Versions
incremented none v = v
incremented (some cid) v = λ i. if i == cid then v i + 1 else v i

-- `cid`
abbrev pub owner_of : Change → Option ℕ
owner_of c = coalesce (value "community_id" (new_row c)) (value "community_id" (old_row c))

-- The function, on a table with these columns; a record without the field makes an error.
unfoldable pub tg_bump_community_version : List String → Change → Versions → Outcome Versions
tg_bump_community_version columns c v =
    if any (str_eq "community_id") columns
    then ok (incremented (owner_of c) v)
    else err (other "UndefinedColumnError")

abbrev pub versioned_tables : List String
versioned_tables = "users" ∷ "units" ∷ "sip_endpoints" ∷ "friend_mappings" ∷ []

abbrev pub is_versioned : Entity → Bool
is_versioned e = any (str_eq (created e).name) versioned_tables

abbrev column_names : Table → List String
column_names t = map (λ (c : Column). c.name) t.columns

abbrev pub is_communities : Entity → Bool
is_communities e = str_eq (created e).name "communities"

-- A row of `communities` that is stored has its own version.
abbrev set_version : Option ℕ → Option ℕ → Versions → Versions
set_version (some i) (some n) v = λ j. if j == i then n else v j
set_version _ _ v = v

abbrev stored_version : Change → Versions → Versions
stored_version c = set_version (value "id" (new_row c)) (value "current_version" (new_row c))

-- What the versions are after an operation on a row of the table of an entity.
unfoldable pub after_change : Entity → Change → Versions → Outcome Versions
unfolding tg_bump_community_version
after_change e c v =
    if is_versioned e
    then tg_bump_community_version (column_names (created e)) c v
    else if is_communities e
    then ok (stored_version c v)
    else ok v

-- The operations of a transaction, one after the other.
unfoldable pub after_changes : List (Entity × Change) → Versions → Outcome Versions
unfolding after_change
after_changes [] v = ok v
after_changes ((e, c) ∷ cs) v = after_change e c v >>= after_changes cs

abbrev is_owner : ℕ → Option ℕ → Bool
is_owner i none = false
is_owner i (some cid) = i == cid

abbrev belongs_after : ℕ → Option ℕ → Option ℕ → Bool
belongs_after i (some cid) before = i == cid
belongs_after i none before = is_owner i before

-- Whether the row of an operation belongs to a community: the row that it leaves, or the one that it
-- deletes. An update to NULL counts for the row before.
abbrev pub belongs : ℕ → Change → Bool
belongs i (inserted r) = is_owner i (r "community_id")
belongs i (changed old new) = belongs_after i (new "community_id") (old "community_id")
belongs i (deleted r) = is_owner i (r "community_id")

is_owner-owner_of : (i : ℕ) (c : Change) → is_owner i (owner_of c) ≡ belongs i c
is_owner-owner_of i (inserted r) = coalesced (r "community_id")
  where
    coalesced : (o : Option ℕ) → is_owner i (coalesce o none) ≡ is_owner i o
    coalesced none = refl
    coalesced (some cid) = refl
is_owner-owner_of i (changed old new) = coalesced (new "community_id")
  where
    coalesced :
        (o : Option ℕ)
        → is_owner i (coalesce o (old "community_id")) ≡ belongs_after i o (old "community_id")
    coalesced none = refl
    coalesced (some cid) = refl
is_owner-owner_of i (deleted r) = refl

-- The number of operations on versioned tables whose row belongs to a community.
abbrev pub count : ℕ → List (Entity × Change) → ℕ
count i [] = 0
count i ((e, c) ∷ cs) = (if is_versioned e && belongs i c then 1 else 0) + count i cs

incremented_lem :
    (o : Option ℕ) (v : Versions) (i : ℕ)
    → incremented o v i ≡ v i + (if is_owner i o then 1 else 0)
incremented_lem none v i = omega arith
incremented_lem (some cid) v i = ground arith

-- One operation, for a table that is versioned or not and has the column or not.
bumped_lem :
    (versioned written known : Bool) (o : Option ℕ) (v w : Versions) (i : ℕ) {v' : Versions}
    → (versioned || not written) ≡ true
    → (if versioned
        then (if known then ok (incremented o v) else err (other "UndefinedColumnError"))
        else if written
        then ok w
        else ok v)
      ≡ ok v'
    → v' i ≡ v i + (if versioned && is_owner i o then 1 else 0)
bumped_lem true written true o v w i {v'} p h =
    let e : incremented o v ≡ v' = cc in ap (λ (f : Versions). f i) (sym e) ∙ incremented_lem o v i
bumped_lem true written false o v w i p h = cc
bumped_lem false true known o v w i p h = cc
bumped_lem false false known o v w i {v'} p h =
    let e : v ≡ v' = cc in ap (λ (f : Versions). f i) (sym e) ∙ omega arith

after_change_lem :
    (e : Entity) (c : Change) (v : Versions) (i : ℕ) {v' : Versions}
    → (is_versioned e || not (is_communities e)) ≡ true
    → after_change e c v ≡ ok v'
    → v' i ≡ v i + (if is_versioned e && belongs i c then 1 else 0)
unfolding after_change
after_change_lem e c v i {v'} p h =
    subst (λ b. v' i ≡ v i + (if is_versioned e && b then 1 else 0)) (is_owner-owner_of i c)
      (bumped_lem (is_versioned e) (is_communities e)
        (any (str_eq "community_id") (column_names (created e))) (owner_of c) v (stored_version c v)
        i p h)

unwritten : (a b : Bool) → b ≡ false → (a || not b) ≡ true
unwritten true b h = refl
unwritten false b h = rw h refl

-- When the operations of a transaction go through, none of them on a row of `communities` itself, the version
-- of every community has grown by the number of those on the four tables that the trigger is attached to
-- whose row belongs to it: the new row, or the old one where it was deleted. Others count for nothing.
pub after_changes-count :
    (cs : List (Entity × Change)) (v : Versions) (i : ℕ) {v' : Versions}
    → All (λ x. is_communities x.0 ≡ false) cs
    → after_changes cs v ≡ ok v'
    → v' i ≡ v i + count i cs
unfolding after_changes
after_changes-count [] v i {v'} apart h =
    let e : v ≡ v' = cc in ap (λ (f : Versions). f i) (sym e) ∙ omega arith
after_changes-count ((e, c) ∷ cs) v i (here, rest) h =
    first_change (after_change e c v) refl h (λ w k. after_changes-count cs w i rest k)
  where
    first_change :
        {v' : Versions} (o : Outcome Versions)
        → after_change e c v ≡ o
        → (o >>= after_changes cs) ≡ ok v'
        → ((w : Versions) → after_changes cs w ≡ ok v' → v' i ≡ w i + count i cs)
        → v' i ≡ v i + count i ((e, c) ∷ cs)
    first_change (err x) step h more = cc
    first_change (ok w) step h more = omega (
      arith,
      after_change_lem e c v i (unwritten (is_versioned e) (is_communities e) here) step,
      more w h,
    )

other_owner :
    (b : Bool) (o before : Option ℕ) (n i to : ℕ)
    → o ≡ some to
    → i ≢ to
    → n + (if b && belongs_after i o before then 1 else 0) ≡ n
other_owner b none before n i to h apart = cc
other_owner true (some cid) before n i to h apart = ground (arith, h, apart)
other_owner false (some cid) before n i to h apart = omega arith

same_owner :
    (b : Bool) (o before : Option ℕ) (n to : ℕ)
    → b ≡ true
    → o ≡ some to
    → n + (if b && belongs_after to o before then 1 else 0) ≡ n + 1
same_owner b none before n to e h = cc
same_owner true (some cid) before n to e h = ground (arith, h)
same_owner false (some cid) before n to e h = cc

-- A row that is moved by an update leaves the version of the community that it was in as it was, and
-- adds one to that of the community that it is in then.
pub after_change_moved :
    (e : Entity) (old new : Row) (from to : ℕ) (v : Versions) {v' : Versions}
    → is_versioned e ≡ true
    → old "community_id" ≡ some from
    → new "community_id" ≡ some to
    → from ≢ to
    → after_change e (changed old new) v ≡ ok v'
    → (v' from ≡ v from) × (v' to ≡ v to + 1)
after_change_moved e old new from to v versioned was is apart h = (
  after_change_lem e (changed old new) v from (rw versioned refl) h
      ∙ other_owner (is_versioned e) (new "community_id") (old "community_id") (v from) from to is
          apart,
  after_change_lem e (changed old new) v to (rw versioned refl) h
      ∙ same_owner (is_versioned e) (new "community_id") (old "community_id") (v to) to versioned
          is,
)

-- Each operation on a table that is versioned is refused exactly when the table is `friend_mappings`, which
-- has no column for its community.
pub after_change_refused :
    (e : Entity) (c : Change) (v : Versions)
    → is_versioned e ≡ true
    → (after_change e c v ≡ err (other "UndefinedColumnError")) ↔ (e ≡ friend_mapping)
unfolding after_change
after_change_refused friend_mapping c v h = (λ x. refl, λ x. refl)
after_change_refused user c v h = (λ x. cc, λ x. cc)
after_change_refused unit c v h = (λ x. cc, λ x. cc)
after_change_refused sip_endpoint c v h = (λ x. cc, λ x. cc)
after_change_refused _ c v h = cc
