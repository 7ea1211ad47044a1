-- ===== src/Tests/Edits.antt =====
-- The version trigger on concrete operations.
use civio.Base.{ℕ, ◌≡◌, ◌↔◌, refl, ◌+◌, some, none, List, [], ◌∷◌, str_eq, arith, if◌then◌else◌}
use civio.Errors.Classes.{other}
use civio.Errors.Outcome.{Outcome, ok, err}
use civio.Schema.Entities.{Entity, user, unit, task, friend_mapping}
use civio.Schema.Versions.{
  Row, Change, inserted, changed, deleted, Versions, after_change, after_changes, count,
  after_changes-count, after_change_moved, after_change_refused,
}

abbrev row_in : ℕ → Row
row_in community k = if str_eq k "community_id" then some community else none

abbrev edits : List (Entity × Change)
edits =
    (user, inserted (row_in 3))
    ∷ (unit, changed (row_in 3) (row_in 4))
    ∷ (task, deleted (row_in 3))
    ∷ (unit, deleted (row_in 3))
    ∷ []

abbrev tenth : Versions
tenth i = 10

abbrev result_of : Outcome Versions → Versions
result_of (ok v) = v
result_of (err e) = tenth

edits-ok : after_changes edits tenth ≡ ok (result_of (after_changes edits tenth))
unfolding after_changes
edits-ok = refl

after_changes-count_example : result_of (after_changes edits tenth) 3 ≡ 10 + count 3 edits
after_changes-count_example =
    after_changes-count edits tenth 3 (refl, (refl, (refl, (refl, tt)))) edits-ok

move-ok :
    after_change unit (changed (row_in 3) (row_in 4)) tenth
    ≡ ok (result_of (after_change unit (changed (row_in 3) (row_in 4)) tenth))
unfolding after_change
move-ok = refl

after_change_moved_example :
    (result_of (after_change unit (changed (row_in 3) (row_in 4)) tenth) 3 ≡ 10)
    × (result_of (after_change unit (changed (row_in 3) (row_in 4)) tenth) 4 ≡ 10 + 1)
after_change_moved_example =
    after_change_moved unit (row_in 3) (row_in 4) 3 4 tenth refl refl refl (λ e. omega (arith, e))
      move-ok

after_change_refused_example :
    (after_change friend_mapping (inserted (row_in 3)) tenth ≡ err (other "UndefinedColumnError"))
    ↔ (friend_mapping ≡ friend_mapping)
after_change_refused_example = after_change_refused friend_mapping (inserted (row_in 3)) tenth refl
