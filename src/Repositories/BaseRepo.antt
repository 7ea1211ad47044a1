-- ===== src/Repositories/BaseRepo.antt =====
-- `repositories/base.py`: the methods of `BaseRepository`, on the rows of one model. The keyword
-- arguments of `list` are conditions, those of `update` assignments, and those of `create` the row
-- that they make.
use civio.Base.{ℕ, Bool, Option, none, some, List, [], ◌∷◌, ◌++◌, String, ◌<>◌}
use civio.Errors.Classes.{text, raised_with, not_found_error}
use civio.Errors.Outcome.{Outcome, ok, err}
use civio.Action.{Action, ◌>>=◌, ◌>>◌, pure, throw, gets, modify}
use civio.Platform.Session.{Query}
use civio.Platform.Orm.{Orm}

-- `stmt.where(…)` for each filter
abbrev pub where_all : {Row : Type 0} → List (Row → Bool) → Query Row → Query Row
where_all [] stmt = stmt
where_all (f ∷ fs) stmt = where_all fs (record stmt { wheres = stmt.wheres ++ f ∷ [] })

-- What a sequence of assignments makes of a row.
abbrev pub set_on : {Row : Type 0} → List (Row → Row) → Row → Row
set_on [] r = r
set_on (f ∷ fs) r = set_on fs (f r)

-- The model's name, and `str` on identifiers, for the message of an error.
module _ {Row : Type 0} (O : Orm Row) (model_name : String) (show : ℕ → String) where
  -- `get`
  unfoldable pub find : ℕ → O.State → Option Row
  find id s = O.get s id

  -- `list`; the defaults of `skip` and `limit` are 0 and 100.
  unfoldable pub list_rows : ℕ → ℕ → List (Row → Bool) → O.State → List Row
  list_rows skip limit filters s =
      O.execute s (
        where_all filters
          (record { wheres = []; skip = skip; limit = some limit; order_by = none }))

  -- `await self.session.flush()`
  abbrev pub flushed : O.State → Outcome O.State → Outcome (Unit {0}) × O.State
  flushed s (ok s') = (ok tt, s')
  flushed s (err e) = (err e, s)

  abbrev pub flush : Action O.State (Unit {0})
  flush s = flushed s (O.flush s)

  abbrev pub added : Row → Action O.State O.Instance
  added r s = (ok (O.add s r).1, (O.add s r).0)

  unfoldable pub create : Row → Action O.State Row
  create r = do instance_of_r ← added r; flush; gets (λ s. O.attributes s instance_of_r)

  -- `setattr` for each keyword
  abbrev pub set_all : ℕ → List (Row → Row) → O.State → O.State
  set_all id [] s = s
  set_all id (f ∷ fs) s = set_all id fs (O.assign s id f)

  abbrev pub updated_row : ℕ → List (Row → Row) → Option Row → Action O.State Row
  updated_row id fs none =
      throw (raised_with not_found_error (model_name <> " not found") (("id", text (show id)) ∷ []))
  updated_row id fs (some r) = modify (set_all id fs) >> flush >> pure (set_on fs r)

  unfoldable pub update : ℕ → List (Row → Row) → Action O.State Row
  unfolding find
  update id fs = do row ← gets (find id); updated_row id fs row

  abbrev pub deleted_row : ℕ → Option Row → Action O.State (Unit {0})
  deleted_row id none = pure tt
  deleted_row id (some r) = modify (λ s. O.remove s id) >> flush

  unfoldable pub delete : ℕ → Action O.State (Unit {0})
  unfolding find
  delete id = do row ← gets (find id); deleted_row id row
