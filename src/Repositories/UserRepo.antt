-- ===== src/Repositories/UserRepo.antt =====
-- `repositories/user_repo.py`, and `BaseRepository.get` as it inherits it.
use civio.Base.{ℕ, Option, none, some, List, [], ◌∷◌, Text, text_eq, ◌==◌}
use civio.Errors.Classes.{other}
use civio.Errors.Outcome.{Outcome, ok, err}
use civio.Models.User.{User}
use civio.Platform.Session.{Query, Session}

-- `select(User).where(…)`
abbrev pub where_mobile : Text → Query User
where_mobile mobile = record {
  wheres = (λ u. text_eq u.mobile mobile) ∷ [];
  skip = 0;
  limit = none;
  order_by = none;
}

abbrev pub where_community_mobile : ℕ → Text → Query User
where_community_mobile community_id mobile = record {
  wheres = (λ u. u.community_id == community_id) ∷ (λ u. text_eq u.mobile mobile) ∷ [];
  skip = 0;
  limit = none;
  order_by = none;
}

abbrev pub where_community : ℕ → Query User
where_community community_id = record {
  wheres = (λ u. u.community_id == community_id) ∷ [];
  skip = 0;
  limit = none;
  order_by = some (λ u. u.created_at);
}

-- `Result.scalar_one_or_none`: no row, the row, or `MultipleResultsFound`.
abbrev pub scalar_one_or_none : List User → Outcome (Option User)
scalar_one_or_none [] = ok none
scalar_one_or_none (u ∷ []) = ok (some u)
scalar_one_or_none (u ∷ v ∷ us) = err (other "MultipleResultsFound")

module _ (S : Session User) where
  unfoldable pub get : S.State → ℕ → Option User
  get s id = S.get s id

  unfoldable pub get_by_mobile : S.State → ℕ → Text → Outcome (Option User)
  get_by_mobile s community_id mobile =
      scalar_one_or_none (S.execute s (where_community_mobile community_id mobile))

  unfoldable pub list_by_mobile : S.State → Text → List User
  list_by_mobile s mobile = S.execute s (where_mobile mobile)

  unfoldable pub list_by_community : S.State → ℕ → List User
  list_by_community s community_id = S.execute s (where_community community_id)
