-- ===== src/AuthService/Reuse.antt =====
-- Calls of `verify_otp` with the right code that all read the challenge before the first of them deletes it.
use civio.Base.{ℕ, ◌<◌, ◌≡◌, refl, ap, ◌∙◌, true, Option, some, List, [], ◌∷◌, map, All}
use civio.Errors.Outcome.{ok}
use civio.Config.{Settings}
use civio.Models.Enums.{verified}
use civio.Models.User.{User}
use civio.Platform.Redis.{is_ahead}
use civio.AuthService.Data.{
  Challenge, max_attempts, compare_digest, parse_uuids, Readings, Platform, IsLawful,
}
use civio.AuthService.Defs.{World, challenge_key, choose_user, verify_raw}
use civio.AuthService.Steps.{Holds, check_right}
use civio.AuthService.LogIn.{pair_of, log_in_verified}
use civio.AuthService.Race.{begin_verify, finish_verify, finish_all}

module _ (P : Platform) (L : IsLawful P) (settings : Settings) where
  open P use {Token, redis, session, uuid, json}

  -- A challenge that is open for one user, who is verified.
  pub record IsOpen (w : World P settings) (id : ℕ) (p : Challenge) (expires : Option ℕ) (u : User)
      : Type 0 where
    pub held : Holds P L settings w id p expires
    pub left : p.attempts < max_attempts
    pub comparable : compare_digest p.code p.code ≡ ok true
    pub only : parse_uuids uuid p.user_ids ≡ ok (u.id ∷ [])
    pub found : session.get w.rows u.id ≡ some u
    pub is_verified : u.auth_status ≡ verified

  module _ (w : World P settings) (id : ℕ) (p : Challenge) (expires : Option ℕ) (u : User)
      (open_for : IsOpen w id p expires u) where
    -- The call that goes on in the world `now`, with the users as `w` has them.
    finish_right :
        (now : World P settings) (t : Readings)
        → now.rows ≡ w.rows
        → is_ahead t.read_at expires ≡ true
        → finish_verify P settings (begin_verify P settings w id (p.code, t)) now ≡ (
          ok (pair_of P settings u t),
          record now { store = redis.delete now.store (challenge_key P settings id) },
        )
    unfolding finish_verify begin_verify verify_raw choose_user
    finish_right now t same timely =
        rw (L.redis.get-entry, open_for.held, timely, L.json.loads-dumps p)
          (check_right P settings (challenge_key P settings id) p p.code t now open_for.left
              open_for.comparable
            ∙ rw open_for.only (
                log_in_verified P settings now (challenge_key P settings id) u.id t u
                  (ap (λ (s : session.State). session.get s u.id) same ∙ open_for.found)
                  open_for.is_verified))

    finish_all_right :
        (now : World P settings) (ts : List Readings)
        → now.rows ≡ w.rows
        → All (λ (t : Readings). is_ahead t.read_at expires ≡ true) ts
        → (finish_all P settings (map (λ t. begin_verify P settings w id (p.code, t)) ts) now).0
          ≡ map (λ t. ok (pair_of P settings u t)) ts
    unfolding finish_all
    finish_all_right now [] same timely = refl
    finish_all_right now (t ∷ ts) same (timely, all) = rw (finish_right now t same timely) (
        ap (λ rs. ok (pair_of P settings u t) ∷ rs)
          (finish_all_right
            (record now { store = redis.delete now.store (challenge_key P settings id) }) ts same
            all))

  -- However many calls with the right code read a challenge that is open before the first of them deletes
  -- it, every one of them logs its user in.
  pub finish_all-Reused :
      (w : World P settings) (id : ℕ) (p : Challenge) (expires : Option ℕ) (u : User)
      (ts : List Readings)
      → IsOpen w id p expires u
      → All (λ (t : Readings). is_ahead t.read_at expires ≡ true) ts
      → (finish_all P settings (map (λ t. begin_verify P settings w id (p.code, t)) ts) w).0
        ≡ map (λ t. ok (pair_of P settings u t)) ts
  finish_all-Reused w id p expires u ts open_for =
      finish_all_right w id p expires u open_for w ts refl
