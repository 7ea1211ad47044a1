-- ===== src/AuthService/LogIn.antt =====
-- The end of `verify_otp`, from loading the user to the tokens, on every branch.
use civio.Base.{ℕ, ◌*◌, ◌≡◌, ◌≢◌, refl, ap, ◌∙◌, String, none, some, []}
use civio.Errors.Classes.{Exn, raised, authentication_error}
use civio.Errors.Outcome.{ok, err}
use civio.Config.{Settings}
use civio.Models.Enums.{AuthStatus, pending, verified, revoked}
use civio.Models.User.{User}
use civio.Repositories.UserRepo
use civio.Security.Tokens.{
  access, refresh, is_reserved, jwt_algorithm, create_access_token, create_refresh_token,
}
use civio.Security.Tokens.Laws.{all_claims}
use civio.AuthService.Data.{TokenPair, Readings, Platform}
use civio.AuthService.Defs.{
  World, token_claims, issue_tokens, promote_or_check, promote_or_check_status, log_in,
}

module _ (P : Platform) (settings : Settings) where
  open P use {redis, session, uuid, jwt}

  -- The tokens of a user: the access token tells the community and the role.
  abbrev pub pair_of : User → Readings → TokenPair P.Token
  pair_of u t = record {
    access_token =
        jwt.encode
          (all_claims (uuid.show u.id) access t.access_at (settings.jwt_access_ttl_min * 60)
            t.access_jti (token_claims P settings u))
          settings.jwt_secret jwt_algorithm;
    refresh_token =
        jwt.encode
          (all_claims (uuid.show u.id) refresh t.refresh_at (settings.jwt_refresh_ttl_days * 86_400)
            t.refresh_jti [])
          settings.jwt_secret jwt_algorithm;
    token_type = "bearer";
  }

  -- Issuing the tokens cannot fail and changes nothing.
  pub issue_tokens_lem :
      (u : User) (t : Readings) (w : World P settings)
      → issue_tokens P settings u t w ≡ (ok (pair_of u t), w)
  unfolding issue_tokens create_access_token create_refresh_token is_reserved
  issue_tokens_lem u t w = refl

  abbrev pub promoted : User → User
  promoted u = record u { auth_status = verified }

  -- The session after the assignment of `_promote_or_check`, before the flush.
  abbrev pub assigned : World P settings → User → session.State
  assigned w u = session.assign w.rows u.id promoted

  promote_pending :
      (w : World P settings) (u : User) {s : session.State}
      → u.auth_status ≡ pending
      → session.flush (assigned w u) ≡ ok s
      → promote_or_check P settings u w ≡ (ok (promoted u), record w { rows = s })
  unfolding promote_or_check
  promote_pending w u p f = ap (λ st. promote_or_check_status P settings st u w) p ∙ rw f

  promote_unflushed :
      (w : World P settings) (u : User) {e : Exn}
      → u.auth_status ≡ pending
      → session.flush (assigned w u) ≡ err e
      → promote_or_check P settings u w ≡ (err e, record w { rows = assigned w u })
  unfolding promote_or_check
  promote_unflushed w u p f = ap (λ st. promote_or_check_status P settings st u w) p ∙ rw f

  module _ (w : World P settings) (key : String) (id : ℕ) (t : Readings) where
    pub log_in_absent :
        session.get w.rows id ≡ none
        → log_in P settings key id t w ≡ (
          err (raised authentication_error "user no longer exists"),
          record w { store = redis.delete w.store key },
        )
    unfolding log_in UserRepo.get
    log_in_absent h = rw h

    pub log_in_revoked :
        (u : User)
        → session.get w.rows id ≡ some u
        → u.auth_status ≡ revoked
        → log_in P settings key id t w ≡ (err (raised authentication_error "account revoked"), w)
    unfolding log_in UserRepo.get
    log_in_revoked u h r = rw (h, r)

    pub log_in_verified :
        (u : User)
        → session.get w.rows id ≡ some u
        → u.auth_status ≡ verified
        → log_in P settings key id t w
          ≡ (ok (pair_of u t), record w { store = redis.delete w.store key })
    unfolding log_in UserRepo.get create_access_token create_refresh_token is_reserved
    log_in_verified u h v = rw (h, v)

    pub log_in_pending :
        (u : User) {s : session.State}
        → session.get w.rows id ≡ some u
        → u.auth_status ≡ pending
        → session.flush (assigned w u) ≡ ok s
        → log_in P settings key id t w
          ≡ (ok (pair_of u t), record { store = redis.delete w.store key; rows = s })
    unfolding log_in UserRepo.get create_access_token create_refresh_token is_reserved
    log_in_pending u h p f = rw (h, promote_pending w u p f)

    pub log_in_unflushed :
        (u : User) {e : Exn}
        → session.get w.rows id ≡ some u
        → u.auth_status ≡ pending
        → session.flush (assigned w u) ≡ err e
        → log_in P settings key id t w ≡ (err e, record w { rows = assigned w u })
    unfolding log_in UserRepo.get
    log_in_unflushed u h p f = rw (h, promote_unflushed w u p f)

  -- The flush of a promotion goes through.
  abbrev pub CanPromote : World P settings → User → Type 0
  CanPromote w u = (s : session.State) × (session.flush (assigned w u) ≡ ok s)

  -- A user who is not revoked gets tokens, and the challenge is deleted.
  pub log_in_allowed :
      (w : World P settings) (key : String) (id : ℕ) (t : Readings) (u : User) (status : AuthStatus)
      → session.get w.rows id ≡ some u
      → u.auth_status ≡ status
      → status ≢ revoked
      → CanPromote w u
      → (s : session.State) × (log_in P settings key id t w
          ≡ (ok (pair_of u t), record { store = redis.delete w.store key; rows = s }))
  log_in_allowed w key id t u revoked f e free can = absurd (free refl)
  log_in_allowed w key id t u verified f e free can = (w.rows, log_in_verified w key id t u f e)
  log_in_allowed w key id t u pending f e free (s, flushed) =
      (s, log_in_pending w key id t u f e flushed)
