-- ===== src/AuthService/Defs.antt =====
-- The methods of `AuthService`. The challenge is a dict in JSON under the key `otp:<challenge_id>`;
-- Redis times are in seconds, token times in microseconds. What a call reads from its environment
-- (clocks, random numbers, new UUIDs) is an argument. `_log` calls are left out.
use civio.Base.{
  ◌==◌, ℕ, ◌+◌, ◌-◌, ◌*◌, String, ◌<>◌, Option, none, some, List, [], ◌∷◌, map, Text, length, leb,
  not, if◌then◌else◌,
}
use civio.Errors.Classes.{
  text, chars, num, other, raised, raised_with, authentication_error, validation_error,
}
use civio.Errors.Outcome.{Outcome, ok, err}
use civio.Action.{Action, ◌>>=◌, ◌>>◌, pure, throw, gets, lift, or_throw, modify}
use civio.Config.{Settings}
use civio.Models.Enums.{AuthStatus, pending, verified, revoked, auth_status_value, role_value}
use civio.Models.User.{User}
use civio.Platform.Jwt.{Claims}
use civio.Repositories.UserRepo
use civio.Security.Otp.{generate_otp, otp_length}
use civio.Security.Tokens.{
  TokenType, TokenPayload, access, refresh, decode_token, create_access_token, create_refresh_token,
}
use civio.AuthService.Data.{
  Challenge, OtpChallenge, TokenPair, max_attempts, compare_digest, parse_uuids, Readings, Platform,
}

module _ (P : Platform) (settings : Settings) where
  open P use {Token, Doc, redis, session, uuid, json, jwt, validator}

  -- What the methods read and write: the Redis store and the session of the request.
  pub record World : Type 0 where
    pub store : redis.Store
    pub rows : session.State

  -- `_challenge_key`
  unfoldable pub challenge_key : ℕ → String
  challenge_key id = "otp:" <> uuid.show id

  abbrev on_store : (redis.Store → redis.Store) → Action World (Unit {0})
  on_store f = modify (λ w. record w { store = f w.store })

  abbrev on_rows : (session.State → session.State) → Action World (Unit {0})
  on_rows f = modify (λ w. record w { rows = f w.rows })

  -- `await session.flush()`
  abbrev pub flushed : World → Outcome session.State → Outcome (Unit {0}) × World
  flushed w (ok s) = (ok tt, record w { rows = s })
  flushed w (err e) = (err e, w)

  unfoldable pub flush : Action World (Unit {0})
  flush w = flushed w (session.flush w.rows)

  abbrev pub token_claims : User → Claims
  token_claims u =
      ("community_id", text (uuid.show u.community_id)) ∷ ("role", text (role_value u.role)) ∷ []

  -- `_issue_tokens`
  unfoldable pub issue_tokens : User → Readings → Action World (TokenPair Token)
  issue_tokens u t = do
    access_token ← lift (
        create_access_token jwt settings (uuid.show u.id) (token_claims u) t.access_at t.access_jti)
    refresh_token ←
        lift (create_refresh_token jwt settings (uuid.show u.id) t.refresh_at t.refresh_jti)
    pure (record {
      access_token = access_token;
      refresh_token = refresh_token;
      token_type = "bearer";
    })

  -- `_promote_or_check`; the user that it returns is the instance after the assignment.
  unfoldable pub promote_or_check_status : AuthStatus → User → Action World User
  unfolding flush
  promote_or_check_status revoked u = throw (raised authentication_error "account revoked")
  promote_or_check_status pending u = do
    on_rows (λ s. session.assign s u.id (λ r. record r { auth_status = verified }))
    flush
    pure (record u { auth_status = verified })
  promote_or_check_status verified u = pure u

  unfoldable pub promote_or_check : User → Action World User
  unfolding promote_or_check_status
  promote_or_check u = promote_or_check_status u.auth_status u

  -- `if not users: raise`
  abbrev require_users : Text → List User → Action World (Unit {0})
  require_users mobile [] =
      throw
        (raised_with authentication_error "mobile not registered" (("mobile", chars mobile) ∷ []))
  require_users mobile (u ∷ us) = pure tt

  -- `await self.redis.setex(…)`; `SETEX` refuses a time to live of 0.
  unfoldable pub store_challenge : ℕ → ℕ → Challenge → Action World (Unit {0})
  unfolding challenge_key
  store_challenge set_at challenge_id payload =
      if settings.otp_ttl_sec == 0
      then throw (other "ResponseError")
      else on_store (λ s.
        redis.setex s set_at (challenge_key challenge_id) settings.otp_ttl_sec (json.dumps payload))

  -- `send_otp`; `now` is the datetime in microseconds, `set_at` the instant of the write.
  unfoldable pub send_otp : Text → ℕ → ℕ → ℕ → ℕ → Action World OtpChallenge
  unfolding challenge_key store_challenge
  send_otp mobile challenge_id draw now set_at = do
    users ← gets (λ w. UserRepo.list_by_mobile session w.rows mobile)
    require_users mobile users
    code ← lift (generate_otp otp_length draw)
    store_challenge set_at challenge_id (record {
      mobile = mobile;
      code = code;
      attempts = 0;
      user_ids = map (λ u. uuid.show u.id) users;
    })
    pure (record {
      challenge_id = challenge_id;
      mobile = mobile;
      expires_at = now + settings.otp_ttl_sec * 1_000_000;
    })

  -- The end of `verify_otp`, for what `user_repo.get` returned.
  unfoldable pub log_in_user : String → Option User → Readings → Action World (TokenPair Token)
  unfolding promote_or_check issue_tokens
  log_in_user key none t = do
    on_store (λ s. redis.delete s key)
    throw (raised authentication_error "user no longer exists")
  log_in_user key (some user) t = do
    user' ← promote_or_check user
    on_store (λ s. redis.delete s key)
    issue_tokens user' t

  unfoldable pub log_in : String → ℕ → Readings → Action World (TokenPair Token)
  unfolding log_in_user
  log_in key user_id t = do
    found ← gets (λ w. UserRepo.get session w.rows user_id)
    log_in_user key found t

  -- `if len(user_ids) != 1`
  unfoldable pub choose_user : String → List ℕ → Readings → Action World (TokenPair Token)
  unfolding log_in
  choose_user key (user_id ∷ []) t = log_in key user_id t
  choose_user key user_ids t = do
    on_store (λ s. redis.delete s key)
    throw (
        raised_with validation_error "mobile matches multiple users; community selection required"
          (("user_count", num (length user_ids)) ∷ []))

  -- The answer to a wrong code: the count goes up, and the expiry stays.
  unfoldable pub reject_code : String → Challenge → Readings → Action World (TokenPair Token)
  reject_code key payload t = do
    on_store (λ s.
        redis.set_keepttl s t.write_at key
          (json.dumps (record payload { attempts = payload.attempts + 1 })))
    throw (
        raised_with authentication_error "invalid otp code"
          (("attempts_remaining", num (max_attempts - (payload.attempts + 1))) ∷ []))

  -- `verify_otp` from `json.loads` on, for the text that Redis returned.
  unfoldable pub check_payload :
      String → Challenge → Text → Readings → Action World (TokenPair Token)
  unfolding reject_code choose_user
  check_payload key payload code t =
      if leb max_attempts payload.attempts
      then on_store (λ s. redis.delete s key)
        >> throw (raised authentication_error "too many otp attempts")
      else do
        same ← lift (compare_digest payload.code code)
        if not same
            then reject_code key payload t
            else do user_ids ← lift (parse_uuids uuid payload.user_ids); choose_user key user_ids t

  unfoldable pub verify_raw : String → Option Doc → Text → Readings → Action World (TokenPair Token)
  unfolding check_payload
  verify_raw key none code t =
      throw (raised authentication_error "otp challenge expired or not found")
  verify_raw key (some raw) code t = do
    payload ← or_throw (json.loads raw) (other "JSONDecodeError")
    check_payload key payload code t

  -- `verify_otp`
  unfoldable pub verify_otp : ℕ → Text → Readings → Action World (TokenPair Token)
  unfolding verify_raw challenge_key
  verify_otp challenge_id code t = do
    raw ← gets (λ w. redis.get w.store t.read_at (challenge_key challenge_id))
    verify_raw (challenge_key challenge_id) raw code t

  -- The checks of `refresh` on the user that was loaded.
  abbrev pub require_verified : AuthStatus → Action World (Unit {0})
  require_verified verified = pure tt
  require_verified status = throw (
      raised_with authentication_error "user is not verified"
        (("auth_status", text (auth_status_value status)) ∷ []))

  abbrev pub require_refresh : TokenType → Action World (Unit {0})
  require_refresh refresh = pure tt
  require_refresh access =
      throw (raised authentication_error "access token cannot be used to refresh")

  -- The end of `refresh`, for what `user_repo.get` returned.
  unfoldable pub renew : Option User → Readings → Action World (TokenPair Token)
  unfolding issue_tokens
  renew none t = throw (raised authentication_error "user not found")
  renew (some user) t = require_verified user.auth_status >> issue_tokens user t

  -- `refresh` from the check of the type on.
  unfoldable pub refresh_as : TokenPayload → Readings → Action World (TokenPair Token)
  unfolding renew
  refresh_as payload t = do
    require_refresh payload.type
    user_id ←
        or_throw (uuid.parse payload.sub) (raised authentication_error "invalid token subject")
    found ← gets (λ w. UserRepo.get session w.rows user_id)
    renew found t

  -- `refresh`; `decode_at` is the time at which the token is decoded.
  unfoldable pub refresh_tokens : Token → ℕ → Readings → Action World (TokenPair Token)
  unfolding refresh_as
  refresh_tokens refresh_token decode_at t = do
    payload ← lift (decode_token jwt validator settings refresh_token decode_at)
    refresh_as payload t
