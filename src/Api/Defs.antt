-- ===== src/Api/Defs.antt =====
-- The endpoints of `/auth`, each in the session of `get_db`. What a request leaves is the Redis store and
-- the committed database.
use civio.Base.{ℕ, Text}
use civio.Errors.Outcome.{Outcome, ok, err}
use civio.Action.{Action}
use civio.Config.{Settings}
use civio.AuthService.Data.{OtpChallenge, TokenPair, Readings, Platform}
use civio.AuthService.Defs.{World, send_otp, verify_otp, refresh_tokens}

-- `OtpSendRequest`, `OtpVerifyRequest` and `RefreshRequest`, after their validation.
pub record OtpSendRequest : Type 0 where
  pub mobile : Text

pub record OtpVerifyRequest : Type 0 where
  pub challenge_id : ℕ
  pub code : Text

pub record RefreshRequest (Token : Type 0) : Type 0 where
  pub refresh_token : Token

module _ (P : Platform) (settings : Settings) where
  open P use {Token, redis, session}

  pub record Backend : Type 0 where
    pub store : redis.Store
    pub database : session.Database

  -- `get_auth_service`, on a new session
  abbrev pub get_auth_service : Backend → World P settings
  get_auth_service b = record { store = b.store; rows = session.begin b.database }

  -- The end of `get_db` after a success; a session whose commit fails is closed, which rolls it back.
  abbrev pub committed :
      {A : Type 0} → World P settings → A → Outcome session.Database → Outcome A × Backend
  committed w a (ok d) = (ok a, record { store = w.store; database = d })
  committed w a (err e) = (err e, record { store = w.store; database = session.rollback w.rows })

  abbrev pub finished : {A : Type 0} → Outcome A × World P settings → Outcome A × Backend
  finished (ok a, w) = committed w a (session.commit w.rows)
  finished (err e, w) = (err e, record { store = w.store; database = session.rollback w.rows })

  -- `get_db` around the body of a request
  unfoldable pub get_db : {A : Type 0} → Action (World P settings) A → Backend → Outcome A × Backend
  get_db body b = finished (body (get_auth_service b))

  unfoldable pub otp_send :
      OtpSendRequest → ℕ → ℕ → ℕ → ℕ → Backend → Outcome OtpChallenge × Backend
  unfolding get_db
  otp_send payload challenge_id draw now set_at =
      get_db (send_otp P settings payload.mobile challenge_id draw now set_at)

  unfoldable pub otp_verify :
      OtpVerifyRequest → Readings → Backend → Outcome (TokenPair Token) × Backend
  unfolding get_db
  otp_verify payload t = get_db (verify_otp P settings payload.challenge_id payload.code t)

  unfoldable pub renew_tokens :
      RefreshRequest Token → ℕ → Readings → Backend → Outcome (TokenPair Token) × Backend
  unfolding get_db
  renew_tokens payload decode_at t =
      get_db (refresh_tokens P settings payload.refresh_token decode_at t)
