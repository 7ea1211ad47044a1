-- ===== src/Dependencies/Logins.antt =====
-- `get_current_user` on the tokens that a login hands out.
use civio.Base.{◌+◌, ◌*◌, ℕ, ◌≤◌, ◌≡◌, refl, some, codes, Text}
use civio.Errors.Classes.{raised, authentication_error}
use civio.Errors.Outcome.{ok, err}
use civio.Action.{◌>>◌, pure}
use civio.Config.{Settings}
use civio.Models.Enums.{AuthStatus, pending, verified, revoked}
use civio.Models.User.{User}
use civio.Repositories.UserRepo
use civio.Security.Tokens.{whole_seconds}
use civio.AuthService.Data.{Readings, Platform, IsLawful}
use civio.AuthService.LogIn.{pair_of}
use civio.AuthService.Defs.{World, refresh_tokens}
use civio.AuthService.Refresh.{
  decode-access_token, decode-refresh_token, refresh_tokens-refresh_token,
  refresh_tokens-access_token,
}
use civio.Dependencies.Defs.{lower, require_verified, get_current_user}

module _ (P : Platform) (L : IsLawful P) (settings : Settings) (u : User) (t : Readings) where
  open P use {session}

  admit_verified :
      (s : session.State) (v : User) (status : AuthStatus)
      → status ≡ verified
      → (require_verified P settings status >> pure v) s ≡ (ok v, s)
  admit_verified s v verified h = refl
  admit_verified s v pending h = cc
  admit_verified s v revoked h = cc

  -- Until it expires, the access token of a login lets in the user as the database has it now, if that
  -- user is verified then; the scheme is `bearer` in any case of letters, and the session is not changed.
  pub get_current_user-access_token :
      (s : session.State) (v : User) (scheme : Text) (decode_at : ℕ)
      → lower scheme ≡ codes "bearer"
      → session.get s u.id ≡ some v
      → v.auth_status ≡ verified
      → whole_seconds decode_at ≤ whole_seconds t.access_at + settings.jwt_access_ttl_min * 60
      → get_current_user P settings
          (some (record { scheme = scheme; credentials = (pair_of P settings u t).access_token }))
          decode_at
          s
        ≡ (ok v, s)
  unfolding get_current_user UserRepo.get
  get_current_user-access_token s v scheme decode_at bearer found ver early =
      rw
        (
          bearer,
          decode-access_token P L settings u t decode_at early,
          L.uuid.parse-show u.id,
          found,
        )
        (admit_verified s v v.auth_status ver)

  -- Until it expires, the refresh token of a login lets no request in.
  get_current_user-refresh_token :
      (s : session.State) (scheme : Text) (decode_at : ℕ)
      → lower scheme ≡ codes "bearer"
      → whole_seconds decode_at
        ≤ whole_seconds t.refresh_at + settings.jwt_refresh_ttl_days * 86_400
      → get_current_user P settings
          (some (record { scheme = scheme; credentials = (pair_of P settings u t).refresh_token }))
          decode_at
          s
        ≡ (err (raised authentication_error "refresh token cannot authorise requests"), s)
  unfolding get_current_user
  get_current_user-refresh_token s scheme decode_at bearer early =
      rw (bearer, decode-refresh_token P L settings u t decode_at early)

  -- Until they expire, the two tokens of a login are good for one thing each: the access token lets in the
  -- user as the database has it now, and the refresh token is exchanged for a new pair of that user, if
  -- the user is verified then; the refresh token lets no request in, and `refresh` refuses the access token.
  -- Nothing changes in any of the four.
  pub pair_of_uses :
      (w : World P settings) (v : User) (scheme : Text) (decode_at : ℕ) (t' : Readings)
      → lower scheme ≡ codes "bearer"
      → session.get w.rows u.id ≡ some v
      → v.auth_status ≡ verified
      → whole_seconds decode_at ≤ whole_seconds t.access_at + settings.jwt_access_ttl_min * 60
      → whole_seconds decode_at
        ≤ whole_seconds t.refresh_at + settings.jwt_refresh_ttl_days * 86_400
      → (get_current_user P settings
            (some (record { scheme = scheme; credentials = (pair_of P settings u t).access_token }))
            decode_at
            w.rows
          ≡ (ok v, w.rows))
        × (refresh_tokens P settings (pair_of P settings u t).refresh_token decode_at t' w
            ≡ (ok (pair_of P settings v t'), w))
        × (get_current_user P settings
              (some
                (record { scheme = scheme; credentials = (pair_of P settings u t).refresh_token }))
              decode_at
              w.rows
            ≡ (err (raised authentication_error "refresh token cannot authorise requests"), w.rows))
        × (refresh_tokens P settings (pair_of P settings u t).access_token decode_at t' w
            ≡ (err (raised authentication_error "access token cannot be used to refresh"), w))
  pair_of_uses w v scheme decode_at t' bearer found ver access_early refresh_early = (
    get_current_user-access_token w.rows v scheme decode_at bearer found ver access_early,
    refresh_tokens-refresh_token P L settings u t w v decode_at t' found ver refresh_early,
    get_current_user-refresh_token w.rows scheme decode_at bearer refresh_early,
    refresh_tokens-access_token P L settings u t w decode_at t' access_early,
  )
