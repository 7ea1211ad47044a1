-- ===== src/Api/Answers.antt =====
-- With which status the errors of a request are answered: the exceptions of the service and of the
-- dependencies, through the handlers of `core/exceptions.py`.
use civio.Base.{
  ◌==◌, false, ℕ, ◌≡◌, inl, inr, refl, Option, none, some, List, [], ◌∷◌, Text, text_eq, codes,
  Bool-cases,
}
use civio.Errors.Classes.{raised, authentication_error}
use civio.Errors.Handlers.{Dispatcher, IsMroDispatcher}
use civio.Errors.Outcome.{Outcome, ok, err}
use civio.Action.{Action, proceed, ◌>>=◌, ◌>>◌, or_throw, pure}
use civio.Config.{Settings}
use civio.Models.Enums.{AuthStatus, pending, verified, revoked}
use civio.Models.User.{User}
use civio.Repositories.UserRepo.{list_by_mobile}
use civio.Security.Otp.{generate_otp}
use civio.Security.Tokens.{TokenType, access, refresh, TokenPayload, decode_token}
use civio.AuthService.Data.{Readings, Platform}
use civio.AuthService.Defs.{
  World, store_challenge, send_otp, refresh_as, refresh_tokens, renew, require_verified,
  issue_tokens,
}
use civio.AuthService.LogIn.{issue_tokens_lem}
use civio.Dependencies.Defs
use civio.Dependencies.Defs.{
  Credentials, lower, require_bearer, require_access, admit, identify, get_current_user,
}
use civio.Api.Refusals.{
  IsOkOrRefused, returned, refused, unauthenticated, decode_token-IsOkOrRefused,
}

module _ (D : Dispatcher) (M : IsMroDispatcher D) where
  -- A step that is fine, and then the next.
  proceed-IsOkOrRefused :
      {W A B : Type 0} (f : A → Action W B) (x : Outcome A × W)
      → IsOkOrRefused D M x.0
      → ((a : A) (w : W) → IsOkOrRefused D M (f a w).0)
      → IsOkOrRefused D M (proceed f x).0
  proceed-IsOkOrRefused f (ok a, w) h next = next a w
  proceed-IsOkOrRefused f (err e, w) (refused r) next = refused r

  module _ (P : Platform) (settings : Settings) where
    open P use {Token, session, uuid, jwt, validator}

    renewed-IsOkOrRefused :
        (u : User) (status : AuthStatus) (t : Readings) (w : World P settings)
        → IsOkOrRefused D M
            ((require_verified P settings status >> issue_tokens P settings u t) w).0
    renewed-IsOkOrRefused u verified t w = rw (issue_tokens_lem P settings u t w) (returned _)
    renewed-IsOkOrRefused u pending t w = refused (unauthenticated D M _ _)
    renewed-IsOkOrRefused u revoked t w = refused (unauthenticated D M _ _)

    renew-IsOkOrRefused :
        (o : Option User) (t : Readings) (w : World P settings)
        → IsOkOrRefused D M (renew P settings o t w).0
    unfolding renew
    renew-IsOkOrRefused none t w = refused (unauthenticated D M _ _)
    renew-IsOkOrRefused (some u) t w = renewed-IsOkOrRefused u u.auth_status t w

    subject-IsOkOrRefused :
        {W A : Type 0} (o : Option ℕ) (f : ℕ → Action W A) (w : W)
        → ((id : ℕ) → IsOkOrRefused D M (f id w).0)
        → IsOkOrRefused D M
            ((or_throw o (raised authentication_error "invalid token subject") >>= f) w).0
    subject-IsOkOrRefused none f w h = refused (unauthenticated D M _ _)
    subject-IsOkOrRefused (some id) f w h = h id

    refresh_as-IsOkOrRefused :
        (type : TokenType) (p : TokenPayload) (t : Readings) (w : World P settings)
        → p.type ≡ type
        → IsOkOrRefused D M (refresh_as P settings p t w).0
    unfolding refresh_as
    refresh_as-IsOkOrRefused access p t w e = rw e (refused (unauthenticated D M _ _))
    refresh_as-IsOkOrRefused refresh p t w e =
        rw e (subject-IsOkOrRefused (uuid.parse p.sub) _ w (λ id. renew-IsOkOrRefused _ t w))

    -- Whatever token `refresh` is given, it returns tokens, or the client is refused.
    pub refresh_tokens-IsOkOrRefused :
        (token : Token) (decode_at : ℕ) (t : Readings) (w : World P settings)
        → IsOkOrRefused D M (refresh_tokens P settings token decode_at t w).0
    unfolding refresh_tokens
    refresh_tokens-IsOkOrRefused token decode_at t w =
        proceed-IsOkOrRefused (λ p. refresh_as P settings p t)
          (decode_token jwt validator settings token decode_at, w)
          (decode_token-IsOkOrRefused D M jwt validator settings token decode_at)
          (λ p v. refresh_as-IsOkOrRefused p.type p t v refl)

    send_otp_found-IsOkOrRefused :
        (w : World P settings) (mobile : Text) (id draw now set_at : ℕ) (users : List User)
        → settings.otp_ttl_sec == 0 ≡ false
        → list_by_mobile session w.rows mobile ≡ users
        → IsOkOrRefused D M (send_otp P settings mobile id draw now set_at w).0
    unfolding send_otp generate_otp store_challenge
    send_otp_found-IsOkOrRefused w mobile id draw now set_at [] lives h =
        rw h (refused (unauthenticated D M _ _))
    send_otp_found-IsOkOrRefused w mobile id draw now set_at (u ∷ us) lives h =
        rw (h, lives) (returned _)

    -- Whatever mobile `send_otp` is given, with a time to live that is not 0, it returns a challenge, or
    -- the client is refused.
    pub send_otp-IsOkOrRefused :
        (w : World P settings) (mobile : Text) (id draw now set_at : ℕ)
        → settings.otp_ttl_sec == 0 ≡ false
        → IsOkOrRefused D M (send_otp P settings mobile id draw now set_at w).0
    send_otp-IsOkOrRefused w mobile id draw now set_at lives =
        send_otp_found-IsOkOrRefused w mobile id draw now set_at _ lives refl

    verified-IsOkOrRefused :
        (u : User) (status : AuthStatus) (s : session.State)
        → IsOkOrRefused D M ((Defs.require_verified P settings status >> pure u) s).0
    verified-IsOkOrRefused u verified s = returned u
    verified-IsOkOrRefused u pending s = refused (unauthenticated D M _ _)
    verified-IsOkOrRefused u revoked s = refused (unauthenticated D M _ _)

    admit-IsOkOrRefused :
        (o : Option User) (s : session.State) → IsOkOrRefused D M (admit P settings o s).0
    unfolding admit
    admit-IsOkOrRefused none s = refused (unauthenticated D M _ _)
    admit-IsOkOrRefused (some u) s = verified-IsOkOrRefused u u.auth_status s

    identify-IsOkOrRefused :
        (type : TokenType) (p : TokenPayload) (s : session.State)
        → p.type ≡ type
        → IsOkOrRefused D M (identify P settings p s).0
    unfolding identify
    identify-IsOkOrRefused refresh p s e = rw e (refused (unauthenticated D M _ _))
    identify-IsOkOrRefused access p s e =
        rw e (subject-IsOkOrRefused (uuid.parse p.sub) _ s (λ id. admit-IsOkOrRefused _ s))

    bearer-IsOkOrRefused :
        (given : Option (Credentials Token)) (s : session.State)
        → IsOkOrRefused D M (require_bearer P settings given s).0
    bearer-IsOkOrRefused none s = refused (unauthenticated D M _ _)
    bearer-IsOkOrRefused (some c) s =
        elim (Bool-cases (text_eq (lower c.scheme) (codes "bearer"))) [
          | inl good ↦ rw good (returned c.credentials)
          | inr bad ↦ rw bad (refused (unauthenticated D M _ _))
        ]

    -- Whatever credentials a request carries, `get_current_user` returns a user, or the client is refused.
    pub get_current_user-IsOkOrRefused :
        (given : Option (Credentials Token)) (decode_at : ℕ) (s : session.State)
        → IsOkOrRefused D M (get_current_user P settings given decode_at s).0
    unfolding get_current_user
    get_current_user-IsOkOrRefused given decode_at s =
        proceed-IsOkOrRefused _ (require_bearer P settings given s) (bearer-IsOkOrRefused given s)
          (λ token v.
            proceed-IsOkOrRefused (λ p. identify P settings p)
              (decode_token jwt validator settings token decode_at, v)
              (decode_token-IsOkOrRefused D M jwt validator settings token decode_at)
              (λ p v'. identify-IsOkOrRefused p.type p v' refl))
