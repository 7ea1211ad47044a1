-- ===== src/Dependencies/Laws.antt =====
-- Who passes `get_current_user` and `require_role`.
use civio.Base.{ℕ, ◌≡◌, inl, inr, refl, Option, none, some, codes, text_eq, text_eq_iff, Bool-cases}
use civio.Errors.Classes.{raised, authentication_error}
use civio.Errors.Outcome.{Outcome, ok, err}
use civio.Action.{◌>>=◌, ◌>>◌, pure, lift, gets, or_throw}
use civio.Config.{Settings}
use civio.Models.Enums.{AuthStatus, pending, verified, revoked}
use civio.Models.User.{User}
use civio.Repositories.UserRepo
use civio.Security.Tokens.{TokenType, access, refresh, TokenPayload, decode_token}
use civio.AuthService.Data.{Platform}
use civio.Dependencies.Defs.{
  Credentials, lower, require_access, require_verified, admit, identify, get_current_user,
}

module _ (P : Platform) (settings : Settings) where
  open P use {Token, session, uuid, jwt, validator}

  -- What a request must show for a user to be let in; the session is not changed.
  pub record Admitted (s : session.State) (credentials : Option (Credentials Token)) (decode_at : ℕ)
      (user : User) (s' : session.State) : Type 0 where
    pub given : Credentials Token
    pub present : credentials ≡ some given
    pub bearer : lower given.scheme ≡ codes "bearer"
    pub payload : TokenPayload
    pub decoded : decode_token jwt validator settings given.credentials decode_at ≡ ok payload
    pub of_access : payload.type ≡ access
    pub user_id : ℕ
    pub subject : uuid.parse payload.sub ≡ some user_id
    pub found : session.get s user_id ≡ some user
    pub is_verified : user.auth_status ≡ verified
    pub unchanged : s' ≡ s

  module _ (s : session.State) (given : Credentials Token) (decode_at : ℕ) {user : User}
      {s' : session.State} (bearer : lower given.scheme ≡ codes "bearer") where
    user-Admitted :
        (payload : TokenPayload) (id : ℕ) (u : User) (st : AuthStatus)
        → decode_token jwt validator settings given.credentials decode_at ≡ ok payload
        → payload.type ≡ access
        → uuid.parse payload.sub ≡ some id
        → session.get s id ≡ some u
        → u.auth_status ≡ st
        → (require_verified P settings st >> pure u) s ≡ (ok user, s')
        → Admitted s (some given) decode_at user s'
    user-Admitted payload id u pending d a p f v h = cc
    user-Admitted payload id u revoked d a p f v h = cc
    user-Admitted payload id u verified d a p f v h = record {
      given = given;
      present = refl;
      bearer = bearer;
      payload = payload;
      decoded = d;
      of_access = a;
      user_id = id;
      subject = p;
      found = cc;
      is_verified = cc;
      unchanged = cc;
    }

    found-Admitted :
        (payload : TokenPayload) (id : ℕ) (o : Option User)
        → decode_token jwt validator settings given.credentials decode_at ≡ ok payload
        → payload.type ≡ access
        → uuid.parse payload.sub ≡ some id
        → session.get s id ≡ o
        → admit P settings o s ≡ (ok user, s')
        → Admitted s (some given) decode_at user s'
    unfolding admit
    found-Admitted payload id none d a p f h = cc
    found-Admitted payload id (some u) d a p f h =
        user-Admitted payload id u u.auth_status d a p f refl h

    subject-Admitted :
        (payload : TokenPayload) (type : TokenType) (o : Option ℕ)
        → decode_token jwt validator settings given.credentials decode_at ≡ ok payload
        → payload.type ≡ type
        → uuid.parse payload.sub ≡ o
        → (do
          require_access P settings type
          user_id ← or_throw o (raised authentication_error "invalid token subject")
          found ← gets (λ x. UserRepo.get session x user_id)
          admit P settings found)
            s
          ≡ (ok user, s')
        → Admitted s (some given) decode_at user s'
    unfolding UserRepo.get
    subject-Admitted payload refresh o d a p h = cc
    subject-Admitted payload access none d a p h = cc
    subject-Admitted payload access (some id) d a p h =
        found-Admitted payload id (session.get s id) d a p refl h

    payload-Admitted :
        (o : Outcome TokenPayload)
        → decode_token jwt validator settings given.credentials decode_at ≡ o
        → (do payload ← lift o; identify P settings payload) s ≡ (ok user, s')
        → Admitted s (some given) decode_at user s'
    unfolding identify
    payload-Admitted (err e) d h = cc
    payload-Admitted (ok payload) d h =
        subject-Admitted payload payload.type (uuid.parse payload.sub) d refl refl h

  -- A user is let in only on a bearer token that decodes to an access token and whose subject is the
  -- identifier of that user, who is verified in the database now. The session is not changed.
  pub get_current_user-Admitted :
      (s : session.State) (credentials : Option (Credentials Token)) (decode_at : ℕ) {user : User}
      {s' : session.State}
      → get_current_user P settings credentials decode_at s ≡ (ok user, s')
      → Admitted s credentials decode_at user s'
  unfolding get_current_user
  get_current_user-Admitted s none decode_at h = cc
  get_current_user-Admitted s (some c) decode_at h =
      elim (Bool-cases (text_eq (lower c.scheme) (codes "bearer"))) [
        | inl good ↦
            payload-Admitted s c decode_at ((text_eq_iff _ _).0 good)
              (decode_token jwt validator settings c.credentials decode_at) refl (rw good at h)
        | inr bad ↦ cc (rw bad at h)
      ]
