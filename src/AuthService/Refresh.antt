-- ===== src/AuthService/Refresh.antt =====
-- `refresh`: on whose account tokens are renewed, and what the issued tokens are good for.
use civio.Base.{ℕ, ◌+◌, ◌*◌, ◌≤◌, ◌≡◌, refl, sym, ◌∙◌, Option, none, some, [], le→ltb}
use civio.Errors.Classes.{raised, authentication_error}
use civio.Errors.Outcome.{Outcome, ok, err}
use civio.Action.{◌>>=◌, ◌>>◌, lift, gets, or_throw}
use civio.Config.{Settings}
use civio.Models.Enums.{AuthStatus, pending, verified, revoked}
use civio.Models.User.{User}
use civio.Repositories.UserRepo
use civio.Security.Tokens.{
  TokenType, access, refresh, TokenPayload, is_reserved, whole_seconds, decode_token,
}
use civio.Security.Tokens.Laws.{IsPlain, issued_payload, decode_token-encode}
use civio.AuthService.Data.{TokenPair, Readings, Platform, IsLawful}
use civio.AuthService.Defs.{
  World, token_claims, issue_tokens, renew, refresh_as, refresh_tokens, require_refresh,
  require_verified,
}
use civio.AuthService.LogIn.{pair_of, issue_tokens_lem}

pub no_claims-IsPlain : IsPlain []
no_claims-IsPlain = record { unreserved = refl; no_nbf = refl; no_aud = refl; no_at_hash = refl }

module _ (P : Platform) (settings : Settings) where
  open P use {Token, session, uuid, jwt, validator}

  pub token_claims-IsPlain : (u : User) → IsPlain (token_claims P settings u)
  unfolding is_reserved
  token_claims-IsPlain u = record {
    unreserved = refl;
    no_nbf = refl;
    no_aud = refl;
    no_at_hash = refl;
  }

  -- What a successful `refresh` rests on; it changes nothing.
  pub record Renewed (w : World P settings) (token : Token) (decode_at : ℕ) (t : Readings)
      (pair : TokenPair Token) (w' : World P settings) : Type 0 where
    pub payload : TokenPayload
    pub decoded : decode_token jwt validator settings token decode_at ≡ ok payload
    pub of_refresh : payload.type ≡ refresh
    pub user_id : ℕ
    pub subject : uuid.parse payload.sub ≡ some user_id
    pub user : User
    pub found : session.get w.rows user_id ≡ some user
    pub is_verified : user.auth_status ≡ verified
    pub issued : pair ≡ pair_of P settings user t
    pub unchanged : w' ≡ w

  module _ (w : World P settings) (token : Token) (decode_at : ℕ) (t : Readings)
      {pair : TokenPair Token} {w' : World P settings} where
    user-Renewed :
        (payload : TokenPayload) (id : ℕ) (u : User) (s : AuthStatus)
        → decode_token jwt validator settings token decode_at ≡ ok payload
        → payload.type ≡ refresh
        → uuid.parse payload.sub ≡ some id
        → session.get w.rows id ≡ some u
        → u.auth_status ≡ s
        → (require_verified P settings s >> issue_tokens P settings u t) w ≡ (ok pair, w')
        → Renewed w token decode_at t pair w'
    user-Renewed payload id u pending d r p f s h = cc
    user-Renewed payload id u revoked d r p f s h = cc
    user-Renewed payload id u verified d r p f s h =
        let e : ◌≡◌ {A = Outcome (TokenPair Token) × World P settings} (ok pair, w')
            (ok (pair_of P settings u t), w) =
          sym h ∙ issue_tokens_lem P settings u t w in
        record {
          payload = payload;
          decoded = d;
          of_refresh = r;
          user_id = id;
          subject = p;
          user = u;
          found = f;
          is_verified = s;
          issued = cc e;
          unchanged = cc e;
        }

    found-Renewed :
        (payload : TokenPayload) (id : ℕ) (o : Option User)
        → decode_token jwt validator settings token decode_at ≡ ok payload
        → payload.type ≡ refresh
        → uuid.parse payload.sub ≡ some id
        → session.get w.rows id ≡ o
        → renew P settings o t w ≡ (ok pair, w')
        → Renewed w token decode_at t pair w'
    unfolding renew
    found-Renewed payload id none d r p f h = cc
    found-Renewed payload id (some u) d r p f h =
        user-Renewed payload id u u.auth_status d r p f refl h

    subject-Renewed :
        (payload : TokenPayload) (type : TokenType) (o : Option ℕ)
        → decode_token jwt validator settings token decode_at ≡ ok payload
        → payload.type ≡ type
        → uuid.parse payload.sub ≡ o
        → (do
          require_refresh P settings type
          user_id ← or_throw o (raised authentication_error "invalid token subject")
          found ← gets (λ x. UserRepo.get session x.rows user_id)
          renew P settings found t)
            w
          ≡ (ok pair, w')
        → Renewed w token decode_at t pair w'
    unfolding UserRepo.get
    subject-Renewed payload access o d r p h = cc
    subject-Renewed payload refresh none d r p h = cc
    subject-Renewed payload refresh (some id) d r p h =
        found-Renewed payload id (session.get w.rows id) d r p refl h

    payload-Renewed :
        (o : Outcome TokenPayload)
        → decode_token jwt validator settings token decode_at ≡ o
        → (do payload ← lift o; refresh_as P settings payload t) w ≡ (ok pair, w')
        → Renewed w token decode_at t pair w'
    unfolding refresh_as
    payload-Renewed (err e) d h = cc
    payload-Renewed (ok payload) d h =
        subject-Renewed payload payload.type (uuid.parse payload.sub) d refl refl h

    -- Tokens are renewed only for a token that decodes to a refresh token and whose subject is the
    -- identifier of a user in the database who is verified now. They are that user's, and nothing else
    -- changes.
    pub refresh_tokens-Renewed :
        refresh_tokens P settings token decode_at t w ≡ (ok pair, w')
        → Renewed w token decode_at t pair w'
    unfolding refresh_tokens
    refresh_tokens-Renewed h =
        payload-Renewed (decode_token jwt validator settings token decode_at) refl h

-- The tokens of a login, while the clock is at most the second in which they expire.
module _ (P : Platform) (L : IsLawful P) (settings : Settings) (u : User) (t : Readings) where
  open P use {Token, session, uuid, jwt, validator}

  abbrev pub payload_of_refresh : TokenPayload
  payload_of_refresh =
      issued_payload (uuid.show u.id) refresh t.refresh_at (settings.jwt_refresh_ttl_days * 86_400)
        t.refresh_jti []

  abbrev pub payload_of_access : TokenPayload
  payload_of_access =
      issued_payload (uuid.show u.id) access t.access_at (settings.jwt_access_ttl_min * 60)
        t.access_jti (token_claims P settings u)

  pub decode-refresh_token :
      (later : ℕ)
      → whole_seconds later ≤ whole_seconds t.refresh_at + settings.jwt_refresh_ttl_days * 86_400
      → decode_token jwt validator settings (pair_of P settings u t).refresh_token later
        ≡ ok payload_of_refresh
  decode-refresh_token later early =
      decode_token-encode jwt L.jwt validator L.validator settings (uuid.show u.id) refresh
        (settings.jwt_refresh_ttl_days * 86_400) [] t.refresh_at t.refresh_jti later
        no_claims-IsPlain
      ∙ rw (le→ltb _ _ early)

  pub decode-access_token :
      (later : ℕ)
      → whole_seconds later ≤ whole_seconds t.access_at + settings.jwt_access_ttl_min * 60
      → decode_token jwt validator settings (pair_of P settings u t).access_token later
        ≡ ok payload_of_access
  decode-access_token later early =
      decode_token-encode jwt L.jwt validator L.validator settings (uuid.show u.id) access
        (settings.jwt_access_ttl_min * 60) (token_claims P settings u) t.access_at t.access_jti
        later (token_claims-IsPlain P settings u)
      ∙ rw (le→ltb _ _ early)

  renew_verified :
      (w : World P settings) (v : User) (s : AuthStatus) (t' : Readings)
      → s ≡ verified
      → (require_verified P settings s >> issue_tokens P settings v t') w
        ≡ (ok (pair_of P settings v t'), w)
  renew_verified w v verified t' h = issue_tokens_lem P settings v t' w
  renew_verified w v pending t' h = cc
  renew_verified w v revoked t' h = cc

  -- Until it expires, the refresh token of a login is good for new tokens of the same user, as the
  -- database has it now, if that user is verified then; nothing else changes.
  pub refresh_tokens-refresh_token :
      (w : World P settings) (v : User) (decode_at : ℕ) (t' : Readings)
      → session.get w.rows u.id ≡ some v
      → v.auth_status ≡ verified
      → whole_seconds decode_at
        ≤ whole_seconds t.refresh_at + settings.jwt_refresh_ttl_days * 86_400
      → refresh_tokens P settings (pair_of P settings u t).refresh_token decode_at t' w
        ≡ (ok (pair_of P settings v t'), w)
  unfolding refresh_tokens UserRepo.get
  refresh_tokens-refresh_token w v decode_at t' found ver early =
      rw (decode-refresh_token decode_at early, L.uuid.parse-show u.id, found)
        (renew_verified w v v.auth_status t' ver)

  -- The access token of a login is refused by `refresh`, whoever the user is.
  pub refresh_tokens-access_token :
      (w : World P settings) (decode_at : ℕ) (t' : Readings)
      → whole_seconds decode_at ≤ whole_seconds t.access_at + settings.jwt_access_ttl_min * 60
      → refresh_tokens P settings (pair_of P settings u t).access_token decode_at t' w
        ≡ (err (raised authentication_error "access token cannot be used to refresh"), w)
  unfolding refresh_tokens
  refresh_tokens-access_token w decode_at t' early = rw (decode-access_token decode_at early)
