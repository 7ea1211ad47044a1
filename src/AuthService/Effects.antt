-- ===== src/AuthService/Effects.antt =====
-- What a call of `verify_otp` or `send_otp` writes to Redis, on every branch.
use civio.Base.{
  ℕ, ◌+◌, ◌<◌, ◌≡◌, ◌⊎◌, inl, inr, refl, String, ap, Bool, true, false, Option, none, some, List,
  [], ◌∷◌, Text, arith, leb, leb→le, Bool-cases, Option-cases, ◌==◌,
}
use civio.Errors.Outcome.{Outcome, ok, err}
use civio.Action.{◌>>=◌, ◌>>◌, lift, gets, or_throw}
use civio.Errors.Classes.{raised, authentication_error}
use civio.Models.Enums.{AuthStatus, pending, verified, revoked}
use civio.Repositories.UserRepo
use civio.Security.Tokens.{TokenType, access, refresh, TokenPayload, decode_token}
use civio.AuthService.LogIn.{issue_tokens_lem}
use civio.Config.{Settings}
use civio.Models.User.{User}
use civio.Repositories.UserRepo.{list_by_mobile}
use civio.AuthService.Data.{
  Challenge, max_attempts, compare_digest, parse_uuids, Readings, Platform, IsLawful, TokenPair,
}
use civio.AuthService.Defs.{
  World, challenge_key, check_payload, choose_user, send_otp, verify_otp, require_verified,
  require_refresh, issue_tokens, renew, refresh_as, refresh_tokens,
}
use civio.AuthService.Steps.{
  check_capped, check_malformed, check_wrong, check_right, verify_absent, verify_unreadable,
  verify_readable,
}
use civio.AuthService.Guessing.{IsQuiet, parsed-IsQuiet}
use civio.AuthService.Lifecycle.{sent, stored, send_otp_found, send_otp_unset}

module _ (P : Platform) (L : IsLawful P) (settings : Settings) where
  open P use {redis, session, uuid, json}

  abbrev Out : Type 0
  Out = Outcome (TokenPair P.Token) × World P settings

  -- The write for a wrong code: the challenge that the call read, with its count one higher.
  pub record Counted (w : World P settings) (id : ℕ) (t : Readings) (s' : redis.Store)
      : Type 0 where
    pub doc : P.Doc
    pub payload : Challenge
    pub read : redis.get w.store t.read_at (challenge_key P settings id) ≡ some doc
    pub readable : json.loads doc ≡ some payload
    pub left : payload.attempts < max_attempts
    pub written :
        s'
        ≡ redis.set_keepttl w.store t.write_at
            (challenge_key P settings id)
            (json.dumps (record payload { attempts = payload.attempts + 1 }))

  -- The store is unchanged, has lost the key, or has the count.
  abbrev pub Touched : World P settings → ℕ → Readings → redis.Store → Type 0
  Touched w id t s' =
      (s' ≡ w.store)
      ⊎ ((s' ≡ redis.delete w.store (challenge_key P settings id)) ⊎ Counted w id t s')

  parsed-Touched :
      (w : World P settings) (id : ℕ) (ss : List String) (t : Readings) (out : Out)
      → (do
        user_ids ← lift (parse_uuids uuid ss)
        choose_user P settings (challenge_key P settings id) user_ids t)
          w
        ≡ out
      → Touched w id t out.1.store
  parsed-Touched w id ss t out h =
      quiet (
        parsed-IsQuiet P L settings w (challenge_key P settings id) ss t (parse_uuids uuid ss) refl)
    where
      quiet :
          IsQuiet P L settings w (challenge_key P settings id) (
            (do
              user_ids ← lift (parse_uuids uuid ss)
              choose_user P settings (challenge_key P settings id) user_ids t)
              w)
          → Touched w id t out.1.store
      quiet (r, inl same) = rw (← h) (inl same)
      quiet (r, inr gone) = rw (← h) (inr (inl gone))

  compared-Touched :
      (w : World P settings) (id : ℕ) (code : Text) (t : Readings) (doc : P.Doc) (p : Challenge)
      (o : Outcome Bool)
      → redis.get w.store t.read_at (challenge_key P settings id) ≡ some doc
      → json.loads doc ≡ some p
      → p.attempts < max_attempts
      → compare_digest p.code code ≡ o
      → Touched w id t (check_payload P settings (challenge_key P settings id) p code t w).1.store
  compared-Touched w id code t doc p (err x) s r left c =
      rw (check_malformed P settings (challenge_key P settings id) p code t w left c) (inl refl)
  compared-Touched w id code t doc p (ok false) s r left c =
      rw (check_wrong P settings (challenge_key P settings id) p code t w left c) (
        inr (
          inr (record {
            doc = doc;
            payload = p;
            read = s;
            readable = r;
            left = left;
            written = refl;
          })))
  compared-Touched w id code t doc p (ok true) s r left c =
      rw (check_right P settings (challenge_key P settings id) p code t w left c)
        (parsed-Touched w id p.user_ids t _ refl)

  -- Every call of `verify_otp` leaves the store alone, deletes its key, or counts a wrong code.
  pub verify_otp-Touched :
      (w : World P settings) (id : ℕ) (code : Text) (t : Readings)
      → Touched w id t (verify_otp P settings id code t w).1.store
  verify_otp-Touched w id code t =
      elim (Option-cases (redis.get w.store t.read_at (challenge_key P settings id))) [
        | inl absent ↦ rw (verify_absent P settings id code t w absent) (inl refl)
        | inr (doc, s) ↦ elim (Option-cases (json.loads doc)) [
          | inl unreadable ↦
              rw (verify_unreadable P settings id code t w doc s unreadable) (inl refl)
          | inr (p, r) ↦ elim (Bool-cases (leb max_attempts p.attempts)) [
            | inl spent ↦
                rw
                  (
                    verify_readable P settings id code t w doc p s r,
                    check_capped P settings (challenge_key P settings id) p code t w
                        (leb→le _ _ spent),
                  )
                  (inr (inl refl))
            | inr left ↦ rw (verify_readable P settings id code t w doc p s r) (
                compared-Touched w id code t doc p (compare_digest p.code code) s r (ground arith)
                  refl)
          ]
        ]
      ]

  -- `send_otp` leaves the store alone, or stores a challenge for the users that it found.
  abbrev pub Sent : World P settings → Text → ℕ → ℕ → ℕ → redis.Store → Type 0
  Sent w mobile id draw set_at s' =
      (s' ≡ w.store)
      ⊎ ((u : User) × (us : List User) × (s'
            ≡ (stored P L settings w id (sent P L settings mobile draw (u ∷ us)) set_at).store))

  pub send_otp-Sent :
      (w : World P settings) (mobile : Text) (id draw now set_at : ℕ) (found : List User)
      → list_by_mobile session w.rows mobile ≡ found
      → Sent w mobile id draw set_at (send_otp P settings mobile id draw now set_at w).1.store
  unfolding send_otp
  send_otp-Sent w mobile id draw now set_at [] h = rw h (inl refl)
  send_otp-Sent w mobile id draw now set_at (u ∷ us) h =
      elim (Bool-cases (settings.otp_ttl_sec == 0)) [
        | inl dead ↦
            rw (send_otp_unset P L settings w mobile id draw now set_at u us dead h) (inl refl)
        | inr lives ↦
            rw (send_otp_found P L settings w mobile id draw now set_at u us lives h)
              (inr (u, us, refl))
      ]

-- `refresh` changes nothing, whatever it answers.
module _ (P : Platform) (settings : Settings) (w : World P settings) (t : Readings) where
  open P use {Token, session, uuid, jwt, validator}

  renewed_world :
      (u : User) (s : AuthStatus)
      → ((require_verified P settings s >> issue_tokens P settings u t) w).1 ≡ w
  renewed_world u verified =
      ap (λ (x : Outcome (TokenPair Token) × World P settings). x.1)
        (issue_tokens_lem P settings u t w)
  renewed_world u pending = refl
  renewed_world u revoked = refl

  renew_world : (o : Option User) → (renew P settings o t w).1 ≡ w
  unfolding renew
  renew_world none = refl
  renew_world (some u) = renewed_world u u.auth_status

  subject_world :
      (type : TokenType) (o : Option ℕ)
      → ((do
        require_refresh P settings type
        user_id ← or_throw o (raised authentication_error "invalid token subject")
        found ← gets (λ x. UserRepo.get session x.rows user_id)
        renew P settings found t)
          w).1
        ≡ w
  subject_world access o = refl
  subject_world refresh none = refl
  subject_world refresh (some id) = renew_world (UserRepo.get session w.rows id)

  payload_world :
      (o : Outcome TokenPayload) → ((do payload ← lift o; refresh_as P settings payload t) w).1 ≡ w
  unfolding refresh_as
  payload_world (err e) = refl
  payload_world (ok payload) = subject_world payload.type (uuid.parse payload.sub)

  pub refresh_tokens_world :
      (token : Token) (decode_at : ℕ) → (refresh_tokens P settings token decode_at t w).1 ≡ w
  unfolding refresh_tokens
  refresh_tokens_world token decode_at =
      payload_world (decode_token jwt validator settings token decode_at)
