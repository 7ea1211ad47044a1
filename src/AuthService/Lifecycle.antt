-- ===== src/AuthService/Lifecycle.antt =====
-- A challenge from `send_otp` to its end: it is stored for the TTL, it logs its user in once, and it is of
-- no use after its expiry or to a mobile that several users share.
use civio.Base.{
  ℕ, ◌+◌, ◌*◌, ◌^◌, ◌≤◌, ◌<◌, ◌≡◌, ◌≢◌, refl, ap, sym, subst, ◌∙◌, true, false, ◌==◌, none, some,
  List, [], ◌∷◌, map, Text, text_eq_refl, is_ascii, arith, All, length, length-map, lt→ltb, le→ltb,
  eq_refl,
}
use civio.Errors.Classes.{other, num, raised, raised_with, authentication_error, validation_error}
use civio.Errors.Outcome.{ok, err}
use civio.Config.{Settings}
use civio.Models.Enums.{revoked}
use civio.Models.User.{User}
use civio.Repositories.UserRepo.{list_by_mobile, where_mobile}
use civio.Platform.Session.{Matches}
use civio.Security.Otp.{zero_padded, generate_otp, otp_length}
use civio.Security.Otp.Laws.{IsDigit, zero_padded-IsCode}
use civio.AuthService.Data.{
  Challenge, TokenPair, compare_digest, parse_uuids, Readings, Platform, IsLawful,
}
use civio.AuthService.Defs.{
  World, challenge_key, store_challenge, send_otp, choose_user, verify_otp,
}
use civio.AuthService.Steps.{Holds, verify_absent, verify_right}
use civio.AuthService.Success.{verify_otp-Redeemed}
use civio.AuthService.LogIn.{pair_of, CanPromote, log_in_allowed}

pub is_ascii-digits : (s : Text) → All IsDigit s → is_ascii s ≡ true
is_ascii-digits [] h = refl
is_ascii-digits (c ∷ s) h = ground (arith, is_ascii-digits s h.1)

compare_digest_self : (s : Text) → All IsDigit s → compare_digest s s ≡ ok true
unfolding compare_digest
compare_digest_self s h = rw (is_ascii-digits s h, text_eq_refl s)

module _ (P : Platform) (L : IsLawful P) (settings : Settings) where
  open P use {redis, session, uuid, json}

  -- The challenge that `send_otp` stores for a mobile and its users.
  abbrev pub sent : Text → ℕ → List User → Challenge
  sent mobile draw users = record {
    mobile = mobile;
    code = zero_padded otp_length draw;
    attempts = 0;
    user_ids = map (λ u. uuid.show u.id) users;
  }

  abbrev pub stored : World P settings → ℕ → Challenge → ℕ → World P settings
  stored w id p set_at = record w {
    store =
        redis.setex w.store set_at (challenge_key P settings id) settings.otp_ttl_sec
          (json.dumps p);
  }

  pub send_otp_found :
      (w : World P settings) (mobile : Text) (id draw now set_at : ℕ) (u : User) (us : List User)
      → settings.otp_ttl_sec == 0 ≡ false
      → list_by_mobile session w.rows mobile ≡ u ∷ us
      → send_otp P settings mobile id draw now set_at w ≡ (
        ok (record {
          challenge_id = id;
          mobile = mobile;
          expires_at = now + settings.otp_ttl_sec * 1_000_000;
        }),
        stored w id (sent mobile draw (u ∷ us)) set_at,
      )
  unfolding send_otp generate_otp store_challenge
  send_otp_found w mobile id draw now set_at u us lives h = rw (h, lives) refl

  -- With a time to live of 0 nothing is stored.
  pub send_otp_unset :
      (w : World P settings) (mobile : Text) (id draw now set_at : ℕ) (u : User) (us : List User)
      → settings.otp_ttl_sec == 0 ≡ true
      → list_by_mobile session w.rows mobile ≡ u ∷ us
      → send_otp P settings mobile id draw now set_at w ≡ (err (other "ResponseError"), w)
  unfolding send_otp generate_otp store_challenge
  send_otp_unset w mobile id draw now set_at u us dead h = rw (h, dead) refl

  pub stored-Holds :
      (w : World P settings) (id : ℕ) (p : Challenge) (set_at : ℕ)
      → Holds P L settings (stored w id p set_at) id p (some (set_at + settings.otp_ttl_sec))
  stored-Holds w id p set_at = rw (L.redis.entry-setex, eq_refl)

  pub parse_uuids-show :
      (us : List User) → parse_uuids uuid (map (λ u. uuid.show u.id) us) ≡ ok (map (λ u. u.id) us)
  unfolding parse_uuids
  parse_uuids-show [] = refl
  parse_uuids-show (u ∷ us) = rw (L.uuid.parse-show, parse_uuids-show us)

  -- While the challenge is there, its code leads to the users that it was sent for.
  pub verify_held :
      (w : World P settings) (id : ℕ) (mobile : Text) (draw expiry : ℕ) (us : List User)
      (t : Readings)
      → Holds P L settings w id (sent mobile draw us) (some expiry)
      → draw < 10 ^ otp_length
      → t.read_at < expiry
      → verify_otp P settings id (zero_padded otp_length draw) t w
        ≡ choose_user P settings (challenge_key P settings id) (map (λ u. u.id) us) t w
  verify_held w id mobile draw expiry us t h small early =
      verify_right P L settings w id (sent mobile draw us) (some expiry)
        (zero_padded otp_length draw) t h (lt→ltb _ _ early) (omega arith)
        (compare_digest_self _ (zero_padded-IsCode otp_length draw (omega arith) small).numeric)
      ∙ rw (parse_uuids-show us) refl

  verify_sent :
      (w : World P settings) (id : ℕ) (mobile : Text) (draw set_at : ℕ) (us : List User)
      (t : Readings)
      → draw < 10 ^ otp_length
      → t.read_at < set_at + settings.otp_ttl_sec
      → let w' = stored w id (sent mobile draw us) set_at in
        verify_otp P settings id (zero_padded otp_length draw) t w'
        ≡ choose_user P settings (challenge_key P settings id) (map (λ u. u.id) us) t w'
  verify_sent w id mobile draw set_at us t =
      verify_held (stored w id (sent mobile draw us) set_at) id mobile draw
        (set_at + settings.otp_ttl_sec) us t (stored-Holds w id (sent mobile draw us) set_at)

  abbrev IsInstance : session.Database → Text → User → Type 0
  IsInstance d mobile r =
      Matches (where_mobile mobile).wheres r × (session.get (session.begin d) r.id ≡ some r)

  listed-get :
      (w : World P settings) (d : session.Database) (mobile : Text) {u : User} {us : List User}
      → w.rows ≡ session.begin d
      → list_by_mobile session w.rows mobile ≡ u ∷ us
      → session.get w.rows u.id ≡ some u
  unfolding list_by_mobile
  listed-get w d mobile {u} {us} fresh h =
      let sound : All (IsInstance d mobile) (u ∷ us) =
        subst (All (IsInstance d mobile))
          (ap (λ (s : session.State). list_by_mobile session s mobile) (sym fresh) ∙ h)
          (L.session.execute-sound d (where_mobile mobile)) in
      ap (λ (s : session.State). session.get s u.id) fresh ∙ sound.0.1

  -- In a fresh session and with a time to live that is not 0, a mobile that one user has gets a challenge,
  -- and the code that was drawn for it logs that user in at any time before the TTL has run out, unless
  -- the user is revoked or the database refuses the promotion.
  pub verify_otp-send_otp :
      (w : World P settings) (d : session.Database) (mobile : Text) (id draw now set_at : ℕ)
      (u : User) (t : Readings)
      → w.rows ≡ session.begin d
      → list_by_mobile session w.rows mobile ≡ u ∷ []
      → u.auth_status ≢ revoked
      → CanPromote P settings w u
      → draw < 10 ^ otp_length
      → 0 < settings.otp_ttl_sec
      → t.read_at < set_at + settings.otp_ttl_sec
      → let (r, w') = send_otp P settings mobile id draw now set_at w in
        (r
          ≡ ok (record {
            challenge_id = id;
            mobile = mobile;
            expires_at = now + settings.otp_ttl_sec * 1_000_000;
          }))
        × ((verify_otp P settings id (zero_padded otp_length draw) t w').0
            ≡ ok (pair_of P settings u t))
  unfolding choose_user
  verify_otp-send_otp w d mobile id draw now set_at u t fresh only free can small lives early =
      rw (send_otp_found w mobile id draw now set_at u [] (ground (arith, lives)) only) (
        refl,
        ap (λ x. x.0)
            (verify_sent w id mobile draw set_at (u ∷ []) t small early
              ∙ (log_in_allowed P settings (stored w id (sent mobile draw (u ∷ [])) set_at)
                  (challenge_key P settings id) u.id t u u.auth_status
                  (listed-get w d mobile fresh only) refl free can).1),
      )

  -- With a time to live that is not 0, a mobile that several users have gets a challenge too; its code is
  -- answered with a `ValidationError` that tells their number, and the challenge is deleted.
  pub verify_otp_ambiguous :
      (w : World P settings) (mobile : Text) (id draw now set_at : ℕ) (u v : User) (us : List User)
      (t : Readings)
      → list_by_mobile session w.rows mobile ≡ u ∷ v ∷ us
      → draw < 10 ^ otp_length
      → 0 < settings.otp_ttl_sec
      → t.read_at < set_at + settings.otp_ttl_sec
      → let w' = (send_otp P settings mobile id draw now set_at w).1 in
        let (r, w'') = verify_otp P settings id (zero_padded otp_length draw) t w' in
        (r
          ≡ err (
              raised_with validation_error
                "mobile matches multiple users; community selection required"
                (("user_count", num (length (u ∷ v ∷ us))) ∷ [])))
        × (redis.entry w''.store (challenge_key P settings id) ≡ none)
        × (w''.rows ≡ w.rows)
  unfolding choose_user
  verify_otp_ambiguous w mobile id draw now set_at u v us t several small lives early =
      rw (send_otp_found w mobile id draw now set_at u (v ∷ us) (ground (arith, lives)) several) (
        rw (verify_sent w id mobile draw set_at (u ∷ v ∷ us) t small early)
          (rw (length-map (λ (x : User). x.id) us), rw (L.redis.entry-delete, eq_refl), refl))

  -- Once a challenge has expired, no code is compared: the answer is that it was not found, and nothing
  -- changes.
  pub verify_otp_expired :
      (w : World P settings) (id : ℕ) (p : Challenge) (expiry : ℕ) (code : Text) (t : Readings)
      → Holds P L settings w id p (some expiry)
      → expiry ≤ t.read_at
      → verify_otp P settings id code t w
        ≡ (err (raised authentication_error "otp challenge expired or not found"), w)
  verify_otp_expired w id p expiry code t h late =
      verify_absent P settings id code t w (rw (L.redis.get-entry, h, le→ltb t.read_at expiry late))

  -- A challenge logs in once: after a login in a fresh session, as long as nobody writes its key again, no
  -- code is compared any more, and a call changes nothing.
  pub verify_otp_once :
      (w : World P settings) (d : session.Database) (id : ℕ) (code : Text) (t : Readings)
      {pair : TokenPair P.Token} {w' : World P settings} (later : World P settings) (code' : Text)
      (t' : Readings)
      → w.rows ≡ session.begin d
      → verify_otp P settings id code t w ≡ (ok pair, w')
      → redis.entry later.store (challenge_key P settings id)
        ≡ redis.entry w'.store (challenge_key P settings id)
      → verify_otp P settings id code' t' later
        ≡ (err (raised authentication_error "otp challenge expired or not found"), later)
  verify_otp_once w d id code t {w'} later code' t' fresh done same =
      verify_absent P settings id code' t' later (
        rw (
          L.redis.get-entry,
          same,
          (verify_otp-Redeemed P L settings w d fresh id code t done).login.burned,
          L.redis.entry-delete,
          eq_refl,
        ))
