-- ===== src/System/Liveness.antt =====
-- The way in for a user, from the code that is sent to the token, with other requests in between.
use mathlib.Core.List.{Memᴰ}
use civio.Base.{
  arith, ℕ, ◌+◌, ◌*◌, ◌^◌, ◌≤◌, ◌<◌, ◌≡◌, ◌≢◌, refl, sym, ap, ◌∙◌, some, [], ◌∷◌, Text, codes,
}
use civio.Errors.Outcome.{ok}
use civio.Config.{Settings}
use civio.Models.Enums.{verified, revoked}
use civio.Models.User.{User}
use civio.Repositories.UserRepo.{list_by_mobile}
use civio.Security.Otp.{otp_length, zero_padded}
use civio.Security.Tokens.{whole_seconds}
use civio.AuthService.Data.{Challenge, TokenPair, Readings, Platform, IsLawful}
use civio.AuthService.Defs.{World, challenge_key, choose_user, send_otp}
use civio.AuthService.Steps.{Holds}
use civio.AuthService.LogIn.{pair_of, CanPromote, log_in_allowed}
use civio.AuthService.Lifecycle.{
  stored, stored-Holds, send_otp_found, verify_held, parse_uuids-show,
}
use civio.AuthService.Lifecycle
use civio.AuthService.Race.{Waiting, begin_verify, finish_verify, finish-begin}
use civio.Dependencies.Defs.{lower, get_current_user}
use civio.Dependencies.Logins.{get_current_user-access_token}
use civio.System.Defs.{
  sent, logged_in, System, world, after_send, after_verify, begin, finish, Reach, here, next,
}
use civio.System.Untouched.{AreElsewhere, held, Reach-elsewhere}

module _ (P : Platform) (L : IsLawful P) (settings : Settings) where
  open P use {Token, redis, session}

  -- The server after a code was sent
  abbrev pub sending :
      System P settings → session.Database → Text → ℕ → ℕ → ℕ → ℕ → System P settings
  sending x d mobile id draw now set_at =
      after_send P settings x
        (sent id mobile (zero_padded otp_length draw)
          (list_by_mobile session (session.begin d) mobile))
        (send_otp P settings mobile id draw now set_at (world P settings x d))

  -- The challenge of that code
  abbrev sent_to : Text → ℕ → User → Challenge
  sent_to mobile draw u = Lifecycle.sent P L settings mobile draw (u ∷ [])

  sending-held :
      (x : System P settings) (d : session.Database) (mobile : Text) (id draw now set_at : ℕ)
      (u : User)
      → 0 < settings.otp_ttl_sec
      → list_by_mobile session (session.begin d) mobile ≡ u ∷ []
      → held P L settings id (sending x d mobile id draw now set_at).store
        ≡ held P L settings id
            (stored P L settings (world P settings x d) id (sent_to mobile draw u) set_at).store
  sending-held x d mobile id draw now set_at u lives only =
      rw
        (send_otp_found P L settings (world P settings x d) mobile id draw now set_at u []
          (ground (arith, lives)) only)
        refl

  -- A call that reads this challenge and goes on at once logs in its user.
  log_in_held :
      (y : System P settings) (d : session.Database) (id : ℕ) (mobile : Text) (draw expiry : ℕ)
      (u v : User) (t : Readings)
      → Holds P L settings (world P settings y d) id (sent_to mobile draw u) (some expiry)
      → draw < 10 ^ otp_length
      → t.read_at < expiry
      → session.get (session.begin d) u.id ≡ some v
      → v.auth_status ≢ revoked
      → CanPromote P settings (world P settings y d) v
      → (s : session.State) × (finish_verify P settings
            (begin_verify P settings (world P settings y d) id (zero_padded otp_length draw, t))
            (world P settings y d)
          ≡ (
            ok (pair_of P settings v t),
            record { store = redis.delete y.store (challenge_key P settings id); rows = s },
          ))
  unfolding choose_user
  log_in_held y d id mobile draw expiry u v t h small early found free can =
      let w : World P settings = world P settings y d in
      let (s, done) =
        log_in_allowed P settings w (challenge_key P settings id) u.id t v v.auth_status found refl
          free can in
      (
        s,
        finish-begin P settings w id (zero_padded otp_length draw) t
            ∙ verify_held P L settings w id mobile draw expiry (u ∷ []) t h small early
            ∙ done,
      )

  -- The server after such a call
  abbrev logged : System P settings → ℕ → Text → TokenPair Token → System P settings
  logged y id code pair = record {
    store = redis.delete y.store (challenge_key P settings id);
    waiting = y.waiting;
    issued = pair ∷ y.issued;
    log = logged_in id code pair ∷ y.log;
  }

  log_in_steps :
      (y : System P settings) (d : session.Database) (id : ℕ) (mobile : Text) (draw expiry : ℕ)
      (u v : User) (t : Readings)
      → Holds P L settings (world P settings y d) id (sent_to mobile draw u) (some expiry)
      → draw < 10 ^ otp_length
      → t.read_at < expiry
      → session.get (session.begin d) u.id ≡ some v
      → v.auth_status ≢ revoked
      → CanPromote P settings (world P settings y d) v
      → Reach P settings y (logged y id (zero_padded otp_length draw) (pair_of P settings v t))
  unfolding begin_verify
  log_in_steps y d id mobile draw expiry u v t h small early found free can =
      let c : Waiting P settings =
        begin_verify P settings (world P settings y d) id (zero_padded otp_length draw, t) in
      let reading : System P settings = record y { waiting = c ∷ y.waiting } in
      next (next here (begin d id (zero_padded otp_length draw) t refl)) (
        finish d [] y.waiting c refl (
          sym (
            ap (after_verify P settings reading y.waiting c)
              (log_in_held y d id mobile draw expiry u v t h small early found free can).1)))

  -- With a time to live that is not 0, a code that is sent to a mobile that one user has lets that user
  -- in, whatever requests for other challenges the server handles before it is checked: if the user is not
  -- revoked when the code is checked, before its time to live has run out, and the database takes the
  -- promotion, then the server goes on to a state in which it has handed out the tokens of the user as
  -- they are in that database; and until its expiry the access token lets the user in as the database has
  -- them then, if they are verified then.
  pub get_current_user-after_send :
      (x : System P settings) (d : session.Database) (mobile : Text) (id draw now set_at : ℕ)
      (u : User)
      → list_by_mobile session (session.begin d) mobile ≡ u ∷ []
      → draw < 10 ^ otp_length
      → 0 < settings.otp_ttl_sec
      → {y : System P settings} (r : Reach P settings (sending x d mobile id draw now set_at) y)
      → AreElsewhere P L settings id r
      → (d' : session.Database) (v : User) (t : Readings)
      → t.read_at < set_at + settings.otp_ttl_sec
      → session.get (session.begin d') u.id ≡ some v
      → v.auth_status ≢ revoked
      → CanPromote P settings (world P settings y d') v
      → (d'' : session.Database) (later : User) (scheme : Text) (decode_at : ℕ)
      → lower scheme ≡ codes "bearer"
      → session.get (session.begin d'') u.id ≡ some later
      → later.auth_status ≡ verified
      → whole_seconds decode_at ≤ whole_seconds t.access_at + settings.jwt_access_ttl_min * 60
      → (z : System P settings) × Reach P settings y z
        × Memᴰ (pair_of P settings v t) z.issued
        × (get_current_user P settings
              (some
                (record { scheme = scheme; credentials = (pair_of P settings v t).access_token }))
              decode_at
              (session.begin d'')
            ≡ (ok later, session.begin d''))
  get_current_user-after_send x d mobile id draw now set_at u only small lives {y} r quiet d' v t
        early found free can d'' later scheme decode_at bearer there then_verified in_time =
      let h =
        Reach-elsewhere P L settings id r quiet
        ∙ sending-held x d mobile id draw now set_at u lives only
        ∙ stored-Holds P L settings (world P settings x d) id (sent_to mobile draw u) set_at in
      let same : v.id ≡ u.id = L.session.get-key d' u.id found in
      (
        logged y id (zero_padded otp_length draw) (pair_of P settings v t),
        log_in_steps y d' id mobile draw (set_at + settings.otp_ttl_sec) u v t h small early found
            free can,
        Memᴰ.head refl,
        get_current_user-access_token P L settings v t (session.begin d'') later scheme decode_at
            bearer (ap (λ i. session.get (session.begin d'') i) same ∙ there) then_verified in_time,
      )
