-- ===== src/System/Answers.antt =====
-- How the server answers requests in the states that it reaches.
use mathlib.Core.List.{Memᴰ}
use civio.Base.{
  subst, arith, ◌<◌, Text, ℕ, ◌≡◌, refl, ap, ◌∙◌, String, true, Option, none, some, inl, inr, List,
  [], ◌∷◌, map, text_eq, is_ascii, All-Mem, leb, leb→le, Bool-cases, Option-cases,
}
use civio.Errors.Classes.{Exn}
use civio.Errors.Handlers.{Dispatcher, IsMroDispatcher}
use civio.Errors.Outcome.{Outcome, ok, err, Outcome-cases}
use civio.Config.{Settings}
use civio.Models.Enums.{AuthStatus, pending, verified, revoked}
use civio.Models.User.{User}
use civio.AuthService.Data.{Challenge, Readings, Platform, IsLawful, max_attempts, compare_digest}
use civio.AuthService.Defs.{
  World, challenge_key, send_otp, refresh_tokens, log_in, choose_user, check_payload,
}
use civio.AuthService.LogIn.{
  assigned, log_in_absent, log_in_revoked, log_in_verified, log_in_pending, log_in_unflushed,
}
use civio.AuthService.Lifecycle.{is_ascii-digits, parse_uuids-show}
use civio.AuthService.Race.{Waiting, finish_verify}
use civio.AuthService.Steps.{check_capped, check_wrong, check_right}
use civio.Api.Defs.{
  Backend, OtpSendRequest, RefreshRequest, committed, finished, get_db, otp_send, renew_tokens,
}
use civio.AuthService.Effects.{refresh_tokens_world}
use civio.Api.Refusals.{IsOkOrRefused, returned, refused, unauthenticated, unprocessable}
use civio.Api.Answers.{
  send_otp-IsOkOrRefused, refresh_tokens-IsOkOrRefused, get_current_user-IsOkOrRefused,
}
use civio.Dependencies.Defs.{Credentials, get_current_user}
use civio.System.Defs.{System, world, Reach, IsInitial}
use civio.System.Provenance.{IsReadSourced, IsProper, IsTraced}
use civio.System.Writes.{finish_absent, finish_read}
use civio.System.Authentic.{IsInitial-IsTraced, Reach-IsTraced}

module _ (D : Dispatcher) (M : IsMroDispatcher D) (P : Platform) (L : IsLawful P)
    (settings : Settings) where
  open P use {Token, Doc, redis, session, uuid, json}

  -- How a request is answered that begins in `w` and ends its work in `w'`: it succeeds, or the client is
  -- refused, or the database does not take the promotion of a user, or it does not take the commit.
  pub data IsAnswered (w w' : World P settings) {A : Type 0} : Outcome A → Type 0 where
    answered : {o : Outcome A} → IsOkOrRefused D M o → IsAnswered w w' o
    unpromoted :
        (u : User) {e : Exn}
        → session.flush (assigned P settings w u) ≡ err e
        → IsAnswered w w' (err e)
    uncommitted : {e : Exn} → session.commit w'.rows ≡ err e → IsAnswered w w' (err e)

  committed-IsAnswered :
      {A : Type 0} (w w' : World P settings) (a : A) (o : Outcome session.Database)
      → session.commit w'.rows ≡ o
      → IsAnswered w w' (committed P settings w' a o).0
  committed-IsAnswered w w' a (ok d) c = answered (returned a)
  committed-IsAnswered w w' a (err e) c = uncommitted c

  finished-IsAnswered :
      {A : Type 0} (w : World P settings) (x : Outcome A × World P settings)
      → IsAnswered w x.1 x.0
      → IsAnswered w x.1 (finished P settings x).0
  finished-IsAnswered w (ok a, w') h = committed-IsAnswered w w' a (session.commit w'.rows) refl
  finished-IsAnswered w (err e, w') h = h

  module _ (w w' : World P settings) (key : String) (t : Readings) where
    log_in_user-IsAnswered :
        (id : ℕ) (u : User) (status : AuthStatus)
        → session.get w.rows id ≡ some u
        → u.auth_status ≡ status
        → IsAnswered w w' (log_in P settings key id t w).0
    log_in_user-IsAnswered id u revoked found s =
        rw (log_in_revoked P settings w key id t u found s)
          (answered (refused (unauthenticated D M _ _)))
    log_in_user-IsAnswered id u verified found s =
        rw (log_in_verified P settings w key id t u found s) (answered (returned _))
    log_in_user-IsAnswered id u pending found s =
        elim (Outcome-cases (session.flush (assigned P settings w u))) [
          | inl (e, f) ↦ rw (log_in_unflushed P settings w key id t u found s f) (unpromoted u f)
          | inr (st, f) ↦
              rw (log_in_pending P settings w key id t u found s f) (answered (returned _))
        ]

    log_in-IsAnswered : (id : ℕ) → IsAnswered w w' (log_in P settings key id t w).0
    log_in-IsAnswered id = elim (Option-cases (session.get w.rows id)) [
      | inl absent ↦
          rw (log_in_absent P settings w key id t absent)
            (answered (refused (unauthenticated D M _ _)))
      | inr (u, found) ↦ log_in_user-IsAnswered id u u.auth_status found refl
    ]

    choose_user-IsAnswered : (ids : List ℕ) → IsAnswered w w' (choose_user P settings key ids t w).0
    unfolding choose_user
    choose_user-IsAnswered [] = answered (refused (unprocessable D M _ _))
    choose_user-IsAnswered (id ∷ []) = log_in-IsAnswered id
    choose_user-IsAnswered (i ∷ j ∷ ids) = answered (refused (unprocessable D M _ _))

    -- A challenge with an ASCII code and the identifiers of users.
    module _ (p : Challenge) (code : Text) (users : List User)
        (comparable : (is_ascii p.code ≡ true) × (is_ascii code ≡ true))
        (listed : p.user_ids ≡ map (λ u. uuid.show u.id) users) where
      compared : compare_digest p.code code ≡ ok (text_eq p.code code)
      unfolding compare_digest
      compared = rw (comparable.0, comparable.1) refl

      compared-IsAnswered :
          p.attempts < max_attempts → IsAnswered w w' (check_payload P settings key p code t w).0
      compared-IsAnswered left = elim (Bool-cases (text_eq p.code code)) [
        | inl same ↦
            rw
              (
                check_right P settings key p code t w left (compared ∙ ap ok same),
                listed,
                parse_uuids-show P L settings users,
              )
              (choose_user-IsAnswered (map (λ u. u.id) users))
        | inr wrong ↦
            rw (check_wrong P settings key p code t w left (compared ∙ ap ok wrong))
              (answered (refused (unauthenticated D M _ _)))
      ]

      check_payload-IsAnswered : IsAnswered w w' (check_payload P settings key p code t w).0
      check_payload-IsAnswered = elim (Bool-cases (leb max_attempts p.attempts)) [
        | inl spent ↦
            rw (check_capped P settings key p code t w (leb→le _ _ spent))
              (answered (refused (unauthenticated D M _ _)))
        | inr left ↦ compared-IsAnswered (ground arith)
      ]

  -- A call that has read a challenge that was sent, or nothing.
  finish_verify-IsAnswered :
      (x : System P settings) (tr : IsTraced P L settings x) (d : session.Database)
      (w' : World P settings) (c : Waiting P settings) (o : Option Doc)
      → IsReadSourced P L settings x.log c
      → is_ascii c.code ≡ true
      → c.raw ≡ o
      → IsAnswered (world P settings x d) w' (finish_verify P settings c (world P settings x d)).0
  finish_verify-IsAnswered x tr d w' c none read ascii h =
      rw (finish_absent P L settings (world P settings x d) c h)
        (answered (refused (unauthenticated D M _ _)))
  finish_verify-IsAnswered x tr d w' c (some doc) read ascii h =
      let s = read doc h in
      let proper = All-Mem IsProper x.log tr.proper s.was_sent in
      rw (finish_read P L settings (world P settings x d) c s.payload (h ∙ ap some s.written)) (
        check_payload-IsAnswered (world P settings x d) w' (challenge_key P settings c.id) c.t
          s.payload c.code s.users
          (ap is_ascii s.same_code ∙ is_ascii-digits s.code proper.0, ascii) s.same_users)

  -- However requests have interleaved, if Redis and the database can be reached and the time to live of
  -- challenges is not 0: the next request to send a code or to refresh, for whatever mobile or token, and a
  -- waiting check of a code that has ASCII characters only, to the end of its transaction, succeeds, or is
  -- answered by the handlers with 401 or 422, or fails as the database does when it does not take the
  -- commit, or the check its promotion of a user. `get_current_user` returns a user, or is answered with
  -- 401 or 422, for whatever credentials.
  pub Reach-IsAnswered :
      {x y : System P settings}
      → 0 < settings.otp_ttl_sec
      → IsInitial P settings x
      → Reach P settings x y
      → (d : session.Database) (c : Waiting P settings) → Memᴰ c y.waiting
      → is_ascii c.code ≡ true
      → (send : OtpSendRequest) (id draw now set_at : ℕ) (renewal : RefreshRequest Token)
        (decode_at : ℕ) (t : Readings) (given : Option (Credentials Token))
      → let w = world P settings y d in
        let b : Backend P settings = record { store = y.store; database = d } in
        let checked = finish_verify P settings c w in
        IsAnswered w checked.1 (finished P settings checked).0
        × IsAnswered w
            (send_otp P settings send.mobile id draw now set_at w).1
            (otp_send P settings send id draw now set_at b).0
        × IsAnswered w w (renew_tokens P settings renewal decode_at t b).0
        × IsOkOrRefused D M (get_current_user P settings given decode_at (session.begin d)).0
  unfolding otp_send renew_tokens get_db
  Reach-IsAnswered {y = y} lives i r d c waits ascii send id draw now set_at renewal decode_at t
        given =
      let tr = Reach-IsTraced P L settings (IsInitial-IsTraced P L settings _ i) r in
      let w = world P settings y d in
      (
        finished-IsAnswered w (finish_verify P settings c w) (
            finish_verify-IsAnswered y tr d (finish_verify P settings c w).1 c c.raw
              (All-Mem _ y.waiting tr.read waits) ascii refl),
        finished-IsAnswered w (send_otp P settings send.mobile id draw now set_at w) (
            answered (
              send_otp-IsOkOrRefused D M P settings w send.mobile id draw now set_at
                (ground (arith, lives)))),
        subst
            (λ (v : World P settings).
              IsAnswered w v
                (finished P settings
                  (refresh_tokens P settings renewal.refresh_token decode_at t w)).0)
            (refresh_tokens_world P settings w t renewal.refresh_token decode_at)
            (finished-IsAnswered w (refresh_tokens P settings renewal.refresh_token decode_at t w) (
              answered
                (refresh_tokens-IsOkOrRefused D M P settings renewal.refresh_token decode_at t w))),
        get_current_user-IsOkOrRefused D M P settings given decode_at (session.begin d),
      )
