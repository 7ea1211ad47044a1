-- ===== src/Api/Transactions.antt =====
-- What a request leaves in the database when it fails.
use civio.Base.{
  ℕ, ◌≡◌, refl, ◌∙◌, Bool, true, false, Option, none, some, List, [], ◌∷◌, String, if◌then◌else◌,
  leb, not, Text, ap, inl, inr, Bool-cases,
}
use civio.Errors.Classes.{other}
use civio.Errors.Outcome.{Outcome, ok, err}
use civio.Action.{Action, proceed, ◌>>=◌, pure, lift, or_throw}
use civio.Config.{Settings}
use civio.Models.Enums.{AuthStatus, pending, verified, revoked}
use civio.Models.User.{User}
use civio.AuthService.Data.{
  Challenge, TokenPair, Readings, Platform, IsLawful, compare_digest, parse_uuids, max_attempts,
}
use civio.AuthService.LogIn.{issue_tokens_lem}
use civio.AuthService.Defs.{
  World, flush, flushed, promote_or_check_status, promote_or_check, issue_tokens, log_in_user,
  log_in, choose_user, reject_code, check_payload, verify_raw, verify_otp,
}
use civio.Api.Defs.{
  Backend, get_db, otp_verify, OtpVerifyRequest, get_auth_service, committed, finished,
}

module _ (P : Platform) (L : IsLawful P) (settings : Settings) where
  open P use {Token, redis, session, uuid, json}

  -- A step goes on in the same transaction: the database that a rollback goes back to stays the same.
  abbrev pub IsWithin : {A : Type 0} → Action (World P settings) A → Type 0
  IsWithin m = (w : World P settings) → session.base (m w).1.rows ≡ session.base w.rows

  proceed-IsWithin :
      {A B : Type 0} (f : A → Action (World P settings) B)
      → ((a : A) → IsWithin (f a))
      → (x : Outcome A × World P settings)
      → session.base (proceed f x).1.rows ≡ session.base x.1.rows
  proceed-IsWithin f h (ok a, w) = h a w
  proceed-IsWithin f h (err e, w) = refl

  bind-IsWithin :
      {A B : Type 0} (m : Action (World P settings) A) (f : A → Action (World P settings) B)
      → IsWithin m
      → ((a : A) → IsWithin (f a))
      → IsWithin (m >>= f)
  bind-IsWithin m f hm hf w = proceed-IsWithin f hf (m w) ∙ hm w

  flushed-base :
      (w : World P settings) (o : Outcome session.State)
      → session.flush w.rows ≡ o
      → session.base (flushed P settings w o).1.rows ≡ session.base w.rows
  flushed-base w (ok s) h = L.session.base-flush w.rows h
  flushed-base w (err e) h = refl

  flush-IsWithin : IsWithin (flush P settings)
  unfolding flush
  flush-IsWithin w = flushed-base w (session.flush w.rows) refl

  promote_or_check_status-IsWithin :
      (s : AuthStatus) (u : User) → IsWithin (promote_or_check_status P settings s u)
  unfolding promote_or_check_status
  promote_or_check_status-IsWithin revoked u w = refl
  promote_or_check_status-IsWithin verified u w = refl
  promote_or_check_status-IsWithin pending u w =
      bind-IsWithin (flush P settings) (λ done. pure (record u { auth_status = verified }))
        flush-IsWithin (λ done x. refl) _
      ∙ L.session.base-assign w.rows u.id _

  issue_tokens-IsWithin : (u : User) (t : Readings) → IsWithin (issue_tokens P settings u t)
  issue_tokens-IsWithin u t w =
      ap (λ (x : Outcome (TokenPair Token) × World P settings). session.base x.1.rows)
        (issue_tokens_lem P settings u t w)

  log_in_user-IsWithin :
      (key : String) (o : Option User) (t : Readings) → IsWithin (log_in_user P settings key o t)
  unfolding log_in_user promote_or_check
  log_in_user-IsWithin key none t w = refl
  log_in_user-IsWithin key (some u) t w =
      bind-IsWithin (promote_or_check_status P settings u.auth_status u)
        (λ v x. issue_tokens P settings v t (record x { store = redis.delete x.store key }))
        (promote_or_check_status-IsWithin u.auth_status u) (λ v x. issue_tokens-IsWithin v t _) w

  choose_user-IsWithin :
      (key : String) (ids : List ℕ) (t : Readings) → IsWithin (choose_user P settings key ids t)
  unfolding choose_user log_in
  choose_user-IsWithin key [] t w = refl
  choose_user-IsWithin key (i ∷ []) t w = log_in_user-IsWithin key _ t w
  choose_user-IsWithin key (i ∷ j ∷ ids) t w = refl

  parsed-IsWithin :
      (key : String) (o : Outcome (List ℕ)) (t : Readings)
      → IsWithin (do user_ids ← lift o; choose_user P settings key user_ids t)
  parsed-IsWithin key (err e) t w = refl
  parsed-IsWithin key (ok ids) t w = choose_user-IsWithin key ids t w

  compared-IsWithin :
      (key : String) (c : Challenge) (o : Outcome Bool) (t : Readings)
      → IsWithin (do
        same ← lift o
        if not same then reject_code P settings key c t else do
          user_ids ← lift (parse_uuids uuid c.user_ids)
          choose_user P settings key user_ids t)
  unfolding reject_code
  compared-IsWithin key c (err e) t w = refl
  compared-IsWithin key c (ok false) t w = refl
  compared-IsWithin key c (ok true) t w = parsed-IsWithin key (parse_uuids uuid c.user_ids) t w

  check_payload-IsWithin :
      (key : String) (c : Challenge) (code : Text) (t : Readings)
      → IsWithin (check_payload P settings key c code t)
  unfolding check_payload
  check_payload-IsWithin key c code t w = elim (Bool-cases (leb max_attempts c.attempts)) [
    | inl spent ↦ rw spent refl
    | inr left ↦ rw left (compared-IsWithin key c (compare_digest c.code code) t w)
  ]

  payload-IsWithin :
      (key : String) (o : Option Challenge) (code : Text) (t : Readings)
      → IsWithin (do
        payload ← or_throw o (other "JSONDecodeError")
        check_payload P settings key payload code t)
  payload-IsWithin key none code t w = refl
  payload-IsWithin key (some c) code t w = check_payload-IsWithin key c code t w

  verify_raw-IsWithin :
      (key : String) (o : Option P.Doc) (code : Text) (t : Readings)
      → IsWithin (verify_raw P settings key o code t)
  unfolding verify_raw
  verify_raw-IsWithin key none code t w = refl
  verify_raw-IsWithin key (some doc) code t w = payload-IsWithin key (json.loads doc) code t w

  verify_otp-IsWithin :
      (id : ℕ) (code : Text) (t : Readings) → IsWithin (verify_otp P settings id code t)
  unfolding verify_otp
  verify_otp-IsWithin id code t w = verify_raw-IsWithin _ _ code t w

  -- How a body that stays within its transaction ends.
  abbrev pub Ended :
      {A : Type 0} → session.Database → World P settings → Outcome A × Backend P settings → Type 0
  Ended d w (ok a, b) = session.commit w.rows ≡ ok b.database
  Ended d w (err e, b) = b.database ≡ d

  committed-Ended :
      {A : Type 0} (d : session.Database) (w : World P settings) (a : A)
      (o : Outcome session.Database)
      → session.base w.rows ≡ d
      → session.commit w.rows ≡ o
      → Ended d w (committed P settings w a o)
  committed-Ended d w a (ok d') h c = c
  committed-Ended d w a (err e) h c = L.session.rollback-base w.rows ∙ h

  finished-Ended :
      {A : Type 0} (d : session.Database) (x : Outcome A × World P settings)
      → session.base x.1.rows ≡ d
      → Ended d x.1 (finished P settings x)
  finished-Ended d (ok a, w) h = committed-Ended d w a (session.commit w.rows) h refl
  finished-Ended d (err e, w) h = L.session.rollback-base w.rows ∙ h

  committed-store :
      {A : Type 0} (w : World P settings) (a : A) (o : Outcome session.Database)
      → (committed P settings w a o).1.store ≡ w.store
  committed-store w a (ok d) = refl
  committed-store w a (err e) = refl

  finished-store :
      {A : Type 0} (x : Outcome A × World P settings) → (finished P settings x).1.store ≡ x.1.store
  finished-store (ok a, w) = committed-store w a (session.commit w.rows)
  finished-store (err e, w) = refl

  -- A request of `POST /auth/otp/verify` that succeeds leaves the database that the commit of its session
  -- made, and one that fails, in whatever step, the commit included, leaves the database as it was. In both
  -- cases what it did to Redis stays.
  pub otp_verify-Ended :
      (request : OtpVerifyRequest) (t : Readings) (b : Backend P settings)
      → let w' =
          (verify_otp P settings request.challenge_id request.code t
            (get_auth_service P settings b)).1 in
        let out = otp_verify P settings request t b in
        Ended b.database w' out × (out.1.store ≡ w'.store)
  unfolding otp_verify get_db
  otp_verify-Ended request t b = (
    finished-Ended b.database
        (verify_otp P settings request.challenge_id request.code t (get_auth_service P settings b))
        (verify_otp-IsWithin request.challenge_id request.code t _
          ∙ L.session.base-begin b.database),
    finished-store
        (verify_otp P settings request.challenge_id request.code t (get_auth_service P settings b)),
  )
