-- ===== src/AuthService/Guessing.antt =====
-- How often a wrong code is compared: every call of `verify_otp`, on every branch, keeps a budget of
-- attempts for the challenge, so no sequence of calls gets more than five wrong codes checked.
use civio.Base.{
  ℕ, suc, ◌+◌, ◌≤◌, ◌<◌, ◌≡◌, ◌⊎◌, inl, inr, refl, subst, String, Bool, true, false, Option, none,
  some, List, [], ◌∷◌, Text, arith, leb, leb→le, str_eq, eq_refl, Bool-cases, Option-cases,
  if◌then◌else◌,
}
use civio.Errors.Classes.{http_exception, domain, other, request_validation}
use civio.Errors.Outcome.{Outcome, ok, err}
use civio.Config.{Settings}
use civio.Models.Enums.{AuthStatus, pending, verified, revoked}
use civio.Models.User.{User}
use civio.Platform.Redis.{is_ahead, live, kept_expiry}
use civio.AuthService.Data.{
  Challenge, TokenPair, max_attempts, compare_digest, parse_uuids, Readings, Platform, IsLawful,
}
use civio.AuthService.Defs.{World, challenge_key, log_in, choose_user, verify_otp}
use civio.AuthService.Steps.{
  Holds, burned-absent, verify_wrong, verify_capped, verify_malformed, verify_right,
  compare_digest-eq-err, parse_uuids-eq-err,
}
use civio.Action.{◌>>=◌, lift}
use civio.AuthService.LogIn.{
  log_in_absent, log_in_revoked, log_in_verified, log_in_pending, log_in_unflushed, assigned,
}

-- The answer to a wrong code, among all outcomes.
abbrev pub is_rejection : {A : Type 0} → Outcome A → Bool
is_rejection (ok pair) = false
is_rejection (err (domain e)) = str_eq e.message "invalid otp code"
is_rejection (err (request_validation errors)) = false
is_rejection (err (http_exception status d)) = false
is_rejection (err (other name)) = false

module _ (P : Platform) (L : IsLawful P) (settings : Settings) where
  open P use {redis, session, uuid, json}

  -- An outcome that is no rejection, and a store that is unchanged or has lost the key.
  abbrev pub IsQuiet :
      World P settings → String → Outcome (TokenPair P.Token) × World P settings → Type 0
  IsQuiet w key (r, w') =
      (is_rejection r ≡ false) × ((w'.store ≡ w.store) ⊎ (w'.store ≡ redis.delete w.store key))

  module _ (w : World P settings) (key : String) (id : ℕ) (t : Readings) where
    log_in_user-IsQuiet :
        (u : User) (s : AuthStatus)
        → session.get w.rows id ≡ some u
        → u.auth_status ≡ s
        → IsQuiet w key (log_in P settings key id t w)
    log_in_user-IsQuiet u revoked h s =
        rw (log_in_revoked P settings w key id t u h s) (refl, inl refl)
    log_in_user-IsQuiet u verified h s =
        rw (log_in_verified P settings w key id t u h s) (refl, inr refl)
    log_in_user-IsQuiet u pending h s = flush_cases (session.flush (assigned P settings w u)) refl
      where
        flush_cases :
            (o : Outcome session.State)
            → session.flush (assigned P settings w u) ≡ o
            → IsQuiet w key (log_in P settings key id t w)
        flush_cases (ok s') e = rw (log_in_pending P settings w key id t u h s e) (refl, inr refl)
        flush_cases (err x) e =
            let (name, named) = L.session.flush-other _ e in
            rw (log_in_unflushed P settings w key id t u h s e, named) (refl, inl refl)

    log_in-IsQuiet : IsQuiet w key (log_in P settings key id t w)
    log_in-IsQuiet = elim (Option-cases (session.get w.rows id)) [
      | inl absent ↦ rw (log_in_absent P settings w key id t absent) (refl, inr refl)
      | inr (u, found) ↦ log_in_user-IsQuiet u u.auth_status found refl
    ]

  pub choose_user-IsQuiet :
      (w : World P settings) (key : String) (ids : List ℕ) (t : Readings)
      → IsQuiet w key (choose_user P settings key ids t w)
  unfolding choose_user
  choose_user-IsQuiet w key (id ∷ []) t = log_in-IsQuiet w key id t
  choose_user-IsQuiet w key [] t = (refl, inr refl)
  choose_user-IsQuiet w key (a ∷ b ∷ ids) t = (refl, inr refl)

  -- The challenge is gone, or its count of wrong codes is `n`.
  abbrev pub Budget : World P settings → ℕ → ℕ → Type 0
  Budget w id n =
      (redis.entry w.store (challenge_key P settings id) ≡ none)
      ⊎ ((p : Challenge) × (e : Option ℕ) × Holds P L settings w id p e × (p.attempts ≡ n))

  abbrev pub tally : Outcome (TokenPair P.Token) → ℕ → ℕ
  tally r n = if is_rejection r then suc n else n

  abbrev Kept : ℕ → ℕ → Outcome (TokenPair P.Token) × World P settings → Type 0
  Kept id n (r, w') = (tally r n ≤ max_attempts) × Budget w' id (tally r n)

  Kept-quiet :
      (w : World P settings) (id n : ℕ) (out : Outcome (TokenPair P.Token) × World P settings)
      → n ≤ max_attempts
      → Budget w id n
      → IsQuiet w (challenge_key P settings id) out
      → Kept id n out
  Kept-quiet w id n (r, w') small b (quiet, inl same) = rw quiet (small, rw same b)
  Kept-quiet w id n (r, w') small b (quiet, inr gone) =
      rw quiet (small, inl (rw gone (burned-absent P L settings w id)))

  verify_absent :
      (w : World P settings) (id : ℕ) (code : Text) (t : Readings)
      → redis.get w.store t.read_at (challenge_key P settings id) ≡ none
      → IsQuiet w (challenge_key P settings id) (verify_otp P settings id code t w)
  unfolding verify_otp
  verify_absent w id code t h = rw h (refl, inl refl)

  pub parsed-IsQuiet :
      (w : World P settings) (key : String) (ss : List String) (t : Readings) (o : Outcome (List ℕ))
      → parse_uuids uuid ss ≡ o
      → IsQuiet w key ((do ids ← lift o; choose_user P settings key ids t) w)
  parsed-IsQuiet w key ss t (ok ids) h = choose_user-IsQuiet w key ids t
  parsed-IsQuiet w key ss t (err x) h = rw (parse_uuids-eq-err uuid ss h) (refl, inl refl)

  compared :
      (w : World P settings) (id n : ℕ) (p : Challenge) (e : Option ℕ) (code : Text) (t : Readings)
      (o : Outcome Bool)
      → n ≤ max_attempts
      → Holds P L settings w id p e
      → p.attempts ≡ n
      → is_ahead t.read_at e ≡ true
      → p.attempts < max_attempts
      → compare_digest p.code code ≡ o
      → Kept id n (verify_otp P settings id code t w)
  compared w id n p e code t (ok false) small h a now left c =
      rw (verify_wrong P L settings w id p e code t h now left c) (
        omega arith,
        inr (
          record p { attempts = p.attempts + 1 },
          kept_expiry (live t.write_at (redis.entry w.store (challenge_key P settings id))),
          rw (L.redis.entry-set_keepttl, eq_refl),
          omega arith,
        ),
      )
  compared w id n p e code t (ok true) small h a now left c =
      Kept-quiet w id n (verify_otp P settings id code t w) small (inr (p, e, h, a)) (
        rw (verify_right P L settings w id p e code t h now left c) (
          parsed-IsQuiet w (challenge_key P settings id) p.user_ids t (parse_uuids uuid p.user_ids)
            refl))
  compared w id n p e code t (err x) small h a now left c =
      Kept-quiet w id n (verify_otp P settings id code t w) small (inr (p, e, h, a)) (
        rw
          (
            verify_malformed P L settings w id p e code t h now left c,
            compare_digest-eq-err p.code code c,
          )
          (refl, inl refl))

  -- Every call of `verify_otp`, with any code at any time, rejects a code only while fewer than five
  -- have been rejected, and keeps the count in the challenge, unless it leaves no challenge.
  verify_otp-Budget :
      (w : World P settings) (id n : ℕ) (code : Text) (t : Readings)
      → n ≤ max_attempts
      → Budget w id n
      → Kept id n (verify_otp P settings id code t w)
  verify_otp-Budget w id n code t small (inl absent) =
      Kept-quiet w id n (verify_otp P settings id code t w) small (inl absent)
        (verify_absent w id code t (rw (L.redis.get-entry, absent)))
  verify_otp-Budget w id n code t small (inr (p, e, h, a)) =
      elim (Bool-cases (is_ahead t.read_at e)) [
        | inr late ↦
            Kept-quiet w id n (verify_otp P settings id code t w) small (inr (p, e, h, a))
              (verify_absent w id code t (rw (L.redis.get-entry, h, late)))
        | inl now ↦ elim (Bool-cases (leb max_attempts p.attempts)) [
          | inl spent ↦
              Kept-quiet w id n (verify_otp P settings id code t w) small (inr (p, e, h, a)) (
                rw (verify_capped P L settings w id p e code t h now (leb→le _ _ spent))
                  (refl, inr refl))
          | inr left ↦
              compared w id n p e code t (compare_digest p.code code) small h a now (ground arith)
                refl
        ]
      ]

  -- What happens to a challenge: calls of `verify_otp` for it, with their outcomes counted, and anything
  -- else that leaves its entry alone or lets it lapse.
  pub data History (id : ℕ) (w₀ : World P settings) : ℕ → World P settings → Type 0 where
    begin : History id w₀ 0 w₀
    call :
        {n m : ℕ} {w w' : World P settings}
        → History id w₀ n w
        → (code : Text) (t : Readings) (r : Outcome (TokenPair P.Token))
        → verify_otp P settings id code t w ≡ (r, w')
        → m ≡ tally r n
        → History id w₀ m w'
    elsewhere :
        {n : ℕ} {w : World P settings}
        → History id w₀ n w
        → (w' : World P settings)
        → redis.entry w'.store (challenge_key P settings id)
          ≡ redis.entry w.store (challenge_key P settings id)
        → History id w₀ n w'
    lapse :
        {n : ℕ} {w : World P settings}
        → History id w₀ n w
        → (w' : World P settings) → redis.entry w'.store (challenge_key P settings id) ≡ none
        → History id w₀ n w'

  tally-add : (r : Outcome (TokenPair P.Token)) (k n : ℕ) → tally r (k + n) ≡ k + tally r n
  tally-add r k n = ground arith

  called :
      (id k n m : ℕ) (out : Outcome (TokenPair P.Token) × World P settings)
      (r : Outcome (TokenPair P.Token)) (w' : World P settings)
      → Kept id (k + n) out
      → out ≡ (r, w')
      → m ≡ tally r n
      → (k + m ≤ max_attempts) × Budget w' id (k + m)
  called id k n m out r w' kept done e =
      let kept' : Kept id (k + n) (r, w') = subst (Kept id (k + n)) done kept in
      rw (e, ← tally-add r k n) kept'

  -- In every history of a challenge that starts with a count of at most five, the codes rejected since
  -- then and that count come to at most five, and the challenge is gone or holds their sum.
  pub rejections-le-max_attempts :
      {id : ℕ} {w₀ : World P settings} (p : Challenge) (e : Option ℕ) {n : ℕ} {w : World P settings}
      → Holds P L settings w₀ id p e
      → p.attempts ≤ max_attempts
      → History id w₀ n w
      → (p.attempts + n ≤ max_attempts) × Budget w id (p.attempts + n)
  rejections-le-max_attempts p e h small begin = (omega arith, inr (p, e, h, omega arith))
  rejections-le-max_attempts {id} p e h small (call {n} {w} {w'} before code t r done m) =
      let (le, b) = rejections-le-max_attempts p e h small before in
      called id p.attempts n _ _ r w' (verify_otp-Budget w id (p.attempts + n) code t le b) done m
  rejections-le-max_attempts p e h small (elsewhere before w' same) =
      let (le, b) = rejections-le-max_attempts p e h small before in (le, rw same b)
  rejections-le-max_attempts p e h small (lapse before w' gone) =
      let (le, b) = rejections-le-max_attempts p e h small before in (le, inl gone)
