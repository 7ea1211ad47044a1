-- ===== src/AuthService/Success.antt =====
-- When `verify_otp` hands out tokens: what must have been in Redis and in the database, and what is left.
use civio.Base.{
  ℕ, ◌<◌, ◌≡◌, ◌≢◌, inl, inr, refl, ap, sym, ◌∙◌, String, Bool, true, false, some, List, [], ◌∷◌,
  Text, text_eq_iff, arith, leb, leb→le, Bool-cases, Option-cases,
}
use civio.Errors.Outcome.{Outcome, ok, err}
use civio.Action.{◌>>=◌, lift}
use civio.Config.{Settings}
use civio.Models.Enums.{AuthStatus, pending, verified, revoked}
use civio.Models.User.{User}
use civio.AuthService.Data.{
  Challenge, TokenPair, max_attempts, compare_digest, parse_uuids, Readings, Platform, IsLawful,
}
use civio.AuthService.Defs.{World, challenge_key, log_in, choose_user, check_payload, verify_otp}
use civio.AuthService.Steps.{
  verify_absent, verify_unreadable, verify_readable, check_capped, check_wrong, check_right,
  check_malformed,
}
use civio.AuthService.LogIn.{
  pair_of, promoted, assigned, log_in_absent, log_in_revoked, log_in_verified, log_in_pending,
  log_in_unflushed,
}

compare_digest-eq-true : (a b : Text) → compare_digest a b ≡ ok true → a ≡ b
unfolding compare_digest
compare_digest-eq-true a b h = (text_eq_iff a b).0 (ground arith)

ok-injective : {A : Type 0} {a b : A} → ◌≡◌ {A = Outcome A} (ok a) (ok b) → a ≡ b
ok-injective h = cc

module _ (P : Platform) (L : IsLawful P) (settings : Settings) where
  open P use {Token, Doc, redis, session, uuid, json}

  abbrev Result : Type 0
  Result = Outcome (TokenPair Token) × World P settings

  -- The user that a login ends with, and the state that it leaves.
  pub record LoggedIn (w : World P settings) (key : String) (id : ℕ) (t : Readings)
      (pair : TokenPair Token) (w' : World P settings) : Type 0 where
    pub user : User
    pub found : session.get w.rows id ≡ some user
    pub allowed : user.auth_status ≢ revoked
    pub now_verified : session.get w'.rows id ≡ some (promoted P settings user)
    pub issued : pair ≡ pair_of P settings (promoted P settings user) t
    pub burned : w'.store ≡ redis.delete w.store key

  module _ (w : World P settings) (key : String) (id : ℕ) (t : Readings) {pair : TokenPair Token}
      {w' : World P settings} where
    log_in_user-LoggedIn :
        (u : User) (s : AuthStatus)
        → u.id ≡ id
        → session.get w.rows id ≡ some u
        → u.auth_status ≡ s
        → log_in P settings key id t w ≡ (ok pair, w')
        → LoggedIn w key id t pair w'
    log_in_user-LoggedIn u revoked k f s h = cc (log_in_revoked P settings w key id t u f s)
    log_in_user-LoggedIn u verified k f s h =
        let e : ◌≡◌ {A = Result} (ok pair, w')
            (ok (pair_of P settings u t), record w { store = redis.delete w.store key }) =
          sym h ∙ log_in_verified P settings w key id t u f s in
        let same : u ≡ promoted P settings u = λ i. record u { auth_status = s i } in
        record {
          user = u;
          found = f;
          allowed = λ r. cc;
          now_verified = ap (λ (x : Result). session.get x.1.rows id) e ∙ f ∙ ap some same;
          issued =
              ok-injective (ap (λ (x : Result). x.0) e) ∙ ap (λ x. pair_of P settings x t) same;
          burned = ap (λ (x : Result). x.1.store) e;
        }
    log_in_user-LoggedIn u pending k f s h =
        flush_cases (session.flush (assigned P settings w u)) refl
      where
        flush_cases :
            (o : Outcome session.State)
            → session.flush (assigned P settings w u) ≡ o
            → LoggedIn w key id t pair w'
        flush_cases (err x) e = cc (log_in_unflushed P settings w key id t u f s e)
        flush_cases (ok s') flushed =
            let e : ◌≡◌ {A = Result} (ok pair, w')
                (
                  ok (pair_of P settings u t),
                  record { store = redis.delete w.store key; rows = s' },
                ) =
              sym h ∙ log_in_pending P settings w key id t u f s flushed in
            record {
              user = u;
              found = f;
              allowed = λ r. cc;
              now_verified =
                  ap (λ (x : Result). session.get x.1.rows id) e
                  ∙ L.session.get-flush _ id flushed
                  ∙ L.session.get-assign w.rows u.id id (promoted P settings)
                  ∙ ground (arith, ap (λ (i : ℕ). session.get w.rows i) k);
              issued = ok-injective (ap (λ (x : Result). x.0) e);
              burned = ap (λ (x : Result). x.1.store) e;
            }

    log_in-LoggedIn :
        (d : session.Database)
        → w.rows ≡ session.begin d
        → log_in P settings key id t w ≡ (ok pair, w')
        → LoggedIn w key id t pair w'
    log_in-LoggedIn d fresh h = elim (Option-cases (session.get w.rows id)) [
      | inl absent ↦ cc (log_in_absent P settings w key id t absent)
      | inr (u, f) ↦
          log_in_user-LoggedIn u u.auth_status
            (L.session.get-key d id (ap (λ (x : session.State). session.get x id) (sym fresh) ∙ f))
            f refl h
    ]

  -- What a success from `json.loads` on rests on and leaves: attempts left, this code, exactly one user,
  -- and the login of that user.
  pub record Accepted (w : World P settings) (key : String) (challenge : Challenge) (code : Text)
      (t : Readings) (pair : TokenPair Token) (w' : World P settings) : Type 0 where
    pub attempts_left : challenge.attempts < max_attempts
    pub same_code : challenge.code ≡ code
    pub id : ℕ
    pub only_user : parse_uuids uuid challenge.user_ids ≡ ok (id ∷ [])
    pub login : LoggedIn w key id t pair w'

  -- What a successful `verify_otp` rests on and leaves: a challenge that Redis returned and that was
  -- accepted.
  pub record Redeemed (w : World P settings) (challenge_id : ℕ) (code : Text) (t : Readings)
      (pair : TokenPair Token) (w' : World P settings) : Type 0 where
    pub doc : Doc
    pub stored : redis.get w.store t.read_at (challenge_key P settings challenge_id) ≡ some doc
    pub challenge : Challenge
    pub readable : json.loads doc ≡ some challenge
    pub accepted : Accepted w (challenge_key P settings challenge_id) challenge code t pair w'
    pub open accepted use *

  module _ (w : World P settings) (d : session.Database) (fresh : w.rows ≡ session.begin d)
      (key : String) (c : Challenge) (code : Text) (t : Readings) {pair : TokenPair Token}
      {w' : World P settings} where
    chosen-Accepted :
        (ids : List ℕ)
        → c.attempts < max_attempts
        → c.code ≡ code
        → parse_uuids uuid c.user_ids ≡ ok ids
        → choose_user P settings key ids t w ≡ (ok pair, w')
        → Accepted w key c code t pair w'
    unfolding choose_user
    chosen-Accepted [] a e p h = cc
    chosen-Accepted (id ∷ []) a e p h = record {
      attempts_left = a;
      same_code = e;
      id = id;
      only_user = p;
      login = log_in-LoggedIn w key id t d fresh h;
    }
    chosen-Accepted (x ∷ y ∷ ids) a e p h = cc

    parsed-Accepted :
        (o : Outcome (List ℕ))
        → c.attempts < max_attempts
        → c.code ≡ code
        → parse_uuids uuid c.user_ids ≡ o
        → (do ids ← lift o; choose_user P settings key ids t) w ≡ (ok pair, w')
        → Accepted w key c code t pair w'
    parsed-Accepted (ok ids) a e p h = chosen-Accepted ids a e p h
    parsed-Accepted (err x) a e p h = cc

    compared-Accepted :
        (o : Outcome Bool)
        → c.attempts < max_attempts
        → compare_digest c.code code ≡ o
        → check_payload P settings key c code t w ≡ (ok pair, w')
        → Accepted w key c code t pair w'
    compared-Accepted (ok true) a o h =
        parsed-Accepted (parse_uuids uuid c.user_ids) a (compare_digest-eq-true c.code code o) refl
          (sym (check_right P settings key c code t w a o) ∙ h)
    compared-Accepted (ok false) a o h = cc (check_wrong P settings key c code t w a o)
    compared-Accepted (err x) a o h = cc (check_malformed P settings key c code t w a o)

    pub check_payload-Accepted :
        check_payload P settings key c code t w ≡ (ok pair, w') → Accepted w key c code t pair w'
    check_payload-Accepted h = elim (Bool-cases (leb max_attempts c.attempts)) [
      | inl spent ↦ cc (check_capped P settings key c code t w (leb→le _ _ spent))
      | inr left ↦ compared-Accepted (compare_digest c.code code) (ground arith) refl h
    ]

  module _ (w : World P settings) (d : session.Database) (fresh : w.rows ≡ session.begin d)
      (challenge_id : ℕ) (code : Text) (t : Readings) {pair : TokenPair Token}
      {w' : World P settings} where
    -- In a fresh session, tokens are handed out only for a challenge that Redis returned, with attempts
    -- left, whose code is the given one and which names exactly one user. That user exists and is not
    -- revoked; afterwards the session has it verified, the tokens are its own, and the key is deleted.
    pub verify_otp-Redeemed :
        verify_otp P settings challenge_id code t w ≡ (ok pair, w')
        → Redeemed w challenge_id code t pair w'
    verify_otp-Redeemed h =
        elim (Option-cases (redis.get w.store t.read_at (challenge_key P settings challenge_id))) [
          | inl absent ↦ cc (verify_absent P settings challenge_id code t w absent)
          | inr (doc, s) ↦ elim (Option-cases (json.loads doc)) [
            | inl unreadable ↦
                cc (verify_unreadable P settings challenge_id code t w doc s unreadable)
            | inr (c, r) ↦ record {
              doc = doc;
              stored = s;
              challenge = c;
              readable = r;
              accepted =
                  check_payload-Accepted w d fresh (challenge_key P settings challenge_id) c code t
                    (sym (verify_readable P settings challenge_id code t w doc c s r) ∙ h);
            }
          ]
        ]
