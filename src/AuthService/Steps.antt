-- ===== src/AuthService/Steps.antt =====
-- What `verify_otp` does with a challenge that Redis holds, branch by branch.
use civio.Base.{
  ℕ, ◌+◌, ◌-◌, ◌≤◌, ◌<◌, ◌≡◌, ◌≢◌, ◌∙◌, String, true, false, Option, none, some, List, [], ◌∷◌,
  Text, arith, eq_iff, eq_refl,
}
use civio.Errors.Classes.{Exn, other, num, raised, raised_with, authentication_error}
use civio.Errors.Outcome.{Outcome, ok, err}
use civio.Config.{Settings}
use civio.Platform.Redis.{is_ahead}
use civio.AuthService.Data.{
  Challenge, max_attempts, compare_digest, parse_uuids, Readings, Platform, IsLawful,
}
use civio.Platform.Uuid.{Uuid}
use civio.Action.{◌>>=◌, lift}
use civio.AuthService.Defs.{World, challenge_key, choose_user, check_payload, verify_otp}

-- What `verify_otp` raises for a wrong code, the count before it given.
abbrev pub rejected : {A : Type 0} → ℕ → Outcome A
rejected attempts = err (
    raised_with authentication_error "invalid otp code"
      (("attempts_remaining", num (max_attempts - (attempts + 1))) ∷ []))

-- The four branches of `check_payload`.
module _ (P : Platform) (settings : Settings) (key : String) (p : Challenge) (code : Text)
    (t : Readings) (w : World P settings) where
  pub check_capped :
      max_attempts ≤ p.attempts
      → check_payload P settings key p code t w ≡ (
        err (raised authentication_error "too many otp attempts"),
        record w { store = P.redis.delete w.store key },
      )
  unfolding check_payload
  check_capped spent = ground arith

  pub check_malformed :
      {x : Exn}
      → p.attempts < max_attempts
      → compare_digest p.code code ≡ err x
      → check_payload P settings key p code t w ≡ (err x, w)
  unfolding check_payload
  check_malformed left bad = rw (bad, check_payload) (ground arith)

  pub check_wrong :
      p.attempts < max_attempts
      → compare_digest p.code code ≡ ok false
      → check_payload P settings key p code t w ≡ (
        rejected p.attempts,
        record w {
          store =
              P.redis.set_keepttl w.store t.write_at key
                (P.json.dumps (record p { attempts = p.attempts + 1 }));
        },
      )
  unfolding check_payload
  check_wrong left wrong = rw (wrong, check_payload) (ground arith)

  pub check_right :
      p.attempts < max_attempts
      → compare_digest p.code code ≡ ok true
      → check_payload P settings key p code t w
        ≡ (do
          user_ids ← lift (parse_uuids P.uuid p.user_ids)
          choose_user P settings key user_ids t)
            w
  unfolding check_payload
  check_right left same = rw (same, check_payload) (ground arith)

-- `verify_otp`, by what Redis returns.
module _ (P : Platform) (settings : Settings) (id : ℕ) (code : Text) (t : Readings)
    (w : World P settings) where
  pub verify_absent :
      P.redis.get w.store t.read_at (challenge_key P settings id) ≡ none
      → verify_otp P settings id code t w
        ≡ (err (raised authentication_error "otp challenge expired or not found"), w)
  unfolding verify_otp
  verify_absent h = rw h

  pub verify_unreadable :
      (doc : P.Doc)
      → P.redis.get w.store t.read_at (challenge_key P settings id) ≡ some doc
      → P.json.loads doc ≡ none
      → verify_otp P settings id code t w ≡ (err (other "JSONDecodeError"), w)
  unfolding verify_otp
  verify_unreadable doc h e = rw (h, e)

  pub verify_readable :
      (doc : P.Doc) (p : Challenge)
      → P.redis.get w.store t.read_at (challenge_key P settings id) ≡ some doc
      → P.json.loads doc ≡ some p
      → verify_otp P settings id code t w
        ≡ check_payload P settings (challenge_key P settings id) p code t w
  unfolding verify_otp
  verify_readable doc p h e = rw (h, e)

module _ (P : Platform) (L : IsLawful P) (settings : Settings) where
  open P use {redis, json}

  -- Redis holds the challenge under its key, with this expiry.
  abbrev pub Holds : World P settings → ℕ → Challenge → Option ℕ → Type 0
  Holds w id p expires =
      redis.entry w.store (challenge_key P settings id)
      ≡ some (record { value = json.dumps p; expires = expires })

  pub verify_otp-Holds :
      (w : World P settings) (id : ℕ) (p : Challenge) (expires : Option ℕ) (code : Text)
      (t : Readings)
      → Holds w id p expires
      → is_ahead t.read_at expires ≡ true
      → verify_otp P settings id code t w
        ≡ check_payload P settings (challenge_key P settings id) p code t w
  unfolding verify_otp
  verify_otp-Holds w id p expires code t h a = rw (
    L.redis.get-entry w.store t.read_at (challenge_key P settings id),
    h,
    a,
    L.json.loads-dumps p,
  )

  -- No key but that of the challenge changes.
  abbrev pub SameElsewhere : ℕ → World P settings → World P settings → Type 0
  SameElsewhere id w w' =
      (j : String)
      → j ≢ challenge_key P settings id
      → redis.entry w'.store j ≡ redis.entry w.store j

  -- The world after the write of `redis.set(…, keepttl=True)`.
  abbrev pub counted : World P settings → ℕ → Challenge → ℕ → World P settings
  counted w id p now = record w {
    store =
        redis.set_keepttl w.store now (challenge_key P settings id)
          (json.dumps (record p { attempts = p.attempts + 1 }));
  }

  abbrev pub burned : World P settings → ℕ → World P settings
  burned w id = record w { store = redis.delete w.store (challenge_key P settings id) }

  pub counted-Holds :
      (w : World P settings) (id : ℕ) (p q : Challenge) (expires : Option ℕ) (now : ℕ)
      → Holds w id q expires
      → is_ahead now expires ≡ true
      → Holds (counted w id p now) id (record p { attempts = p.attempts + 1 }) expires
  counted-Holds w id p q expires now h a = rw (L.redis.entry-set_keepttl, h, a, eq_refl)

  pub counted-SameElsewhere :
      (w : World P settings) (id : ℕ) (p : Challenge) (now : ℕ)
      → SameElsewhere id w (counted w id p now)
  counted-SameElsewhere w id p now j ne = ground (
    arith,
    eq_iff j (challenge_key P settings id),
    L.redis.entry-set_keepttl w.store now (challenge_key P settings id) j
        (json.dumps (record p { attempts = p.attempts + 1 })),
  )

  pub burned-absent :
      (w : World P settings) (id : ℕ)
      → redis.entry (burned w id).store (challenge_key P settings id) ≡ none
  burned-absent w id = rw (L.redis.entry-delete, eq_refl)

  pub burned-SameElsewhere : (w : World P settings) (id : ℕ) → SameElsewhere id w (burned w id)
  burned-SameElsewhere w id j ne = ground (
    arith,
    eq_iff j (challenge_key P settings id),
    L.redis.entry-delete w.store (challenge_key P settings id) j,
  )

  -- A wrong code, with attempts left
  pub verify_wrong :
      (w : World P settings) (id : ℕ) (p : Challenge) (expires : Option ℕ) (code : Text)
      (t : Readings)
      → Holds w id p expires
      → is_ahead t.read_at expires ≡ true
      → p.attempts < max_attempts
      → compare_digest p.code code ≡ ok false
      → verify_otp P settings id code t w ≡ (rejected p.attempts, counted w id p t.write_at)
  verify_wrong w id p expires code t h a left wrong =
      verify_otp-Holds w id p expires code t h a
      ∙ check_wrong P settings (challenge_key P settings id) p code t w left wrong

  -- Too many attempts
  pub verify_capped :
      (w : World P settings) (id : ℕ) (p : Challenge) (expires : Option ℕ) (code : Text)
      (t : Readings)
      → Holds w id p expires
      → is_ahead t.read_at expires ≡ true
      → max_attempts ≤ p.attempts
      → verify_otp P settings id code t w
        ≡ (err (raised authentication_error "too many otp attempts"), burned w id)
  verify_capped w id p expires code t h a spent =
      verify_otp-Holds w id p expires code t h a
      ∙ check_capped P settings (challenge_key P settings id) p code t w spent

  -- A code, stored or given, that `compare_digest` does not take
  pub verify_malformed :
      (w : World P settings) (id : ℕ) (p : Challenge) (expires : Option ℕ) (code : Text)
      (t : Readings) {x : Exn}
      → Holds w id p expires
      → is_ahead t.read_at expires ≡ true
      → p.attempts < max_attempts
      → compare_digest p.code code ≡ err x
      → verify_otp P settings id code t w ≡ (err x, w)
  verify_malformed w id p expires code t h a left bad =
      verify_otp-Holds w id p expires code t h a
      ∙ check_malformed P settings (challenge_key P settings id) p code t w left bad

  -- The right code, with attempts left
  pub verify_right :
      (w : World P settings) (id : ℕ) (p : Challenge) (expires : Option ℕ) (code : Text)
      (t : Readings)
      → Holds w id p expires
      → is_ahead t.read_at expires ≡ true
      → p.attempts < max_attempts
      → compare_digest p.code code ≡ ok true
      → verify_otp P settings id code t w
        ≡ (do
          user_ids ← lift (parse_uuids P.uuid p.user_ids)
          choose_user P settings (challenge_key P settings id) user_ids t)
            w
  verify_right w id p expires code t h a left same =
      verify_otp-Holds w id p expires code t h a
      ∙ check_right P settings (challenge_key P settings id) p code t w left same

pub compare_digest-eq-err :
    (a b : Text) {x : Exn} → compare_digest a b ≡ err x → x ≡ other "TypeError"
unfolding compare_digest
compare_digest-eq-err a b h = ground arith

pub parse_uuids-eq-err :
    (U : Uuid) (ss : List String) {x : Exn} → parse_uuids U ss ≡ err x → x ≡ other "ValueError"
unfolding parse_uuids
parse_uuids-eq-err U [] h = cc
parse_uuids-eq-err U (s ∷ ss) {x} h = ground (arith, parse_uuids-eq-err U ss {x = x})
