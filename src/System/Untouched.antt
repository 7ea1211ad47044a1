-- ===== src/System/Untouched.antt =====
-- The steps that are not about a given challenge, and what Redis holds for it.
use civio.Base.{
  ℕ, ◌≡◌, ◌≢◌, inl, inr, refl, ap, ◌∙◌, String, eq_iff, Option, none, some, List, [], ◌∷◌, ◌++◌,
  Text, arith, Option-cases, Bool-cases, ◌==◌,
}
use civio.Errors.Outcome.{Outcome, ok, err}
use civio.Config.{Settings}
use civio.Models.User.{User}
use civio.Platform.Redis.{Redis, IsLawful, Entry}
use civio.Repositories.UserRepo.{list_by_mobile}
use civio.AuthService.Data.{Challenge, OtpChallenge, TokenPair, Readings, Platform}
use civio.AuthService.Data
use civio.AuthService.Defs.{World, challenge_key, verify_raw, send_otp, refresh_tokens}
use civio.AuthService.Lifecycle.{send_otp_found, send_otp_unset}
use civio.AuthService.Race.{Waiting, finish_verify}
use civio.AuthService.Effects.{refresh_tokens_world}
use civio.System.Defs.{
  Event, System, world, after_send, after_verify, after_refresh, Step, send, begin, finish, renew,
  lapse, Reach, here, next,
}
use civio.System.Provenance.{challenge_key-injective}
use civio.System.Writes.{Writes, check_payload-Writes, finish_absent}

-- The three writes, seen from another key.
module _ {V : Type 0} (R : Redis V) (L : IsLawful R) (s : R.Store) {j k : String} (ne : j ≢ k) where
  delete-elsewhere : R.entry (R.delete s k) j ≡ R.entry s j
  delete-elsewhere = ground (arith, eq_iff j k, L.entry-delete s k j)

  setex-elsewhere : (now ttl : ℕ) (v : V) → R.entry (R.setex s now k ttl v) j ≡ R.entry s j
  setex-elsewhere now ttl v = ground (arith, eq_iff j k, L.entry-setex s now ttl k j v)

  set_keepttl-elsewhere : (now : ℕ) (v : V) → R.entry (R.set_keepttl s now k v) j ≡ R.entry s j
  set_keepttl-elsewhere now v = ground (arith, eq_iff j k, L.entry-set_keepttl s now k j v)

module _ (P : Platform) (L : Data.IsLawful P) (settings : Settings) where
  open P use {Token, Doc, redis, session, json}

  written-elsewhere :
      (w : World P settings) (key j : String) (p : Challenge) (t : Readings) {s' : redis.Store}
      → j ≢ key
      → Writes P L settings w key p t s'
      → redis.entry s' j ≡ redis.entry w.store j
  written-elsewhere w key j p t ne (inl same) = rw same refl
  written-elsewhere w key j p t ne (inr (inl gone)) =
      rw gone (delete-elsewhere redis L.redis w.store ne)
  written-elsewhere w key j p t ne (inr (inr counted)) =
      rw counted (set_keepttl-elsewhere redis L.redis w.store ne t.write_at _)

  -- A call that goes on, whatever text it has read.
  finish_verify-elsewhere :
      (w : World P settings) (c : Waiting P settings) (j : String) (o : Option Doc)
      → j ≢ challenge_key P settings c.id
      → c.raw ≡ o
      → redis.entry (finish_verify P settings c w).1.store j ≡ redis.entry w.store j
  unfolding finish_verify verify_raw
  finish_verify-elsewhere w c j none ne h = rw (finish_absent P L settings w c h) refl
  finish_verify-elsewhere w c j (some doc) ne h = elim (Option-cases (json.loads doc)) [
    | inl bad ↦ rw (h, bad) refl
    | inr (p, good) ↦
        rw (h, good)
          (written-elsewhere w (challenge_key P settings c.id) j p c.t ne
            (check_payload-Writes P L settings w (challenge_key P settings c.id) p c.code c.t))
  ]

  -- A step that is not about this challenge: no code is sent for it, no call goes on that checks a code
  -- for it, and its key does not lapse.
  abbrev pub IsElsewhere : (id : ℕ) {x y : System P settings} → Step P settings x y → Type 0
  IsElsewhere id (send d mobile i draw now set_at e) = id ≢ i
  IsElsewhere id (begin d i code t e) = Unit {0}
  IsElsewhere id (finish d before after c found e) = id ≢ c.id
  IsElsewhere id (renew d token decode_at t shown e) = Unit {0}
  IsElsewhere id (lapse key e) = challenge_key P settings id ≢ key

  abbrev pub AreElsewhere : (id : ℕ) {x y : System P settings} → Reach P settings x y → Type 0
  AreElsewhere id here = Unit {0}
  AreElsewhere id (next r s) = AreElsewhere id r × IsElsewhere id s

  -- What Redis holds for the challenge
  abbrev pub held : ℕ → redis.Store → Option (Entry Doc)
  held id s = redis.entry s (challenge_key P settings id)

  other_key : {i j : ℕ} → i ≢ j → challenge_key P settings i ≢ challenge_key P settings j
  other_key {i} {j} ne same = ne (challenge_key-injective P L settings i j same)

  after_send-elsewhere :
      (x : System P settings) (d : session.Database) (mobile : Text) (i draw now set_at id : ℕ)
      (event : Event Token) (users : List User)
      → id ≢ i
      → list_by_mobile session (session.begin d) mobile ≡ users
      → held id
          (after_send P settings x event
            (send_otp P settings mobile i draw now set_at (world P settings x d))).store
        ≡ held id x.store
  unfolding send_otp
  after_send-elsewhere x d mobile i draw now set_at id event [] ne h = rw h refl
  after_send-elsewhere x d mobile i draw now set_at id event (u ∷ us) ne h =
      let w = world P settings x d in
      elim (Bool-cases (settings.otp_ttl_sec == 0)) [
        | inl dead ↦ rw (send_otp_unset P L settings w mobile i draw now set_at u us dead h) refl
        | inr lives ↦
            rw (send_otp_found P L settings w mobile i draw now set_at u us lives h)
              (setex-elsewhere redis L.redis x.store (other_key ne) set_at settings.otp_ttl_sec _)
      ]

  after_verify_store :
      (x : System P settings) (rest : List (Waiting P settings)) (c : Waiting P settings)
      (out : Outcome (TokenPair Token) × World P settings)
      → (after_verify P settings x rest c out).store ≡ out.1.store
  after_verify_store x rest c (ok pair, w) = refl
  after_verify_store x rest c (err e, w) = refl

  after_refresh_store :
      (x : System P settings) (out : Outcome (TokenPair Token) × World P settings)
      → (after_refresh P settings x out).store ≡ out.1.store
  after_refresh_store x (ok pair, w) = refl
  after_refresh_store x (err e, w) = refl

  Step-elsewhere :
      {x y : System P settings} (id : ℕ) (s : Step P settings x y)
      → IsElsewhere id s
      → held id y.store ≡ held id x.store
  Step-elsewhere {x} id (send d mobile i draw now set_at e) ne =
      rw e (after_send-elsewhere x d mobile i draw now set_at id _ _ ne refl)
  Step-elsewhere id (begin d i code t e) _ = rw e refl
  Step-elsewhere {x} id (finish d before after c found e) ne = rw e (
      ap (held id) (
        after_verify_store x (before ++ after) c
          (finish_verify P settings c (world P settings x d)))
      ∙ finish_verify-elsewhere (world P settings x d) c (challenge_key P settings id) c.raw
          (other_key ne) refl)
  Step-elsewhere {x} id (renew d token decode_at t shown e) _ = rw e (
      ap (held id)
        (after_refresh_store x (refresh_tokens P settings token decode_at t (world P settings x d)))
      ∙ ap (λ (w : World P settings). held id w.store)
          (refresh_tokens_world P settings (world P settings x d) t token decode_at))
  Step-elsewhere {x} id (lapse key e) ne = rw e (delete-elsewhere redis L.redis x.store ne)

  pub Reach-elsewhere :
      {x y : System P settings} (id : ℕ) (r : Reach P settings x y)
      → AreElsewhere id r
      → held id y.store ≡ held id x.store
  Reach-elsewhere id here _ = refl
  Reach-elsewhere id (next r s) (before, last) =
      Step-elsewhere id s last ∙ Reach-elsewhere id r before
