-- ===== src/System/Writes.antt =====
-- What a call of `verify_otp` that has read Redis writes to it, whatever happened since.
use civio.Base.{
  ◌+◌, ◌<◌, ◌≡◌, ◌⊎◌, inl, inr, refl, String, Bool, true, false, none, some, Text, arith, leb,
  leb→le, Bool-cases,
}
use civio.Errors.Outcome.{Outcome, ok, err}
use civio.Errors.Classes.{raised, authentication_error}
use civio.Config.{Settings}
use civio.AuthService.Data.{
  Challenge, max_attempts, compare_digest, parse_uuids, Readings, Platform, IsLawful,
}
use civio.AuthService.Defs.{World, challenge_key, check_payload, verify_raw}
use civio.AuthService.Steps.{check_capped, check_malformed, check_wrong, check_right}
use civio.AuthService.Guessing.{parsed-IsQuiet}
use civio.AuthService.Race.{Waiting, finish_verify}

module _ (P : Platform) (L : IsLawful P) (settings : Settings) where
  open P use {redis, uuid, json}

  -- Nothing, or the deletion of the key, or the challenge that was read with its count one higher.
  abbrev pub Writes : World P settings → String → Challenge → Readings → redis.Store → Type 0
  Writes w key p t s' =
      (s' ≡ w.store)
      ⊎ ((s' ≡ redis.delete w.store key)
          ⊎ (s'
              ≡ redis.set_keepttl w.store t.write_at key
                  (json.dumps (record p { attempts = p.attempts + 1 }))))

  module _ (w : World P settings) (key : String) (p : Challenge) (code : Text) (t : Readings) where
    quiet-Writes :
        {s' : redis.Store} → (s' ≡ w.store) ⊎ (s' ≡ redis.delete w.store key) → Writes w key p t s'
    quiet-Writes (inl same) = inl same
    quiet-Writes (inr gone) = inr (inl gone)

    compared-Writes :
        (o : Outcome Bool)
        → p.attempts < max_attempts
        → compare_digest p.code code ≡ o
        → Writes w key p t (check_payload P settings key p code t w).1.store
    compared-Writes (err x) left c =
        rw (check_malformed P settings key p code t w left c) (inl refl)
    compared-Writes (ok false) left c =
        rw (check_wrong P settings key p code t w left c) (inr (inr refl))
    compared-Writes (ok true) left c = rw (check_right P settings key p code t w left c) (
        quiet-Writes
          (parsed-IsQuiet P L settings w key p.user_ids t (parse_uuids uuid p.user_ids) refl).1)

    pub check_payload-Writes : Writes w key p t (check_payload P settings key p code t w).1.store
    check_payload-Writes = elim (Bool-cases (leb max_attempts p.attempts)) [
      | inl spent ↦ rw (check_capped P settings key p code t w (leb→le _ _ spent)) (inr (inl refl))
      | inr left ↦ compared-Writes (compare_digest p.code code) (ground arith) refl
    ]

  -- A waiting call that read nothing fails and changes nothing; one that read a challenge goes on with it.
  pub finish_absent :
      (w : World P settings) (c : Waiting P settings)
      → c.raw ≡ none
      → finish_verify P settings c w
        ≡ (err (raised authentication_error "otp challenge expired or not found"), w)
  unfolding finish_verify verify_raw
  finish_absent w c h = rw h refl

  pub finish_read :
      (w : World P settings) (c : Waiting P settings) (p : Challenge)
      → c.raw ≡ some (json.dumps p)
      → finish_verify P settings c w
        ≡ check_payload P settings (challenge_key P settings c.id) p c.code c.t w
  unfolding finish_verify verify_raw
  finish_read w c p h = rw (h, L.json.loads-dumps p) refl
