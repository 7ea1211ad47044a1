-- ===== src/AuthService/Machine/Runs.antt =====
-- The calls of `verify_otp` for a challenge, beside the machine.
use civio.Base.{
  ℕ, ◌≡◌, inl, inr, refl, subst, ap, Bool, true, false, Option, none, some, List, [], ◌∷◌, Text,
  arith, leb, leb→le, Bool-cases,
}
use civio.Errors.Outcome.{Outcome, ok, err, Outcome-cases}
use civio.Config.{Settings}
use civio.Platform.Redis.{is_ahead}
use civio.AuthService.Data.{
  TokenPair, max_attempts, compare_digest, parse_uuids, Readings, Platform, IsLawful,
}
use civio.AuthService.Defs.{World, challenge_key, verify_otp}
use civio.AuthService.Steps.{
  Holds, counted-Holds, burned-absent, verify_absent, verify_wrong, verify_capped, verify_malformed,
  verify_right,
}
use civio.AuthService.Guessing.{IsQuiet, parsed-IsQuiet}
use civio.AuthService.Success.{verify_otp-Redeemed}
use civio.AuthService.Machine.{
  Ticket, missed, IsOpen, Next, missing, expired, exhausted, unusable, miss, failed, used, Course,
  stay, go,
}

module _ (P : Platform) (L : IsLawful P) (settings : Settings) where
  open P use {redis, session, uuid}

  -- Redis holds this ticket for the challenge, or nothing.
  abbrev pub Shows : World P settings → ℕ → Option Ticket → Type 0
  Shows w id none = redis.entry w.store (challenge_key P settings id) ≡ none
  Shows w id (some k) = Holds P L settings w id k.challenge k.expires

  Shows-same :
      (w w' : World P settings) (id : ℕ) (o : Option Ticket)
      → w'.store ≡ w.store
      → Shows w id o
      → Shows w' id o
  Shows-same w w' id none e h = rw e h
  Shows-same w w' id (some k) e h = rw e h

  Shows-gone :
      (w w' : World P settings) (id : ℕ)
      → w'.store ≡ redis.delete w.store (challenge_key P settings id)
      → Shows w' id none
  Shows-gone w w' id e = rw e (burned-absent P L settings w id)

  module _ (w : World P settings) (id : ℕ) (code : Text) (t : Readings) where
    -- An outcome and a world that the machine allows after a ticket.
    abbrev pub Refines : Option Ticket → Outcome (TokenPair P.Token) × World P settings → Type 0
    Refines before out =
        (after : Option Ticket) × Next P.Token code t before out.0 after × Shows out.1 id after

    right-Refines :
        (d : session.Database) (k : Ticket)
        → w.rows ≡ session.begin d
        → Shows w id (some k)
        → IsOpen P.Token code t (some k) k
        → compare_digest k.challenge.code code ≡ ok true
        → IsQuiet P L settings w (challenge_key P settings id) (verify_otp P settings id code t w)
        → Refines (some k) (verify_otp P settings id code t w)
    right-Refines d k fresh h o c (quiet, store) =
        elim (Outcome-cases (verify_otp P settings id code t w).0) [
          | inl (x, e) ↦ elim store [
            | inl same ↦ (
              some k,
              failed k x o c e quiet refl,
              Shows-same w (verify_otp P settings id code t w).1 id (some k) same h,
            )
            | inr gone ↦ (
              none,
              used k o c quiet refl,
              Shows-gone w (verify_otp P settings id code t w).1 id gone,
            )
          ]
          | inr (pair, e) ↦
              let redeemed =
                verify_otp-Redeemed P L settings w d fresh id code t
                  (ap (λ r. (r, (verify_otp P settings id code t w).1)) e) in
              (
                none,
                used k o c quiet refl,
                Shows-gone w (verify_otp P settings id code t w).1 id redeemed.login.burned,
              )
        ]

    compared-Refines :
        (d : session.Database) (k : Ticket) (o : Outcome Bool)
        → w.rows ≡ session.begin d
        → Shows w id (some k)
        → is_ahead t.write_at k.expires ≡ true
        → IsOpen P.Token code t (some k) k
        → compare_digest k.challenge.code code ≡ o
        → Refines (some k) (verify_otp P settings id code t w)
    compared-Refines d k (err x) fresh h later o c =
        rw (verify_malformed P L settings w id k.challenge k.expires code t h o.ahead o.left c)
          (some k, unusable k x o c refl refl, h)
    compared-Refines d k (ok false) fresh h later o c =
        rw (verify_wrong P L settings w id k.challenge k.expires code t h o.ahead o.left c) (
          some (missed k),
          miss k o c refl refl,
          counted-Holds P L settings w id k.challenge k.challenge k.expires t.write_at h later,
        )
    compared-Refines d k (ok true) fresh h later o c = right-Refines d k fresh h o c (
        rw (verify_right P L settings w id k.challenge k.expires code t h o.ahead o.left c) (
          parsed-IsQuiet P L settings w (challenge_key P settings id) k.challenge.user_ids t
            (parse_uuids uuid k.challenge.user_ids) refl))

    -- Each call of `verify_otp`, in a session that was just begun, does to the challenge in Redis what
    -- the machine does to its ticket, and answers as the machine does: in particular it logs in only
    -- with the code of an open ticket, which is then gone. The challenge does not expire between the
    -- read and the write of the call.
    pub verify_otp-Refines :
        (d : session.Database) (before : Option Ticket)
        → w.rows ≡ session.begin d
        → Shows w id before
        → ((k : Ticket)
            → before ≡ some k
            → is_ahead t.read_at k.expires ≡ true
            → is_ahead t.write_at k.expires ≡ true)
        → Refines before (verify_otp P settings id code t w)
    verify_otp-Refines d none fresh h in_time =
        rw (verify_absent P settings id code t w (rw (L.redis.get-entry, h)))
          (none, missing refl refl refl, h)
    verify_otp-Refines d (some k) fresh h in_time =
        elim (Bool-cases (is_ahead t.read_at k.expires)) [
          | inr late ↦
              rw (verify_absent P settings id code t w (rw (L.redis.get-entry, h, late)))
                (some k, expired k refl late refl refl, h)
          | inl now ↦ elim (Bool-cases (leb max_attempts k.challenge.attempts)) [
            | inl spent ↦
                rw
                  (verify_capped P L settings w id k.challenge k.expires code t h now
                    (leb→le _ _ spent))
                  (
                    none,
                    exhausted k refl now (leb→le _ _ spent) refl refl,
                    burned-absent P L settings w id,
                  )
            | inr left ↦
                compared-Refines d k _ fresh h (in_time k refl now)
                  (record { there = refl; ahead = now; left = ground arith }) refl
          ]
        ]

  -- The challenge does not expire between the read and the write of a call.
  abbrev pub IsPrompt : World P settings → ℕ → Readings → Type 0
  IsPrompt w id t =
      (k : Ticket)
      → Shows w id (some k)
      → is_ahead t.read_at k.expires ≡ true
      → is_ahead t.write_at k.expires ≡ true

  -- Calls of `verify_otp` for one challenge, each in a session of its own and with its code at its
  -- time, and the answers that they gave.
  pub data Calls (id : ℕ) (w₀ : World P settings)
      : World P settings → List (Outcome (TokenPair P.Token)) → Type 0 where
    start : Calls id w₀ w₀ []
    call :
        {w : World P settings} {rs : List (Outcome (TokenPair P.Token))}
        → Calls id w₀ w rs
        → (v : World P settings) → v.store ≡ w.store
        → (d : session.Database) → v.rows ≡ session.begin d
        → (code : Text) (t : Readings) → IsPrompt v id t
        → Calls id w₀
            (verify_otp P settings id code t v).1
            ((verify_otp P settings id code t v).0 ∷ rs)

  -- Whatever codes are tried for a challenge, call after call, each in its own session and without the
  -- challenge expiring inside a call: the answers are those of a course of the machine of `Next`, and at
  -- its end Redis holds what the machine does. There a ticket that is missing or expired is not found,
  -- one with five attempts is taken away, a wrong code is rejected and counted under the same expiry, and
  -- the right one is never rejected and succeeds only if the ticket is taken away.
  pub Calls-Course :
      (id : ℕ) (k₀ : Option Ticket) {w₀ : World P settings}
      → Shows w₀ id k₀
      → {w : World P settings} {rs : List (Outcome (TokenPair P.Token))} → Calls id w₀ w rs
      → (k : Option Ticket) × Course P.Token k₀ k rs × Shows w id k
  Calls-Course id k₀ h start = (k₀, stay, h)
  Calls-Course id k₀ h (call {w} cs v same d fresh code t prompt) =
      let (k, path, shown) = Calls-Course id k₀ h cs in
      let here = Shows-same w v id k same shown in
      let (k', next, there) =
        verify_otp-Refines v id code t d k fresh here
          (λ j e. prompt j (subst (Shows v id) e here)) in
      (k', go path code t _ next, there)
