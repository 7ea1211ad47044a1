-- ===== src/AuthService/Race.antt =====
-- Two calls of `verify_otp` at once. The method awaits `redis.get`, and writes later what it computed from
-- the text that it read; another call may run in between. A call is split at that point.
use civio.Base.{
  ℕ, suc, ◌+◌, ◌<◌, ◌≡◌, refl, ap, sym, subst, true, false, Option, none, List, [], ◌∷◌, map, Text,
  All, length, eq_refl,
}
use civio.Errors.Outcome.{Outcome, ok}
use civio.Action.{Action}
use civio.Config.{Settings}
use civio.Platform.Redis.{is_ahead}
use civio.AuthService.Data.{
  Challenge, TokenPair, max_attempts, compare_digest, Readings, Platform, IsLawful,
}
use civio.AuthService.Defs.{World, challenge_key, verify_raw, verify_otp}
use civio.AuthService.Steps.{Holds, rejected, counted, counted-Holds, check_wrong}
use civio.AuthService.Success.{verify_otp-Redeemed}

module _ (P : Platform) (settings : Settings) where
  open P use {Doc, redis}

  -- A call that has read the challenge and not yet gone on.
  pub record Waiting : Type 0 where
    pub id : ℕ
    pub code : Text
    pub t : Readings
    pub raw : Option Doc

  unfoldable pub begin_verify : World P settings → ℕ → Text × Readings → Waiting
  begin_verify w id (code, t) = record {
    id = id;
    code = code;
    t = t;
    raw = redis.get w.store t.read_at (challenge_key P settings id);
  }

  unfoldable pub finish_verify : Waiting → Action (World P settings) (TokenPair P.Token)
  finish_verify c = verify_raw P settings (challenge_key P settings c.id) c.raw c.code c.t

  -- The calls go on one after the other.
  unfoldable pub finish_all :
      List Waiting → World P settings → List (Outcome (TokenPair P.Token)) × World P settings
  unfolding finish_verify
  finish_all [] w = ([], w)
  finish_all (c ∷ cs) w =
      let (r, w') = finish_verify c w in let (rs, w'') = finish_all cs w' in (r ∷ rs, w'')

  -- A call that nobody interrupts is `verify_otp`.
  pub finish-begin :
      (w : World P settings) (id : ℕ) (code : Text) (t : Readings)
      → finish_verify (begin_verify w id (code, t)) w ≡ verify_otp P settings id code t w
  unfolding finish_verify begin_verify verify_otp
  finish-begin w id code t = refl

module _ (P : Platform) (L : IsLawful P) (settings : Settings) where
  open P use {redis, session, uuid, json}

  -- A wrong code that is checked and written while the challenge has not expired.
  abbrev pub IsTimelyGuess : Challenge → Option ℕ → Text × Readings → Type 0
  IsTimelyGuess p expires (code, t) =
      (compare_digest p.code code ≡ ok false)
      × (is_ahead t.read_at expires ≡ true)
      × (is_ahead t.write_at expires ≡ true)

  abbrev pub counted_once : Challenge → Challenge
  counted_once p = record p { attempts = p.attempts + 1 }

  finish_guess :
      (w now : World P settings) (id : ℕ) (p : Challenge) (expires : Option ℕ) (g : Text × Readings)
      → Holds P L settings w id p expires
      → p.attempts < max_attempts
      → IsTimelyGuess p expires g
      → finish_verify P settings (begin_verify P settings w id g) now ≡ (
        rejected p.attempts,
        record now {
          store =
              redis.set_keepttl now.store g.1.write_at
                (challenge_key P settings id)
                (json.dumps (counted_once p));
        },
      )
  unfolding finish_verify begin_verify verify_raw
  finish_guess w now id p expires (code, t) h left (wrong, at_read, at_write) =
      rw (L.redis.get-entry, h, at_read, L.json.loads-dumps p)
        (check_wrong P settings (challenge_key P settings id) p code t now left wrong)

  -- Every outcome shows the same number of attempts left, and one of the calls was counted.
  abbrev pub Undercounted :
      ℕ
      → Challenge
      → Option ℕ
      → List (Text × Readings)
      → List (Outcome (TokenPair P.Token)) × World P settings
      → Type 0
  Undercounted id p expires gs (rs, last) =
      All (λ r. r ≡ rejected p.attempts) rs
      × (length rs ≡ length gs)
      × Holds P L settings last id (counted_once p) expires

  Undercounted-cons :
      (id : ℕ) (p : Challenge) (expires : Option ℕ) (g : Text × Readings)
      (gs : List (Text × Readings)) (r : Outcome (TokenPair P.Token))
      (out : List (Outcome (TokenPair P.Token)) × World P settings)
      → r ≡ rejected p.attempts
      → Undercounted id p expires gs out
      → Undercounted id p expires (g ∷ gs) (r ∷ out.0, out.1)
  Undercounted-cons id p expires g gs r out e (a, l, h) = ((e, a), ap suc l, h)

  abbrev Out : Type 0
  Out = List (Outcome (TokenPair P.Token)) × World P settings

  -- The first call of a list, and then the rest.
  finish_all-cons :
      (c : Waiting P settings) (cs : List (Waiting P settings)) (now : World P settings)
      {r : Outcome (TokenPair P.Token)} {now' : World P settings}
      → finish_verify P settings c now ≡ (r, now')
      → finish_all P settings (c ∷ cs) now
        ≡ (r ∷ (finish_all P settings cs now').0, (finish_all P settings cs now').1)
  unfolding finish_all
  finish_all-cons c cs now step =
      ap {B = Out}
        (λ (x : Outcome (TokenPair P.Token) × World P settings).
          (x.0 ∷ (finish_all P settings cs x.1).0, (finish_all P settings cs x.1).1))
        step

  finish_all_counted :
      (w now : World P settings) (id : ℕ) (p : Challenge) (expires : Option ℕ)
      (gs : List (Text × Readings))
      → Holds P L settings w id p expires
      → Holds P L settings now id (counted_once p) expires
      → p.attempts < max_attempts
      → All (IsTimelyGuess p expires) gs
      → Undercounted id p expires gs
          (finish_all P settings (map (begin_verify P settings w id) gs) now)
  unfolding finish_all
  finish_all_counted w now id p expires [] h k left all = (tt, refl, k)
  finish_all_counted w now id p expires (g ∷ gs) h k left (timely, all) =
      subst (Undercounted id p expires (g ∷ gs))
        (sym (
          finish_all-cons (begin_verify P settings w id g) (map (begin_verify P settings w id) gs)
            now (finish_guess w now id p expires g h left timely)))
        (Undercounted-cons id p expires g gs (rejected p.attempts)
          (finish_all P settings (map (begin_verify P settings w id) gs)
            (counted P L settings now id p g.1.write_at))
          refl
          (finish_all_counted w (counted P L settings now id p g.1.write_at) id p expires gs h
            (counted-Holds P L settings now id p (counted_once p) expires g.1.write_at k timely.2)
            left all))

  -- However many calls with wrong codes read the challenge before the first of them writes it, each of them
  -- compares its code, all are told the same number of attempts left, and together they are counted once.
  pub finish_all-Undercounted :
      (w : World P settings) (id : ℕ) (p : Challenge) (expires : Option ℕ) (g : Text × Readings)
      (gs : List (Text × Readings))
      → Holds P L settings w id p expires
      → p.attempts < max_attempts
      → All (IsTimelyGuess p expires) (g ∷ gs)
      → Undercounted id p expires
          (g ∷ gs)
          (finish_all P settings (map (begin_verify P settings w id) (g ∷ gs)) w)
  unfolding finish_all
  finish_all-Undercounted w id p expires g gs h left (timely, all) =
      subst (Undercounted id p expires (g ∷ gs))
        (sym (
          finish_all-cons (begin_verify P settings w id g) (map (begin_verify P settings w id) gs) w
            (finish_guess w w id p expires g h left timely)))
        (Undercounted-cons id p expires g gs (rejected p.attempts)
          (finish_all P settings (map (begin_verify P settings w id) gs)
            (counted P L settings w id p g.1.write_at))
          refl
          (finish_all_counted w (counted P L settings w id p g.1.write_at) id p expires gs h
            (counted-Holds P L settings w id p p expires g.1.write_at h timely.2) left all))

  -- A call with a wrong code that read the challenge before another call logged in and deleted it, and goes
  -- on afterwards, writes the challenge back: with its code, and with no expiry.
  pub finish_verify_revives :
      (w : World P settings) (d : session.Database) (id : ℕ) (p : Challenge) (expires : Option ℕ)
      (g : Text × Readings) (t : Readings) {pair : TokenPair P.Token} {after : World P settings}
      → w.rows ≡ session.begin d
      → Holds P L settings w id p expires
      → p.attempts < max_attempts
      → IsTimelyGuess p expires g
      → verify_otp P settings id p.code t w ≡ (ok pair, after)
      → let (r, revived) = finish_verify P settings (begin_verify P settings w id g) after in
        (r ≡ rejected p.attempts) × Holds P L settings revived id (counted_once p) none
  finish_verify_revives w d id p expires g t {after} fresh h left timely done =
      rw (finish_guess w after id p expires g h left timely) (
        refl,
        rw (
          L.redis.entry-set_keepttl,
          eq_refl,
          (verify_otp-Redeemed P L settings w d fresh id p.code t done).login.burned,
          L.redis.entry-delete,
          eq_refl,
        ),
      )
