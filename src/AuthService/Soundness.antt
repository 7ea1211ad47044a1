-- ===== src/AuthService/Soundness.antt =====
-- What Redis holds in every state that requests can reach, one after the other.
use civio.Base.{
  ℕ, ◌+◌, ◌^◌, ◌≤◌, ◌<◌, ◌≡◌, ◌≢◌, inl, inr, refl, sym, subst, ap, ◌∙◌, String, Option, none, some,
  List, [], ◌∷◌, Text, length, All, arith,
}
use civio.Config.{Settings}
use civio.Models.User.{User}
use civio.Platform.Redis.{Entry, live}
use civio.Platform.Redis.Entries.{Every, get-Read, Every-delete, Every-setex, Every-set_keepttl}
use civio.Security.Otp.{otp_length}
use civio.Security.Otp.Laws.{IsDigit, zero_padded-IsCode}
use civio.AuthService.Data.{Challenge, max_attempts, Readings, Platform, IsLawful}
use civio.AuthService.Defs.{World, challenge_key, send_otp, verify_otp, refresh_tokens}
use civio.AuthService.Lifecycle.{sent}
use civio.AuthService.Effects.{
  Counted, Touched, verify_otp-Touched, Sent, send_otp-Sent, refresh_tokens_world,
}

module _ (P : Platform) (L : IsLawful P) (settings : Settings) where
  open P use {Token, Doc, redis, session, uuid, json}

  -- An entry is a challenge with at most five wrong codes counted, a code of six digits, a user and a
  -- time at which it expires.
  pub record IsSoundEntry (e : Entry Doc) : Type 0 where
    pub payload : Challenge
    pub readable : json.loads e.value ≡ some payload
    pub few : payload.attempts ≤ max_attempts
    pub long : length payload.code ≡ otp_length
    pub numeric : All IsDigit payload.code
    pub has_users : payload.user_ids ≢ []
    pub expiry : ℕ
    pub expires : e.expires ≡ some expiry

  abbrev pub IsSound : redis.Store → Type 0
  IsSound = Every redis L.redis (λ k e. IsSoundEntry e)

  -- Redis does not let the challenge expire between the read and the write of a call.
  abbrev pub InTime : World P settings → ℕ → Readings → Type 0
  InTime w id t =
      live t.write_at (redis.entry w.store (challenge_key P settings id))
      ≡ live t.read_at (redis.entry w.store (challenge_key P settings id))

  recounted-IsSoundEntry :
      (e : Entry Doc) (p : Challenge) (expires : Option ℕ)
      → IsSoundEntry e
      → json.loads e.value ≡ some p
      → p.attempts < max_attempts
      → expires ≡ e.expires
      → IsSoundEntry (record {
        value = json.dumps (record p { attempts = p.attempts + 1 });
        expires = expires;
      })
  recounted-IsSoundEntry e p expires b r left kept =
      let known : b.payload ≡ p = cc (b.readable, r) in
      record {
        payload = record p { attempts = p.attempts + 1 };
        readable = L.json.loads-dumps _;
        few = omega arith;
        long = ap (λ (q : Challenge). length q.code) (sym known) ∙ b.long;
        numeric = subst (λ (q : Challenge). All IsDigit q.code) known b.numeric;
        has_users = subst (λ (q : Challenge). q.user_ids ≢ []) known b.has_users;
        expiry = b.expiry;
        expires = kept ∙ b.expires;
      }

  Counted-IsSound :
      (w : World P settings) (id : ℕ) (t : Readings) {s' : redis.Store}
      → IsSound w.store
      → InTime w id t
      → Counted P L settings w id t s'
      → IsSound s'
  Counted-IsSound w id t {s'} sound in_time c =
      let (e, held, alive, same) =
        get-Read redis L.redis w.store t.read_at (challenge_key P settings id) c.doc c.read in
      rw c.written (
        Every-set_keepttl redis L.redis _ w.store t.write_at (challenge_key P settings id) _ sound (
          recounted-IsSoundEntry e c.payload _ (sound (challenge_key P settings id) e held)
            (rw same c.readable) c.left (rw (in_time, alive))))

  verify_otp-IsSound :
      (w : World P settings) (id : ℕ) (code : Text) (t : Readings)
      → IsSound w.store
      → InTime w id t
      → IsSound (verify_otp P settings id code t w).1.store
  verify_otp-IsSound w id code t sound in_time =
      touched (verify_otp-Touched P L settings w id code t)
    where
      touched :
          Touched P L settings w id t (verify_otp P settings id code t w).1.store
          → IsSound (verify_otp P settings id code t w).1.store
      touched (inl same) = rw same sound
      touched (inr (inl gone)) =
          rw gone (Every-delete redis L.redis _ w.store (challenge_key P settings id) sound)
      touched (inr (inr c)) = Counted-IsSound w id t sound in_time c

  sent-IsSoundEntry :
      (mobile : Text) (draw expiry : ℕ) (u : User) (us : List User)
      → draw < 10 ^ otp_length
      → IsSoundEntry (record {
        value = json.dumps (sent P L settings mobile draw (u ∷ us));
        expires = some expiry;
      })
  sent-IsSoundEntry mobile draw expiry u us small = record {
    payload = sent P L settings mobile draw (u ∷ us);
    readable = L.json.loads-dumps _;
    few = omega arith;
    long = (zero_padded-IsCode otp_length draw (omega arith) small).long;
    numeric = (zero_padded-IsCode otp_length draw (omega arith) small).numeric;
    has_users = λ h. cc h;
    expiry = expiry;
    expires = refl;
  }

  send_otp-IsSound :
      (w : World P settings) (mobile : Text) (id draw now set_at : ℕ)
      → IsSound w.store
      → draw < 10 ^ otp_length
      → IsSound (send_otp P settings mobile id draw now set_at w).1.store
  send_otp-IsSound w mobile id draw now set_at sound small =
      stored_or_same (send_otp-Sent P L settings w mobile id draw now set_at _ refl)
    where
      stored_or_same :
          Sent P L settings w mobile id draw set_at
            (send_otp P settings mobile id draw now set_at w).1.store
          → IsSound (send_otp P settings mobile id draw now set_at w).1.store
      stored_or_same (inl same) = rw same sound
      stored_or_same (inr (u, us, set)) = rw set (
          Every-setex redis L.redis _ w.store set_at settings.otp_ttl_sec
            (challenge_key P settings id) _ sound
            (sent-IsSoundEntry mobile draw (set_at + settings.otp_ttl_sec) u us small))

  -- What happens to Redis and to the sessions of requests that run one after the other.
  pub data Step (w w' : World P settings) : Type 0 where
    send :
        (mobile : Text) (id draw now set_at : ℕ)
        → draw < 10 ^ otp_length
        → w' ≡ (send_otp P settings mobile id draw now set_at w).1
        → Step w w'
    verify :
        (id : ℕ) (code : Text) (t : Readings)
        → InTime w id t
        → w' ≡ (verify_otp P settings id code t w).1
        → Step w w'
    renew :
        (token : Token) (decode_at : ℕ) (t : Readings)
        → w' ≡ (refresh_tokens P settings token decode_at t w).1
        → Step w w'
    next_request : w'.store ≡ w.store → Step w w'
    lapse : (key : String) → w'.store ≡ redis.delete w.store key → Step w w'

  pub data Reach (w : World P settings) : World P settings → Type 0 where
    here : Reach w w
    next : {v v' : World P settings} → Reach w v → Step v v' → Reach w v'

  Step-IsSound : {w w' : World P settings} → Step w w' → IsSound w.store → IsSound w'.store
  Step-IsSound {w} (send mobile id draw now set_at small e) sound =
      rw e (send_otp-IsSound w mobile id draw now set_at sound small)
  Step-IsSound {w} (verify id code t in_time e) sound =
      rw e (verify_otp-IsSound w id code t sound in_time)
  Step-IsSound {w} (renew token decode_at t e) sound =
      rw (e, refresh_tokens_world P settings w t token decode_at) sound
  Step-IsSound (next_request e) sound = rw e sound
  Step-IsSound {w} (lapse key e) sound = rw e (Every-delete redis L.redis _ w.store key sound)

  -- From an empty Redis, requests one after the other only reach states in which every entry is a
  -- challenge with at most five wrong codes counted, a code of six digits, a user, and a time at which it
  -- expires, provided that no challenge expires between the read and the write of a call.
  pub Reach-IsSound :
      {w w' : World P settings}
      → ((k : String) → redis.entry w.store k ≡ none)
      → Reach w w'
      → IsSound w'.store
  Reach-IsSound empty here = λ k e h. cc (empty k)
  Reach-IsSound empty (next r step) = Step-IsSound step (Reach-IsSound empty r)
