-- ===== src/Platform/Redis.antt =====
-- The Redis server: values (texts that it does not read) under keys, each with the instant at which it
-- expires, in seconds. `entry` is what the server holds for a key, which no client reads; the laws are
-- the documented effects of `GET`, `SETEX`, `SET … KEEPTTL` and `DEL`. `setex` is `SETEX` with a time to live
-- that it takes; the caller has the error that it is for 0.
pub mod Entries
use civio.Base.{ℕ, ◌+◌, ◌≡◌, String, Bool, true, Option, none, some, ltb, str_eq, if◌then◌else◌}

-- `expires` is `none` for a key without a time to live.
pub record Entry (V : Type 0) : Type 0 where
  pub value : V
  pub expires : Option ℕ

pub record Redis (V : Type 0) : Type 1 where
  pub Store : Type 0
  pub entry : Store → String → Option (Entry V)
  pub get : Store → ℕ → String → Option V
  pub setex : Store → ℕ → String → ℕ → V → Store
  pub set_keepttl : Store → ℕ → String → V → Store
  pub delete : Store → String → Store

abbrev pub is_ahead : ℕ → Option ℕ → Bool
is_ahead now none = true
is_ahead now (some e) = ltb now e

-- An entry that has expired is as good as absent.
abbrev pub live : {V : Type 0} → ℕ → Option (Entry V) → Option (Entry V)
live now none = none
live now (some e) = if is_ahead now e.expires then some e else none

abbrev pub value_of : {V : Type 0} → Option (Entry V) → Option V
value_of none = none
value_of (some e) = some e.value

-- `KEEPTTL` keeps the expiry of the entry that is there; a key that is new has none.
abbrev pub kept_expiry : {V : Type 0} → Option (Entry V) → Option ℕ
kept_expiry none = none
kept_expiry (some e) = e.expires

pub record IsLawful {V : Type 0} (R : Redis V) : Type 0 where
  pub get-entry :
      (s : R.Store) (now : ℕ) (k : String) → R.get s now k ≡ value_of (live now (R.entry s k))
  pub entry-setex :
      (s : R.Store) (now ttl : ℕ) (k j : String) (v : V)
      → R.entry (R.setex s now k ttl v) j ≡ (
          if str_eq j k
          then some (record { value = v; expires = some (now + ttl) })
          else R.entry s j)
  pub entry-set_keepttl :
      (s : R.Store) (now : ℕ) (k j : String) (v : V)
      → R.entry (R.set_keepttl s now k v) j ≡ (
          if str_eq j k
          then some (record { value = v; expires = kept_expiry (live now (R.entry s k)) })
          else R.entry s j)
  pub entry-delete :
      (s : R.Store) (k j : String)
      → R.entry (R.delete s k) j ≡ (if str_eq j k then none else R.entry s j)
