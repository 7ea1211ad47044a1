-- ===== src/Platform/Redis/Entries.antt =====
-- A property of every entry of a store, and the writes that keep it.
use civio.Base.{
  ℕ, ◌+◌, ◌≡◌, refl, sym, subst, ◌∙◌, String, str_eq, eq_iff, Option, none, some, inl, inr,
  Bool-cases, if◌then◌else◌,
}
use civio.Platform.Redis.{Redis, Entry, IsLawful, live, value_of, is_ahead, kept_expiry}

module _ {V : Type 0} (R : Redis V) (L : IsLawful R) where
  -- The answer of `GET` is the value of an entry of the store that has not expired.
  abbrev pub Read : R.Store → ℕ → String → V → Type 0
  Read s now k v =
      (e : Entry V) × (R.entry s k ≡ some e) × (live now (R.entry s k) ≡ some e) × (e.value ≡ v)

  held_entry :
      (s : R.Store) (now : ℕ) (k : String) (v : V) (o : Option (Entry V))
      → R.entry s k ≡ o
      → value_of (live now o) ≡ some v
      → Read s now k v
  held_entry s now k v none g h = cc
  held_entry s now k v (some e) g h = elim (Bool-cases (is_ahead now e.expires)) [
    | inl ahead ↦ (e, g, rw (g, ahead), cc (rw ahead at h))
    | inr late ↦ cc (rw late at h)
  ]

  pub get-Read :
      (s : R.Store) (now : ℕ) (k : String) (v : V) → R.get s now k ≡ some v → Read s now k v
  get-Read s now k v h = held_entry s now k v (R.entry s k) refl (sym (L.get-entry s now k) ∙ h)

module _ {V : Type 0} (R : Redis V) (L : IsLawful R) (Q : String → Entry V → Type 0) where
  abbrev pub Every : R.Store → Type 0
  Every s = (k : String) (e : Entry V) → R.entry s k ≡ some e → Q k e

  -- One key is written or removed, and the others stay.
  Every-written :
      (s s' : R.Store) (k : String) (new : Option (Entry V))
      → Every s
      → ((e : Entry V) → new ≡ some e → Q k e)
      → ((j : String) → R.entry s' j ≡ (if str_eq j k then new else R.entry s j))
      → Every s'
  Every-written s s' k new every fresh law j e h = elim (Bool-cases (str_eq j k)) [
    | inl same ↦
        subst (λ i. Q i e) (sym ((eq_iff j k).0 same)) (fresh e (sym (law j ∙ rw same refl) ∙ h))
    | inr other ↦ every j e (sym (law j ∙ rw other refl) ∙ h)
  ]

  only : (k : String) (new e : Entry V) → Q k new → some new ≡ some e → Q k e
  only k new e q h = subst (Q k) (cc h) q

  pub Every-delete : (s : R.Store) (k : String) → Every s → Every (R.delete s k)
  Every-delete s k every =
      Every-written s (R.delete s k) k none every (λ e h. cc) (λ j. L.entry-delete s k j)

  pub Every-setex :
      (s : R.Store) (now ttl : ℕ) (k : String) (v : V)
      → Every s
      → Q k (record { value = v; expires = some (now + ttl) })
      → Every (R.setex s now k ttl v)
  Every-setex s now ttl k v every q =
      Every-written s (R.setex s now k ttl v) k
        (some (record { value = v; expires = some (now + ttl) })) every (λ e h. only k _ e q h)
        (λ j. L.entry-setex s now ttl k j v)

  pub Every-set_keepttl :
      (s : R.Store) (now : ℕ) (k : String) (v : V)
      → Every s
      → Q k (record { value = v; expires = kept_expiry (live now (R.entry s k)) })
      → Every (R.set_keepttl s now k v)
  Every-set_keepttl s now k v every q =
      Every-written s (R.set_keepttl s now k v) k
        (some (record { value = v; expires = kept_expiry (live now (R.entry s k)) })) every
        (λ e h. only k _ e q h) (λ j. L.entry-set_keepttl s now k j v)
