-- ===== src/Schema/Balances.antt =====
-- The materialized view `token_balances` of the initial migration and its unique index. The view shows what
-- its query computed from the ledger at the last refresh; that query is modelled.
use mathlib.Core.Path.{fun_ext}
use mathlib.Core.Int.{ℤ, ◌+ℤ◌, pos}
use civio.Base.{
  ℕ, suc, subst, ◌≡◌, ◌≢◌, ◌↔◌, refl, sym, ap, ◌∙◌, Bool, true, false, ◌&&◌, Option, none, some,
  List, [], ◌∷◌, All, keep, ◌==◌, ==_iff, leb, if◌then◌else◌, arith, inl, inr, Bool-cases,
}
use civio.Models.Enums.Calls.{TokenScope, community, user}
use civio.Schema.Ledger.{LedgerRow, ck_scope_owner}

-- The columns of `GROUP BY`.
pub record Group : Type 0 where
  pub scope : TokenScope
  pub community_id : ℕ
  pub user_id : Option ℕ

abbrev pub group_of : LedgerRow → Group
group_of e = record { scope = e.scope; community_id = e.community_id; user_id = e.user_id }

-- A row of the view.
pub record Balance : Type 0 where
  pub group : Group
  pub balance : ℤ
  pub last_change_at : ℕ

abbrev same_scope : TokenScope → TokenScope → Bool
same_scope community community = true
same_scope user user = true
same_scope _ _ = false

-- `GROUP BY` puts the rows with NULL together.
abbrev same_user : Option ℕ → Option ℕ → Bool
same_user none none = true
same_user (some a) (some b) = a == b
same_user _ _ = false

abbrev pub same_group : Group → Group → Bool
same_group a b =
    same_scope a.scope b.scope && a.community_id == b.community_id && same_user a.user_id b.user_id

abbrev later : ℕ → ℕ → ℕ
later a b = if leb a b then b else a

-- `SUM(delta)` and `MAX(created_at)` with one more row.
abbrev credit : LedgerRow → List Balance → List Balance
credit e [] =
    record { group = group_of e; balance = e.delta +ℤ pos 0; last_change_at = later e.created_at 0 }
    ∷ []
credit e (b ∷ bs) =
    let rest = credit e bs in
    if same_group (group_of e) b.group
    then record b {
      balance = e.delta +ℤ b.balance;
      last_change_at = later e.created_at b.last_change_at;
    }
      ∷ bs
    else b ∷ rest

-- The rows that a refresh computes from the ledger as it is then
unfoldable pub token_balances : List LedgerRow → List Balance
token_balances [] = []
token_balances (e ∷ t) = credit e (token_balances t)

same_scope_iff : (a b : TokenScope) → (same_scope a b ≡ true) ↔ (a ≡ b)
same_scope_iff community community = (λ h. refl, λ h. refl)
same_scope_iff user user = (λ h. refl, λ h. refl)
same_scope_iff community user = (λ h. cc, λ h. cc)
same_scope_iff user community = (λ h. cc, λ h. cc)

same_user_iff : (a b : Option ℕ) → (same_user a b ≡ true) ↔ (a ≡ b)
same_user_iff none none = (λ h. refl, λ h. refl)
same_user_iff (some a) (some b) = ground arith
same_user_iff none (some b) = (λ h. cc, λ h. cc)
same_user_iff (some a) none = (λ h. cc, λ h. cc)

same_group_iff : (a b : Group) → (same_group a b ≡ true) ↔ (a ≡ b)
same_group_iff a b = ground (
  arith,
  same_scope_iff a.scope b.scope,
  ==_iff a.community_id b.community_id,
  same_user_iff a.user_id b.user_id,
)

-- The balance and the last change that the rows show for a group, with this test of groups.
abbrev pub shown_by : (Group → Group → Bool) → Group → List Balance → Option (ℤ × ℕ)
shown_by eq g [] = none
shown_by eq g (b ∷ bs) =
    if eq g b.group then some (b.balance, b.last_change_at) else shown_by eq g bs

abbrev shown : Group → List Balance → Option (ℤ × ℕ)
shown = shown_by same_group

abbrev pub total : List LedgerRow → ℤ
total [] = pos 0
total (e ∷ t) = e.delta +ℤ total t

abbrev pub latest : List LedgerRow → ℕ
latest [] = 0
latest (e ∷ t) = later e.created_at (latest t)

-- The same, from the rows of the ledger that belong to the group.
abbrev pub summary : List LedgerRow → Option (ℤ × ℕ)
summary [] = none
summary (e ∷ t) = some (total (e ∷ t), latest (e ∷ t))

abbrev merged : LedgerRow → Option (ℤ × ℕ) → Option (ℤ × ℕ)
merged e none = some (e.delta +ℤ pos 0, later e.created_at 0)
merged e (some (balance, last)) = some (e.delta +ℤ balance, later e.created_at last)

-- A group that is the one of a row of the view, and not that of the other.
other_group :
    (g a b : Group) → same_group a b ≡ false → same_group g b ≡ true → same_group g a ≡ false
other_group g a b apart same = elim (Bool-cases (same_group g a)) [
  | inl here ↦
      let joined : a ≡ b = sym ((same_group_iff g a).0 here) ∙ (same_group_iff g b).0 same in
      cc ((same_group_iff a b).1 joined, apart)
  | inr there ↦ there
]

shown-credit :
    (g : Group) (e : LedgerRow) (bs : List Balance)
    → shown g (credit e bs)
      ≡ (if same_group g (group_of e) then merged e (shown g bs) else shown g bs)
shown-credit g e [] = refl
shown-credit g e (b ∷ bs) = elim (Bool-cases (same_group (group_of e) b.group)) [
  | inl same ↦
      let joined = ap (same_group g) ((same_group_iff (group_of e) b.group).0 same) in
      elim (Bool-cases (same_group g b.group)) [
        | inl here ↦ rw (same, joined, here) refl
        | inr there ↦ rw (same, joined, there) refl
      ]
  | inr apart ↦ elim (Bool-cases (same_group g b.group)) [
    | inl here ↦ rw (apart, here, other_group g (group_of e) b.group apart here) refl
    | inr there ↦ rw (apart, there) (shown-credit g e bs)
  ]
]

merged-summary : (e : LedgerRow) (t : List LedgerRow) → merged e (summary t) ≡ summary (e ∷ t)
merged-summary e [] = refl
merged-summary e (x ∷ t) = refl

same_group-summary :
    (g : Group) (t : List LedgerRow)
    → shown g (token_balances t) ≡ summary (keep (λ e. same_group g (group_of e)) t)
unfolding token_balances
same_group-summary g [] = refl
same_group-summary g (e ∷ t) = elim (Bool-cases (same_group g (group_of e))) [
  | inl here ↦
      shown-credit g e (token_balances t)
      ∙ rw
          (here, same_group-summary g t, merged-summary e (keep (λ x. same_group g (group_of x)) t))
  | inr there ↦ shown-credit g e (token_balances t) ∙ rw (there, same_group-summary g t)
]

-- The scope, the community and the user of a group as numbers, with 0 for no user.
abbrev pub key_of : Group → ℕ × ℕ × ℕ
key_of g = (
  elim g.scope [ community ↦ 0 | user ↦ 1 ],
  g.community_id,
  elim g.user_id [ none ↦ 0 | some u ↦ suc u ],
)

abbrev pub same_key_of : Group → Group → Bool
same_key_of a b =
    let (s, c, u) = key_of a in let (s', c', u') = key_of b in s == s' && c == c' && u == u'

same_key_of-same_group : (a b : Group) → same_group a b ≡ same_key_of a b
same_key_of-same_group a b = same_columns a.scope b.scope a.user_id b.user_id
  where
    same_columns :
        (s s' : TokenScope) (u u' : Option ℕ)
        → same_group (record a { scope = s; user_id = u }) (record b { scope = s'; user_id = u' })
          ≡ same_key_of
              (record a { scope = s; user_id = u })
              (record b { scope = s'; user_id = u' })
    same_columns _ _ _ _ = ground arith

-- For every scope, community and user, alike also where the user is NULL: the rows that are computed from a
-- ledger when the view is refreshed show a balance exactly when that ledger has a row for them; it is the sum
-- of the changes of all those rows, and the last change is the latest of their times.
pub token_balances-summary :
    (g : Group) (t : List LedgerRow)
    → shown_by same_key_of g (token_balances t) ≡ summary (keep (λ e. same_key_of g (group_of e)) t)
token_balances-summary g t =
    subst (λ eq. shown_by eq g (token_balances t) ≡ summary (keep (λ e. eq g (group_of e)) t))
      (fun_ext λ a. fun_ext λ b. same_key_of-same_group a b) (same_group-summary g t)

-- The columns of the unique index, with the nil UUID for NULL.
abbrev coalesced : Option ℕ → ℕ
coalesced none = 0
coalesced (some u) = u

abbrev pub index_key : Group → TokenScope × ℕ × ℕ
index_key g = (g.scope, g.community_id, coalesced g.user_id)

abbrev pub IsUnique : List Balance → Type 0
IsUnique [] = Unit {0}
IsUnique (b ∷ bs) = All (λ c. index_key c.group ≢ index_key b.group) bs × IsUnique bs

abbrev IsOwned : Group → Type 0
IsOwned g = ck_scope_owner g.scope g.user_id ≡ true

owned_user :
    (s : TokenScope) (u v : Option ℕ)
    → ck_scope_owner s u ≡ true
    → ck_scope_owner s v ≡ true
    → coalesced u ≡ coalesced v
    → u ≡ v
owned_user community none none h k e = refl
owned_user user (some u) (some v) h k e = ap some e
owned_user _ _ _ h k e = cc

owned_group : (a b : Group) → IsOwned a → IsOwned b → index_key a ≡ index_key b → a ≡ b
owned_group a b h k e =
    let same_s : a.scope ≡ b.scope = ap (λ x. x.0) e in
    let same_c : a.community_id ≡ b.community_id = ap (λ x. x.1) e in
    let same_u : a.user_id ≡ b.user_id =
      owned_user a.scope a.user_id b.user_id h (rw same_s k) (ap (λ x. x.2) e) in
    λ i. record { scope = same_s i; community_id = same_c i; user_id = same_u i }

-- Rows of the view with a group that meets the check, no two of them with the same group.
abbrev IsGrouped : List Balance → Type 0
IsGrouped [] = Unit {0}
IsGrouped (b ∷ bs) =
    IsOwned b.group × All (λ c. same_group b.group c.group ≡ false) bs × IsGrouped bs

credit-All :
    (g : Group) (e : LedgerRow) (bs : List Balance)
    → same_group g (group_of e) ≡ false
    → All (λ c. same_group g c.group ≡ false) bs
    → All (λ c. same_group g c.group ≡ false) (credit e bs)
credit-All g e [] h all = (h, tt)
credit-All g e (b ∷ bs) h all = elim (Bool-cases (same_group (group_of e) b.group)) [
  | inl same ↦ rw same all
  | inr apart ↦ rw apart (all.0, credit-All g e bs h all.1)
]

credit-IsGrouped :
    (e : LedgerRow) (bs : List Balance)
    → IsOwned (group_of e)
    → IsGrouped bs
    → IsGrouped (credit e bs)
credit-IsGrouped e [] h g = (h, tt, tt)
credit-IsGrouped e (b ∷ bs) h g = elim (Bool-cases (same_group (group_of e) b.group)) [
  | inl same ↦ rw same g
  | inr apart ↦ rw apart (
    g.0,
    credit-All b.group e bs
        (other_group b.group (group_of e) b.group apart ((same_group_iff b.group b.group).1 refl))
        g.1,
    credit-IsGrouped e bs h g.2,
  )
]

token_balances-IsGrouped :
    (t : List LedgerRow)
    → All (λ e. ck_scope_owner e.scope e.user_id ≡ true) t
    → IsGrouped (token_balances t)
unfolding token_balances
token_balances-IsGrouped [] h = tt
token_balances-IsGrouped (e ∷ t) h =
    credit-IsGrouped e (token_balances t) h.0 (token_balances-IsGrouped t h.1)

other_keys :
    (b : Balance) (bs : List Balance)
    → IsOwned b.group
    → All (λ c. same_group b.group c.group ≡ false) bs
    → IsGrouped bs
    → All (λ c. index_key c.group ≢ index_key b.group) bs
other_keys b [] h apart g = tt
other_keys b (c ∷ cs) h apart g = (
  λ e.
      let joined : b.group ≡ c.group = sym (owned_group c.group b.group g.0 h e) in
      cc ((same_group_iff b.group c.group).1 joined, apart.0),
  other_keys b cs h apart.1 g.2,
)

IsGrouped-IsUnique : (bs : List Balance) → IsGrouped bs → IsUnique bs
IsGrouped-IsUnique [] g = tt
IsGrouped-IsUnique (b ∷ bs) g = (other_keys b bs g.0 g.1 g.2, IsGrouped-IsUnique bs g.2)

-- Because of the check `ck_scope_owner`, no two rows of the view have the same key in the unique index, in
-- which NULL and the nil UUID are the same user.
pub token_balances-IsUnique :
    (t : List LedgerRow)
    → All (λ e. ck_scope_owner e.scope e.user_id ≡ true) t
    → IsUnique (token_balances t)
token_balances-IsUnique t h = IsGrouped-IsUnique (token_balances t) (token_balances-IsGrouped t h)
