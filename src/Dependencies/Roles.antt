-- ===== src/Dependencies/Roles.antt =====
-- Whom `require_role` lets through.
use mathlib.Core.List.{Memᴰ}
use civio.Base.{arith, ◌≡◌, ◌↔◌, refl, true, List, [], ◌∷◌, Bool-cases, inl, inr}
use civio.Errors.Outcome.{ok}
use civio.Models.Enums.{UserRole, owner, tenant, family, admin, staff}
use civio.Models.User.{User}
use civio.Dependencies.Defs.{same_role, is_allowed, require_role}

same_role-eq : (a b : UserRole) → same_role a b ≡ true → a ≡ b
unfolding same_role
same_role-eq owner owner h = refl
same_role-eq tenant tenant h = refl
same_role-eq family family h = refl
same_role-eq admin admin h = refl
same_role-eq staff staff h = refl
same_role-eq _ _ h = cc

same_role_refl : (a : UserRole) → same_role a a ≡ true
unfolding same_role
same_role_refl owner = refl
same_role_refl tenant = refl
same_role_refl family = refl
same_role_refl admin = refl
same_role_refl staff = refl

is_allowed-Mem : (roles : List UserRole) (r : UserRole) → is_allowed roles r ≡ true → Memᴰ r roles
unfolding is_allowed
is_allowed-Mem [] r h = cc
is_allowed-Mem (a ∷ roles) r h = elim (Bool-cases (same_role r a)) [
  | inl good ↦ Memᴰ.head (same_role-eq r a good)
  | inr bad ↦ Memᴰ.tail (is_allowed-Mem roles r (ground (arith, bad, h)))
]

Mem-is_allowed : (roles : List UserRole) (r : UserRole) → Memᴰ r roles → is_allowed roles r ≡ true
unfolding is_allowed
Mem-is_allowed [] r m = elim m [ ]
Mem-is_allowed (a ∷ roles) r (Memᴰ.head e) = rw (← e, same_role_refl r)
Mem-is_allowed (a ∷ roles) r (Memᴰ.tail m) = grind (arith, Mem-is_allowed roles r m)

-- `require_role` lets a user through unchanged exactly when the user's role is one of the roles.
pub require_role-iff-Mem :
    (roles : List UserRole) (u : User) → (require_role roles u ≡ ok u) ↔ Memᴰ u.role roles
unfolding require_role
require_role-iff-Mem roles u =
    (λ h. is_allowed-Mem roles u.role (ground arith), λ m. rw (Mem-is_allowed roles u.role m))
