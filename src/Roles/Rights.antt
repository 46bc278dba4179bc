-- ===== src/Roles/Rights.antt =====
-- What the table of permissions amounts to (shared/auth/roles.go).
use lan_sync.Prelude.{
  String, ◌≡◌, refl, ◌↔◌, Bool, true, false, ◌||◌, ◌==◌, string_eq, Bool-cases, inl, inr, arith,
}
use lan_sync.Prelude.Int.{ℤ, int_eq}
use lan_sync.Roles.{
  super_admin, moderator, operator, holds, role_permissions, is_admin_role, granted, has_permission,
}

both_true : (a b : Bool) → (a ≡ true → b ≡ true) → (b ≡ true → a ≡ true) → a ≡ b
both_true true b f g = ground (arith, f refl)
both_true false true f g = g refl
both_true false false f g = refl

granted-is_admin :
    (role : ℤ) (permission : String)
    → granted (role_permissions role) permission ≡ true
    → (role == moderator || role == operator) ≡ true
unfolding role_permissions
granted-is_admin role permission = elim (Bool-cases (role == moderator)) [
  | inl m ↦ rw m (λ h. refl)
  | inr n ↦ elim (Bool-cases (role == operator)) [
    | inl o ↦ rw (n, o) (λ h. refl)
    | inr p ↦ rw (n, p) (λ h. cc h)
  ]
]

dashboard-holds :
    (role : ℤ)
    → (role == moderator || role == operator) ≡ true
    → granted (role_permissions role) "dashboard.read" ≡ true
unfolding role_permissions holds
dashboard-holds role = elim (Bool-cases (role == moderator)) [
  | inl m ↦ rw m (λ h. refl)
  | inr n ↦ elim (Bool-cases (role == operator)) [
    | inl o ↦ rw (n, o) (λ h. refl)
    | inr p ↦ rw (n, p) (λ h. cc h)
  ]
]

-- A role may enter the administration exactly if it has some permission, and then it has the
-- permission to read the dashboard.
pub is_admin_role-has_permission :
    (role : ℤ)
    → ((is_admin_role role ≡ true)
        ↔ ((permission : String) × (has_permission role permission ≡ true)))
      × (is_admin_role role ≡ has_permission role "dashboard.read")
unfolding is_admin_role has_permission
is_admin_role-has_permission role = elim (Bool-cases (role == super_admin)) [
  | inl all ↦ rw all (((λ h. ("dashboard.read", refl)), (λ h. refl)), refl)
  | inr other ↦ rw other (
    ((λ h. ("dashboard.read", dashboard-holds role h)), (λ (p, h). granted-is_admin role p h)),
    both_true (role == moderator || role == operator)
        (granted (role_permissions role) "dashboard.read") (dashboard-holds role)
        (granted-is_admin role "dashboard.read"),
  )
]
