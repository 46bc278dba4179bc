-- ===== src/Roles/Tests.antt =====
-- The rights of the roles (shared/auth/roles.go).
use lan_sync.Prelude.{◌≡◌, refl, false}
use lan_sync.Roles.{moderator, has_permission, role_permissions, holds}

moderator_without_audit : has_permission moderator "audit.read" ≡ false
unfolding has_permission role_permissions holds
moderator_without_audit = refl
