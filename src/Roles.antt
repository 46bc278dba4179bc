-- ===== src/Roles.antt =====
-- shared/auth/roles.go: the roles of users and what they permit.
pub mod Rights
mod Tests
use lan_sync.Prelude.{
  String, Bool, true, false, Option, none, some, List, [], ◌∷◌, ◌||◌, if◌then◌else◌, ◌==◌,
  string_eq,
}
use lan_sync.Prelude.Int.{ℤ, pos, int_eq}

abbrev pub super_admin : ℤ
super_admin = pos 1

abbrev pub moderator : ℤ
moderator = pos 2

abbrev pub operator : ℤ
operator = pos 3

-- The keys of a map[string]struct{}.
unfoldable pub holds : String → List String → Bool
holds wanted [] = false
holds wanted (permission ∷ rest) = permission == wanted || holds wanted rest

abbrev pub moderator_permissions : List String
moderator_permissions =
    "dashboard.read" ∷ "user.read" ∷ "user.ban" ∷ "user.kick" ∷ "room.read" ∷ "room.freeze"
    ∷ "room.delete" ∷ "message.read" ∷ "message.delete" ∷ "moderation.read" ∷ "moderation.review"
    ∷ "agent.read" ∷ "file.read" ∷ "connection.read" ∷ []

abbrev pub operator_permissions : List String
operator_permissions =
    "dashboard.read" ∷ "user.read" ∷ "room.read" ∷ "message.read" ∷ "moderation.read" ∷ "agent.read"
    ∷ "file.read" ∷ "connection.read" ∷ "audit.read" ∷ "system.read" ∷ []

-- rolePermissionMap
unfoldable pub role_permissions : ℤ → Option (List String)
role_permissions role =
    if role == moderator
    then some moderator_permissions
    else if role == operator
    then some operator_permissions
    else none

unfoldable pub role_name : ℤ → String
role_name role =
    if role == super_admin
    then "super_admin"
    else if role == moderator
    then "moderator"
    else if role == operator
    then "operator"
    else "user"

unfoldable pub is_admin_role : ℤ → Bool
is_admin_role role = role == super_admin || role == moderator || role == operator

abbrev pub granted : Option (List String) → String → Bool
granted none permission = false
granted (some permissions) permission = holds permission permissions

unfoldable pub has_permission : ℤ → String → Bool
has_permission role permission =
    if role == super_admin then true else granted (role_permissions role) permission
