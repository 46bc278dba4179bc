-- ===== src/Admin/Routes.antt =====
-- The routes of the actions on users and rooms (services/admin/api/router.go, admin_user.go, admin_room.go and
-- admin_permission.go).
use lan_sync.Prelude.{
  ℕ, String, Bool, false, Option, none, some, List, [], ◌∷◌, ◌||◌, if◌then◌else◌, ◌==◌, string_eq,
}
use lan_sync.Prelude.Int.{ℤ, pos}
use lan_sync.Prelude.Result.{Result, ok, err}
use lan_sync.Roles.{has_permission}
use lan_sync.Access.{
  CustomClaims, Context, Outcome, next, aborted, panics, role_of_value, jwt_auth, require_admin,
  admin_rate_limit, require_any_permission, run_chain,
}
use lan_sync.Admin.{Backend, Error, UserAction, RoomAction, apply_user_action, apply_room_action}

abbrev pub permits : Option ℤ → String → Bool
permits none permission = false
permits (some role) permission = has_permission role permission

unfoldable pub admin_has_permission : Context → String → Bool
admin_has_permission c permission = permits (role_of_value c.user_role) permission

unfoldable pub user_action_permission : String → String
user_action_permission action =
    if action == "ban" || action == "unban"
    then "user.ban"
    else if action == "role_super_admin"
        || action == "role_moderator"
        || action == "role_operator"
        || action == "role_user"
    then "user.role.update"
    else ""

unfoldable pub room_action_permission : String → String
room_action_permission action =
    if action == "freeze"
      || action == "unfreeze"
      || action == "remove_member"
      || action == "set_admin"
      || action == "transfer_owner"
    then "room.freeze"
    else if action == "disband"
    then "room.delete"
    else if action == "agent_enable" || action == "agent_disable"
    then "agent.config"
    else if action == "moderation_enable" || action == "moderation_disable"
    then "moderation.review"
    else ""

-- What a handler reads of the request: the number in the path and the body where they parse.
pub record ActionRequest : Type 0 where
  pub id : Option ℤ
  pub body : Option (String × ℤ)
  pub admin_username : String
  pub request_id : String
  pub remote_ip : String
  pub user_agent : String

abbrev pub user_id_or_zero : Option ℤ → ℤ
user_id_or_zero none = pos 0
user_id_or_zero (some id) = id

abbrev pub replied : {S : Type 0} → Result Error (Unit {0}) × S → ℕ × S
replied (ok _, s) = (200, s)
replied (err _, s) = (500, s)

module _ {S : Type 0} (backend : Backend S) (joined : String → String → String)
    (format_int : ℤ → String) where
  abbrev pub admin_name : Context → ActionRequest → String
  admin_name c r =
      if r.admin_username == "" then format_int (user_id_or_zero c.user_id) else r.admin_username

  abbrev pub user_action_of : Context → ActionRequest → String → UserAction
  user_action_of c r action = record {
    action = action;
    admin_user_id = user_id_or_zero c.user_id;
    admin_name = admin_name c r;
    request_id = r.request_id;
    remote_ip = r.remote_ip;
    user_agent = r.user_agent;
  }

  abbrev pub room_action_of : Context → ActionRequest → String → ℤ → RoomAction
  room_action_of c r action target = record {
    action = action;
    admin_user_id = user_id_or_zero c.user_id;
    admin_name = admin_name c r;
    request_id = r.request_id;
    remote_ip = r.remote_ip;
    user_agent = r.user_agent;
    target_user_id = target;
  }

  -- The status of the reply and what the handler did; `ready` tells that the service is not nil.
  abbrev pub checked_action : Context → String → (S → ℕ × S) → S → ℕ × S
  checked_action c permission act s =
      if permission == ""
      then (400, s)
      else if admin_has_permission c permission
      then act s
      else (403, s)

  abbrev pub user_action_on :
      Bool → Context → ActionRequest → Option ℤ → Option (String × ℤ) → S → ℕ × S
  unfolding admin_has_permission
  user_action_on ready c r none body s = (400, s)
  user_action_on ready c r (some id) none s = (400, s)
  user_action_on ready c r (some id) (some (action, _)) s =
      if ready
      then checked_action c (user_action_permission action)
          (λ s. replied (apply_user_action backend joined id (user_action_of c r action) s)) s
      else (503, s)

  unfoldable pub admin_user_action : Bool → Context → ActionRequest → S → ℕ × S
  admin_user_action ready c r s = user_action_on ready c r r.id r.body s

  abbrev pub room_action_on :
      Bool → Context → ActionRequest → Option ℤ → Option (String × ℤ) → S → ℕ × S
  unfolding admin_has_permission
  room_action_on ready c r none body s = (400, s)
  room_action_on ready c r (some id) none s = (400, s)
  room_action_on ready c r (some id) (some (action, target)) s =
      if ready
      then checked_action c (room_action_permission action)
          (λ s. replied (apply_room_action backend joined id (room_action_of c r action target) s))
          s
      else (503, s)

  unfoldable pub admin_room_action : Bool → Context → ActionRequest → S → ℕ × S
  admin_room_action ready c r s = room_action_on ready c r r.id r.body s

  abbrev pub served : (Context → S → ℕ × S) → Outcome → S → ℕ × S
  served handler (next c) s = handler c s
  served handler (aborted status) s = (status, s)
  served handler panics s = (500, s)

  -- The middlewares of the group and of the route.
  abbrev pub guards :
      (String → List String)
      → (String → Option CustomClaims)
      → (Context → Bool)
      → List String
      → List (Context → Outcome)
  guards split_n parse limiter_allows permissions =
      jwt_auth split_n parse
      ∷ require_admin
      ∷ admin_rate_limit limiter_allows
      ∷ require_any_permission permissions
      ∷ []

  module _ (split_n : String → List String) (parse : String → Option CustomClaims)
      (limiter_allows : Context → Bool) where
    unfoldable pub post_user_action : Bool → Context → ActionRequest → S → ℕ × S
    post_user_action ready c r =
        served (λ d. admin_user_action ready d r)
          (run_chain (guards split_n parse limiter_allows ("user.ban" ∷ "user.role.update" ∷ [])) c)

    unfoldable pub post_room_action : Bool → Context → ActionRequest → S → ℕ × S
    post_room_action ready c r =
        served (λ d. admin_room_action ready d r)
          (run_chain
            (guards split_n parse limiter_allows
              ("room.freeze" ∷ "room.delete" ∷ "agent.config" ∷ []))
            c)
