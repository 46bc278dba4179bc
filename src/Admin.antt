-- ===== src/Admin.antt =====
-- The management of users and rooms by administrators: ApplyAction of services/admin/application/user_service.go and
-- room_service.go, AuditService.Log of audit.go, and the handlers and permissions of
-- services/admin/api/admin_user.go, admin_room.go and admin_permission.go. The database, the runtime of the
-- chat server, the cache of the users who are online, and encoding/json are parameters.
pub mod Users
pub mod Routes
pub mod Admission
pub mod Entitled
mod Tests
use lan_sync.Prelude.{
  ℕ, String, Bool, true, false, Option, none, some, List, [], ◌∷◌, ◌&&◌, ◌||◌, if◌then◌else◌, ◌==◌,
  string_eq,
}
use lan_sync.Prelude.Int.{ℤ, pos, ltb_ℤ, int_eq}
use lan_sync.Prelude.Result.{Result, ok, err}
use lan_sync.Prelude.Command.{Command, ◌>>=◌, ◌>>◌, done, fails, ignoring, or_error}
use lan_sync.Roles.{super_admin, moderator, operator, has_permission}
use lan_sync.Access.{Context, role_of_value}

-- The columns that the actions and the audit touch.
pub record User : Type 0 where
  pub id : ℤ
  pub username : String
  pub role : ℤ
  pub status : ℤ

pub record Room : Type 0 where
  pub id : ℤ
  pub name : String
  pub creator_id : ℤ
  pub agent_enabled : Bool
  pub moderation_enabled : Bool
  pub status : ℤ

pub data Error : Type 0 where
  unsupported_action agent_migrated record_not_found operation_failed : Error

-- A row of the audit log. `target` is the entity before and after, for the JSON that is stored.
pub record AuditLog (T : Type 0) : Type 0 where
  pub admin_user_id : ℤ
  pub admin_username : String
  pub action : String
  pub target_type : String
  pub target_id : ℤ
  pub before_data : T
  pub after_data : T
  pub request_id : String
  pub remote_ip : String
  pub user_agent : String
  pub result : String

-- The services that ApplyAction calls; `has_runtime` and `has_audit` are the checks for nil.
pub record Backend (S : Type 0) : Type 0 where
  pub find_user : ℤ → Command S Error User
  pub save_user : User → Command S Error (Unit {0})
  pub find_room : ℤ → Command S Error Room
  pub save_room : Room → Command S Error (Unit {0})
  pub delete_room : ℤ → Command S Error (Unit {0})
  pub delete_member : ℤ → ℤ → Command S Error (Unit {0})
  pub update_member_role : ℤ → ℤ → ℤ → Command S Error (Unit {0})
  pub log_user : AuditLog User → Command S Error (Unit {0})
  pub log_room : AuditLog Room → Command S Error (Unit {0})
  pub has_runtime : Bool
  pub has_audit : Bool
  pub kick_user : ℤ → Command S Error (Unit {0})
  pub disband_room : ℤ → Command S Error (Unit {0})
  pub remove_room_member : ℤ → ℤ → Command S Error (Unit {0})
  pub set_user_offline : ℤ → Command S Error (Unit {0})

pub record UserAction : Type 0 where
  pub action : String
  pub admin_user_id : ℤ
  pub admin_name : String
  pub request_id : String
  pub remote_ip : String
  pub user_agent : String

pub record RoomAction : Type 0 where
  pub action : String
  pub admin_user_id : ℤ
  pub admin_name : String
  pub request_id : String
  pub remote_ip : String
  pub user_agent : String
  pub target_user_id : ℤ

-- The switch of the user's ApplyAction.
unfoldable pub changed_user : String → User → Option User
changed_user action user =
    if action == "ban"
    then some (record user { status = pos 1 })
    else if action == "unban"
    then some (record user { status = pos 0 })
    else if action == "role_super_admin"
    then some (record user { role = super_admin })
    else if action == "role_moderator"
    then some (record user { role = moderator })
    else if action == "role_operator"
    then some (record user { role = operator })
    else if action == "role_user"
    then some (record user { role = pos 0 })
    else none

module _ {S : Type 0} (backend : Backend S) (joined : String → String → String) where
  -- `joined` is the concatenation of strings.
  abbrev pub write_user_audit : User → User → UserAction → Command S Error (Unit {0})
  write_user_audit before after action =
      if backend.has_audit
      then backend.log_user (record {
        admin_user_id = action.admin_user_id;
        admin_username = action.admin_name;
        action = joined "user." action.action;
        target_type = "user";
        target_id = before.id;
        before_data = before;
        after_data = after;
        request_id = action.request_id;
        remote_ip = action.remote_ip;
        user_agent = action.user_agent;
        result = "success";
      })
      else done tt

  abbrev pub after_ban : ℤ → UserAction → Command S Error (Unit {0})
  after_ban user_id action =
      if action.action == "ban" && backend.has_runtime
      then backend.kick_user user_id >> ignoring (backend.set_user_offline user_id)
      else done tt

  unfoldable pub apply_user_action : ℤ → UserAction → Command S Error (Unit {0})
  apply_user_action user_id action = do
    before ← backend.find_user user_id
    user ← or_error (changed_user action.action before) unsupported_action
    backend.save_user user
    after_ban user_id action
    write_user_audit before user action

  abbrev pub write_room_audit : Room → Room → RoomAction → Command S Error (Unit {0})
  write_room_audit before after action =
      if backend.has_audit
      then backend.log_room (record {
        admin_user_id = action.admin_user_id;
        admin_username = action.admin_name;
        action = joined "room." action.action;
        target_type = "room";
        target_id = after.id;
        before_data = before;
        after_data = after;
        request_id = action.request_id;
        remote_ip = action.remote_ip;
        user_agent = action.user_agent;
        result = "success";
      })
      else done tt

  -- `roomsmodel.Room{ID: roomID}`
  abbrev pub blank_room : ℤ → Room
  blank_room room_id = record {
    id = room_id;
    name = "";
    creator_id = pos 0;
    agent_enabled = false;
    moderation_enabled = false;
    status = pos 0;
  }

  unfoldable pub set_member_role : ℤ → ℤ → ℤ → RoomAction → Command S Error (Unit {0})
  set_member_role room_id user_id role action = do
    backend.update_member_role room_id user_id role
    write_room_audit (blank_room room_id) (blank_room room_id) action

  abbrev pub if_runtime : Command S Error (Unit {0}) → Command S Error (Unit {0})
  if_runtime call = if backend.has_runtime then call else done tt

  -- What follows the switch.
  abbrev pub save_changed : Room → Room → RoomAction → Command S Error (Unit {0})
  save_changed before room action = do backend.save_room room; write_room_audit before room action

  abbrev pub disband : ℤ → Room → RoomAction → Command S Error (Unit {0})
  disband room_id room action = do
    backend.delete_room room_id
    if_runtime (backend.disband_room room_id)
    write_room_audit room room action

  abbrev pub remove_target : ℤ → Room → RoomAction → Command S Error (Unit {0})
  remove_target room_id room action = do
    backend.delete_member room_id action.target_user_id
    if_runtime (backend.remove_room_member room_id action.target_user_id)
    write_room_audit room room action

  abbrev pub transfer : ℤ → Room → RoomAction → Command S Error (Unit {0})
  unfolding set_member_role
  transfer room_id before action =
      let room = record before { creator_id = action.target_user_id } in
      do
        backend.save_room room
        ignoring (set_member_role room_id action.target_user_id (pos 3) action)
        write_room_audit before room action

  -- A case of the switch that needs a target falls out of it without one.
  abbrev pub with_target :
      Room → RoomAction → Command S Error (Unit {0}) → Command S Error (Unit {0})
  with_target room action command =
      if ltb_ℤ (pos 0) action.target_user_id then command else save_changed room room action

  unfoldable pub switch_room_action : ℤ → RoomAction → Room → Command S Error (Unit {0})
  unfolding set_member_role
  switch_room_action room_id action room =
      if action.action == "freeze"
      then save_changed room (record room { status = pos 1 }) action
      else if action.action == "unfreeze"
      then save_changed room (record room { status = pos 0 }) action
      else if action.action == "disband"
      then disband room_id room action
      else if action.action == "agent_enable" || action.action == "agent_disable"
      then fails agent_migrated
      else if action.action == "moderation_enable"
      then save_changed room (record room { moderation_enabled = true }) action
      else if action.action == "moderation_disable"
      then save_changed room (record room { moderation_enabled = false }) action
      else if action.action == "remove_member"
      then with_target room action (remove_target room_id room action)
      else if action.action == "set_admin"
      then with_target room action (set_member_role room_id action.target_user_id (pos 2) action)
      else if action.action == "transfer_owner"
      then with_target room action (transfer room_id room action)
      else fails unsupported_action

  unfoldable pub apply_room_action : ℤ → RoomAction → Command S Error (Unit {0})
  apply_room_action room_id action = do
    room ← backend.find_room room_id
    switch_room_action room_id action room
