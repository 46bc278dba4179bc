-- ===== src/Rooms/Tests.antt =====
-- Runs of the room service on a small database (services/rooms/application/service.go).
use lan_sync.Prelude.{
  ℕ, suc, String, ◌≡◌, refl, ◌⊎◌, true, Option, none, some, [], ◌∷◌, if◌then◌else◌, ◌==◌, string_eq,
}
use lan_sync.Prelude.Int.{ℤ, pos, int_eq}
use lan_sync.Prelude.Result.{ok, err}
use lan_sync.Rooms.{
  Room, DbError, Error, Repositories, World, Notice, create_room, join_room, remove_member,
  check_remove, can_remove, disband_room, search_rooms, clamp_limit,
}
use lan_sync.Rooms.Permissions.{
  MayRemove, MayDisband, remove_member-MayRemove, disband_room-MayDisband,
}
use lan_sync.Rooms.Api.{get_rooms, delete_member, refused, rooms_found}
use lan_sync.Rooms.Notices.{told, calls-told}

abbrev kitchen : Room
kitchen = record {
  id = pos 7;
  name = "kitchen";
  creator_id = pos 1;
  kind = pos 2;
  last_active_at = pos 0;
}

-- One room, made by user 1; user 2 is an administrator of it and user 3 a member. The state of the
-- database counts the writes.
abbrev role_of : ℤ → Option ℤ
role_of user =
    if user == pos 1
    then some (pos 2)
    else if user == pos 2
    then some (pos 2)
    else if user == pos 3
    then some (pos 1)
    else none

abbrev database : Repositories ℕ
database = record {
  create_room_with_creator = λ r creator s. (ok kitchen, suc s);
  get_room_by_id = λ id s. if id == pos 7 then ok kitchen else err DbError.not_found;
  soft_delete_room = λ id s. (ok tt, suc s);
  search_rooms = λ keyword offset limit s. ok (kitchen ∷ [], pos 1);
  add_member = λ id user role s. (ok tt, suc s);
  remove_member = λ id user s. (ok tt, suc s);
  check_is_member = λ id user s. ok true;
  get_member_role = λ id user s. ok (role_of user);
  get_room_members_with_roles = λ id s. ok [];
}

abbrev world : World ℕ
world = record { store = 0; has_runtime = true; notices = [] }

admin_removes_member : remove_member database world (pos 7) (pos 2) (pos 3) (pos 0) ≡ (
  ok tt,
  record { store = 1; has_runtime = true; notices = Notice.leaves (pos 3) (pos 7) ∷ [] },
)
unfolding remove_member check_remove can_remove
admin_removes_member = refl

admin_keeps_owner :
    remove_member database world (pos 7) (pos 2) (pos 1) (pos 0)
    ≡ (err Error.cannot_remove_owner, world)
unfolding remove_member check_remove can_remove
admin_keeps_owner = refl

MayRemove_example :
    ((e : Error) × (remove_member database world (pos 7) (pos 2) (pos 3) (pos 0) ≡ (err e, world)))
    ⊎ MayRemove database 0 (pos 7) (pos 2) (pos 3) (pos 0)
MayRemove_example = remove_member-MayRemove database world (pos 7) (pos 2) (pos 3) (pos 0)

MayDisband_example :
    ((e : Error) × (disband_room database world (pos 7) (pos 1) ≡ (err e, world)))
    ⊎ MayDisband database 0 (pos 7) (pos 1)
MayDisband_example = disband_room-MayDisband database world (pos 7) (pos 1)

abbrev same : String → String
same s = s

told_example :
    (let done = create_room database same (pos 9) world "kitchen" (pos 1) in
      done.1.notices ≡ told true (λ (r : Room). Notice.joins (pos 1) r.id) done.0)
    × (let done = join_room database world (pos 7) (pos 1) in
        done.1.notices ≡ told true (λ _. Notice.joins (pos 1) (pos 7)) done.0)
    × (let done = remove_member database world (pos 7) (pos 2) (pos 3) (pos 0) in
        done.1.notices ≡ told true (λ _. Notice.leaves (pos 3) (pos 7)) done.0)
    × (let done = disband_room database world (pos 7) (pos 2) in
        done.1.notices ≡ told true (λ _. Notice.disbands (pos 7)) done.0)
told_example =
    calls-told database world same (pos 9) "kitchen" (pos 1) (pos 7) (pos 2) (pos 3) (pos 0)

-- A request for 0 rooms looks for 20 and is told of a limit of 1.
zero_limit_example :
    (clamp_limit database (pos 0) ≡ pos 20)
    × (get_rooms database "" none (some (pos 0)) world
        ≡ rooms_found (kitchen ∷ []) (pos 1) (pos 0) (pos 1))
unfolding search_rooms
zero_limit_example = (refl, refl)

-- A member who may not remove another is answered 403.
delete_member_example :
    (delete_member database (pos 3) (pos 0) (some (pos 7)) (some (pos 2)) world).0 ≡ refused 403
unfolding remove_member check_remove can_remove
delete_member_example = refl
