-- ===== src/Rooms/Api.antt =====
-- The HTTP interface of the room service: services/rooms/api/module.go without the list of one's own rooms. The numbers
-- of a path and of a query are what strconv makes of them, and nothing where it refuses them.
use lan_sync.Prelude.{ℕ, String, Bool, Option, none, some, List, ◌==◌, map, if◌then◌else◌}
use lan_sync.Prelude.Int.{ℤ, pos, ltb_ℤ, int_eq}
use lan_sync.Prelude.Result.{Result, ok, err}
use lan_sync.Rooms.{
  Room, RoomMember, Error, room_not_found, not_room_member, target_not_member, permission_denied,
  cannot_remove_owner, invalid_room_name, db_error, Repositories, World, create_room, join_room,
  remove_member, room_members, search_rooms, disband_room,
}

-- The bodies of the replies with status 200, and the status of any other.
pub data Reply : Type 0 where
  refused : ℕ → Reply
  room_created : ℤ → String → Reply
  rooms_found : List Room → ℤ → ℤ → ℤ → Reply  -- the rooms, their number, the offset and the limit
  room_joined : ℤ → Reply
  members_of : ℤ → List (RoomMember × Bool) → Reply  -- each with whether it made the room
  succeeded : Reply

-- writeError.
abbrev pub error_status : Error → ℕ
error_status invalid_room_name = 400
error_status room_not_found = 404
error_status target_not_member = 404
error_status not_room_member = 403
error_status permission_denied = 403
error_status cannot_remove_owner = 403
error_status (db_error e) = 500

abbrev pub path_id : Option ℤ → Option ℤ
path_id none = none
path_id (some value) = if ltb_ℤ (pos 0) value then some value else none

abbrev pub query_int : Option ℤ → ℤ → ℤ
query_int none fallback = fallback
query_int (some value) fallback = value

abbrev pub max_ℤ : ℤ → ℤ → ℤ
max_ℤ a b = if ltb_ℤ a b then b else a

abbrev pub min_ℤ : ℤ → ℤ → ℤ
min_ℤ a b = if ltb_ℤ b a then b else a

module _ {S : Type 0} (repo : Repositories S) where
  abbrev pub reply_with : {A : Type 0} → (A → Reply) → Result Error A × World S → Reply × World S
  reply_with body (err e, w) = (refused (error_status e), w)
  reply_with body (ok a, w) = (body a, w)

  -- `name` is nothing where the body does not bind.
  abbrev pub post_room : (String → String) → ℤ → ℤ → Option String → World S → Reply × World S
  post_room trim now user none w = (refused 400, w)
  post_room trim now user (some name) w =
      reply_with (λ (r : Room). room_created r.id r.name) (create_room repo trim now w name user)

  abbrev pub rooms_reply : ℤ → ℤ → Result Error (List Room × ℤ) → Reply
  rooms_reply offset limit (err e) = refused (error_status e)
  rooms_reply offset limit (ok (rooms, total)) =
      rooms_found rooms total (max_ℤ offset (pos 0)) (min_ℤ (max_ℤ limit (pos 1)) (pos 100))

  abbrev pub get_rooms : String → Option ℤ → Option ℤ → World S → Reply
  get_rooms keyword offset limit w =
      let o = query_int offset (pos 0) in
      let l = query_int limit (pos 20) in rooms_reply o l (search_rooms repo w.store keyword o l)

  abbrev pub with_path_id : Option ℤ → (ℤ → World S → Reply × World S) → World S → Reply × World S
  with_path_id none act w = (refused 400, w)
  with_path_id (some id) act w = act id w

  abbrev pub post_join : ℤ → Option ℤ → World S → Reply × World S
  post_join user room =
      with_path_id (path_id room)
        (λ id w. reply_with (λ _. room_joined id) (join_room repo w id user))

  abbrev pub members_reply : ℤ → Result Error (List RoomMember × ℤ) → Reply
  members_reply room (err e) = refused (error_status e)
  members_reply room (ok (members, creator)) =
      members_of room (map (λ (m : RoomMember). (m, m.id == creator)) members)

  abbrev pub get_members : ℤ → Option ℤ → World S → Reply × World S
  get_members user room =
      with_path_id (path_id room)
        (λ id w. (members_reply id (room_members repo w.store id user), w))

  abbrev pub delete_member : ℤ → ℤ → Option ℤ → Option ℤ → World S → Reply × World S
  delete_member user role room target = with_path_id (path_id room) (λ id.
      with_path_id (path_id target)
        (λ removed w. reply_with (λ _. succeeded) (remove_member repo w id user removed role)))

  abbrev pub delete_room : ℤ → Option ℤ → World S → Reply × World S
  delete_room user room =
      with_path_id (path_id room)
        (λ id w. reply_with (λ _. succeeded) (disband_room repo w id user))
