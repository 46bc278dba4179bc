-- ===== src/RoomEvents.antt =====
-- The changes of rooms on their way from the room service to the hubs: services/rooms/events/redis_notifier.go and
-- StartRoomEventListener of services/gateway/websocket/room_events.go. Redis hands on what was published, and
-- encoding/json is a parameter.
pub mod Subscriptions
pub mod Followed
mod Tests
use lan_sync.Prelude.{
  String, string_eq, Bool, true, false, Option, none, some, List, [], ◌∷◌, ◌++◌, ◌==◌,
  if◌then◌else◌,
}
use lan_sync.Prelude.Int.{ℤ, pos}
use lan_sync.Rooms.{Notice, joins, leaves, disbands}
use lan_sync.Hub.{Hub, join_room, leave_room, disband_room}

pub record Event : Type 0 where
  pub type : String
  pub room_id : ℤ
  pub user_id : ℤ

abbrev pub member_joined : String
member_joined = "member_joined"

abbrev pub member_left : String
member_left = "member_left"

abbrev pub room_disbanded : String
room_disbanded = "room_disbanded"

-- RedisNotifier.JoinRoom, LeaveRoom and DisbandRoom.
unfoldable pub event_of : Notice → Event
event_of (joins user room) = record { type = member_joined; room_id = room; user_id = user }
event_of (leaves user room) = record { type = member_left; room_id = room; user_id = user }
event_of (disbands room) = record { type = room_disbanded; room_id = room; user_id = pos 0 }

-- `sent` tells whether Redis takes the message; the channel is the list of the payloads it took.
abbrev pub publish_payload : Option String → Bool → List String → List String
publish_payload none sent channel = channel
publish_payload (some payload) false channel = channel
publish_payload (some payload) true channel = channel ++ payload ∷ []

unfoldable pub publish : (Event → Option String) → Event → Bool → List String → List String
publish marshal event sent channel = publish_payload (marshal event) sent channel

-- The notices of a room service in their order, and whether Redis takes each.
pub publish_all : (Event → Option String) → List (Notice × Bool) → List String → List String
publish_all marshal [] channel = channel
publish_all marshal ((notice, sent) ∷ rest) channel =
    publish_all marshal rest (publish marshal (event_of notice) sent channel)

unfoldable pub apply_event : Hub → Event → Hub
apply_event h event =
    if event.type == member_joined
    then join_room h event.user_id event.room_id
    else if event.type == member_left
    then leave_room h event.user_id event.room_id
    else if event.type == room_disbanded
    then disband_room h event.room_id
    else h

abbrev pub apply_payload : Hub → Option Event → Hub
apply_payload h none = h
apply_payload h (some event) = apply_event h event

-- The loop of the listener over what it receives until its context is done or the channel is closed.
unfoldable pub listen : (String → Option Event) → Hub → List String → Hub
listen unmarshal h [] = h
listen unmarshal h (payload ∷ rest) = listen unmarshal (apply_payload h (unmarshal payload)) rest
