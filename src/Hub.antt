-- ===== src/Hub.antt =====
-- services/gateway/websocket/hub.go and the parts of client.go that it calls: the sharded registry
-- of the connected clients. A *Client is an index into the heap `clients`. Each method runs as one
-- step: the locks of the source order the steps, and interleavings inside a method, which the
-- source allows between two lock regions, are not modelled, but for those of a dispatch's tasks. A nil room set is an empty one.
mod Sets
mod State
mod Dispatch
pub mod Fanout
pub mod Alike
pub mod Parallel
pub mod View
pub mod Users
pub mod Consistency
pub mod Steps
pub mod Moves
pub mod Lifetime
pub mod Reconnect
pub mod Loop
pub mod Queue
pub mod Order
mod Tests
use lan_sync.Prelude.{
  ℕ, Bool, true, false, not, Option, none, some, List, [], ◌∷◌, ◌||◌, if◌then◌else◌, nat_eq, eqb,
}
use lan_sync.Prelude.Int.{ℤ, int_eq}
use lan_sync.Prelude.Assoc.{Assoc, lookup, insert, delete}
unfoldable pub use Sets.{contains, add, remove, of_list}
pub use State.{
  OutboundMessage, Client, Message, Shard, Hub, empty_shard, shard_index, set_shard, set_client,
  members,
}
unfoldable pub use State.{new_hub_with_shards, client_by_user, room_members}
pub use Dispatch.{forward_capacity, kill_capacity, deliver_to, with_task, deliver, turn, batches}
unfoldable pub use Dispatch.{
  publish, try_send, request_evict, send_all, task_count, balanced_batch_size, slices, next_of,
  run_tasks, dispatch_message,
}

unfoldable pub add_client_to_room : Hub → ℕ → ℤ → Hub
add_client_to_room h c room =
    let i = shard_index h room in
    let s = h.shards i in
    set_shard h i (record s { rooms = insert room (add c (members (lookup room s.rooms))) s.rooms })

-- A room that has no client left is deleted.
abbrev pub store_members : Assoc ℤ (List ℕ) → ℤ → List ℕ → Assoc ℤ (List ℕ)
store_members rooms room [] = delete room rooms
store_members rooms room (c ∷ cs) = insert room (c ∷ cs) rooms

abbrev pub without_client : Assoc ℤ (List ℕ) → ℤ → Option (List ℕ) → ℕ → Assoc ℤ (List ℕ)
without_client rooms room none c = rooms
without_client rooms room (some cs) c = store_members rooms room (remove c cs)

unfoldable pub remove_client_from_room : Hub → ℕ → ℤ → Hub
remove_client_from_room h c room =
    let i = shard_index h room in
    let s = h.shards i in
    set_shard h i (record s { rooms = without_client s.rooms room (lookup room s.rooms) c })

unfoldable pub add_to_rooms : Hub → ℕ → List ℤ → Hub
add_to_rooms h c [] = h
add_to_rooms h c (r ∷ rs) = add_to_rooms (add_client_to_room h c r) c rs

unfoldable pub remove_from_rooms : Hub → ℕ → List ℤ → Hub
remove_from_rooms h c [] = h
remove_from_rooms h c (r ∷ rs) = remove_from_rooms (remove_client_from_room h c r) c rs

unfoldable pub set_user : Hub → ℤ → ℕ → Hub
set_user h user c =
    let i = shard_index h user in
    let s = h.shards i in set_shard h i (record s { users = insert user c s.users })

abbrev pub is_client : Option ℕ → ℕ → Bool
is_client none c = false
is_client (some d) c = eqb d c

-- `if current := users[id]; current == c { delete(users, id) }`
unfoldable pub clear_user : Hub → ℤ → ℕ → Hub
clear_user h user c =
    let i = shard_index h user in
    let s = h.shards i in
    if is_client (lookup user s.users) c
    then set_shard h i (record s { users = delete user s.users })
    else h

unfoldable pub register : Hub → ℕ → List ℤ → Hub
register h c room_ids =
    let client = h.clients c in
    let h1 = set_client h c (record client { active = true; room_ids = of_list room_ids }) in
    add_to_rooms (set_user h1 client.user_id c) c room_ids

unfoldable pub unregister : Hub → ℕ → Hub
unregister h c =
    let client = h.clients c in
    let h1 = remove_from_rooms (clear_user h client.user_id c) c client.room_ids in
    if client.active
    then set_client h1 c (record client { active = false; room_ids = []; send_closed = true })
    else h

-- The ids of the first list that are not in the second.
unfoldable pub minus : List ℤ → List ℤ → List ℤ
minus [] other = []
minus (r ∷ rs) other = let rest = minus rs other in if contains r other then rest else r ∷ rest

unfoldable pub update_rooms : Hub → ℕ → List ℤ → Hub
update_rooms h c room_ids =
    let client = h.clients c in
    let new_rooms = of_list room_ids in
    let h1 = remove_from_rooms h c (minus client.room_ids new_rooms) in
    let h2 = add_to_rooms h1 c (minus new_rooms client.room_ids) in
    if client.active then set_client h2 c (record client { room_ids = new_rooms }) else h

-- JoinRoom and LeaveRoom, for the client that `clientByUser` found.
unfoldable pub join_client : Hub → Option ℕ → ℤ → Hub
join_client h none room = h
join_client h (some c) room =
    let client = h.clients c in
    let h1 = set_client h c (record client { room_ids = room ∷ client.room_ids }) in
    if not client.active || contains room client.room_ids then h else add_client_to_room h1 c room

unfoldable pub join_room : Hub → ℤ → ℤ → Hub
join_room h user room = join_client h (client_by_user h user) room

unfoldable pub leave_client : Hub → Option ℕ → ℤ → Hub
leave_client h none room = h
leave_client h (some c) room =
    let client = h.clients c in
    let h1 = set_client h c (record client { room_ids = remove room client.room_ids }) in
    if not client.active || not (contains room client.room_ids)
    then h
    else remove_client_from_room h1 c room

unfoldable pub leave_room : Hub → ℤ → ℤ → Hub
leave_room h user room = leave_client h (client_by_user h user) room

-- `delete(client.roomIDs, roomID)` for each client of the snapshot.
unfoldable pub forget_room : Hub → List ℕ → ℤ → Hub
forget_room h [] room = h
forget_room h (c ∷ cs) room =
    let client = h.clients c in
    forget_room (set_client h c (record client { room_ids = remove room client.room_ids })) cs room

unfoldable pub disband_room : Hub → ℤ → Hub
disband_room h room =
    let i = shard_index h room in
    let s = h.shards i in
    forget_room (set_shard h i (record s { rooms = delete room s.rooms })) (room_members h room)
      room
