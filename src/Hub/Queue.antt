-- ===== src/Hub/Queue.antt =====
-- The order in which a shard dispatches (services/gateway/websocket/hub.go).
use lan_sync.Prelude.{
  ℕ, ◌≡◌, refl, ap, ◌∙◌, Bool, true, false, Option, none, some, List, [], ◌∷◌, ◌++◌, ◌||◌, not,
  if◌then◌else◌, ltb, eqb, eqb_iff, eqb_self, length, concat, Bool-cases, inl, inr, take,
}
use lan_sync.Prelude.Int.{ℤ, int_eq}
use lan_sync.Prelude.Assoc.{lookup}
use lan_sync.Hub.{
  Hub, Shard, Client, Message, OutboundMessage, contains, of_list, shard_index, set_shard,
  set_client, room_members, add_client_to_room, remove_client_from_room, add_to_rooms,
  remove_from_rooms, set_user, clear_user, is_client, register, unregister, minus, update_rooms,
  join_client, leave_client, forget_room, disband_room, kill_capacity, try_send, request_evict,
  deliver_to, send_all, batches, turn, next_of, run_tasks, dispatch_message,
}
use lan_sync.Hub.Loop.{forward_next}

abbrev pub queue : Hub → ℕ → List Message
queue h i = (h.shards i).forward

-- A step that leaves every queue as it is.
abbrev pub Keeps : Hub → Hub → Type 0
Keeps h g = (i : ℕ) → queue g i ≡ queue h i

pub set-Keeps : (h : Hub) (i : ℕ) (s : Shard) → s.forward ≡ queue h i → Keeps h (set_shard h i s)
set-Keeps h i s e j = elim (Bool-cases (eqb j i)) [
  | inl same ↦ rw (same, set_shard, queue) (rw ((eqb_iff j i).0 same) e)
  | inr other ↦ rw (other, set_shard, queue) refl
]

if-Keeps : (b : Bool) (h g f : Hub) → Keeps h g → Keeps h f → Keeps h (if b then g else f)
if-Keeps true h g f a b = a
if-Keeps false h g f a b = b

add-Keeps : (h : Hub) (c : ℕ) (room : ℤ) → Keeps h (add_client_to_room h c room)
unfolding add_client_to_room
add-Keeps h c room = set-Keeps h (shard_index h room) _ refl

remove-Keeps : (h : Hub) (c : ℕ) (room : ℤ) → Keeps h (remove_client_from_room h c room)
unfolding remove_client_from_room
remove-Keeps h c room = set-Keeps h (shard_index h room) _ refl

add_to_rooms-Keeps : (h : Hub) (c : ℕ) (rs : List ℤ) → Keeps h (add_to_rooms h c rs)
unfolding add_to_rooms
add_to_rooms-Keeps h c [] j = refl
add_to_rooms-Keeps h c (r ∷ rs) j =
    add_to_rooms-Keeps (add_client_to_room h c r) c rs j ∙ add-Keeps h c r j

remove_from_rooms-Keeps : (h : Hub) (c : ℕ) (rs : List ℤ) → Keeps h (remove_from_rooms h c rs)
unfolding remove_from_rooms
remove_from_rooms-Keeps h c [] j = refl
remove_from_rooms-Keeps h c (r ∷ rs) j =
    remove_from_rooms-Keeps (remove_client_from_room h c r) c rs j ∙ remove-Keeps h c r j

pub register-Keeps : (h : Hub) (c : ℕ) (rs : List ℤ) → Keeps h (register h c rs)
unfolding register set_user
register-Keeps h c rs j =
    add_to_rooms-Keeps _ c rs j ∙ set-Keeps h (shard_index h (h.clients c).user_id) _ refl j

clear_user-Keeps : (h : Hub) (user : ℤ) (c : ℕ) → Keeps h (clear_user h user c)
unfolding clear_user
clear_user-Keeps h user c =
    if-Keeps (is_client (lookup user (h.shards (shard_index h user)).users) c) h _ h
      (set-Keeps h (shard_index h user) _ refl) (λ j. refl)

pub unregister-Keeps : (h : Hub) (c : ℕ) → Keeps h (unregister h c)
unfolding unregister
unregister-Keeps h c =
    if-Keeps (h.clients c).active h _ h
      (λ j.
        remove_from_rooms-Keeps (clear_user h (h.clients c).user_id c) c (h.clients c).room_ids j
        ∙ clear_user-Keeps h (h.clients c).user_id c j)
      (λ j. refl)

pub update_rooms-Keeps : (h : Hub) (c : ℕ) (rs : List ℤ) → Keeps h (update_rooms h c rs)
unfolding update_rooms
update_rooms-Keeps h c rs =
    if-Keeps (h.clients c).active h _ h
      (λ j.
        add_to_rooms-Keeps _ c (minus (of_list rs) (h.clients c).room_ids) j
        ∙ remove_from_rooms-Keeps h c (minus (h.clients c).room_ids (of_list rs)) j)
      (λ j. refl)

pub join_client-Keeps : (h : Hub) (o : Option ℕ) (room : ℤ) → Keeps h (join_client h o room)
unfolding join_client
join_client-Keeps h none room j = refl
join_client-Keeps h (some c) room j =
    if-Keeps (not (h.clients c).active || contains room (h.clients c).room_ids) h h _ (λ j. refl)
      (add-Keeps (set_client h c _) c room) j

pub leave_client-Keeps : (h : Hub) (o : Option ℕ) (room : ℤ) → Keeps h (leave_client h o room)
unfolding leave_client
leave_client-Keeps h none room j = refl
leave_client-Keeps h (some c) room j =
    if-Keeps (not (h.clients c).active || not (contains room (h.clients c).room_ids)) h h _
      (λ j. refl) (remove-Keeps (set_client h c _) c room) j

forget_room-Keeps : (h : Hub) (cs : List ℕ) (room : ℤ) → Keeps h (forget_room h cs room)
unfolding forget_room
forget_room-Keeps h [] room j = refl
forget_room-Keeps h (c ∷ cs) room j = forget_room-Keeps (set_client h c _) cs room j

pub disband_room-Keeps : (h : Hub) (room : ℤ) → Keeps h (disband_room h room)
unfolding disband_room
disband_room-Keeps h room j =
    forget_room-Keeps _ (room_members h room) room j ∙ set-Keeps h (shard_index h room) _ refl j

deliver_to-Keeps : (h : Hub) (c : ℕ) (sent : Client × Bool) → Keeps h (deliver_to h c sent)
unfolding request_evict
deliver_to-Keeps h c (client, true) j = refl
deliver_to-Keeps h c (client, false) j =
    let i = shard_index h (h.clients c).user_id in
    if-Keeps (ltb (length (h.shards i).kill_client) kill_capacity) h _ h (set-Keeps h i _ refl)
      (λ j. refl) j

send_all-Keeps : (h : Hub) (cs : List ℕ) (m : OutboundMessage) → Keeps h (send_all h cs m)
unfolding send_all
send_all-Keeps h [] m j = refl
send_all-Keeps h (c ∷ cs) m j =
    send_all-Keeps (deliver_to h c (try_send (h.clients c) m)) cs m j
    ∙ deliver_to-Keeps h c (try_send (h.clients c) m) j

turn-Keeps :
    (h : Hub) (tasks : List (List ℕ)) (m : OutboundMessage) (o : Option (ℕ × List (List ℕ)))
    → Keeps h (turn h tasks m o).0
turn-Keeps h tasks m none j = refl
turn-Keeps h tasks m (some (c, rest)) j = deliver_to-Keeps h c (try_send (h.clients c) m) j

run_tasks-Keeps :
    (turns : List ℕ) (h : Hub) (tasks : List (List ℕ)) (m : OutboundMessage)
    → Keeps h (run_tasks turns h tasks m)
unfolding run_tasks
run_tasks-Keeps [] h tasks m j = send_all-Keeps h (concat tasks) m j
run_tasks-Keeps (k ∷ turns) h tasks m j =
    let after = turn h tasks m (next_of k tasks) in
    run_tasks-Keeps turns after.0 after.1 m j ∙ turn-Keeps h tasks m (next_of k tasks) j

dispatch_message-Keeps :
    (turns : List ℕ) (h : Hub) (msg : Message) → Keeps h (dispatch_message turns h msg)
unfolding dispatch_message
dispatch_message-Keeps turns h msg =
    if-Keeps (ltb (length (room_members h msg.room_id)) h.fanout_threshold) h _ _
      (send_all-Keeps h (room_members h msg.room_id) _)
      (run_tasks-Keeps turns h (batches h.fanout_batch_size (room_members h msg.room_id)) _)

pub forward_next-other :
    (i j : ℕ) (turns : List ℕ) (h : Hub) (l : List Message)
    → eqb i j ≡ false
    → queue (forward_next j turns h l) i ≡ queue h i
forward_next-other i j turns h [] other = refl
forward_next-other i j turns h (msg ∷ rest) other =
    let g = set_shard h j (record (h.shards j) { forward = rest }) in
    let kept : queue g i ≡ queue h i = rw (other, set_shard, queue) refl in
    dispatch_message-Keeps turns g msg i ∙ kept

pub forward_next-same :
    (i : ℕ) (turns : List ℕ) (h : Hub) (l : List Message)
    → queue h i ≡ l
    → take 1 l ++ queue (forward_next i turns h l) i ≡ l
forward_next-same i turns h [] e = e
forward_next-same i turns h (msg ∷ rest) e =
    let g = set_shard h i (record (h.shards i) { forward = rest }) in
    let popped : queue g i ≡ rest = rw (eqb_self i, set_shard, queue) refl in
    ap (λ (l : List Message). msg ∷ l) (dispatch_message-Keeps turns g msg i ∙ popped)
