-- ===== src/Hub/Tests.antt =====
-- Runs of the registry (services/gateway/websocket/hub.go).
use lan_sync.Prelude.{ℕ, ◌≡◌, ◌≤◌, refl, [], ◌∷◌, some, false, List, map, ◌++◌, arith, length}
use lan_sync.Prelude.Int.{ℤ, pos, u64}
use lan_sync.Prelude.Result.{ok}
use lan_sync.Events.{MessageEnvelope, Bytes}
use lan_sync.Prelude.Assoc.{lookup, insert}
use lan_sync.Hub.{
  add, run_tasks, next_of, slices, task_count, balanced_batch_size, request_evict, OutboundMessage,
  forward_capacity, publish, try_send, Client, Hub, Message, add_to_rooms, add_client_to_room,
  set_user, new_hub_with_shards, register, unregister, leave_room, client_by_user, room_members,
  dispatch_message, send_all,
}
use lan_sync.Hub.Alike.{IsAlike}
use lan_sync.Hub.Parallel.{outbound, IsOneLoop, dispatch_message-order}
use lan_sync.Hub.Consistency.{IsConsistent}
use lan_sync.Hub.Lifetime.{Step, Reachable, Reachable-IsConsistent}
use lan_sync.Hub.Loop.{HubEvent, broadcasts, forwards, run_forward, hub_step, run_hub}
use lan_sync.Hub.Queue.{queue}
use lan_sync.Hub.Order.{accepted, taken, run_hub-queue}
use lan_sync.Hub.Reconnect.{IsGone, unregister-IsGone, reconnect-keeps_new}

-- Every client is a connection of user 5.
abbrev clients : ℕ → Client
clients c = record {
  user_id = pos 5;
  active = false;
  room_ids = [];
  send = [];
  capacity = 2;
  send_closed = false;
}

abbrev hub0 : Hub
hub0 = new_hub_with_shards 4 clients 2 1

abbrev hub1 : Hub
hub1 = register hub0 0 (pos 7 ∷ pos 8 ∷ [])

abbrev hub2 : Hub
hub2 = leave_room hub1 (pos 5) (pos 8)

hub2-Reachable : Reachable hub0 hub2
unfolding new_hub_with_shards
hub2-Reachable =
    Reachable.next (Reachable.next Reachable.done (Step.connect hub0 0 (pos 7 ∷ pos 8 ∷ []) refl))
      (Step.leave hub1 (pos 5) (pos 8))

IsConsistent_example : IsConsistent hub2
IsConsistent_example = Reachable-IsConsistent 4 clients 2 1 hub2 (λ c. refl) hub2-Reachable

hub1-Reachable : Reachable hub0 hub1
unfolding new_hub_with_shards
hub1-Reachable = Reachable.next Reachable.done (Step.connect hub0 0 (pos 7 ∷ pos 8 ∷ []) refl)

hub1-IsConsistent : IsConsistent hub1
hub1-IsConsistent = Reachable-IsConsistent 4 clients 2 1 hub1 (λ c. refl) hub1-Reachable

IsGone_example : IsGone (unregister hub1 0) 0
unfolding register add_to_rooms add_client_to_room set_user
IsGone_example = unregister-IsGone hub1 0 hub1-IsConsistent refl

reconnect_example : client_by_user (unregister (register hub1 1 (pos 7 ∷ [])) 0) (pos 5) ≡ some 1
unfolding register add_to_rooms add_client_to_room set_user new_hub_with_shards
reconnect_example = reconnect-keeps_new hub1 0 1 (pos 7 ∷ []) hub1-IsConsistent refl refl refl

abbrev message : Message
message = record { room_id = pos 7; payload = 1 ∷ 2 ∷ []; created_at = pos 9 }

-- A room of three clients with full queues, which makes three tasks.
abbrev crowd : Hub
crowd =
    register
      (register
        (register (new_hub_with_shards 4 (λ c. record (clients c) { capacity = 0 }) 2 1) 0
          (pos 7 ∷ []))
        1 (pos 7 ∷ []))
      2 (pos 7 ∷ [])

-- The task of the last client begins, then that of the first one; the last client has joined first.
abbrev turns : List ℕ
turns = 2 ∷ 0 ∷ []

dispatch_example :
    IsOneLoop crowd
      (room_members crowd (pos 7))
      (outbound message)
      (dispatch_message turns crowd message)
    × IsAlike
        (dispatch_message turns crowd message)
        (send_all crowd (room_members crowd (pos 7)) (outbound message))
unfolding register add_to_rooms add_client_to_room set_user new_hub_with_shards
dispatch_example = dispatch_message-order turns crowd message (omega arith)

-- The tasks and the one loop ask for the same clients to be evicted, in their own orders.
dispatch_kills :
    (((dispatch_message turns crowd message).shards 1).kill_client ≡ 0 ∷ 2 ∷ 1 ∷ [])
    × (((dispatch_message [] crowd message).shards 1).kill_client ≡ 2 ∷ 1 ∷ 0 ∷ [])
unfolding register add_to_rooms add_client_to_room set_user new_hub_with_shards dispatch_message
    run_tasks next_of slices task_count balanced_batch_size send_all try_send request_evict
    room_members u64 lookup insert add
dispatch_kills = (refl, refl)

abbrev broadcast_of : ℤ → MessageEnvelope
broadcast_of seq = record {
  message_id = seq;
  room_seq = seq;
  room_id = pos 7;
  sender_id = pos 5;
  client_msg_id = "a";
  kind = pos 1;
  content = "text";
  created_at = pos 9;
}

-- The encoding is the number of the message in the room.
abbrev json : MessageEnvelope → Bytes
json e = u64 e.room_seq ∷ []

-- Two broadcasts to room 7, which shard 3 serves, and a turn of the shard.
abbrev events : List HubEvent
events =
    broadcasts (ok (broadcast_of (pos 1)))
    ∷ broadcasts (ok (broadcast_of (pos 2)))
    ∷ forwards 3 []
    ∷ []

queue_example :
    (taken json 3 events hub1 ++ queue (run_hub json events hub1) 3
      ≡ queue hub1 3 ++ accepted json 3 events hub1)
    × (length (queue (run_hub json events hub1) 3) ≤ forward_capacity)
unfolding register add_to_rooms add_client_to_room set_user new_hub_with_shards u64
queue_example = run_hub-queue json 3 events hub1 (omega arith)

-- The turn takes the first broadcast and leaves the second one, and user 5 is sent the first.
taken_first :
    (taken json 3 events hub1
      ≡ record { room_id = pos 7; payload = 1 ∷ []; created_at = pos 9 } ∷ [])
    × (map (λ (m : Message). m.payload) (queue (run_hub json events hub1) 3) ≡ (2 ∷ []) ∷ [])
    × (map (λ (m : OutboundMessage). m.payload) ((run_hub json events hub1).clients 0).send
        ≡ (1 ∷ []) ∷ [])
unfolding register add_to_rooms add_client_to_room set_user new_hub_with_shards run_hub hub_step
    taken run_forward dispatch_message publish send_all try_send room_members u64 lookup insert add
taken_first = (refl, refl, refl)
