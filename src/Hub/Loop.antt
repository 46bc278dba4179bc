-- ===== src/Hub/Loop.antt =====
-- What a shard's goroutine does between two selects, and the listener that hands messages to the shards: run and
-- StartGlobalListener of services/gateway/websocket/hub.go.
use lan_sync.Prelude.{ℕ, List, [], ◌∷◌}
use lan_sync.Prelude.Int.{ℤ}
use lan_sync.Prelude.Result.{Result, ok, err}
use lan_sync.Events.{MessageEnvelope, Bytes, Error}
use lan_sync.Hub.{
  Hub, Message, set_shard, publish, dispatch_message, register, unregister, update_rooms, join_room,
  leave_room, disband_room,
}

abbrev pub forward_next : ℕ → List ℕ → Hub → List Message → Hub
forward_next i turns h [] = h
forward_next i turns h (msg ∷ rest) =
    dispatch_message turns (set_shard h i (record (h.shards i) { forward = rest })) msg

-- `case msg := <-s.forward`, with the turns of the tasks that it starts.
unfoldable pub run_forward : ℕ → List ℕ → Hub → Hub
run_forward i turns h = forward_next i turns h (h.shards i).forward

abbrev pub kill_next : ℕ → Hub → List ℕ → Hub
kill_next i h [] = h
kill_next i h (c ∷ rest) = unregister (set_shard h i (record (h.shards i) { kill_client = rest })) c

-- `case client := <-s.killClient`
unfoldable pub run_kill : ℕ → Hub → Hub
run_kill i h = kill_next i h (h.shards i).kill_client

-- A broadcast of Redis: what protocol.Unmarshal makes of it is published with its JSON, which `run` computes
-- when it takes the message. The instants of an envelope, 64-bit nanoseconds, all have a JSON form.
abbrev pub on_broadcast : (MessageEnvelope → Bytes) → Hub → Result Error MessageEnvelope → Hub
on_broadcast json h (err e) = h
on_broadcast json h (ok e) =
    publish h (record { room_id = e.room_id; payload = json e; created_at = e.created_at })

-- A step of a shard's goroutine, a broadcast, or a call of a method.
pub data HubEvent : Type 0 where
  forwards : ℕ → List ℕ → HubEvent
  kills : ℕ → HubEvent
  broadcasts : Result Error MessageEnvelope → HubEvent
  registers updates : ℕ → List ℤ → HubEvent
  unregisters : ℕ → HubEvent
  user_joins user_leaves : ℤ → ℤ → HubEvent
  room_ends : ℤ → HubEvent

unfoldable pub hub_step : (MessageEnvelope → Bytes) → HubEvent → Hub → Hub
hub_step json (forwards i turns) h = run_forward i turns h
hub_step json (kills i) h = run_kill i h
hub_step json (broadcasts received) h = on_broadcast json h received
hub_step json (registers c rooms) h = register h c rooms
hub_step json (updates c rooms) h = update_rooms h c rooms
hub_step json (unregisters c) h = unregister h c
hub_step json (user_joins user room) h = join_room h user room
hub_step json (user_leaves user room) h = leave_room h user room
hub_step json (room_ends room) h = disband_room h room

unfoldable pub run_hub : (MessageEnvelope → Bytes) → List HubEvent → Hub → Hub
run_hub json [] h = h
run_hub json (e ∷ es) h = run_hub json es (hub_step json e h)
