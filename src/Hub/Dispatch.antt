-- ===== src/Hub/Dispatch.antt =====
-- Publish, dispatchMessage and requestEvict of services/gateway/websocket/hub.go, and TrySend of client.go.
use lan_sync.Prelude.{
  ℕ, ◌+◌, ◌-◌, ◌/◌, zero, suc, take, drop, Bool, true, false, not, Option, none, some, concat, List,
  [], ◌∷◌, ◌++◌, ◌||◌, if◌then◌else◌, nat_eq, length, ltb,
}
use lan_sync.Prelude.Int.{int_eq}
use lan_sync.Hub.State.{
  OutboundMessage, Client, Message, Hub, shard_index, set_shard, set_client, room_members,
}

-- The capacities of the channels `forward` and `killClient`.
abbrev pub forward_capacity : ℕ
forward_capacity = 1024

abbrev pub kill_capacity : ℕ
kill_capacity = 64

unfoldable pub publish : Hub → Message → Hub
publish h msg =
    let i = shard_index h msg.room_id in
    let s = h.shards i in
    if ltb (length s.forward) forward_capacity
    then set_shard h i (record s { forward = s.forward ++ msg ∷ [] })
    else h

-- TrySend of client.go: the new client, and whether the message was queued.
unfoldable pub try_send : Client → OutboundMessage → Client × Bool
try_send client m =
    if client.send_closed || not (ltb (length client.send) client.capacity)
    then (client, false)
    else (record client { send = client.send ++ m ∷ [] }, true)

unfoldable pub request_evict : Hub → ℕ → Hub
request_evict h c =
    let i = shard_index h (h.clients c).user_id in
    let s = h.shards i in
    if ltb (length s.kill_client) kill_capacity
    then set_shard h i (record s { kill_client = s.kill_client ++ c ∷ [] })
    else h

abbrev pub deliver_to : Hub → ℕ → Client × Bool → Hub
deliver_to h c (client, sent) = if sent then set_client h c client else request_evict h c

-- The loop of dispatchMessage over a slice of the clients.
unfoldable pub send_all : Hub → List ℕ → OutboundMessage → Hub
send_all h [] m = h
send_all h (c ∷ cs) m = send_all (deliver_to h c (try_send (h.clients c) m)) cs m

-- dispatchMessage: the number of tasks for a large room, and the size of a task's slice.
unfoldable pub task_count : ℕ → ℕ → ℕ
task_count n batch_size = let t = (n + batch_size - 1) / batch_size in if ltb t 2 then 2 else t

unfoldable pub balanced_batch_size : ℕ → ℕ → ℕ
balanced_batch_size n tasks = (n + tasks - 1) / tasks

-- `for start := 0; start < len(clients); start += size`, on fuel.
unfoldable pub slices : ℕ → ℕ → List ℕ → List (List ℕ)
slices zero size clients = []
slices (suc fuel) size [] = []
slices (suc fuel) size (c ∷ cs) = take size (c ∷ cs) ∷ slices fuel size (drop size (c ∷ cs))

abbrev pub batches : ℕ → List ℕ → List (List ℕ)
batches batch_size clients =
    let n = length clients in slices n (balanced_batch_size n (task_count n batch_size)) clients

abbrev pub with_task : List ℕ → Option (ℕ × List (List ℕ)) → Option (ℕ × List (List ℕ))
with_task task none = none
with_task task (some (c, tasks)) = some (c, task ∷ tasks)

-- The next client of a task, and what the tasks have left then.
unfoldable pub next_of : ℕ → List (List ℕ) → Option (ℕ × List (List ℕ))
next_of k [] = none
next_of zero ([] ∷ tasks) = none
next_of zero ((c ∷ cs) ∷ tasks) = some (c, cs ∷ tasks)
next_of (suc k) (task ∷ tasks) = with_task task (next_of k tasks)

abbrev pub deliver : Hub → ℕ → OutboundMessage → Hub
deliver h c m = deliver_to h c (try_send (h.clients c) m)

abbrev pub turn :
    Hub → List (List ℕ) → OutboundMessage → Option (ℕ × List (List ℕ)) → Hub × List (List ℕ)
turn h tasks m none = (h, tasks)
turn h tasks m (some (c, rest)) = (deliver h c m, rest)

-- The tasks run at the same time, and `turns` tells which of them delivers to its next client; what the turns leave
-- is delivered at the end, before the dispatch ends. A delivery is one step: its TrySend, under the client's lock,
-- changes nothing that the other tasks read or change, so that it may as well happen at its request to evict.
unfoldable pub run_tasks : List ℕ → Hub → List (List ℕ) → OutboundMessage → Hub
run_tasks [] h tasks m = send_all h (concat tasks) m
run_tasks (k ∷ turns) h tasks m =
    let after = turn h tasks m (next_of k tasks) in run_tasks turns after.0 after.1 m

unfoldable pub dispatch_message : List ℕ → Hub → Message → Hub
dispatch_message turns h msg =
    let clients = room_members h msg.room_id in
    let m : OutboundMessage = record {
      payload = msg.payload;
      gateway_arrived_at = msg.created_at;
    } in
    if ltb (length clients) h.fanout_threshold
    then send_all h clients m
    else run_tasks turns h (batches h.fanout_batch_size clients) m
