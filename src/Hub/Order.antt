-- ===== src/Hub/Order.antt =====
-- The order in which the shards of services/gateway/websocket/hub.go dispatch the messages that reach them.
use lan_sync.Prelude.{
  ℕ, ◌≤◌, ◌<◌, ◌≡◌, refl, sym, ap, ◌∙◌, Bool, true, false, List, [], ◌∷◌, ◌++◌, ◌&&◌, arith,
  if◌then◌else◌, ltb, eqb, eqb_iff, eqb_self, length, length-append, Bool-cases, inl, inr, take,
}
use lan_sync.Prelude.Result.{ok, err}
use mathlib.Core.Path.{subst}
use mathlib.Core.List.{append_assoc, append-nil}
use lan_sync.Events.{MessageEnvelope, Bytes}
use lan_sync.Hub.{
  Hub, client_by_user, join_room, leave_room, Message, shard_index, set_shard, forward_capacity,
  publish,
}
use lan_sync.Hub.Loop.{
  run_forward, kill_next, run_kill, HubEvent, forwards, kills, broadcasts, registers, updates,
  unregisters, user_joins, user_leaves, room_ends, hub_step, run_hub,
}
use lan_sync.Hub.Queue.{
  queue, Keeps, set-Keeps, forward_next-other, forward_next-same, register-Keeps, unregister-Keeps,
  update_rooms-Keeps, join_client-Keeps, leave_client-Keeps, disband_room-Keeps,
}

-- The message that a broadcast hands to the shard `i`, if its queue has room for one more.
abbrev pub accepted_of : (MessageEnvelope → Bytes) → ℕ → HubEvent → Hub → List Message
accepted_of json i (broadcasts (ok e)) h =
    if eqb i (shard_index h e.room_id) && ltb (length (queue h i)) forward_capacity
    then record { room_id = e.room_id; payload = json e; created_at = e.created_at } ∷ []
    else []
accepted_of json i (broadcasts (err e)) h = []
accepted_of json i (forwards j turns) h = []
accepted_of json i (kills j) h = []
accepted_of json i (registers c rooms) h = []
accepted_of json i (updates c rooms) h = []
accepted_of json i (unregisters c) h = []
accepted_of json i (user_joins user room) h = []
accepted_of json i (user_leaves user room) h = []
accepted_of json i (room_ends room) h = []

-- The message that a turn of the shard's goroutine takes.
abbrev pub taken_of : ℕ → HubEvent → Hub → List Message
taken_of i (forwards j turns) h = if eqb i j then take 1 (queue h i) else []
taken_of i (broadcasts received) h = []
taken_of i (kills j) h = []
taken_of i (registers c rooms) h = []
taken_of i (updates c rooms) h = []
taken_of i (unregisters c) h = []
taken_of i (user_joins user room) h = []
taken_of i (user_leaves user room) h = []
taken_of i (room_ends room) h = []

unfoldable pub accepted : (MessageEnvelope → Bytes) → ℕ → List HubEvent → Hub → List Message
accepted json i [] h = []
accepted json i (e ∷ es) h = accepted_of json i e h ++ accepted json i es (hub_step json e h)

unfoldable pub taken : (MessageEnvelope → Bytes) → ℕ → List HubEvent → Hub → List Message
taken json i [] h = []
taken json i (e ∷ es) h = taken_of i e h ++ taken json i es (hub_step json e h)

-- What a step does to a queue.
abbrev Moves : List Message → List Message → List Message → List Message → Type 0
Moves out after before new =
    (out ++ after ≡ before ++ new)
    × (length before ≤ forward_capacity → length after ≤ forward_capacity)

kept-Moves : (h g : Hub) (i : ℕ) → queue g i ≡ queue h i → Moves [] (queue g i) (queue h i) []
kept-Moves h g i e =
    (e ∙ sym (append-nil _), λ (le : length (queue h i) ≤ forward_capacity). rw e le)

forward-Moves :
    (i j : ℕ) (turns : List ℕ) (h : Hub)
    → Moves
        (if eqb i j then take 1 (queue h i) else [])
        (queue (run_forward j turns h) i)
        (queue h i)
        []
unfolding run_forward
forward-Moves i j turns h = elim (Bool-cases (eqb i j)) [
  | inl same ↦
      let e : take 1 (queue h i) ++ queue (run_forward i turns h) i ≡ queue h i =
        forward_next-same i turns h (queue h i) refl in
      let shorter : length (queue (run_forward i turns h) i) ≤ length (queue h i) = omega (
        arith,
        ap length e,
        length-append (take 1 (queue h i)) (queue (run_forward i turns h) i),
      ) in
      rw same (
        subst
          (λ (k : ℕ). Moves (take 1 (queue h i)) (queue (run_forward k turns h) i) (queue h i) [])
          ((eqb_iff i j).0 same)
          ((e ∙ sym (append-nil _)), λ (le : length (queue h i) ≤ forward_capacity). omega arith))
  | inr other ↦ rw other (
      kept-Moves h (run_forward j turns h) i
        (forward_next-other i j turns h (h.shards j).forward other))
]

kill-Keeps : (i : ℕ) (h : Hub) (cs : List ℕ) → Keeps h (kill_next i h cs)
kill-Keeps i h [] j = refl
kill-Keeps i h (c ∷ rest) j =
    let s = record (h.shards i) { kill_client = rest } in
    unregister-Keeps (set_shard h i s) c j ∙ set-Keeps h i s refl j

-- `publish` to the queue of the shard `k`.
abbrev put : Hub → ℕ → Message → Hub
put h k msg =
    if ltb (length (queue h k)) forward_capacity
    then set_shard h k (record (h.shards k) { forward = queue h k ++ msg ∷ [] })
    else h

below : (a b : ℕ) → ltb a b ≡ true → a < b
below a b fits = ground arith

put-fits :
    (h : Hub) (k : ℕ) (msg : Message) (b : Bool)
    → ltb (length (queue h k)) forward_capacity ≡ b
    → Moves []
        (if b then queue h k ++ msg ∷ [] else queue h k)
        (queue h k)
        (if b then msg ∷ [] else [])
put-fits h k msg true fits = (
  refl,
  λ le. omega (arith, length-append (queue h k) (msg ∷ []), below (length (queue h k)) _ fits),
)
put-fits h k msg false full = (sym (append-nil _), λ le. le)

queue-put :
    (h : Hub) (k : ℕ) (msg : Message) (b : Bool)
    → ltb (length (queue h k)) forward_capacity ≡ b
    → queue (put h k msg) k ≡ (if b then queue h k ++ msg ∷ [] else queue h k)
queue-put h k msg true fits = rw (fits, put) (rw (eqb_self k, set_shard, queue) refl)
queue-put h k msg false full = rw (full, put) refl

put-other :
    (h : Hub) (i k : ℕ) (msg : Message) → eqb i k ≡ false → queue (put h k msg) i ≡ queue h i
put-other h i k msg other = elim (Bool-cases (ltb (length (queue h k)) forward_capacity)) [
  | inl fits ↦ rw (fits, put) (rw (other, set_shard, queue) refl)
  | inr full ↦ rw (full, put) refl
]

put-Moves :
    (h : Hub) (i k : ℕ) (msg : Message)
    → Moves []
        (queue (put h k msg) i)
        (queue h i)
        (if eqb i k && ltb (length (queue h i)) forward_capacity then msg ∷ [] else [])
put-Moves h i k msg = elim (Bool-cases (eqb i k)) [
  | inl same ↦
      let room = ltb (length (queue h i)) forward_capacity in
      rw same (
        subst
          (λ (k : ℕ). Moves [] (queue (put h k msg) i) (queue h i) (if room then msg ∷ [] else []))
          ((eqb_iff i k).0 same) (rw (queue-put h i msg room refl) (put-fits h i msg room refl)))
  | inr other ↦ rw other (kept-Moves h (put h k msg) i (put-other h i k msg other))
]

step-Moves :
    (json : MessageEnvelope → Bytes) (i : ℕ) (e : HubEvent) (h : Hub)
    → Moves (taken_of i e h) (queue (hub_step json e h) i) (queue h i) (accepted_of json i e h)
unfolding hub_step run_kill publish join_room leave_room
step-Moves json i (forwards j turns) h = forward-Moves i j turns h
step-Moves json i (kills j) h =
    kept-Moves h (hub_step json (kills j) h) i (kill-Keeps j h (h.shards j).kill_client i)
step-Moves json i (broadcasts (err e)) h = kept-Moves h h i refl
step-Moves json i (broadcasts (ok e)) h = put-Moves h i (shard_index h e.room_id) _
step-Moves json i (registers c rooms) h =
    kept-Moves h (hub_step json (registers c rooms) h) i (register-Keeps h c rooms i)
step-Moves json i (updates c rooms) h =
    kept-Moves h (hub_step json (updates c rooms) h) i (update_rooms-Keeps h c rooms i)
step-Moves json i (unregisters c) h =
    kept-Moves h (hub_step json (unregisters c) h) i (unregister-Keeps h c i)
step-Moves json i (user_joins user room) h =
    kept-Moves h (hub_step json (user_joins user room) h) i
      (join_client-Keeps h (client_by_user h user) room i)
step-Moves json i (user_leaves user room) h =
    kept-Moves h (hub_step json (user_leaves user room) h) i
      (leave_client-Keeps h (client_by_user h user) room i)
step-Moves json i (room_ends room) h =
    kept-Moves h (hub_step json (room_ends room) h) i (disband_room-Keeps h room i)

chain :
    (out mid before new out2 after new2 : List Message)
    → out ++ mid ≡ before ++ new
    → out2 ++ after ≡ mid ++ new2
    → (out ++ out2) ++ after ≡ before ++ (new ++ new2)
chain out mid before new out2 after new2 first second =
    append_assoc out out2 after
    ∙ ap (λ (l : List Message). out ++ l) second
    ∙ sym (append_assoc out mid new2)
    ∙ ap (λ (l : List Message). l ++ new2) first
    ∙ append_assoc before new new2

-- Over any run of the hub that starts with shard `i`'s queue within its capacity of 1024, the messages that the
-- shard's turns take from the queue, followed by those that still wait in it, are those that waited at the start
-- followed by those that the broadcasts could put in it, in this order; and the queue ends within its capacity.
pub run_hub-queue :
    (json : MessageEnvelope → Bytes) (i : ℕ) (es : List HubEvent) (h : Hub)
    → length (queue h i) ≤ forward_capacity
    → (taken json i es h ++ queue (run_hub json es h) i ≡ queue h i ++ accepted json i es h)
      × (length (queue (run_hub json es h) i) ≤ forward_capacity)
unfolding run_hub taken accepted
run_hub-queue json i [] h le = (sym (append-nil (queue h i)), le)
run_hub-queue json i (e ∷ es) h le =
    let g = hub_step json e h in
    let (moved, fits) = step-Moves json i e h in
    let (rest, small) = run_hub-queue json i es g (fits le) in
    (
      chain (taken_of i e h) (queue g i) (queue h i) (accepted_of json i e h) (taken json i es g)
          (queue (run_hub json es g) i) (accepted json i es g) moved rest,
      small,
    )
