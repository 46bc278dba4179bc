-- ===== src/Hub/Parallel.antt =====
-- The tasks of dispatchMessage at the same time (services/gateway/websocket/hub.go).
use mathlib.Core.List.{Permᴰ}
use mathlib.Core.List.Permᴰ
use lan_sync.Prelude.{
  ℕ, zero, suc, ◌<◌, ◌≡◌, refl, Option, none, some, List, [], ◌∷◌, ◌++◌, length, concat, ltb,
  Bool-cases, inl, inr,
}
use lan_sync.Hub.{
  Hub, Message, OutboundMessage, room_members, send_all, batches, with_task, turn, next_of,
  run_tasks, dispatch_message,
}
use lan_sync.Hub.Fanout.{concat-batches}
use lan_sync.Hub.Alike.{IsAlike, send_all-order}

-- What is taken from the tasks, with the rest, makes up what they had.
abbrev IsTaken : List (List ℕ) → Option (ℕ × List (List ℕ)) → Type 0
IsTaken tasks none = Unit {0}
IsTaken tasks (some (c, rest)) = Permᴰ (c ∷ concat rest) (concat tasks)

with_task-IsTaken :
    (task : List ℕ) (tasks : List (List ℕ)) (o : Option (ℕ × List (List ℕ)))
    → IsTaken tasks o
    → IsTaken (task ∷ tasks) (with_task task o)
with_task-IsTaken task tasks none h = tt
with_task-IsTaken task tasks (some (c, rest)) h =
    Permᴰ.trans (Permᴰ.symm (Permᴰ.middle c task (concat rest))) (Permᴰ.append_left task h)

next_of-IsTaken : (k : ℕ) (tasks : List (List ℕ)) → IsTaken tasks (next_of k tasks)
unfolding next_of
next_of-IsTaken zero [] = tt
next_of-IsTaken (suc k) [] = tt
next_of-IsTaken zero ([] ∷ tasks) = tt
next_of-IsTaken zero ((c ∷ cs) ∷ tasks) = Permᴰ.refl (c ∷ (cs ++ concat tasks))
next_of-IsTaken (suc k) (task ∷ tasks) =
    with_task-IsTaken task tasks (next_of k tasks) (next_of-IsTaken k tasks)

-- One loop over the clients in some order.
abbrev pub IsOneLoop : Hub → List ℕ → OutboundMessage → Hub → Type 0
IsOneLoop h clients m after = (order : List ℕ) × Permᴰ order clients × (after ≡ send_all h order m)

turn-IsOneLoop :
    (h : Hub) (tasks : List (List ℕ)) (m : OutboundMessage) (o : Option (ℕ × List (List ℕ)))
    (after : Hub)
    → IsTaken tasks o
    → IsOneLoop (turn h tasks m o).0 (concat (turn h tasks m o).1) m after
    → IsOneLoop h (concat tasks) m after
turn-IsOneLoop h tasks m none after taken loop = loop
turn-IsOneLoop h tasks m (some (c, rest)) after taken (order, perm, e) =
    (c ∷ order, Permᴰ.trans (Permᴰ.cons refl perm) taken, unfold send_all in e)

run_tasks-IsOneLoop :
    (turns : List ℕ) (h : Hub) (tasks : List (List ℕ)) (m : OutboundMessage)
    → IsOneLoop h (concat tasks) m (run_tasks turns h tasks m)
unfolding run_tasks
run_tasks-IsOneLoop [] h tasks m = (concat tasks, Permᴰ.refl (concat tasks), refl)
run_tasks-IsOneLoop (k ∷ turns) h tasks m =
    let after = turn h tasks m (next_of k tasks) in
    turn-IsOneLoop h tasks m (next_of k tasks) _ (next_of-IsTaken k tasks)
      (run_tasks-IsOneLoop turns after.0 after.1 m)

abbrev pub outbound : Message → OutboundMessage
outbound msg = record { payload = msg.payload; gateway_arrived_at = msg.created_at }

concat-IsOneLoop :
    (h after : Hub) (m : OutboundMessage) (cs ds : List ℕ)
    → cs ≡ ds
    → IsOneLoop h cs m after
    → IsOneLoop h ds m after
concat-IsOneLoop h after m cs ds e (order, perm, same) = (order, rw (← e) perm, same)

dispatch_message-IsOneLoop :
    (turns : List ℕ) (h : Hub) (msg : Message)
    → 0 < h.fanout_batch_size
    → IsOneLoop h (room_members h msg.room_id) (outbound msg) (dispatch_message turns h msg)
unfolding dispatch_message
dispatch_message-IsOneLoop turns h msg p =
    let cs = room_members h msg.room_id in
    elim (Bool-cases (ltb (length cs) h.fanout_threshold)) [
      | inl small ↦ rw small (cs, Permᴰ.refl cs, refl)
      | inr large ↦ rw large (
          concat-IsOneLoop h _ (outbound msg) (concat (batches h.fanout_batch_size cs)) cs
            (concat-batches h.fanout_batch_size cs p)
            (run_tasks-IsOneLoop turns h (batches h.fanout_batch_size cs) (outbound msg)))
    ]

-- However the tasks of a large room interleave, and where the size of a batch is positive, a dispatch is that of one
-- loop over the room's clients in some order, so that each is sent to once; and it leaves the same clients, and as
-- many to evict in every shard, as the one loop over them in their own order, by which a small room is dispatched.
pub dispatch_message-order :
    (turns : List ℕ) (h : Hub) (msg : Message)
    → 0 < h.fanout_batch_size
    → IsOneLoop h (room_members h msg.room_id) (outbound msg) (dispatch_message turns h msg)
      × IsAlike
          (dispatch_message turns h msg)
          (send_all h (room_members h msg.room_id) (outbound msg))
dispatch_message-order turns h msg p =
    let (order, perm, same) = dispatch_message-IsOneLoop turns h msg p in
    ((order, perm, same), rw same (send_all-order (outbound msg) h perm))
