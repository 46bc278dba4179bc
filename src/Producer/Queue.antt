-- ===== src/Producer/Queue.antt =====
-- The moves of the producer's goroutine, and what it holds between them
-- (services/messages/producer/producer-kafka.go).
use lan_sync.Prelude.{
  ◌+◌, ◌≡◌, refl, Bool, true, false, Option, none, some, List, [], ◌∷◌, ◌++◌, if◌then◌else◌,
  if_cases,
}
use lan_sync.Prelude.Int.{pos, ltb_ℤ}
use lan_sync.Producer.{
  ProduceRequest, Phase, MessageClient, Choice, request_size, batch_bytes, has_room, open_batch,
  signalled, first_of, join_batch, collect_next, finish_write, step_in, step,
}

-- The changes that a step can make, with the guards that the code has checked.
pub data Move (c : MessageClient) : MessageClient → Type 0 where
  stay : Move c c
  open_pending :
      (r : ProduceRequest)
      → c.phase ≡ Phase.idle
      → c.pending ≡ some r
      → Move c (open_batch (record c { pending = none }) r)
  open_next :
      (r : ProduceRequest) (rest : List ProduceRequest)
      → c.phase ≡ Phase.idle
      → c.pending ≡ none
      → c.queue ≡ r ∷ rest
      → Move c (open_batch (record c { queue = rest }) r)
  quit :
      c.phase ≡ Phase.idle
      → c.pending ≡ none
      → c.queue ≡ []
      → c.stopping ≡ true
      → Move c (record c { phase = Phase.exited })
  signal : c.closed ≡ true → Move c (record c { stopping = true })
  join :
      (r : ProduceRequest) (rest : List ProduceRequest)
      → c.phase ≡ Phase.collecting
      → has_room c.opts c.batch ≡ true
      → c.queue ≡ r ∷ rest
      → ltb_ℤ c.opts.max_bytes (pos (batch_bytes c.batch + request_size r)) ≡ false
      → Move c (record c { queue = rest; batch = c.batch ++ r ∷ [] })
  set_aside :
      (r : ProduceRequest) (rest : List ProduceRequest)
      → c.phase ≡ Phase.collecting
      → c.queue ≡ r ∷ rest
      → Move c (record c { queue = rest; pending = some r; phase = Phase.writing })
  seal : c.phase ≡ Phase.collecting → Move c (record c { phase = Phase.writing })
  finish :
      (acked : Bool) → c.phase ≡ Phase.writing → Move c (finish_write c (Choice.write_ends acked))

module _ (c : MessageClient) where
  signalled-Move : Move c (signalled c)
  signalled-Move =
      if_cases (Move c) c.closed (record c { stopping = true }) c (λ e. signal e) (λ _. stay)

  module _ (at : c.phase ≡ Phase.idle) where
    quit_or :
        (d : MessageClient)
        → c.pending ≡ none
        → c.queue ≡ []
        → Move c d
        → Move c (if c.stopping then record c { phase = Phase.exited } else d)
    quit_or d p q m =
        if_cases (Move c) c.stopping (record c { phase = Phase.exited }) d (λ e. quit at p q e)
          (λ _. m)

    open_or :
        (r : ProduceRequest) (rest : List ProduceRequest) (d : MessageClient)
        → c.pending ≡ none
        → c.queue ≡ r ∷ rest
        → Move c d
        → Move c (if c.stopping then open_batch (record c { queue = rest }) r else d)
    open_or r rest d p q m =
        if_cases (Move c) c.stopping (open_batch (record c { queue = rest }) r) d
          (λ _. open_next r rest at p q) (λ _. m)

    first_of-Move :
        (pending : Option ProduceRequest) (queue : List ProduceRequest) (choice : Choice)
        → c.pending ≡ pending
        → c.queue ≡ queue
        → Move c (first_of c pending queue choice)
    first_of-Move (some r) queue choice p q = open_pending r at p
    first_of-Move none [] Choice.see_stop p q = quit_or (signalled c) p q signalled-Move
    first_of-Move none [] Choice.take_next p q = quit_or c p q stay
    first_of-Move none [] Choice.timer_fires p q = quit_or c p q stay
    first_of-Move none [] (Choice.write_ends b) p q = quit_or c p q stay
    first_of-Move none (r ∷ rest) Choice.take_next p q = open_next r rest at p q
    first_of-Move none (r ∷ rest) Choice.see_stop p q =
        open_or r rest (signalled c) p q signalled-Move
    first_of-Move none (r ∷ rest) Choice.timer_fires p q = open_or r rest c p q stay
    first_of-Move none (r ∷ rest) (Choice.write_ends b) p q = open_or r rest c p q stay

  module _ (at : c.phase ≡ Phase.collecting) (room : has_room c.opts c.batch ≡ true) where
    seal_or :
        (d : MessageClient)
        → Move c d
        → Move c (if c.stopping then record c { phase = Phase.writing } else d)
    seal_or d m =
        if_cases (Move c) c.stopping (record c { phase = Phase.writing }) d (λ _. seal at) (λ _. m)

    join_batch-Move :
        (r : ProduceRequest) (rest : List ProduceRequest)
        → c.queue ≡ r ∷ rest
        → Move c (join_batch c r rest)
    join_batch-Move r rest q =
        if_cases (Move c) (ltb_ℤ c.opts.max_bytes (pos (batch_bytes c.batch + request_size r)))
          (record c { queue = rest; pending = some r; phase = Phase.writing })
          (record c { queue = rest; batch = c.batch ++ r ∷ [] }) (λ _. set_aside r rest at q)
          (λ fits. join r rest at room q fits)

    join_or :
        (r : ProduceRequest) (rest : List ProduceRequest) (d : MessageClient)
        → c.queue ≡ r ∷ rest
        → Move c d
        → Move c (if c.stopping then join_batch c r rest else d)
    join_or r rest d q m =
        if_cases (Move c) c.stopping (join_batch c r rest) d (λ _. join_batch-Move r rest q)
          (λ _. m)

    collect_next-Move :
        (queue : List ProduceRequest) (choice : Choice)
        → c.queue ≡ queue
        → Move c (collect_next c queue choice)
    collect_next-Move [] Choice.timer_fires q = seal at
    collect_next-Move [] Choice.see_stop q = seal_or (signalled c) signalled-Move
    collect_next-Move [] Choice.take_next q = seal_or c stay
    collect_next-Move [] (Choice.write_ends b) q = seal_or c stay
    collect_next-Move (r ∷ rest) Choice.take_next q = join_batch-Move r rest q
    collect_next-Move (r ∷ rest) Choice.timer_fires q =
        join_or r rest (record c { phase = Phase.writing }) q (seal at)
    collect_next-Move (r ∷ rest) Choice.see_stop q = join_or r rest (signalled c) q signalled-Move
    collect_next-Move (r ∷ rest) (Choice.write_ends b) q = join_or r rest c q stay

  step_in-Move :
      (phase : Phase) (choice : Choice) → c.phase ≡ phase → Move c (step_in phase c choice)
  step_in-Move Phase.idle choice at = first_of-Move at c.pending c.queue choice refl refl
  step_in-Move Phase.collecting choice at =
      if_cases (Move c) (has_room c.opts c.batch) (collect_next c c.queue choice)
        (record c { phase = Phase.writing }) (λ room. collect_next-Move at room c.queue choice refl)
        (λ _. seal at)
  step_in-Move Phase.writing (Choice.write_ends b) at = finish b at
  step_in-Move Phase.writing Choice.take_next at = stay
  step_in-Move Phase.writing Choice.timer_fires at = stay
  step_in-Move Phase.writing Choice.see_stop at = stay
  step_in-Move Phase.exited choice at = stay

  pub step-Move : (choice : Choice) → Move c (step c choice)
  unfolding step
  step-Move choice = step_in-Move c.phase choice refl
