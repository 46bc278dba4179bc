-- ===== src/Producer/Progress.antt =====
-- The goroutine of the producer gets on while it stops (services/messages/producer/producer-kafka.go).
use lan_sync.Prelude.{
  ℕ, ltb, ◌-◌, ◌+◌, ◌*◌, ◌<◌, ◌≤◌, ◌≡◌, refl, ap, ◌∙◌, Bool, true, Option, none, some, List, [],
  ◌∷◌, if◌then◌else◌, arith, if_cases, Bool-cases, inl, inr, length,
}
use lan_sync.Consumer.Collect.{to_list}
use lan_sync.Producer.{
  ProduceRequest, Phase, MessageClient, Choice, has_room, first_of, join_batch, collect_next,
  step_in, step,
}
use lan_sync.Producer.Queue.{Move, step-Move}
use lan_sync.Producer.Sound.{IsSound}
use lan_sync.Producer.Stepped.{held_at, step-IsSound}

-- How many rounds the goroutine needs at most.
abbrev pub rounds_of : Phase → ℕ
rounds_of Phase.idle = 1
rounds_of Phase.collecting = 3
rounds_of Phase.writing = 2
rounds_of Phase.exited = 0

abbrev pub left_at : Phase → Option ProduceRequest → List ProduceRequest → ℕ
left_at phase pending queue = 3 * (length (to_list pending) + length queue) + rounds_of phase

abbrev pub left : MessageClient → ℕ
left c = left_at c.phase c.pending c.queue

module _ (c : MessageClient) (s : c.stopping ≡ true) where
  first_of-left :
      (pending : Option ProduceRequest) (queue : List ProduceRequest) (choice : Choice)
      → c.pending ≡ pending
      → c.queue ≡ queue
      → left (first_of c pending queue choice) < left_at Phase.idle pending queue
  first_of-left (some r) queue choice p q = ground arith
  first_of-left none [] Choice.see_stop p q = ground arith
  first_of-left none [] Choice.take_next p q = ground arith
  first_of-left none [] Choice.timer_fires p q = ground arith
  first_of-left none [] (Choice.write_ends b) p q = ground arith
  first_of-left none (r ∷ rest) Choice.see_stop p q = ground arith
  first_of-left none (r ∷ rest) Choice.take_next p q = ground arith
  first_of-left none (r ∷ rest) Choice.timer_fires p q = ground arith
  first_of-left none (r ∷ rest) (Choice.write_ends b) p q = ground arith

  if_stopping : (d e : MessageClient) (n : ℕ) → left d < n → left (if c.stopping then d else e) < n
  if_stopping d e n h =
      if_cases (λ g. left g < n) c.stopping d e (λ _. h) (λ x. absurd (ground arith))

  join_batch-left :
      (r : ProduceRequest) (rest : List ProduceRequest)
      → c.phase ≡ Phase.collecting
      → c.pending ≡ none
      → left (join_batch c r rest) < left_at Phase.collecting none (r ∷ rest)
  join_batch-left r rest at p = ground arith

  collect_next-left :
      (queue : List ProduceRequest) (choice : Choice)
      → c.phase ≡ Phase.collecting
      → c.pending ≡ none
      → c.queue ≡ queue
      → left (collect_next c queue choice) < left_at Phase.collecting none queue
  collect_next-left [] Choice.see_stop at p q = ground arith
  collect_next-left [] Choice.take_next at p q = ground arith
  collect_next-left [] Choice.timer_fires at p q = ground arith
  collect_next-left [] (Choice.write_ends b) at p q = ground arith
  collect_next-left (r ∷ rest) Choice.see_stop at p q =
      if_stopping _ _ _ (join_batch-left r rest at p)
  collect_next-left (r ∷ rest) Choice.take_next at p q = join_batch-left r rest at p
  collect_next-left (r ∷ rest) Choice.timer_fires at p q =
      if_stopping _ _ _ (join_batch-left r rest at p)
  collect_next-left (r ∷ rest) (Choice.write_ends b) at p q =
      if_stopping _ _ _ (join_batch-left r rest at p)

  -- Whatever is ready, the stopping goroutine gets on.
  collecting-left :
      (choice : Choice)
      → c.phase ≡ Phase.collecting
      → c.pending ≡ none
      → left (step_in Phase.collecting c choice) < left_at Phase.collecting none c.queue
  collecting-left choice at p =
      if_cases (λ d. left d < left_at Phase.collecting none c.queue) (has_room c.opts c.batch)
        (collect_next c c.queue choice) (record c { phase = Phase.writing })
        (λ _. collect_next-left c.queue choice at p refl) (λ _. ground arith)

Move-stopping : (c d : MessageClient) → Move c d → c.stopping ≡ true → d.stopping ≡ true
Move-stopping c d Move.stay s = s
Move-stopping c d (Move.open_pending r at p) s = s
Move-stopping c d (Move.open_next r rest at p q) s = s
Move-stopping c d (Move.quit at p q e) s = s
Move-stopping c d (Move.signal e) s = refl
Move-stopping c d (Move.join r rest at room q fits) s = s
Move-stopping c d (Move.set_aside r rest at q) s = s
Move-stopping c d (Move.seal at) s = s
Move-stopping c d (Move.finish acked at) s = s

Move-queued : (c d : MessageClient) → Move c d → d.queued ≡ c.queued
Move-queued c d Move.stay = refl
Move-queued c d (Move.open_pending r at p) = refl
Move-queued c d (Move.open_next r rest at p q) = refl
Move-queued c d (Move.quit at p q e) = refl
Move-queued c d (Move.signal e) = refl
Move-queued c d (Move.join r rest at room q fits) = refl
Move-queued c d (Move.set_aside r rest at q) = refl
Move-queued c d (Move.seal at) = refl
Move-queued c d (Move.finish acked at) = refl

module _ (c : MessageClient) (v : IsSound c) (s : c.stopping ≡ true) where
  left_when : (phase : Phase) → c.phase ≡ phase → left c ≡ left_at phase c.pending c.queue
  left_when phase at = ap (λ place. left_at place c.pending c.queue) at

  pending_at : c.phase ≡ Phase.collecting → c.pending ≡ none
  pending_at at = (held_at c v Phase.collecting at).0

  collecting-lt :
      (choice : Choice)
      → c.phase ≡ Phase.collecting
      → left (step_in Phase.collecting c choice) < left c
  collecting-lt choice at = omega (
    arith,
    left_when Phase.collecting at,
    collecting-left c s choice at (pending_at at),
    ap (λ p. left_at Phase.collecting p c.queue) (pending_at at),
  )

  -- An exited goroutine has no work, so that only exiting leaves none.
  pub exited-left :
      (phase : Phase) → c.phase ≡ phase → left_at phase c.pending c.queue ≡ 0 → phase ≡ Phase.exited
  exited-left Phase.idle at e = absurd (omega arith)
  exited-left Phase.collecting at e = absurd (omega arith)
  exited-left Phase.writing at e = absurd (omega arith)
  exited-left Phase.exited at e = refl

  left-exited : c.phase ≡ Phase.exited → left c ≡ 0
  left-exited at =
      let (b, p, q, e) = held_at c v Phase.exited at in rw (left_when Phase.exited at, p, q) refl

  step_in-le :
      (phase : Phase) (choice : Choice) → c.phase ≡ phase → left (step_in phase c choice) ≤ left c
  step_in-le Phase.idle choice at =
      omega (arith, left_when Phase.idle at, first_of-left c s c.pending c.queue choice refl refl)
  step_in-le Phase.collecting choice at = omega (arith, collecting-lt choice at)
  step_in-le Phase.writing (Choice.write_ends b) at = omega (arith, left_when Phase.writing at)
  step_in-le Phase.writing Choice.take_next at = omega arith
  step_in-le Phase.writing Choice.timer_fires at = omega arith
  step_in-le Phase.writing Choice.see_stop at = omega arith
  step_in-le Phase.exited choice at = omega arith

  step_at :
      (phase : Phase) (choice : Choice) → c.phase ≡ phase → step c choice ≡ step_in phase c choice
  unfolding step
  step_at phase choice at = ap (λ place. step_in place c choice) at

  step-le : (choice : Choice) → left (step c choice) ≤ left c
  unfolding step
  step-le choice = step_in-le c.phase choice refl

module _ (c : MessageClient) (v : IsSound c) (s : c.stopping ≡ true) where
  then_le :
      (choice next : Choice)
      → left (step c choice) < left c
      → left (step (step c choice) next) < left c
  then_le choice next h = omega (
    arith,
    step-le (step c choice) (step-IsSound c v choice)
        (Move-stopping c (step c choice) (step-Move c choice) s) next,
  )

  write-lt :
      (acked : Bool) → c.phase ≡ Phase.writing → left (step c (Choice.write_ends acked)) < left c
  write-lt acked at = omega (
    arith,
    left_when c v s Phase.writing at,
    ap left (step_at c v s Phase.writing (Choice.write_ends acked) at),
  )

  round-lt :
      (choice : Choice) (acked : Bool) (phase : Phase)
      → c.phase ≡ phase
      → 0 < left c
      → left (step (step c choice) (Choice.write_ends acked)) < left c
  round-lt choice acked Phase.idle at h = then_le choice _ (
      omega (
        arith,
        left_when c v s Phase.idle at,
        ap left (step_at c v s Phase.idle choice at),
        first_of-left c s c.pending c.queue choice refl refl,
      ))
  round-lt choice acked Phase.collecting at h = then_le choice _ (
      omega
        (arith, ap left (step_at c v s Phase.collecting choice at), collecting-lt c v s choice at))
  round-lt (Choice.write_ends b) acked Phase.writing at h = then_le _ _ (write-lt b at)
  round-lt Choice.take_next acked Phase.writing at h =
      rw (step_at c v s Phase.writing Choice.take_next at) (write-lt acked at)
  round-lt Choice.timer_fires acked Phase.writing at h =
      rw (step_at c v s Phase.writing Choice.timer_fires at) (write-lt acked at)
  round-lt Choice.see_stop acked Phase.writing at h =
      rw (step_at c v s Phase.writing Choice.see_stop at) (write-lt acked at)
  round-lt choice acked Phase.exited at h = absurd (omega (arith, left-exited c v s at))

module _ (c : MessageClient) (v : IsSound c) (s : c.stopping ≡ true) (choice next : Choice) where
  once-stopping : (step c choice).stopping ≡ true
  once-stopping = Move-stopping c (step c choice) (step-Move c choice) s

  pub twice-IsSound : IsSound (step (step c choice) next)
  twice-IsSound = step-IsSound (step c choice) (step-IsSound c v choice) next

  pub twice-stopping : (step (step c choice) next).stopping ≡ true
  twice-stopping = Move-stopping (step c choice) _ (step-Move (step c choice) next) once-stopping

  pub twice-queued : (step (step c choice) next).queued ≡ c.queued
  twice-queued =
      Move-queued (step c choice) _ (step-Move (step c choice) next)
      ∙ Move-queued c (step c choice) (step-Move c choice)

  twice-le : left (step (step c choice) next) ≤ left c
  twice-le = omega (
    arith,
    step-le c v s choice,
    step-le (step c choice) (step-IsSound c v choice) once-stopping next,
  )

pub round-left :
    (c : MessageClient) (choice : Choice) (acked : Bool)
    → IsSound c
    → c.stopping ≡ true
    → left (step (step c choice) (Choice.write_ends acked)) ≤ left c - 1
round-left c choice acked v s = elim (Bool-cases (ltb 0 (left c))) [
  | inl more ↦ omega (arith, round-lt c v s choice acked c.phase refl (ground arith))
  | inr none_left ↦ ground (arith, twice-le c v s choice (Choice.write_ends acked))
]
