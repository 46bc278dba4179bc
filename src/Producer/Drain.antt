-- ===== src/Producer/Drain.antt =====
-- Close: the goroutine empties the queue and exits (services/messages/producer/producer-kafka.go).
use mathlib.Core.List.{append-nil}
use lan_sync.Prelude.{
  String, ◌≤◌, ◌≡◌, refl, sym, ap, ◌∙◌, Bool, true, List, [], ◌∷◌, ◌++◌, map, arith, length, concat,
}
use lan_sync.Events.{Bytes, Codec}
use lan_sync.Producer.{
  BatchOptions, Event, run, new_message_client, ProduceRequest, Phase, MessageClient, Choice, step,
}
use lan_sync.Producer.Sound.{IsSound, flow_at, batches, outcomes}
use lan_sync.Producer.Stepped.{held_at}
use lan_sync.Producer.Answers.{run-answers}
use lan_sync.Producer.Progress.{
  left, exited-left, twice-IsSound, twice-stopping, twice-queued, round-left,
}

-- A round gives the goroutine a step of any choice, and ends the write that it may be in.
unfoldable pub drain : List (Choice × Bool) → MessageClient → MessageClient
drain [] c = c
drain ((choice, acked) ∷ rounds) c = drain rounds (step (step c choice) (Choice.write_ends acked))

-- The requests that have got a result.
abbrev pub firsts : List (ProduceRequest × Bool) → List ProduceRequest
firsts = map (λ a. a.0)

drain-exited :
    (rounds : List (Choice × Bool)) (c : MessageClient)
    → IsSound c
    → c.stopping ≡ true
    → left c ≤ length rounds
    → (IsSound (drain rounds c))
      × ((drain rounds c).phase ≡ Phase.exited)
      × ((drain rounds c).queued ≡ c.queued)
unfolding drain
drain-exited [] c v s h = (v, exited-left c v s c.phase refl (omega arith), refl)
drain-exited ((choice, acked) ∷ rounds) c v s h =
    let next = Choice.write_ends acked in
    let (sound, exits, queued) =
      drain-exited rounds (step (step c choice) next) (twice-IsSound c v s choice next)
        (twice-stopping c v s choice next) (omega (arith, round-left c choice acked v s)) in
    (sound, exits, queued ∙ twice-queued c v s choice next)

firsts-append : (xs ys : List (ProduceRequest × Bool)) → firsts (xs ++ ys) ≡ firsts xs ++ firsts ys
firsts-append [] ys = refl
firsts-append (x ∷ xs) ys = ap (λ l. x.0 ∷ l) (firsts-append xs ys)

firsts-map :
    (batch : List ProduceRequest) (acked : Bool) → firsts (map (λ r. (r, acked)) batch) ≡ batch
firsts-map [] acked = refl
firsts-map (r ∷ batch) acked = ap (λ l. r ∷ l) (firsts-map batch acked)

firsts-outcomes :
    (ws : List (List ProduceRequest × Bool)) → firsts (outcomes ws) ≡ concat (batches ws)
firsts-outcomes [] = refl
firsts-outcomes ((batch, acked) ∷ ws) =
    rw
      (
        firsts-append (map (λ r. (r, acked)) batch) (outcomes ws),
        firsts-map batch acked,
        firsts-outcomes ws,
      )
      refl

exited-answers :
    (c : MessageClient) → IsSound c → c.phase ≡ Phase.exited → firsts c.answered ≡ c.queued
exited-answers c v at =
    let (b, p, q, _) = held_at c v Phase.exited at in
    ap firsts v.results
    ∙ (firsts-outcomes c.written
        ∙ (sym (append-nil (concat (batches c.written))) ∙ flow_at c.opts _ _ b p q v.conserved))

-- From every state that calls, steps and Close can lead to, once the goroutine has seen the stop
-- signal: if each of its writes ends, whatever else its selects choose, it exits after at most three
-- rounds for each waiting request and three more, and by then exactly the queued requests have got a result, each one
-- once and in their order.
pub drain-answers :
    (codec : Codec) (to_bytes : String → Bytes) (opts : BatchOptions) (events : List Event)
    (rounds : List (Choice × Bool))
    → (run codec to_bytes events (new_message_client opts)).stopping ≡ true
    → left (run codec to_bytes events (new_message_client opts)) ≤ length rounds
    → let c = run codec to_bytes events (new_message_client opts) in
      ((drain rounds c).phase ≡ Phase.exited) × (firsts (drain rounds c).answered ≡ c.queued)
drain-answers codec to_bytes opts events rounds s h =
    let c = run codec to_bytes events (new_message_client opts) in
    let (sound, exits, queued) =
      drain-exited rounds c (run-answers codec to_bytes opts events) s h in
    (exits, exited-answers (drain rounds c) sound exits ∙ queued)
