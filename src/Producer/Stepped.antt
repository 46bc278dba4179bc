-- ===== src/Producer/Stepped.antt =====
-- A step of the goroutine keeps the state of the producer sound (services/messages/producer/producer-kafka.go).
use mathlib.Core.List.{append_assoc}
use lan_sync.Prelude.{
  ◌≡◌, refl, sym, ap, ◌∙◌, true, Option, some, List, [], ◌∷◌, ◌++◌, map, arith, length, concat, All,
  All-append,
}
use lan_sync.Prelude.Int.{pos, ◌≤ℤ◌}
use lan_sync.Consumer.Collect.{to_list}
use lan_sync.Producer.{ProduceRequest, Phase, MessageClient, Choice, step}
use lan_sync.Producer.Queue.{Move, step-Move}
use lan_sync.Producer.Sound.{
  IsSmall, batches, Held, IsSound, flow_at, waiting_at, alone-IsWritable, join-IsWritable,
  outcomes-append, batches-append, flow-join,
}

module _ (c : MessageClient) (v : IsSound c) where
  pub held_at :
      (place : Phase) → c.phase ≡ place → Held c.opts place c.batch c.pending c.queue c.stopping
  held_at place e = rw e at v.held

  short :
      (r : ProduceRequest) (rest : List ProduceRequest)
      → c.queue ≡ r ∷ rest
      → pos (length rest) ≤ℤ c.opts.queue_capacity
  short r rest q = omega (arith, v.bounded, ap length q)

  held-stopping :
      (place : Phase)
      → Held c.opts place c.batch c.pending c.queue c.stopping
      → Held c.opts place c.batch c.pending c.queue true
  held-stopping Phase.idle h = h
  held-stopping Phase.collecting h = h
  held-stopping Phase.writing h = h
  held-stopping Phase.exited (b, p, q, s) = (b, p, q, refl)

  -- A request of the queue becomes the batch, or waits for the next one.
  taken-IsSound :
      (r : ProduceRequest) (rest : List ProduceRequest) (phase : Phase)
      (batch : List ProduceRequest) (pending : Option ProduceRequest)
      → concat (batches c.written) ++ (batch ++ (to_list pending ++ rest)) ≡ c.queued
      → c.queue ≡ r ∷ rest
      → Held c.opts phase batch pending rest c.stopping
      → All (IsSmall c.opts) (to_list pending ++ rest)
      → IsSound (record c { queue = rest; phase = phase; batch = batch; pending = pending })
  taken-IsSound r rest phase batch pending flow q held small = record {
    conserved = flow;
    results = v.results;
    sizes = v.sizes;
    held = held;
    small = small;
    limit = v.limit;
    stops = v.stops;
    bounded = short r rest q;
  }

  moved-IsSound :
      (phase : Phase)
      → Held c.opts phase c.batch c.pending c.queue c.stopping
      → IsSound (record c { phase = phase })
  moved-IsSound phase held = record {
    conserved = v.conserved;
    results = v.results;
    sizes = v.sizes;
    held = held;
    small = v.small;
    limit = v.limit;
    stops = v.stops;
    bounded = v.bounded;
  }

  Move-IsSound : (d : MessageClient) → Move c d → IsSound d
  Move-IsSound d (Move.stay) = v
  Move-IsSound d (Move.open_pending r at p) = record {
    conserved = flow_at c.opts _ _ (held_at Phase.idle at) p refl v.conserved;
    results = v.results;
    sizes = v.sizes;
    held = (refl, alone-IsWritable c.opts r v.limit (waiting_at c.opts p refl v.small).0);
    small = (waiting_at c.opts p refl v.small).1;
    limit = v.limit;
    stops = v.stops;
    bounded = v.bounded;
  }
  Move-IsSound d (Move.open_next r rest at p q) =
      let small = waiting_at c.opts p q v.small in
      taken-IsSound r rest Phase.collecting (r ∷ []) c.pending
        (rw p (flow_at c.opts _ _ (held_at Phase.idle at) p q v.conserved)) q
        (p, alone-IsWritable c.opts r v.limit small.0) (rw p small.1)
  Move-IsSound d (Move.quit at p q s) = moved-IsSound Phase.exited (held_at Phase.idle at, p, q, s)
  Move-IsSound d (Move.signal s) = record {
    conserved = v.conserved;
    results = v.results;
    sizes = v.sizes;
    held = held-stopping c.phase v.held;
    small = v.small;
    limit = v.limit;
    stops = λ _. s;
    bounded = v.bounded;
  }
  Move-IsSound d (Move.join r rest at room q fits) =
      let (p, held) = held_at Phase.collecting at in
      taken-IsSound r rest c.phase (c.batch ++ r ∷ []) c.pending
        (rw p (flow-join c.opts _ c.batch rest r ∙ flow_at c.opts _ _ refl p q v.conserved)) q
        (rw at (p, join-IsWritable c.opts c.batch r room fits))
        (rw p (waiting_at c.opts p q v.small).1)
  Move-IsSound d (Move.set_aside r rest at q) =
      let held = held_at Phase.collecting at in
      taken-IsSound r rest Phase.writing c.batch (some r)
        (flow_at c.opts _ _ refl held.0 q v.conserved) q held.1 (waiting_at c.opts held.0 q v.small)
  Move-IsSound d (Move.seal at) = moved-IsSound Phase.writing (held_at Phase.collecting at).1
  Move-IsSound d (Move.finish acked at) = record {
    conserved =
        ap (λ l. l ++ (to_list c.pending ++ c.queue))
          (batches-append c.opts c.written c.batch acked)
        ∙ (append_assoc (concat (batches c.written)) c.batch (to_list c.pending ++ c.queue)
            ∙ v.conserved);
    results =
        ap (λ l. l ++ map (λ r. (r, acked)) c.batch) v.results
        ∙ sym (outcomes-append c.opts c.written c.batch acked);
    sizes = All-append _ c.written ((c.batch, acked) ∷ []) v.sizes (held_at Phase.writing at, tt);
    held = refl;
    small = v.small;
    limit = v.limit;
    stops = v.stops;
    bounded = v.bounded;
  }

  pub step-IsSound : (choice : Choice) → IsSound (step c choice)
  step-IsSound choice = Move-IsSound (step c choice) (step-Move c choice)
