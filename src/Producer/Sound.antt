-- ===== src/Producer/Sound.antt =====
-- The state of the producer at all times (services/messages/producer/producer-kafka.go).
use mathlib.Core.List.{append_assoc, append-nil}
use lan_sync.Prelude.{
  ◌+◌, ◌<◌, ◌≡◌, refl, sym, ap, Bool, true, false, Option, none, List, [], ◌∷◌, ◌++◌, map, arith,
  length, length-append, total-append, concat, All,
}
use lan_sync.Prelude.Int.{pos, ltb_ℤ, ◌≤ℤ◌}
use lan_sync.Consumer.Collect.{to_list}
use lan_sync.Producer.{
  BatchOptions, ProduceRequest, Phase, MessageClient, request_size, batch_bytes, has_room,
}

-- A request that may be written alone, and a batch that may be written.
abbrev pub IsSmall : BatchOptions → ProduceRequest → Type 0
IsSmall opts r = pos (request_size r) ≤ℤ opts.max_bytes

pub record IsWritable (opts : BatchOptions) (batch : List ProduceRequest) : Type 0 where
  pub nonempty : 0 < length batch
  pub count : pos (length batch) ≤ℤ opts.max_messages
  pub bytes : pos (batch_bytes batch) ≤ℤ opts.max_bytes

-- Every request of a written batch gets the outcome of the batch.
abbrev pub outcomes : List (List ProduceRequest × Bool) → List (ProduceRequest × Bool)
outcomes [] = []
outcomes ((batch, acked) ∷ rest) = map (λ r. (r, acked)) batch ++ outcomes rest

abbrev pub batches : List (List ProduceRequest × Bool) → List (List ProduceRequest)
batches = map (λ w. w.0)

-- What the goroutine has in hand at each place of its loop.
abbrev pub Held :
    BatchOptions
    → Phase
    → List ProduceRequest
    → Option ProduceRequest
    → List ProduceRequest
    → Bool
    → Type 0
Held opts Phase.idle batch pending queue stopping = batch ≡ []
Held opts Phase.collecting batch pending queue stopping = (pending ≡ none) × IsWritable opts batch
Held opts Phase.writing batch pending queue stopping = IsWritable opts batch
Held opts Phase.exited batch pending queue stopping =
    (batch ≡ []) × (pending ≡ none) × (queue ≡ []) × (stopping ≡ true)

pub record IsSound (c : MessageClient) : Type 0 where
  pub conserved :
      concat (batches c.written) ++ (c.batch ++ (to_list c.pending ++ c.queue)) ≡ c.queued
  pub results : c.answered ≡ outcomes c.written
  pub sizes : All (λ w. IsWritable c.opts w.0) c.written
  pub held : Held c.opts c.phase c.batch c.pending c.queue c.stopping
  pub small : All (IsSmall c.opts) (to_list c.pending ++ c.queue)
  pub limit : pos 1 ≤ℤ c.opts.max_messages
  pub stops : c.stopping ≡ true → c.closed ≡ true
  pub bounded : pos (length c.queue) ≤ℤ c.opts.queue_capacity

module _ (opts : BatchOptions) where
  pub flow_at :
      (done queued : List ProduceRequest) {batch now queue others : List ProduceRequest}
      {pending waiting : Option ProduceRequest}
      → batch ≡ now
      → pending ≡ waiting
      → queue ≡ others
      → done ++ (batch ++ (to_list pending ++ queue)) ≡ queued
      → done ++ (now ++ (to_list waiting ++ others)) ≡ queued
  flow_at done queued b p q h = rw (b, p, q) at h

  pub waiting_at :
      {queue others : List ProduceRequest} {pending waiting : Option ProduceRequest}
      → pending ≡ waiting
      → queue ≡ others
      → All (IsSmall opts) (to_list pending ++ queue)
      → All (IsSmall opts) (to_list waiting ++ others)
  waiting_at p q h = rw (p, q) at h

  pub alone-IsWritable :
      (r : ProduceRequest) → pos 1 ≤ℤ opts.max_messages → IsSmall opts r → IsWritable opts (r ∷ [])
  alone-IsWritable r l s = record {
    nonempty = omega arith;
    count = omega arith;
    bytes = omega arith;
  }

  pub join-IsWritable :
      (batch : List ProduceRequest) (r : ProduceRequest)
      → has_room opts batch ≡ true
      → ltb_ℤ opts.max_bytes (pos (batch_bytes batch + request_size r)) ≡ false
      → IsWritable opts (batch ++ r ∷ [])
  unfolding has_room
  join-IsWritable batch r room fits = record {
    nonempty = omega (arith, length-append batch (r ∷ []));
    count = ground (arith, length-append batch (r ∷ []));
    bytes = ground (arith, total-append request_size batch (r ∷ []));
  }

  pub outcomes-append :
      (ws : List (List ProduceRequest × Bool)) (batch : List ProduceRequest) (acked : Bool)
      → outcomes (ws ++ (batch, acked) ∷ []) ≡ outcomes ws ++ map (λ r. (r, acked)) batch
  outcomes-append [] batch acked = append-nil (map (λ r. (r, acked)) batch)
  outcomes-append ((b, a) ∷ ws) batch acked =
      rw (outcomes-append ws batch acked)
        (sym (append_assoc (map (λ r. (r, a)) b) (outcomes ws) (map (λ r. (r, acked)) batch)))

  pub batches-append :
      (ws : List (List ProduceRequest × Bool)) (batch : List ProduceRequest) (acked : Bool)
      → concat (batches (ws ++ (batch, acked) ∷ [])) ≡ concat (batches ws) ++ batch
  batches-append [] batch acked = append-nil batch
  batches-append ((b, a) ∷ ws) batch acked =
      rw (batches-append ws batch acked) (sym (append_assoc b (concat (batches ws)) batch))

  pub flow-join :
      (done batch rest : List ProduceRequest) (r : ProduceRequest)
      → done ++ ((batch ++ r ∷ []) ++ rest) ≡ done ++ (batch ++ r ∷ rest)
  flow-join done batch rest r = ap (λ l. done ++ l) (append_assoc batch (r ∷ []) rest)

  pub flow-more :
      (done batch pending queue more : List ProduceRequest) {queued : List ProduceRequest}
      → done ++ (batch ++ (pending ++ queue)) ≡ queued
      → done ++ (batch ++ (pending ++ (queue ++ more))) ≡ queued ++ more
  flow-more done batch pending queue more e =
      rw (← e, append_assoc done, append_assoc batch, append_assoc pending) refl
