-- ===== src/Producer/Answers.antt =====
-- What becomes of the requests that the producer queued
-- (services/messages/producer/producer-kafka.go).
use mathlib.Core.List.{append_assoc}
use lan_sync.Prelude.{
  ℕ, String, ◌<◌, ◌≡◌, refl, sym, Bool, true, false, not, List, [], ◌∷◌, ◌++◌, ◌&&◌, arith,
  if_cases, and_true, length, length-append, All-append,
}
use lan_sync.Prelude.Int.{ℤ, pos, negsuc, ltb_ℤ, ◌≤ℤ◌}
use lan_sync.Prelude.Result.{
  Result, ok, err, ◌>>◌, ◌>>=◌, refuse_if, err-ne-ok, ok-injective, bind-ok, or_fail,
}
use lan_sync.Events.{Bytes, Codec}
use lan_sync.Consumer.{KafkaMessage, size}
use lan_sync.Consumer.Collect.{to_list}
use lan_sync.Producer.{
  Call, Event, built, admit_built, handle_incoming_message_at, build_request, run, or_default,
  sized, BatchOptions, ProduceRequest, Phase, MessageClient, Error, admit, close,
  new_message_client, normalized_options,
}
use lan_sync.Producer.Sound.{IsSmall, Held, IsSound, flow-more}
use lan_sync.Producer.Stepped.{step-IsSound}

module _ (c : MessageClient) (v : IsSound c) where
  held-admit :
      (place : Phase) (queue : List ProduceRequest)
      → c.closed ≡ false
      → Held c.opts place c.batch c.pending c.queue c.stopping
      → Held c.opts place c.batch c.pending queue c.stopping
  held-admit Phase.idle queue o h = h
  held-admit Phase.collecting queue o h = h
  held-admit Phase.writing queue o h = h
  held-admit Phase.exited queue o (b, p, q, s) = absurd (ground (arith, v.stops s))

  queue_up-IsSound :
      (r : ProduceRequest)
      → IsSmall c.opts r
      → c.closed ≡ false
      → ltb_ℤ (pos (length c.queue)) c.opts.queue_capacity ≡ true
      → IsSound (record c { queue = c.queue ++ r ∷ []; queued = c.queued ++ r ∷ [] })
  queue_up-IsSound r s o room = record {
    conserved = flow-more c.opts _ c.batch (to_list c.pending) c.queue (r ∷ []) v.conserved;
    results = v.results;
    sizes = v.sizes;
    held = held-admit c.phase (c.queue ++ r ∷ []) o v.held;
    small =
        rw (sym (append_assoc (to_list c.pending) c.queue (r ∷ [])))
          (All-append _ (to_list c.pending ++ c.queue) (r ∷ []) v.small (s, tt));
    limit = v.limit;
    stops = v.stops;
    bounded = ground (arith, length-append c.queue (r ∷ []));
  }

  admit-IsSound :
      (r : ProduceRequest) (is_done prefers_done : Bool)
      → IsSmall c.opts r
      → IsSound (admit c r is_done prefers_done).1
  unfolding admit
  admit-IsSound r is_done prefers_done s =
      if_cases {A = Result Error (Unit {0}) × MessageClient} (λ p. IsSound p.1) c.closed _ _
        (λ _. v)
        (λ o.
          if_cases {A = Result Error (Unit {0}) × MessageClient} (λ p. IsSound p.1)
            (ltb_ℤ (pos (length c.queue)) c.opts.queue_capacity && not (is_done && prefers_done)) _
            _ (λ e. queue_up-IsSound r s o (and_true _ _ e).0) (λ _. v))

  close-IsSound : IsSound (close c)
  unfolding close
  close-IsSound = record {
    conserved = v.conserved;
    results = v.results;
    sizes = v.sizes;
    held = v.held;
    small = v.small;
    limit = v.limit;
    stops = λ _. refl;
    bounded = v.bounded;
  }

module _ (codec : Codec) (to_bytes : String → Bytes) where
  refused_or-IsSmall :
      (opts : BatchOptions) (m : KafkaMessage) (ticket : ℕ) (large : Bool) (r : ProduceRequest)
      → ltb_ℤ opts.max_bytes (pos (size m)) ≡ large
      → (refuse_if large Error.message_too_large >> ok (record { message = m; ticket = ticket }))
        ≡ ok r
      → IsSmall opts r
  refused_or-IsSmall opts m ticket true r e h = absurd (err-ne-ok h)
  refused_or-IsSmall opts m ticket false r e h = rw (← ok-injective h) (ground arith)

  -- A request that is built is small enough to be written.
  pub build_request-IsSmall :
      (opts : BatchOptions) (call : Call) (r : ProduceRequest)
      → built codec to_bytes opts call ≡ ok r
      → IsSmall opts r
  unfolding build_request
  build_request-IsSmall opts call r h =
      parsed-IsSmall (or_fail (codec.parse_int call.room_id) Error.invalid_room_id) _ h
    where
      parsed-IsSmall :
          (o : Result Error ℤ) (f : ℤ → Result Error Bytes)
          → (o >>= λ n. f n >>= sized codec to_bytes opts call.room_id call.ticket) ≡ ok r
          → IsSmall opts r
      parsed-IsSmall o f h =
          let (n, _, sent) =
            bind-ok o (λ n. f n >>= sized codec to_bytes opts call.room_id call.ticket) h in
          let (b, _, checked) =
            bind-ok (f n) (sized codec to_bytes opts call.room_id call.ticket) sent in
          refused_or-IsSmall opts
            (record { key = to_bytes call.room_id; value = b; offset = pos 0 }) call.ticket _ r refl
            checked

  handle_incoming-IsSound :
      (c : MessageClient) (call : Call)
      → IsSound c
      → IsSound (handle_incoming_message_at codec to_bytes c call).1
  unfolding handle_incoming_message_at
  handle_incoming-IsSound c call v = admitted (built codec to_bytes c.opts call) refl
    where
      admitted :
          (o : Result Error ProduceRequest)
          → built codec to_bytes c.opts call ≡ o
          → IsSound (admit_built c call o).1
      admitted (ok r) e =
          admit-IsSound c v r call.is_done call.prefers_done (build_request-IsSmall c.opts call r e)
      admitted (err x) e = v

  run-IsSound :
      (events : List Event) (c : MessageClient) → IsSound c → IsSound (run codec to_bytes events c)
  unfolding run
  run-IsSound [] c v = v
  run-IsSound (Event.calls call ∷ events) c v =
      run-IsSound events _ (handle_incoming-IsSound c call v)
  run-IsSound (Event.steps choice ∷ events) c v = run-IsSound events _ (step-IsSound c v choice)
  run-IsSound (Event.closes ∷ events) c v = run-IsSound events _ (close-IsSound c v)

normal : (z : ℤ) (n : ℕ) → 0 < n → pos 1 ≤ℤ or_default (pos n) z
normal (pos z) n h = ground arith
normal (negsuc z) n h = ground arith

new_message_client-IsSound : (opts : BatchOptions) → IsSound (new_message_client opts)
unfolding new_message_client normalized_options
new_message_client-IsSound opts = record {
  conserved = refl;
  results = refl;
  sizes = tt;
  held = refl;
  small = tt;
  limit = normal opts.max_messages 1000 (omega arith);
  stops = λ h. absurd (ground arith);
  bounded = omega (arith, normal opts.queue_capacity 20000 (omega arith));
}

-- In every interleaving of the callers, the goroutine and Close: the written batches, the batch in
-- hand, the request set aside and the queue make up the queued requests in their order; each request of a
-- written batch, and no other, has got the outcome of its batch; every written batch is nonempty and
-- keeps to MaxMessages and MaxBytes; the queue keeps to its capacity; and a goroutine that has exited
-- leaves nothing behind.
pub run-answers :
    (codec : Codec) (to_bytes : String → Bytes) (opts : BatchOptions) (events : List Event)
    → IsSound (run codec to_bytes events (new_message_client opts))
run-answers codec to_bytes opts events =
    run-IsSound codec to_bytes events (new_message_client opts) (new_message_client-IsSound opts)
