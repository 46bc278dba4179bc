-- ===== src/Pipeline/Published.antt =====
-- What RelayBatched publishes (services/messages/sequencer/relay_batch.go).
use mathlib.Core.List.{append-nil, map-append}
use lan_sync.Prelude.{
  ℕ, ◌+◌, ◌≡◌, refl, ap, ◌∙◌, true, false, List, [], ◌∷◌, ◌++◌, map, arith, concat, All, All-append,
  Bool-cases, inl, inr,
}
use lan_sync.Prelude.Result.{Result, ok, err, ok-injective, err-ne-ok}
use lan_sync.Events
use lan_sync.Events.{Bytes, MessageEnvelope, unmarshal}
use lan_sync.Retry.{Attempt, retry, done}
use lan_sync.Consumer.{KafkaMessage, BatchOptions, Error, handled_ok, Round, running}
use lan_sync.Consumer.Totals.{consume_batches-adds_up}
use lan_sync.Pipeline.{
  Runtime, RelayMessage, Relayer, is_unnumbered, relay_next, relay_messages, publish, relay_batch,
  relay_batched, relay_send,
}
use lan_sync.Pipeline.Numbered.{acked, acked-append, done_of_handled}

abbrev pub new_relayer : Relayer
new_relayer = record { processed = 0; published = [] }

module _ (rt : Runtime) where
  -- A relayed message has a room, an id and a number in its room, and is passed on unchanged.
  abbrev pub Relays : List KafkaMessage → List RelayMessage → Type 0
  Relays records ms =
      (map (λ m. m.value) ms ≡ map (λ r. r.value) records)
      × All (λ m. is_unnumbered rt m.message ≡ false) ms

  Relays-append :
      (xs ys : List KafkaMessage) (ms ns : List RelayMessage)
      → Relays xs ms
      → Relays ys ns
      → Relays (xs ++ ys) (ms ++ ns)
  Relays-append xs ys ms ns h k = (
    rw (
      map-append (λ (m : RelayMessage). m.value) ms ns,
      map-append (λ (r : KafkaMessage). r.value) xs ys,
      h.0,
      k.0,
    ),
    All-append (λ m. is_unnumbered rt m.message ≡ false) ms ns h.1 k.1,
  )

  relay_next-Relays :
      (r : KafkaMessage) (records : List KafkaMessage) (rest : Result Error (List RelayMessage))
      (i : Result Events.Error MessageEnvelope)
      → ((ms : List RelayMessage) → rest ≡ ok ms → Relays records ms)
      → (ms : List RelayMessage) → relay_next rt r rest i ≡ ok ms
      → Relays (r ∷ records) ms
  relay_next-Relays r records rest (err e) ih ms h = cc h
  relay_next-Relays r records (err e) (ok m) ih ms h = ground arith
  relay_next-Relays r records (ok ns) (ok m) ih ms h = elim (Bool-cases (is_unnumbered rt m)) [
    | inl bad ↦ absurd (err-ne-ok (rw bad at h))
    | inr good ↦
        rw (← ok-injective (rw good at h))
          (let (same, numbered) = ih ns refl in (ap (◌∷◌ r.value) same, (good, numbered)))
  ]

  pub relay_messages-Relays :
      (records : List KafkaMessage) (n : ℕ) (ms : List RelayMessage)
      → relay_messages rt records n ≡ ok ms
      → Relays records ms
  unfolding relay_messages
  relay_messages-Relays [] n ms h = rw (← ok-injective h) (refl, tt)
  relay_messages-Relays (r ∷ records) n ms h =
      relay_next-Relays r records (relay_messages rt records (n + 1))
        (unmarshal rt.codec (rt.clock_ns n) r.value) (relay_messages-Relays records (n + 1)) ms h

  retry-publish :
      (ms : List RelayMessage) (rounds : List Attempt) (st : Relayer)
      → (retry (publish rt ms) rounds st).0 ≡ done
      → acked (retry (publish rt ms) rounds st).1.published ≡ acked st.published ++ ms
  unfolding retry
  retry-publish ms [] st h = cc h
  retry-publish ms (Attempt.cancelled ∷ rounds) st h = cc h
  retry-publish ms (Attempt.succeeds ∷ rounds) st h =
      rw (acked-append st.published ((ms, true) ∷ []), append-nil ms)
  retry-publish ms (Attempt.fails ∷ rounds) st h =
      retry-publish ms rounds (publish rt ms false st) h
      ∙ rw (acked-append st.published ((ms, false) ∷ []), append-nil (acked st.published))
  retry-publish ms (Attempt.fails_cancelled ∷ rounds) st h = cc h

  relay_send-Relays :
      (rounds : List Attempt) (before records : List KafkaMessage) (st : Relayer)
      (a : Result Error (List RelayMessage))
      → Relays before (acked st.published)
      → ((ms : List RelayMessage) → a ≡ ok ms → Relays records ms)
      → (relay_send rt rounds st a).0 ≡ handled_ok
      → Relays (before ++ records) (acked (relay_send rt rounds st a).1.published)
  relay_send-Relays rounds before records st (err e) v k h = cc h
  relay_send-Relays rounds before records st (ok ms) v k h =
      rw (retry-publish ms rounds st (done_of_handled _ h))
        (Relays-append before records (acked st.published) ms v (k ms refl))

  relay_batch-Relays :
      (rounds : List Attempt) (before records : List KafkaMessage) (st : Relayer)
      → Relays before (acked st.published)
      → (relay_batch rt rounds records st).0 ≡ handled_ok
      → Relays (before ++ records) (acked (relay_batch rt rounds records st).1.published)
  unfolding relay_batch
  relay_batch-Relays rounds before records st v h =
      relay_send-Relays rounds before records _ (relay_messages rt records st.processed) v
        (relay_messages-Relays records st.processed) h

  -- While RelayBatched runs, the messages whose publication was acknowledged carry the values of
  -- the handled records, each once and in order, and each has a room, an id and a number in its room.
  pub relay_batched_publishes :
      (opts : BatchOptions) (topic : List KafkaMessage) (rounds : List Round)
      → (relay_batched rt opts topic new_relayer rounds).0 ≡ running
      → let c = (relay_batched rt opts topic new_relayer rounds).1 in
        (map (λ m. m.value) (acked c.handler.published) ≡ map (λ r. r.value) (concat c.handled))
        × All (λ m. is_unnumbered rt m.message ≡ false) (acked c.handler.published)
  relay_batched_publishes opts topic rounds =
      consume_batches-adds_up opts (relay_batch rt) (λ xs st. Relays xs (acked st.published))
        relay_batch-Relays topic new_relayer rounds (refl, tt)
