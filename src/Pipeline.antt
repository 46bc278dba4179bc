-- ===== src/Pipeline.antt =====
-- The sequencer and the relay as consumers: `RunBatched` (services/messages/sequencer/batch.go),
-- `RelayBatched` (relay_batch.go) and the body of `Run` (pipeline.go). The clock and the formatting of
-- a room id are parameters; reading n of the clock is made for the n-th record that is processed.
pub mod Numbered
pub mod Published
mod Tests
use lan_sync.Prelude.{
  ℕ, ◌+◌, Bool, true, false, Option, none, some, List, [], ◌∷◌, ◌++◌, ◌||◌, if◌then◌else◌, length,
}
use lan_sync.Prelude.Int.{ℤ, pos, leb_ℤ}
use lan_sync.Prelude.Result.{Result, ok, err, ◌>>=◌}
use lan_sync.Events.{Bytes, MessageEnvelope, Codec, unmarshal, marshal}
use lan_sync.Events
use lan_sync.Sequencer.{Sequencer, assign}
use lan_sync.Sequencer
use lan_sync.Retry.{Attempt, RetryOutcome, done, context_done, waiting, retry}
use lan_sync.Consumer.{
  KafkaMessage, Error, parse_error, marshal_error, missing_number, context_error, reader_error,
  Handled, handled_ok, handler_waiting, handler_error, Status, BatchOptions, Round, Consumer, start,
  consume_batches,
}

-- What the repository does not implement: the wire formats, the clock in nanoseconds and in
-- milliseconds, and fmt.Sprint of a room id.
pub record Runtime : Type 0 where
  pub codec : Codec
  pub clock_ns : ℕ → ℤ
  pub clock_ms : ℕ → ℤ
  pub format_room : ℤ → Bytes

-- The sequencer's state, and the number of records that it has processed.
pub record Progress : Type 0 where
  pub sequencer : Sequencer
  pub processed : ℕ

-- The sequencer's process: `attempts` are the calls of `write`, with whether each was acknowledged.
pub record Numberer : Type 0 where
  pub progress : Progress
  pub attempts : List (List KafkaMessage × Bool)

pub record RelayMessage : Type 0 where
  pub message : MessageEnvelope
  pub value : Bytes

pub record Relayer : Type 0 where
  pub processed : ℕ
  pub published : List (List RelayMessage × Bool)

abbrev pub handled_by : RetryOutcome → Handled
handled_by done = handled_ok
handled_by context_done = handler_error context_error
handled_by waiting = handler_waiting

abbrev pub cons_ok {ℓ} : {A S : Type ℓ} → A → Result Error (List A) × S → Result Error (List A) × S
cons_ok a (ok rest, s) = (ok (a ∷ rest), s)
cons_ok a (err e, s) = (err e, s)

module _ (rt : Runtime) where
  abbrev pub output : MessageEnvelope → Bytes → KafkaMessage
  output m value = record { key = rt.format_room m.room_id; value = value; offset = pos 0 }

  abbrev pub assigned :
      ℤ → Progress → MessageEnvelope → Result Sequencer.Error MessageEnvelope × Progress
  assigned now st input =
      let (r, s) = assign now st.sequencer input in
      (r, record { sequencer = s; processed = st.processed + 1 })

  -- The loop of RunBatched's handler. A refused input is skipped; a payload that cannot be read, or
  -- a message that cannot be written, ends the handler.
  abbrev pub emit_value :
      (Progress → Result Error (List KafkaMessage) × Progress)
      → MessageEnvelope
      → Progress
      → Result Events.Error Bytes
      → Result Error (List KafkaMessage) × Progress
  emit_value rest m p (err _) = (err marshal_error, p)
  emit_value rest m p (ok value) = cons_ok (output m value) (rest p)

  abbrev pub emit :
      (Progress → Result Error (List KafkaMessage) × Progress)
      → Result Sequencer.Error MessageEnvelope × Progress
      → Result Error (List KafkaMessage) × Progress
  emit rest (err _, p) = rest p
  emit rest (ok m, p) = emit_value rest m p (marshal rt.codec m)

  abbrev pub emit_input :
      (Progress → Result Error (List KafkaMessage) × Progress)
      → Progress
      → Result Events.Error MessageEnvelope
      → Result Error (List KafkaMessage) × Progress
  emit_input rest p (err _) = (err parse_error, p)
  emit_input rest p (ok input) = emit rest (assigned (rt.clock_ms p.processed) p input)

  unfoldable pub prepare :
      List KafkaMessage → Progress → Result Error (List KafkaMessage) × Progress
  prepare [] p = (ok [], p)
  prepare (r ∷ records) p =
      emit_input (prepare records) p (unmarshal rt.codec (rt.clock_ns p.processed) r.value)

  abbrev pub write : List KafkaMessage → Bool → Numberer → Numberer
  write outputs acked st = record st { attempts = st.attempts ++ (outputs, acked) ∷ [] }

  abbrev pub send :
      List Attempt
      → List (List KafkaMessage × Bool)
      → Result Error (List KafkaMessage) × Progress
      → Handled × Numberer
  send rounds sent (err e, p) = (handler_error e, record { progress = p; attempts = sent })
  send rounds sent (ok [], p) = (handled_ok, record { progress = p; attempts = sent })
  send rounds sent (ok (o ∷ os), p) =
      let (r, st) = retry (write (o ∷ os)) rounds (record { progress = p; attempts = sent }) in
      (handled_by r, st)

  -- The handler that RunBatched passes to consumeBatches.
  unfoldable pub run_batch : List Attempt → List KafkaMessage → Numberer → Handled × Numberer
  unfolding prepare retry
  run_batch rounds records st = send rounds st.attempts (prepare records st.progress)

  -- The body of Run for one record: the same steps, with a write of its own for the message.
  abbrev pub send_one :
      List Attempt
      → List (List KafkaMessage × Bool)
      → Result Sequencer.Error MessageEnvelope × Progress
      → Handled × Numberer
  send_one rounds sent (err _, p) = (handled_ok, record { progress = p; attempts = sent })
  send_one rounds sent (ok m, p) = elim (marshal rt.codec m) [
    | err _ ↦ (handler_error marshal_error, record { progress = p; attempts = sent })
    | ok value ↦
        let (r, st) =
          retry (write (output m value ∷ [])) rounds (record { progress = p; attempts = sent }) in
        (handled_by r, st)
  ]

  unfoldable pub run_record : List Attempt → KafkaMessage → Numberer → Handled × Numberer
  unfolding retry
  run_record rounds r st = elim (unmarshal rt.codec (rt.clock_ns st.progress.processed) r.value) [
    | err _ ↦ (handler_error parse_error, st)
    | ok input ↦
        send_one rounds st.attempts (assigned (rt.clock_ms st.progress.processed) st.progress input)
  ]

  abbrev pub is_unnumbered : MessageEnvelope → Bool
  is_unnumbered m =
      leb_ℤ m.room_id (pos 0) || leb_ℤ m.message_id (pos 0) || leb_ℤ m.room_seq (pos 0)

  abbrev pub relay_next :
      KafkaMessage
      → Result Error (List RelayMessage)
      → Result Events.Error MessageEnvelope
      → Result Error (List RelayMessage)
  relay_next r rest (err _) = err parse_error
  relay_next r rest (ok m) =
      if is_unnumbered m
      then err missing_number
      else do ms ← rest; ok (record { message = m; value = r.value } ∷ ms)

  -- The loop of RelayBatched's handler.
  unfoldable pub relay_messages : List KafkaMessage → ℕ → Result Error (List RelayMessage)
  relay_messages [] n = ok []
  relay_messages (r ∷ records) n =
      relay_next r (relay_messages records (n + 1)) (unmarshal rt.codec (rt.clock_ns n) r.value)

  abbrev pub publish : List RelayMessage → Bool → Relayer → Relayer
  publish ms acked st = record st { published = st.published ++ (ms, acked) ∷ [] }

  abbrev pub relay_send :
      List Attempt → Relayer → Result Error (List RelayMessage) → Handled × Relayer
  relay_send rounds st (err e) = (handler_error e, st)
  relay_send rounds st (ok ms) = let (r, st') = retry (publish ms) rounds st in (handled_by r, st')

  -- The handler that RelayBatched passes to consumeBatches.
  unfoldable pub relay_batch : List Attempt → List KafkaMessage → Relayer → Handled × Relayer
  unfolding relay_messages retry
  relay_batch rounds records st =
      relay_send rounds (record st { processed = st.processed + length records })
        (relay_messages records st.processed)

  -- RunBatched and RelayBatched, from a partition and a state, as far as the rounds go.
  abbrev pub run_batched :
      BatchOptions → List KafkaMessage → Numberer → List Round → Status × Consumer Numberer
  run_batched opts topic st rounds = consume_batches opts run_batch rounds (start topic st)

  abbrev pub relay_batched :
      BatchOptions → List KafkaMessage → Relayer → List Round → Status × Consumer Relayer
  relay_batched opts topic st rounds = consume_batches opts relay_batch rounds (start topic st)
