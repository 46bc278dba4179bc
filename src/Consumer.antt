-- ===== src/Consumer.antt =====
-- `consumeBatches` of services/messages/sequencer/batch.go: batches of a partition, handled and
-- then committed. The partition is the list `source` of the messages still to be fetched; kafka-go
-- and the contexts enter as the answers of the environment in one round of the loop.
pub mod Collect
pub mod Delivery
pub mod Totals
mod Tests
use lan_sync.Prelude.{
  ℕ, ◌+◌, Bool, true, false, Option, none, some, List, [], ◌∷◌, ◌++◌, ◌&&◌, ◌||◌, if◌then◌else◌,
  length, ltb,
}
use lan_sync.Prelude.Int.{ℤ, pos, ltb_ℤ, leb_ℤ}
use lan_sync.Events.{Bytes}
use lan_sync.Retry.{Attempt, RetryOutcome, done, context_done, waiting, retry}

pub record KafkaMessage : Type 0 where
  pub key : Bytes
  pub value : Bytes
  pub offset : ℤ

abbrev pub size : KafkaMessage → ℕ
size m = length m.key + length m.value

pub record BatchOptions : Type 0 where
  pub max_messages : ℤ
  pub max_bytes : ℤ
  pub max_wait : ℤ

pub data Error : Type 0 where
  invalid_bounds oversized_message reader_error context_error : Error
  parse_error marshal_error missing_number : Error

-- What one pass of the inner loop meets: a fetched message, a batch context that is done at the
-- check, or a fetch error that is not the batch's deadline.
pub data Poll : Type 0 where
  arrives expired fails : Poll

pub record Batch : Type 0 where
  pub records : List KafkaMessage
  pub pending : Option KafkaMessage
  pub terminal : Option Error
  pub source : List KafkaMessage

abbrev closed : List KafkaMessage → List KafkaMessage → Batch
closed records source = record {
  records = records;
  pending = none;
  terminal = none;
  source = source;
}

-- The condition of the inner loop.
abbrev pub has_room : BatchOptions → List KafkaMessage → ℕ → Bool
has_room opts records bytes =
    ltb_ℤ (pos (length records)) opts.max_messages && ltb_ℤ (pos bytes) opts.max_bytes

-- The inner loop. Where the answers end, or the partition does, the fetch waits until the batch's
-- deadline, which ends the batch.
unfoldable pub collect :
    BatchOptions → List KafkaMessage → ℕ → List Poll → List KafkaMessage → Batch
collect opts records bytes [] source = closed records source
collect opts records bytes (arrives ∷ polls) [] = closed records []
collect opts records bytes (arrives ∷ polls) (next ∷ source) =
    let more = collect opts (records ++ next ∷ []) (bytes + size next) polls source in
    if has_room opts records bytes
    then if ltb_ℤ opts.max_bytes (pos (bytes + size next))
      then record { records = records; pending = some next; terminal = none; source = source }
      else more
    else closed records (next ∷ source)
collect opts records bytes (expired ∷ polls) source = closed records source
collect opts records bytes (fails ∷ polls) source =
    if has_room opts records bytes
    then record { records = records; pending = none; terminal = some reader_error; source = source }
    else closed records source

-- The environment's part in one round of the outer loop.
pub record Round : Type 0 where
  pub fetch_fails : Bool  -- the blocking fetch, where no message is pending
  pub polls : List Poll
  pub cancelled : Bool  -- ctx.Err() != nil after the batch
  pub handling : List Attempt
  pub commits : List Attempt

pub data Status : Type 0 where
  running blocked : Status
  stopped : Error → Status

-- `in_flight` is the variable `records`; the lists of batches record what the loop has done.
pub record Consumer {ℓ} (H : Type ℓ) : Type ℓ where
  pub source : List KafkaMessage
  pub pending : Option KafkaMessage
  pub in_flight : List KafkaMessage
  pub handler : H
  pub handled : List (List KafkaMessage)
  pub committed : List (List KafkaMessage)

pub data Handled : Type 0 where
  handled_ok handler_waiting : Handled
  handler_error : Error → Handled

module _ {ℓ} {H : Type ℓ} where
  abbrev pub start : List KafkaMessage → H → Consumer H
  start source h = record {
    source = source;
    pending = none;
    in_flight = [];
    handler = h;
    handled = [];
    committed = [];
  }

  abbrev pub commit_batch : List KafkaMessage → Bool → Consumer H → Consumer H
  commit_batch records acked c =
      if acked then record c { in_flight = []; committed = c.committed ++ records ∷ [] } else c

  abbrev pub finish : Option Error → RetryOutcome × Consumer H → Status × Consumer H
  finish terminal (waiting, c) = (blocked, c)
  finish terminal (context_done, c) = (stopped context_error, c)
  finish none (done, c) = (running, c)
  finish (some e) (done, c) = (stopped e, c)

  abbrev pub after_handle : Round → Batch → Consumer H → Handled × H → Status × Consumer H
  after_handle r b c (handler_waiting, h) = (blocked, record c { handler = h })
  after_handle r b c (handler_error e, h) = (stopped e, record c { handler = h })
  after_handle r b c (handled_ok, h) = finish b.terminal (
      retry (commit_batch b.records) r.commits
        (record c { handler = h; handled = c.handled ++ b.records ∷ [] }))

-- The guard at the head of consumeBatches.
abbrev pub bounds_invalid : BatchOptions → Bool
bounds_invalid opts =
    ltb_ℤ opts.max_messages (pos 1)
    || ltb_ℤ (pos 10000) opts.max_messages
    || ltb_ℤ opts.max_bytes (pos 1)
    || leb_ℤ opts.max_wait (pos 0)

module _ {ℓ} {H : Type ℓ} (opts : BatchOptions)
    (handle : List Attempt → List KafkaMessage → H → Handled × H) where
  -- One round, from the message that opens the batch.
  unfoldable pub process : Round → KafkaMessage → Consumer H → Status × Consumer H
  unfolding collect retry
  process r first c =
      if ltb_ℤ opts.max_bytes (pos (size first))
      then (stopped oversized_message, record c { in_flight = first ∷ [] })
      else let b = collect opts (first ∷ []) (size first) r.polls c.source in
        let c' = record c { source = b.source; pending = b.pending; in_flight = b.records } in
        if r.cancelled
        then (stopped context_error, c')
        else after_handle r b c' (handle r.handling b.records c.handler)

  abbrev pub fetch_first :
      Round → Option KafkaMessage → List KafkaMessage → Consumer H → Status × Consumer H
  fetch_first r (some m) source c = process r m (record c { pending = none })
  fetch_first r none [] c = (if r.fetch_fails then stopped reader_error else blocked, c)
  fetch_first r none (m ∷ source) c =
      if r.fetch_fails
      then (stopped reader_error, c)
      else process r m (record c { source = source })

  unfoldable pub consume_round : Round → Consumer H → Status × Consumer H
  unfolding process
  consume_round r c = fetch_first r c.pending c.source c

  abbrev pub go_on : (Consumer H → Status × Consumer H) → Status × Consumer H → Status × Consumer H
  go_on next (running, c) = next c
  go_on next (blocked, c) = (blocked, c)
  go_on next (stopped e, c) = (stopped e, c)

  unfoldable pub consume_loop : List Round → Consumer H → Status × Consumer H
  unfolding consume_round
  consume_loop [] c = (running, c)
  consume_loop (r ∷ rounds) c = go_on (consume_loop rounds) (consume_round r c)

  unfoldable pub consume_batches : List Round → Consumer H → Status × Consumer H
  unfolding consume_loop
  consume_batches rounds c =
      if bounds_invalid opts then (stopped invalid_bounds, c) else consume_loop rounds c
