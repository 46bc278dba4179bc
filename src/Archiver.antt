-- ===== src/Archiver.antt =====
-- services/messages/archiver/worker-kafka.go: messages with numbers are read from a partition, saved
-- in batches, and the cursor in Redis is moved behind them. The storage, the search index, Redis,
-- kafka-go and the clock enter as the answers in a `Pass` of the loop; the search index, whose error is
-- only logged, is left out. An attempt to save is recorded with whether it was acknowledged.
pub mod Cursor
pub mod Passes
mod Tests
use lan_sync.Prelude.{
  ℕ, ◌^◌, Bool, true, false, not, Option, none, some, List, [], ◌∷◌, ◌++◌, ◌||◌, if◌then◌else◌,
  length, ltb, leb, keep,
}
use lan_sync.Prelude.Int.{ℤ, pos, leb_ℤ, ltb_ℤ}
use lan_sync.Prelude.Result.{Result, ok, err}
use lan_sync.Events
use lan_sync.Events.{MessageEnvelope, Codec, unmarshal}
use lan_sync.Consumer.{KafkaMessage}

abbrev pub batch_size : ℕ
batch_size = 1000

pub data Error : Type 0 where
  save_failed cursor_failed unreadable missing_number : Error

-- How a flush goes: the answers of the storage and of Redis.
pub record Flush : Type 0 where
  pub saves : Bool
  pub sets_cursor : Bool

-- One pass of the loop: the branch of its `select`, and what the read returns.
pub record Pass : Type 0 where
  pub cancelled : Bool
  pub ticked : Bool
  pub reads : Bool
  pub now : ℤ
  pub tick_flush : Flush
  pub full_flush : Flush

-- `accepted` records the offset and the message of each record that was put in the batch.
pub record Worker : Type 0 where
  pub source : List KafkaMessage
  pub has_redis : Bool
  pub batch : List MessageEnvelope
  pub last_offset : ℤ
  pub cursor : Option ℤ
  pub attempts : List (List MessageEnvelope × Bool)
  pub cached : List MessageEnvelope
  pub accepted : List (ℤ × MessageEnvelope)

pub data Status : Type 0 where
  running exited : Status
  failed : Error → Status

abbrev pub start : List KafkaMessage → Bool → Option ℤ → Worker
start source has_redis cursor = record {
  source = source;
  has_redis = has_redis;
  batch = [];
  last_offset = pos 0;
  cursor = cursor;
  attempts = [];
  cached = [];
  accepted = [];
}

-- What pushLatestToRedis puts in the cache of the latest messages.
unfoldable pub push_latest : Worker → Worker
push_latest w = record w {
  cached =
      if w.has_redis
      then w.cached
        ++ keep (λ m. not (leb_ℤ m.room_seq (pos 0) || ltb_ℤ (pos (2 ^ 53)) m.room_seq)) w.batch
      else w.cached;
}

-- saveOffset and the end of flush; without Redis the offset is not saved, and that is no error. A Set that fails
-- has not been applied.
abbrev pub save_offset : Flush → Worker → Status × Worker
save_offset f w =
    if not w.has_redis
    then (running, record w { batch = [] })
    else if f.sets_cursor
    then (running, record w { cursor = some w.last_offset; batch = [] })
    else (failed cursor_failed, w)

abbrev pub save_batch : Bool → Worker → Worker
save_batch acked w = record w { attempts = w.attempts ++ (w.batch, acked) ∷ [] }

abbrev pub flush_batch : Flush → Worker → List MessageEnvelope → Status × Worker
flush_batch f w [] = (running, w)
flush_batch f w (m ∷ ms) =
    if f.saves
    then save_offset f (push_latest (save_batch true w))
    else (failed save_failed, save_batch false w)

unfoldable pub flush : Flush → Worker → Status × Worker
flush f w = flush_batch f w w.batch

abbrev pub is_unnumbered : MessageEnvelope → Bool
is_unnumbered m = leb_ℤ m.message_id (pos 0) || leb_ℤ m.room_seq (pos 0)

-- The batch keeps the envelope, of which the source copies every field into a Message.
abbrev pub take_in : Worker → ℤ → MessageEnvelope → Worker
take_in w offset m = record w {
  batch = w.batch ++ m ∷ [];
  last_offset = offset;
  accepted = w.accepted ++ (offset, m) ∷ [];
}

abbrev pub archive : Pass → Worker → ℤ → Result Events.Error MessageEnvelope → Status × Worker
archive p w offset (err _) = (failed unreadable, w)
archive p w offset (ok m) =
    let next = take_in w offset m in
    if is_unnumbered m
    then (failed missing_number, w)
    else if ltb (length next.batch) batch_size
    then (running, next)
    else flush p.full_flush next

abbrev pub and_then : Status × Worker → (Worker → Status × Worker) → Status × Worker
and_then (running, w) k = k w
and_then (exited, w) k = (exited, w)
and_then (failed e, w) k = (failed e, w)

abbrev pub exit : Status × Worker → Status × Worker
exit r = and_then r (λ w. (exited, w))

module _ (codec : Codec) where
  abbrev pub read_message : Pass → List KafkaMessage → Worker → Status × Worker
  read_message p [] w = (running, w)
  read_message p (m ∷ source) w =
      if p.reads
      then archive p (record w { source = source }) m.offset (unmarshal codec p.now m.value)
      else (running, w)

  unfoldable pub work : Pass → Worker → Status × Worker
  work p w =
      if p.cancelled
      then exit (flush p.tick_flush w)
      else and_then (if p.ticked then flush p.tick_flush w else (running, w))
          (λ w1. read_message p w1.source w1)

  -- Start, as far as the passes go.
  unfoldable pub run : List Pass → Worker → Status × Worker
  run [] w = (running, w)
  run (p ∷ passes) w = and_then (work p w) (run passes)
