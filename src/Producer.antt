-- ===== src/Producer.antt =====
-- services/messages/producer/producer-kafka.go: the gateways' client for Kafka. A request is admitted
-- to a bounded queue, and one goroutine takes the queue in batches, writes each batch, and gives
-- its outcome to the requests in it. Callers, the goroutine and Close interleave: the goroutine makes
-- one `step` for each `select`, and a `Choice` says which of the ready cases it takes. kafka-go, the clock
-- and the codec are parameters; Writer.Close and the metrics are left out.
pub mod Queue
pub mod Sound
pub mod Stepped
pub mod Answers
pub mod Progress
pub mod Drain
pub mod Admission
mod Tests
use lan_sync.Prelude.{
  ℕ, ◌+◌, ◌*◌, ◌^◌, String, Bool, true, false, not, Option, none, some, List, [], ◌∷◌, ◌++◌, map,
  ◌&&◌, if◌then◌else◌, length, ltb, total,
}
use lan_sync.Prelude.Int.{ℤ, pos, leb_ℤ, ltb_ℤ, int_beq}
use lan_sync.Prelude.Result.{Result, ok, err, ◌>>=◌, ◌>>◌, or_fail, refuse_if}
use lan_sync.Events
use lan_sync.Events.{Bytes, MessageEnvelope, Codec, marshal, zero_time}
use lan_sync.Consumer.{KafkaMessage, size}

pub record BatchOptions : Type 0 where
  pub max_messages : ℤ
  pub max_bytes : ℤ
  pub max_wait : ℤ
  pub queue_capacity : ℤ
  pub write_timeout : ℤ

abbrev pub or_default : ℤ → ℤ → ℤ
or_default n z = if leb_ℤ z (pos 0) then n else z

-- Durations are in nanoseconds.
unfoldable pub normalized_options : BatchOptions → BatchOptions
normalized_options opts = record {
  max_messages = or_default (pos 1000) opts.max_messages;
  max_bytes = or_default (pos (2 ^ 20)) opts.max_bytes;
  max_wait = or_default (pos 5000000) opts.max_wait;
  queue_capacity = or_default (pos 20000) opts.queue_capacity;
  write_timeout = or_default (pos 10000000000) opts.write_timeout;
}

-- `ticket` stands for the request's own result channel.
pub record ProduceRequest : Type 0 where
  pub message : KafkaMessage
  pub ticket : ℕ

pub data Phase : Type 0 where
  idle collecting writing exited : Phase

-- `closed` is also the state of the channel `stop`. The last three fields record what has happened:
-- the requests that were queued, the batches with the outcome of their write, and the results.
pub record MessageClient : Type 0 where
  pub opts : BatchOptions
  pub queue : List ProduceRequest
  pub closed : Bool
  pub phase : Phase
  pub stopping : Bool
  pub pending : Option ProduceRequest
  pub batch : List ProduceRequest
  pub queued : List ProduceRequest
  pub written : List (List ProduceRequest × Bool)
  pub answered : List (ProduceRequest × Bool)

unfoldable pub new_message_client : BatchOptions → MessageClient
new_message_client opts = record {
  opts = normalized_options opts;
  queue = [];
  closed = false;
  phase = idle;
  stopping = false;
  pending = none;
  batch = [];
  queued = [];
  written = [];
  answered = [];
}

pub data Error : Type 0 where
  invalid_room_id marshal_failed message_too_large producer_closed queue_full cancelled : Error

-- The request that HandleIncomingMessageAt builds, or its error before the queue.
module _ (codec : Codec) (to_bytes : String → Bytes) where
  abbrev pub incoming : ℤ → String → ℤ → String → String → ℤ → MessageEnvelope
  incoming room_id room sender content client_msg_id arrived = record {
    message_id = pos 0;
    room_seq = pos 0;
    room_id = room_id;
    sender_id = sender;
    client_msg_id = client_msg_id;
    kind = pos 1;
    content = content;
    created_at = arrived;
  }

  abbrev pub marshalled : Result Events.Error Bytes → Result Error Bytes
  marshalled (ok b) = ok b
  marshalled (err _) = err marshal_failed

  abbrev pub sized : BatchOptions → String → ℕ → Bytes → Result Error ProduceRequest
  sized opts room ticket payload = do
    let message : KafkaMessage = record { key = to_bytes room; value = payload; offset = pos 0 }
    refuse_if (ltb_ℤ opts.max_bytes (pos (size message))) message_too_large
    ok (record { message = message; ticket = ticket })

  unfoldable pub build_request :
      BatchOptions → ℤ → ℕ → String → ℤ → String → String → ℤ → Result Error ProduceRequest
  build_request opts now ticket room sender content client_msg_id arrived = do
    room_id ← or_fail (codec.parse_int room) invalid_room_id
    let at = if int_beq arrived zero_time then now else arrived
    payload ← marshalled (marshal codec (incoming room_id room sender content client_msg_id at))
    sized opts room ticket payload

-- The `select` that queues a request. A context that is done may be preferred to a free place.
unfoldable pub admit :
    MessageClient → ProduceRequest → Bool → Bool → Result Error (Unit {0}) × MessageClient
admit c r is_done prefers_done =
    if c.closed
    then (err producer_closed, c)
    else if ltb_ℤ (pos (length c.queue)) c.opts.queue_capacity && not (is_done && prefers_done)
    then (ok tt, record c { queue = c.queue ++ r ∷ []; queued = c.queued ++ r ∷ [] })
    else (err (if is_done then cancelled else queue_full), c)

-- A call of HandleIncomingMessageAt, with the clock and the context that it meets.
pub record Call : Type 0 where
  pub now : ℤ
  pub ticket : ℕ
  pub room_id : String
  pub sender_id : ℤ
  pub content : String
  pub client_msg_id : String
  pub arrived : ℤ
  pub is_done : Bool
  pub prefers_done : Bool

abbrev pub admit_built :
    MessageClient → Call → Result Error ProduceRequest → Result Error (Unit {0}) × MessageClient
admit_built c call (ok r) = admit c r call.is_done call.prefers_done
admit_built c call (err e) = (err e, c)

abbrev pub built : Codec → (String → Bytes) → BatchOptions → Call → Result Error ProduceRequest
built codec to_bytes opts call =
    build_request codec to_bytes opts call.now call.ticket call.room_id call.sender_id call.content
      call.client_msg_id call.arrived

-- Up to the wait for the result, which `answered` holds.
unfoldable pub handle_incoming_message_at :
    Codec → (String → Bytes) → MessageClient → Call → Result Error (Unit {0}) × MessageClient
handle_incoming_message_at codec to_bytes c call =
    admit_built c call (built codec to_bytes c.opts call)

-- What a `select` of the goroutine takes: the next request, the timer, the stop signal; and how a
-- write ends.
pub data Choice : Type 0 where
  take_next timer_fires see_stop : Choice
  write_ends : Bool → Choice

abbrev pub request_size : ProduceRequest → ℕ
request_size r = size r.message

abbrev pub batch_bytes : List ProduceRequest → ℕ
batch_bytes = total request_size

-- The condition of the loop `collect`.
unfoldable pub has_room : BatchOptions → List ProduceRequest → Bool
has_room opts batch =
    ltb_ℤ (pos (length batch)) opts.max_messages && ltb_ℤ (pos (batch_bytes batch)) opts.max_bytes

abbrev pub open_batch : MessageClient → ProduceRequest → MessageClient
open_batch c r = record c { phase = collecting; batch = r ∷ [] }

abbrev pub signalled : MessageClient → MessageClient
signalled c = if c.closed then record c { stopping = true } else c

-- The `select`s at the head of the outer loop.
abbrev pub first_of :
    MessageClient → Option ProduceRequest → List ProduceRequest → Choice → MessageClient
first_of c (some r) queue choice = open_batch (record c { pending = none }) r
first_of c none [] see_stop = if c.stopping then record c { phase = exited } else signalled c
first_of c none [] _ = if c.stopping then record c { phase = exited } else c
first_of c none (r ∷ rest) take_next = open_batch (record c { queue = rest }) r
first_of c none (r ∷ rest) see_stop =
    if c.stopping then open_batch (record c { queue = rest }) r else signalled c
first_of c none (r ∷ rest) _ = if c.stopping then open_batch (record c { queue = rest }) r else c

-- A request that was taken joins the batch, or waits for the next one.
abbrev pub join_batch : MessageClient → ProduceRequest → List ProduceRequest → MessageClient
join_batch c r rest =
    if ltb_ℤ c.opts.max_bytes (pos (batch_bytes c.batch + request_size r))
    then record c { queue = rest; pending = some r; phase = writing }
    else record c { queue = rest; batch = c.batch ++ r ∷ [] }

abbrev pub collect_next : MessageClient → List ProduceRequest → Choice → MessageClient
collect_next c [] timer_fires = record c { phase = writing }
collect_next c [] see_stop = if c.stopping then record c { phase = writing } else signalled c
collect_next c [] _ = if c.stopping then record c { phase = writing } else c
collect_next c (r ∷ rest) take_next = join_batch c r rest
collect_next c (r ∷ rest) timer_fires =
    if c.stopping then join_batch c r rest else record c { phase = writing }
collect_next c (r ∷ rest) see_stop = if c.stopping then join_batch c r rest else signalled c
collect_next c (r ∷ rest) _ = if c.stopping then join_batch c r rest else c

abbrev pub finish_write : MessageClient → Choice → MessageClient
finish_write c (write_ends acked) = record c {
  phase = idle;
  batch = [];
  written = c.written ++ (c.batch, acked) ∷ [];
  answered = c.answered ++ map (λ r. (r, acked)) c.batch;
}
finish_write c _ = c

abbrev pub step_in : Phase → MessageClient → Choice → MessageClient
step_in idle c choice = first_of c c.pending c.queue choice
step_in collecting c choice =
    if has_room c.opts c.batch then collect_next c c.queue choice else record c { phase = writing }
step_in writing c choice = finish_write c choice
step_in exited c choice = c

-- One step of `run`.
unfoldable pub step : MessageClient → Choice → MessageClient
step c choice = step_in c.phase c choice

unfoldable pub close : MessageClient → MessageClient
close c = record c { closed = true }

pub data Event : Type 0 where
  calls : Call → Event
  steps : Choice → Event
  closes : Event

-- The callers, the goroutine and Close in any interleaving.
unfoldable pub run : Codec → (String → Bytes) → List Event → MessageClient → MessageClient
run codec to_bytes [] c = c
run codec to_bytes (calls call ∷ events) c =
    run codec to_bytes events (handle_incoming_message_at codec to_bytes c call).1
run codec to_bytes (steps choice ∷ events) c = run codec to_bytes events (step c choice)
run codec to_bytes (closes ∷ events) c = run codec to_bytes events (close c)
