-- ===== src/Socket.antt =====
-- services/gateway/websocket/client.go: the two goroutines of a connection. ReadPump hands what the client
-- sends to the producer; WritePump gathers what the hub queued for the client into frames. An event is
-- what a read, or a `select`, has found, with the outcome of the write that it leads to. The
-- websocket, encoding/json and strconv.FormatInt are parameters; metrics, deadlines and the renewal of the
-- user's entry in Redis are left out.
pub mod Frames
pub mod Batches
pub mod Writing
pub mod Reading
mod Tests
use lan_sync.Prelude.{
  ℕ, ◌+◌, ◌*◌, String, Bool, true, false, Option, none, some, List, [], ◌∷◌, ◌++◌, ◌||◌, length,
  leb, eqb, if◌then◌else◌, ◌==◌, string_eq,
}
use lan_sync.Prelude.Int.{ℤ, pos}
use lan_sync.Events.{Bytes}
use lan_sync.Hub
use lan_sync.Hub.{Hub, OutboundMessage}

-- `raw` is the variable WS_HEARTBEAT_ENABLED, and `parse_bool` is strconv.ParseBool.
abbrev pub parsed_or_on : Option Bool → Bool
parsed_or_on none = true
parsed_or_on (some enabled) = enabled

unfoldable pub heartbeat_enabled : (String → Option Bool) → Option String → Bool
heartbeat_enabled parse_bool none = true
heartbeat_enabled parse_bool (some raw) = if raw == "" then true else parsed_or_on (parse_bool raw)

abbrev pub write_batch_max_messages : ℕ
write_batch_max_messages = 64

abbrev pub write_batch_max_bytes : ℕ
write_batch_max_bytes = 64 * 1024

pub data WireFrame : Type 0 where
  text : Bytes → WireFrame
  ping close_message : WireFrame

-- The variables of WritePump. `armed` tells whether flushC is set. The last three fields record what
-- has happened: the messages taken from Send, the batches that were written, and the frames.
pub record WritePump : Type 0 where
  pub batch : List OutboundMessage
  pub batch_bytes : ℕ
  pub armed : Bool
  pub running : Bool
  pub last_write_at : ℤ
  pub received : List OutboundMessage
  pub written : List (List OutboundMessage)
  pub sent : List WireFrame

abbrev pub new_write_pump : WritePump
new_write_pump = record {
  batch = [];
  batch_bytes = 0;
  armed = false;
  running = true;
  last_write_at = pos 0;
  received = [];
  written = [];
  sent = [];
}

-- The loop over the batch; `first` is `i == 0`.
unfoldable pub frame_from : Bool → List OutboundMessage → Bytes
frame_from first [] = []
frame_from true (m ∷ ms) = m.payload ++ frame_from false ms
frame_from false (m ∷ ms) = 10 ∷ (m.payload ++ frame_from false ms)

-- The closure flush; `none` is an error of the websocket.
abbrev pub flush_batch_of : List OutboundMessage → Bool → ℤ → WritePump → Option WritePump
flush_batch_of [] writes now w = some w
flush_batch_of (m ∷ ms) false now w = none
flush_batch_of (m ∷ ms) true now w = some (record w {
  batch = [];
  batch_bytes = 0;
  last_write_at = now;
  written = w.written ++ (m ∷ ms) ∷ [];
  sent = w.sent ++ text (frame_from true (m ∷ ms)) ∷ [];
})

unfoldable pub flush : Bool → ℤ → WritePump → Option WritePump
flush writes now w = flush_batch_of w.batch writes now w

abbrev pub or_stop : WritePump → Option WritePump → WritePump
or_stop w none = record w { running = false }
or_stop w (some v) = v

-- What follows the last flush where Send is closed.
abbrev pub close_after : WritePump → Option WritePump → WritePump
close_after w none = record w { running = false }
close_after w (some v) = record v { running = false; sent = v.sent ++ close_message ∷ [] }

pub data WriteEvent : Type 0 where
  takes : OutboundMessage → Bool → ℤ → WriteEvent
  send_closed : Bool → ℤ → WriteEvent
  flush_fires : Bool → ℤ → WriteEvent
  ping_fires : Bool → WriteEvent

abbrev pub append_message : WritePump → OutboundMessage → WritePump
append_message w m = record w {
  batch = w.batch ++ m ∷ [];
  batch_bytes = w.batch_bytes + length m.payload;
  armed = if eqb (length (w.batch ++ m ∷ [])) 1 then true else w.armed;
  received = w.received ++ m ∷ [];
}

abbrev pub is_full : WritePump → Bool
is_full w = leb write_batch_max_messages (length w.batch) || leb write_batch_max_bytes w.batch_bytes

abbrev pub disarm : WritePump → WritePump
disarm w = record w { armed = false }

abbrev pub on_message : WritePump → Bool → ℤ → WritePump
unfolding flush
on_message w writes now = if is_full w then or_stop (disarm w) (flush writes now (disarm w)) else w

-- One `select`. The timers fire only where they are set.
abbrev pub write_event : Bool → WritePump → WriteEvent → WritePump
unfolding flush
write_event heartbeat w (takes m writes now) = on_message (append_message w m) writes now
write_event heartbeat w (send_closed writes now) =
    close_after (disarm w) (flush writes now (disarm w))
write_event heartbeat w (flush_fires writes now) =
    if w.armed then or_stop (disarm w) (flush writes now (disarm w)) else w
write_event true w (ping_fires true) = record w { sent = w.sent ++ ping ∷ [] }
write_event true w (ping_fires false) = record w { running = false }
write_event false w (ping_fires _) = w

unfoldable pub write_pump : Bool → List WriteEvent → WritePump → WritePump
write_pump heartbeat [] w = w
write_pump heartbeat (event ∷ events) w =
    write_pump heartbeat events (if w.running then write_event heartbeat w event else w)

-- The JSON object that a client sends.
pub record Payload : Type 0 where
  pub room_id : ℤ
  pub content : String
  pub client_msg_id : String

-- The arguments of HandleIncomingMessageAt.
pub record Incoming : Type 0 where
  pub room_id : String
  pub sender_id : ℤ
  pub content : String
  pub client_msg_id : String
  pub arrived_at : ℤ

pub data Read : Type 0 where
  reads : Bytes → ℤ → Read
  read_fails : Read

-- The variables of ReadPump: the messages handed over, whose errors are only logged, and the hub.
pub record ReadPump : Type 0 where
  pub last_read_at : ℤ
  pub handed : List Incoming
  pub running : Bool
  pub hub : Hub

module _ (decode : Bytes → Option Payload) (format_int : ℤ → String) (user_id : ℤ) where
  abbrev pub hand_over : ReadPump → ℤ → Option Payload → ReadPump
  hand_over p arrived none = p
  hand_over p arrived (some payload) = if payload.client_msg_id == "" then p else record p {
    handed =
        p.handed
        ++ record {
          room_id = format_int payload.room_id;
          sender_id = user_id;
          content = payload.content;
          client_msg_id = payload.client_msg_id;
          arrived_at = arrived;
        }
          ∷ [];
  }

  -- `client` is the client's place in the hub's heap.
  unfoldable pub read_pump : ℕ → List Read → ReadPump → ReadPump
  read_pump client [] p = p
  read_pump client (reads message arrived ∷ rest) p =
      read_pump client rest
        (hand_over (record p { last_read_at = arrived }) arrived (decode message))
  read_pump client (read_fails ∷ rest) p = record p {
    running = false;
    hub = Hub.unregister p.hub client;
  }
