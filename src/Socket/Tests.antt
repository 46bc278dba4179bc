-- ===== src/Socket/Tests.antt =====
-- Runs of the two goroutines of a connection (services/gateway/websocket/client.go).
use lan_sync.Prelude.{
  ℕ, eqb, if◌then◌else◌, ◌≡◌, refl, String, List, [], ◌∷◌, ◌++◌, true, false, Option, none, some,
}
use lan_sync.Prelude.Int
use lan_sync.Prelude.Int.{ℤ, pos}
use lan_sync.Events
use lan_sync.Events.{Bytes, ChatMessage}
use lan_sync.Hub.{OutboundMessage, new_hub_with_shards, unregister}
use lan_sync.Producer.{BatchOptions, ProduceRequest}
use lan_sync.Socket.{
  Payload, Read, ReadPump, WireFrame, WriteEvent, write_pump, new_write_pump, frame_from, flush,
  read_pump,
}
use lan_sync.Socket.Batches.{IsSound, texts}
use lan_sync.Socket.Writing.{payloads, payloads_read, write_pump-frames, write_pump-read}
use lan_sync.Socket.Reading.{accepted, has_failed, incoming_of, read_pump-handed}

abbrev message : ℕ → OutboundMessage
message b = record { payload = b ∷ b ∷ []; gateway_arrived_at = pos 0 }

abbrev events : List WriteEvent
events =
    WriteEvent.takes (message 1) true (pos 1)
    ∷ WriteEvent.takes (message 2) true (pos 1)
    ∷ WriteEvent.ping_fires true
    ∷ WriteEvent.flush_fires true (pos 2)
    ∷ WriteEvent.takes (message 3) true (pos 3)
    ∷ WriteEvent.send_closed true (pos 4)
    ∷ WriteEvent.takes (message 4) true (pos 5)
    ∷ []

write_example :
    (write_pump true events new_write_pump).sent
    ≡ WireFrame.ping
      ∷ WireFrame.text (1 ∷ 1 ∷ 10 ∷ 2 ∷ 2 ∷ [])
      ∷ WireFrame.text (3 ∷ 3 ∷ [])
      ∷ WireFrame.close_message
      ∷ []
unfolding write_pump frame_from flush
write_example = refl

frames_example : IsSound (write_pump true events new_write_pump)
frames_example = write_pump-frames true events

read_example :
    payloads_read (texts (write_pump true events new_write_pump).sent)
      ++ payloads (write_pump true events new_write_pump).batch
    ≡ payloads (write_pump true events new_write_pump).received
unfolding write_pump frame_from flush
read_example =
    write_pump-read true events ((refl, (refl, tt)), ((refl, (refl, tt)), ((refl, (refl, tt)), tt)))

abbrev payload : Payload
payload = record { room_id = pos 7; content = "hello"; client_msg_id = "a1" }

-- The empty frame does not decode.
abbrev decode : Bytes → Option Payload
decode [] = none
decode (b ∷ bs) = some (if eqb b 1 then payload else record payload { client_msg_id = "" })

abbrev seven : ℤ → String
seven n = "7"

abbrev start : ReadPump
start = record {
  last_read_at = pos 0;
  handed = [];
  running = true;
  hub =
      new_hub_with_shards 1
        (λ _. record {
          user_id = pos 1;
          active = true;
          room_ids = [];
          send = [];
          capacity = 1;
          send_closed = false;
        })
        1 1;
}

abbrev reads : List Read
reads =
    Read.reads [] (pos 1)
    ∷ Read.reads (1 ∷ []) (pos 2)
    ∷ Read.reads (2 ∷ []) (pos 3)
    ∷ Read.read_fails
    ∷ Read.reads (1 ∷ []) (pos 4)
    ∷ []

handed_example :
    ((read_pump decode seven (pos 1) 0 reads start).handed
      ≡ incoming_of decode seven (pos 1) (pos 2) payload ∷ [])
    × ((read_pump decode seven (pos 1) 0 reads start).running ≡ false)
    × ((read_pump decode seven (pos 1) 0 reads start).hub ≡ unregister start.hub 0)
unfolding accepted has_failed read_pump
handed_example = read_pump-handed decode seven (pos 1) 0 reads start refl

abbrev held : ChatMessage
held = record {
  room_id = pos 7;
  sender_id = pos 1;
  client_msg_id = "a1";
  kind = pos 1;
  content = "hello";
  created_at_ns = pos 1750000001000000000;
  message_id = pos 0;
  room_seq = pos 0;
}

abbrev built_message : ProduceRequest
built_message = record {
  message = record { key = 55 ∷ []; value = 1 ∷ []; offset = pos 0 };
  ticket = 0;
}

abbrev options : BatchOptions
options = record {
  max_messages = pos 1;
  max_bytes = pos 5;
  max_wait = pos 0;
  queue_capacity = pos 2;
  write_timeout = pos 0;
}
