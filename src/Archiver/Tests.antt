-- ===== src/Archiver/Tests.antt =====
-- A run of the archiver (services/messages/archiver/worker-kafka.go).
use lan_sync.Prelude.{◌≡◌, refl, List, [], ◌∷◌, none, some, true, false}
use lan_sync.Prelude.Int.{pos, wrap8}
use lan_sync.Events.{ChatMessage, Codec, unmarshal}
use lan_sync.Consumer.{KafkaMessage}
use lan_sync.Pipeline.Numbered.{acked}
use lan_sync.Archiver.{Flush, Pass, start, run, work, flush, push_latest}
use lan_sync.Archiver.Cursor.{Safe, messages}
use lan_sync.Archiver.Passes.{run-Safe, run-exited}

abbrev chat : ChatMessage
chat = record {
  room_id = pos 7;
  sender_id = pos 1;
  client_msg_id = "a1";
  kind = pos 1;
  content = "hello";
  created_at_ns = pos 5;
  message_id = pos 4096;
  room_seq = pos 1;
}

abbrev codec : Codec
codec = record {
  proto_marshal = λ m. none;
  proto_unmarshal = λ b. some chat;
  json_unmarshal = λ b. none;
  parse_int = λ s. none;
}

abbrev topic : List KafkaMessage
topic =
    (record { key = []; value = 1 ∷ []; offset = pos 10 })
    ∷ (record { key = []; value = 2 ∷ []; offset = pos 11 })
    ∷ []

abbrev good : Flush
good = record { saves = true; sets_cursor = true }

abbrev reading : Pass
reading = record {
  cancelled = false;
  ticked = true;
  reads = true;
  now = pos 1;
  tick_flush = good;
  full_flush = good;
}

abbrev passes : List Pass
passes = reading ∷ reading ∷ (record reading { cancelled = true }) ∷ []

last_cursor : (run codec passes (start topic true none)).1.cursor ≡ some (pos 11)
unfolding run work flush push_latest unmarshal wrap8
last_cursor = refl

Safe_example : Safe topic none (run codec passes (start topic true none)).1
Safe_example = run-Safe codec topic true none passes

exited_example :
    let w = (run codec passes (start topic true none)).1 in acked w.attempts ≡ messages w.accepted
unfolding run work flush push_latest unmarshal wrap8
exited_example = run-exited codec topic true none passes refl
