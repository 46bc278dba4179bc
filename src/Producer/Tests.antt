-- ===== src/Producer/Tests.antt =====
-- Runs of the producer (services/messages/producer/producer-kafka.go).
use lan_sync.Prelude.{◌≡◌, refl, String, List, [], ◌∷◌, map, Bool, true, false, Option, some, arith}
use lan_sync.Prelude.Int.{ℤ, pos}
use lan_sync.Events
use lan_sync.Prelude.Int
use lan_sync.Events.{Bytes, ChatMessage}
use lan_sync.Events.OneMessage.{codec_of}
use lan_sync.Producer.{
  BatchOptions, Phase, MessageClient, Choice, Call, Event, build_request,
  handle_incoming_message_at, admit, run, step, close, has_room, new_message_client,
  normalized_options,
}
use lan_sync.Producer.Sound.{IsSound}
use lan_sync.Producer.Answers.{run-answers}
use lan_sync.Producer.Drain.{drain, firsts, drain-answers}

abbrev held : ChatMessage
held = record {
  room_id = pos 7;
  sender_id = pos 1;
  client_msg_id = "a1";
  kind = pos 1;
  content = "hello";
  created_at_ns = pos 1750000001000000000;
  message_id = pos 0;
  room_seq = pos 0;
}

abbrev parse : String → Option ℤ
parse s = some (pos 7)

abbrev to_bytes : String → Bytes
to_bytes s = 55 ∷ []

abbrev call : Call
call = record {
  now = pos 1;
  ticket = 0;
  room_id = "7";
  sender_id = pos 1;
  content = "hello";
  client_msg_id = "a1";
  arrived = pos 1750000001000000000;
  is_done = false;
  prefers_done = false;
}

-- A batch of at most one request, and a queue of two.
abbrev options : BatchOptions
options = record {
  max_messages = pos 1;
  max_bytes = pos 5;
  max_wait = pos 0;
  queue_capacity = pos 2;
  write_timeout = pos 0;
}

abbrev events : List Event
events =
    Event.calls call
    ∷ Event.steps Choice.take_next
    ∷ Event.calls (record call { ticket = 1 })
    ∷ Event.closes
    ∷ Event.steps Choice.see_stop
    ∷ Event.steps (Choice.write_ends true)
    ∷ Event.steps Choice.see_stop
    ∷ []

abbrev finished : MessageClient → List (ℤ × Bool)
finished c = map (λ a. (pos a.0.ticket, a.1)) c.answered

run_example :
    finished (
      drain
        ((Choice.take_next, false) ∷ (Choice.take_next, false) ∷ (Choice.take_next, false) ∷ [])
        (run (codec_of held parse) to_bytes events (new_message_client options)))
    ≡ (pos 0, true) ∷ (pos 1, false) ∷ []
unfolding run handle_incoming_message_at build_request admit step close drain has_room
    new_message_client normalized_options Events.marshal Events.chat_message Int.wrap64
run_example = refl

run-answers_example :
    IsSound (run (codec_of held parse) to_bytes events (new_message_client options))
run-answers_example = run-answers (codec_of held parse) to_bytes options events

abbrev rounds : List (Choice × Bool)
rounds =
    (Choice.take_next, false)
    ∷ (Choice.timer_fires, true)
    ∷ (Choice.see_stop, false)
    ∷ (Choice.take_next, true)
    ∷ (Choice.take_next, true)
    ∷ (Choice.take_next, true)
    ∷ []

drain-answers_example :
    ((drain rounds (run (codec_of held parse) to_bytes events (new_message_client options))).phase
      ≡ Phase.exited)
    × (firsts
          (drain rounds
            (run (codec_of held parse) to_bytes events (new_message_client options))).answered
        ≡ (run (codec_of held parse) to_bytes events (new_message_client options)).queued)
unfolding run handle_incoming_message_at build_request admit step close has_room new_message_client
    normalized_options Events.marshal Events.chat_message Int.wrap64
drain-answers_example =
    drain-answers (codec_of held parse) to_bytes options events rounds refl (omega arith)
