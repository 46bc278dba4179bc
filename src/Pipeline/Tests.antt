-- ===== src/Pipeline/Tests.antt =====
-- Runs of the sequencer and the relay on a partition (services/messages/sequencer).
use lan_sync.Prelude.{ℕ, ◌≡◌, refl, List, [], ◌∷◌, none, some, false, map, concat, All}
use lan_sync.Prelude.Int.{ℤ, pos, wrap8}
use lan_sync.Prelude.Assoc.{lookup, insert}
use lan_sync.Prelude.Result.{ok}
use lan_sync.Events.{Bytes, ChatMessage, marshal, unmarshal}
use lan_sync.Sequencer.{new, assign}
use lan_sync.Retry.{Attempt, retry}
use lan_sync.Consumer.{
  KafkaMessage, BatchOptions, Poll, Round, consume_batches, consume_loop, consume_round, process,
  collect,
}
use lan_sync.Pipeline.{
  Runtime, Progress, prepare, run_batch, run_batched, relay_batch, relay_batched, relay_messages,
  is_unnumbered,
}
use lan_sync.Pipeline.Numbered.{acked, start_from, run_batched_numbers}
use lan_sync.Pipeline.Published.{new_relayer, relay_batched_publishes}

-- Each byte string is the message of the sender whose id is its first byte.
abbrev sender_of : Bytes → ℕ
sender_of [] = 0
sender_of (b ∷ _) = b

abbrev chat : ℕ → ℤ → ChatMessage
chat sender seq = record {
  room_id = pos 7;
  sender_id = pos sender;
  client_msg_id = "a1";
  kind = pos 1;
  content = "hello";
  created_at_ns = pos 5;
  message_id = seq;
  room_seq = seq;
}

abbrev runtime : ℤ → Runtime
runtime seq = record {
  codec = record {
    proto_marshal = λ m. some (9 ∷ []);
    proto_unmarshal = λ b. some (chat (sender_of b) seq);
    json_unmarshal = λ b. none;
    parse_int = λ s. none;
  };
  clock_ns = λ n. pos 1;
  clock_ms = λ n. pos 1750000001000;
  format_room = λ r. 7 ∷ [];
}

abbrev message : ℕ → KafkaMessage
message sender = record { key = []; value = sender ∷ []; offset = pos sender }

-- Sender 1 sends the same message twice.
abbrev topic : List KafkaMessage
topic = message 1 ∷ message 2 ∷ message 1 ∷ []

abbrev options : BatchOptions
options = record { max_messages = pos 2; max_bytes = pos 100; max_wait = pos 10 }

-- Two batches; the first write of the first one fails.
abbrev rounds : List Round
rounds =
    (record {
      fetch_fails = false;
      polls = Poll.arrives ∷ [];
      cancelled = false;
      handling = Attempt.fails ∷ Attempt.succeeds ∷ [];
      commits = Attempt.succeeds ∷ [];
    })
    ∷ (record {
      fetch_fails = false;
      polls = [];
      cancelled = false;
      handling = Attempt.succeeds ∷ [];
      commits = Attempt.succeeds ∷ [];
    })
    ∷ []

abbrev progress : Progress
progress = record { sequencer = new; processed = 0 }

numbers_example :
    let c =
      (run_batched
        (runtime (pos 0))
        options
        topic
        (start_from (runtime (pos 0)) progress)
        rounds).1 in
    prepare (runtime (pos 0)) (concat c.handled) progress
    ≡ (ok (acked c.handler.attempts), c.handler.progress)
unfolding consume_batches consume_loop consume_round process collect retry run_batch prepare
    unmarshal assign lookup marshal insert wrap8
numbers_example = run_batched_numbers (runtime (pos 0)) options topic progress rounds refl

publishes_example :
    let c = (relay_batched (runtime (pos 3)) options topic new_relayer rounds).1 in
    (map (λ m. m.value) (acked c.handler.published) ≡ map (λ r. r.value) (concat c.handled))
    × All (λ m. is_unnumbered (runtime (pos 3)) m.message ≡ false) (acked c.handler.published)
unfolding consume_batches consume_loop consume_round process collect retry relay_batch
    relay_messages unmarshal
publishes_example = relay_batched_publishes (runtime (pos 3)) options topic rounds refl
