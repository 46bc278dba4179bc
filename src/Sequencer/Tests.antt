-- ===== src/Sequencer/Tests.antt =====
-- Runs of the sequencer (services/messages/sequencer/sequencer.go).
use lan_sync.Prelude.{◌≡◌, refl, List, [], ◌∷◌, All, length, arith}
use lan_sync.Prelude.Int.{ℤ, pos, wrap64}
use lan_sync.Prelude.Assoc.{lookup, insert}
use lan_sync.Prelude.Result.{ok, err}
use lan_sync.Events.{MessageEnvelope}
use lan_sync.Sequencer.{
  Error, new, assign, assign_all, is_invalid, is_conflict, next_id, number, record_message,
  room_counter,
}
use lan_sync.Sequencer.Numbering.{IsClock, after, reply, reply-repeated, reply-conflict}
use lan_sync.Sequencer.History.{
  history, in_room, seqs, upto, Ascending, assign_all-gap_free, assign_all-Ascending,
}

abbrev input : ℤ → ℤ → ℤ → MessageEnvelope
input room sender created = record {
  message_id = pos 0;
  room_seq = pos 0;
  room_id = room;
  sender_id = sender;
  client_msg_id = "a1";
  kind = pos 1;
  content = "hello";
  created_at = created;
}

abbrev now : ℤ
now = pos 1750000001000

-- The clock goes back before the third call, the fourth repeats the first, the last is invalid.
abbrev calls : List (ℤ × MessageEnvelope)
calls =
    (now, input (pos 7) (pos 1) (pos 0))
    ∷ (now, input (pos 7) (pos 2) (pos 0))
    ∷ (pos 5, input (pos 8) (pos 3) (pos 0))
    ∷ (now, input (pos 7) (pos 1) (pos 9))
    ∷ (now, input (pos 7) (pos 0) (pos 0))
    ∷ []

numbers_of_room : seqs (pos 7) (history (assign_all new calls).1) ≡ pos 1 ∷ pos 2 ∷ []
unfolding assign_all assign is_invalid is_conflict number record_message next_id room_counter lookup
    insert wrap64
numbers_of_room = refl

clocks : All (λ c. IsClock c.0) calls
clocks = (
  (omega arith, omega arith),
  (
    (omega arith, omega arith),
    ((omega arith, omega arith), ((omega arith, omega arith), ((omega arith, omega arith), tt))),
  ),
)

gap_free_example :
    let h = history (assign_all new calls).1 in seqs (pos 7) h ≡ upto (length (in_room (pos 7) h))
gap_free_example = assign_all-gap_free calls (pos 7) clocks (omega arith)

Ascending_example : Ascending (history (assign_all new calls).1)
Ascending_example = assign_all-Ascending calls clocks (omega arith)

abbrev first : MessageEnvelope
first = input (pos 7) (pos 1) (pos 0)

abbrev answer : MessageEnvelope
answer = record first { message_id = pos 4096000; room_seq = pos 1 }

first-reply : reply now new first ≡ ok answer
unfolding assign is_invalid is_conflict number record_message next_id room_counter lookup insert
    wrap64
first-reply = refl

repeated_example :
    let s' = (assign_all (after now new first) calls).1 in
    assign (pos 12) s' first ≡ (ok answer, s')
repeated_example = reply-repeated now (pos 12) new first answer calls first-reply

conflict_example :
    let s' = (assign_all (after now new first) calls).1 in
    assign (pos 12) s' (input (pos 8) (pos 1) (pos 0)) ≡ (err Error.conflicting_retry, s')
unfolding is_invalid is_conflict
conflict_example =
    reply-conflict now (pos 12) new first (input (pos 8) (pos 1) (pos 0)) answer calls first-reply
      refl refl refl
