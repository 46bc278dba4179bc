-- ===== src/Sequencer.antt =====
-- services/messages/sequencer/sequencer.go: the in-memory numbering of room messages.
-- The mutex makes `Assign` one atomic step, so concurrent callers are a sequence of calls. A call
-- takes the value of time.Now().UnixMilli() as an argument. 64-bit arithmetic wraps around.
pub mod Numbering
pub mod History
mod Tests
use Prim.Native.String.{len}
use lan_sync.Prelude.{
  ℕ, String, Bool, true, false, Option, none, some, List, [], ◌∷◌, ◌||◌, not, if◌then◌else◌, ◌==◌,
  string_eq, pair_eq, ltb,
}
use lan_sync.Prelude.Int.{ℤ, pos, ◌+ℤ◌, ◌-ℤ◌, scale, leb_ℤ, wrap64, int_eq}
use lan_sync.Prelude.Assoc.{Assoc, lookup, insert}
use lan_sync.Prelude.Result.{Result, ok, err}
use lan_sync.Events.{MessageEnvelope}

-- requestKey: the sender and the client's message id.
abbrev pub RequestKey : Type 0
RequestKey = ℤ × String

pub record Sequencer : Type 0 where
  pub rooms : Assoc ℤ ℤ
  pub requests : Assoc RequestKey MessageEnvelope
  pub last_id : ℤ

pub data Error : Type 0 where
  invalid_identity conflicting_retry : Error

abbrev pub new : Sequencer
new = record { rooms = []; requests = []; last_id = pos 0 }

abbrev pub key_of : MessageEnvelope → RequestKey
key_of input = (input.sender_id, input.client_msg_id)

-- The guard at the head of `Assign`.
unfoldable pub is_invalid : MessageEnvelope → Bool
is_invalid input =
    leb_ℤ input.room_id (pos 0)
    || leb_ℤ input.sender_id (pos 0)
    || input.client_msg_id == ""
    || ltb 64 (len input.client_msg_id)

-- A repeated request must ask for the same message.
unfoldable pub is_conflict : MessageEnvelope → MessageEnvelope → Bool
is_conflict old input =
    not (old.room_id == input.room_id)
    || not (old.content == input.content)
    || not (old.kind == input.kind)

-- `(time.Now().UnixMilli() - 1750000000000) << 12`, or the last id and 1 where that is not larger.
unfoldable pub next_id : ℤ → ℤ → ℤ
next_id now_ms last =
    let id = wrap64 (scale (now_ms -ℤ pos 1750000000000) 4096) in
    if leb_ℤ id last then wrap64 (last +ℤ pos 1) else id

-- `s.rooms[roomID]`, which is 0 for a room that is not in the map.
unfoldable pub room_counter : Assoc ℤ ℤ → ℤ → ℤ
room_counter rooms r = elim (lookup r rooms) [ none ↦ pos 0 | some n ↦ n ]

unfoldable pub number : ℤ → Sequencer → MessageEnvelope → MessageEnvelope
unfolding next_id room_counter
number now_ms s input = record input {
  message_id = next_id now_ms s.last_id;
  room_seq = wrap64 (room_counter s.rooms input.room_id +ℤ pos 1);
}

-- The state after a message `m` has been numbered.
unfoldable pub record_message : Sequencer → MessageEnvelope → Sequencer
record_message s m = record {
  rooms = insert m.room_id m.room_seq s.rooms;
  requests = insert (key_of m) m s.requests;
  last_id = m.message_id;
}

abbrev pub answer :
    ℤ
    → Sequencer
    → MessageEnvelope
    → Option MessageEnvelope
    → Result Error MessageEnvelope × Sequencer
answer now_ms s input (some old) =
    (if is_conflict old input then err conflicting_retry else ok old, s)
answer now_ms s input none = let m = number now_ms s input in (ok m, record_message s m)

unfoldable pub assign : ℤ → Sequencer → MessageEnvelope → Result Error MessageEnvelope × Sequencer
unfolding is_invalid is_conflict number record_message
assign now_ms s input =
    if is_invalid input
    then (err invalid_identity, s)
    else answer now_ms s input (lookup (key_of input) s.requests)

-- A run of calls, each with its clock value; the replies in the order of the calls.
unfoldable pub assign_all :
    Sequencer → List (ℤ × MessageEnvelope) → List (Result Error MessageEnvelope) × Sequencer
assign_all s [] = ([], s)
assign_all s ((now_ms, input) ∷ calls) =
    let (r, s') = assign now_ms s input in let (rs, s'') = assign_all s' calls in (r ∷ rs, s'')
