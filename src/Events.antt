-- ===== src/Events.antt =====
-- contracts/events/message.go: the message envelope and its two wire formats.
-- proto.Marshal, proto.Unmarshal, json.Unmarshal and strconv.ParseInt are not part of the
-- repository: they are the fields of `Codec`. An instant is its distance from 1970 in nanoseconds.
pub mod RoundTrip
pub mod OneMessage
mod Tests
use lan_sync.Prelude.{
  ℕ, ◌*◌, ◌-◌, ◌<◌, String, Bool, true, false, Option, none, some, List, [], ◌∷◌, if◌then◌else◌,
  ◌==◌, ◌≡◌, string_eq,
}
use lan_sync.Prelude.Int.{ℤ, pos, negsuc, ltb_ℤ, wrap64, wrap8, int_eq, int_beq}
use lan_sync.Prelude.Result.{Result, ok, err, ◌>>=◌, or_fail}

abbrev pub Bytes : Type 0
Bytes = List ℕ

-- `time.Time{}`, the first instant of the year 1.
abbrev pub zero_time : ℤ
zero_time = negsuc (62135596800 * 1000000000 - 1)

-- `t.UnixNano()`
abbrev pub unix_nano : ℤ → ℤ
unix_nano t = wrap64 t

pub record MessageEnvelope : Type 0 where
  pub message_id : ℤ
  pub room_seq : ℤ
  pub room_id : ℤ
  pub sender_id : ℤ
  pub client_msg_id : String
  pub kind : ℤ  -- Type int8
  pub content : String
  pub created_at : ℤ

-- imv1.ChatMessage of proto/im/v1, the fields that the program sets and reads.
pub record ChatMessage : Type 0 where
  pub room_id : ℤ
  pub sender_id : ℤ
  pub client_msg_id : String
  pub kind : ℤ  -- int32
  pub content : String
  pub created_at_ns : ℤ
  pub message_id : ℤ
  pub room_seq : ℤ

pub record LegacyMessage : Type 0 where
  pub room_id : String
  pub sender_id : ℤ
  pub content : String
  pub client_msg_id : String
  pub timestamp : ℤ

pub record Codec : Type 0 where
  pub proto_marshal : ChatMessage → Option Bytes
  pub proto_unmarshal : Bytes → Option ChatMessage
  pub json_unmarshal : Bytes → Option LegacyMessage
  pub parse_int : String → Option ℤ

pub data Error : Type 0 where
  empty_payload unsupported_payload codec_error missing_room_id invalid_room_id : Error

unfoldable pub chat_message : MessageEnvelope → ChatMessage
chat_message msg =
    let created_at_ns = unix_nano msg.created_at in
    record {
      room_id = msg.room_id;
      sender_id = msg.sender_id;
      client_msg_id = msg.client_msg_id;
      kind = msg.kind;
      content = msg.content;
      created_at_ns = if ltb_ℤ created_at_ns (pos 0) then pos 0 else created_at_ns;
      message_id = msg.message_id;
      room_seq = msg.room_seq;
    }

-- `if msgType == 0 { msgType = 1 }`
abbrev pub default_kind : ℤ → ℤ
default_kind k = if int_beq k (pos 0) then pos 1 else k

-- `now` is the value of time.Now() at the call.
unfoldable pub envelope : ℤ → ChatMessage → MessageEnvelope
envelope now msg = record {
  message_id = msg.message_id;
  room_seq = msg.room_seq;
  room_id = msg.room_id;
  sender_id = msg.sender_id;
  client_msg_id = msg.client_msg_id;
  kind = wrap8 (default_kind msg.kind);
  content = msg.content;
  created_at = if ltb_ℤ (pos 0) msg.created_at_ns then msg.created_at_ns else now;
}

unfoldable pub legacy_envelope : ℤ → LegacyMessage → ℤ → MessageEnvelope
legacy_envelope now raw room_id = record {
  message_id = pos 0;
  room_seq = pos 0;
  room_id = room_id;
  sender_id = raw.sender_id;
  client_msg_id = raw.client_msg_id;
  kind = pos 1;
  content = raw.content;
  created_at = if ltb_ℤ (pos 0) raw.timestamp then raw.timestamp else now;
}

module _ (c : Codec) where
  unfoldable pub marshal : MessageEnvelope → Result Error Bytes
  unfolding chat_message
  marshal msg = or_fail (c.proto_marshal (chat_message msg)) codec_error

  unfoldable pub unmarshal_proto : ℤ → Bytes → Result Error MessageEnvelope
  unfolding envelope
  unmarshal_proto now payload = do
    msg ← or_fail (c.proto_unmarshal payload) codec_error
    ok (envelope now msg)

  unfoldable pub unmarshal_legacy_json : ℤ → Bytes → Result Error MessageEnvelope
  unfolding legacy_envelope
  unmarshal_legacy_json now payload = do
    raw ← or_fail (c.json_unmarshal payload) codec_error
    if raw.room_id == "" then err missing_room_id else do
      room_id ← or_fail (c.parse_int raw.room_id) invalid_room_id
      ok (legacy_envelope now raw room_id)

  -- The first decoder that accepts the payload decides.
  abbrev first_ok :
      Result Error MessageEnvelope → Result Error MessageEnvelope → Result Error MessageEnvelope
  first_ok (ok a) other = ok a
  first_ok (err _) (ok a) = ok a
  first_ok (err _) (err _) = err unsupported_payload

  unfoldable pub unmarshal : ℤ → Bytes → Result Error MessageEnvelope
  unfolding unmarshal_proto unmarshal_legacy_json
  unmarshal now [] = err empty_payload
  unmarshal now (b ∷ bs) =
      first_ok (unmarshal_proto now (b ∷ bs)) (unmarshal_legacy_json now (b ∷ bs))
