-- ===== src/Events/OneMessage.antt =====
-- A codec that can hold one given message, to show that the laws of `IsProtobuf` can hold.
use lan_sync.Prelude.{
  ◌≡◌, ◌≢◌, refl, sym, String, [], ◌∷◌, Option, none, some, arith, if◌then◌else◌, Bool, true, false,
  ◌&&◌, ◌==◌, string_eq, eq_of, ap,
}
use lan_sync.Prelude.Int.{ℤ, int_eq}
use lan_sync.Events.{Bytes, ChatMessage, Codec}
use lan_sync.Events.RoundTrip.{IsProtobuf}

abbrev is_same : ChatMessage → ChatMessage → Bool
is_same m n =
    m.room_id == n.room_id
    && m.sender_id == n.sender_id
    && m.client_msg_id == n.client_msg_id
    && m.kind == n.kind
    && m.content == n.content
    && m.created_at_ns == n.created_at_ns
    && m.message_id == n.message_id
    && m.room_seq == n.room_seq

is_same_lem : (m n : ChatMessage) → is_same m n ≡ true → m ≡ n
is_same_lem m n h = ground (
  arith,
  eq_of m.room_id n.room_id,
  eq_of m.sender_id n.sender_id,
  eq_of m.client_msg_id n.client_msg_id,
  eq_of m.kind n.kind,
  eq_of m.content n.content,
  eq_of m.created_at_ns n.created_at_ns,
  eq_of m.message_id n.message_id,
  eq_of m.room_seq n.room_seq,
)

abbrev one_byte : Bool → Option Bytes
one_byte b = if b then some (1 ∷ []) else none

one_byte-eq-some : (b : Bool) (x : Bytes) → one_byte b ≡ some x → b ≡ true
one_byte-eq-some true x h = refl
one_byte-eq-some false x h = cc h

one_byte-ne-empty : (b : Bool) → one_byte b ≢ some []
one_byte-ne-empty true h = cc h
one_byte-ne-empty false h = cc h

module _ (held : ChatMessage) (parse_int : String → Option ℤ) where
  abbrev pub codec_of : Codec
  codec_of = record {
    proto_marshal = λ m. one_byte (is_same m held);
    proto_unmarshal = λ b. some held;
    json_unmarshal = λ b. none;
    parse_int = parse_int;
  }

  pub codec_of-IsProtobuf : IsProtobuf codec_of
  codec_of-IsProtobuf = record {
    decodes = λ m b h. ap some (sym (is_same_lem m held (one_byte-eq-some (is_same m held) b h)));
    nonempty = λ m h. absurd (one_byte-ne-empty (is_same m held) h);
  }
