-- ===== src/Events/RoundTrip.antt =====
-- What survives a trip over the wire (contracts/events/message.go).
use lan_sync.Prelude.{◌≡◌, ◌≢◌, some, ap, [], ◌∷◌, arith, if◌then◌else◌}
use lan_sync.Prelude.Int.{ℤ, pos, ltb_ℤ, FitsInt64, FitsInt8, wrap64-id, wrap8-id, int_eq}
use lan_sync.Prelude.Result.{ok, or_fail-eq-ok}
use lan_sync.Events.{
  Bytes, MessageEnvelope, ChatMessage, Codec, default_kind, chat_message, envelope, marshal,
  unmarshal, unmarshal_proto, codec_error,
}

-- What protobuf documents of its binary format: decoding gives back what was encoded, and only a
-- message whose fields are all at their defaults is encoded by no byte.
pub record IsProtobuf (c : Codec) : Type 0 where
  pub decodes :
      (m : ChatMessage) (b : Bytes) → c.proto_marshal m ≡ some b → c.proto_unmarshal b ≡ some m
  pub nonempty : (m : ChatMessage) → c.proto_marshal m ≡ some [] → m.room_id ≡ pos 0

-- The envelope that a reader sees: type 0 reads as 1, and an instant up to 1970 as the present.
abbrev pub delivered : ℤ → MessageEnvelope → MessageEnvelope
delivered now m = record m {
  kind = default_kind m.kind;
  created_at = if ltb_ℤ (pos 0) m.created_at then m.created_at else now;
}

envelope-chat_message :
    (now : ℤ) (m : MessageEnvelope)
    → FitsInt8 m.kind
    → FitsInt64 m.created_at
    → envelope now (chat_message m) ≡ delivered now m
unfolding envelope chat_message
envelope-chat_message now m k f =
    rw (wrap64-id m.created_at f) (ground (arith, wrap8-id m.kind k, wrap8-id (pos 1)))

module _ (c : Codec) (law : IsProtobuf c) where
  -- A marshalled message of a room is unmarshalled to the same message, with type 0 read as 1 and
  -- a creation time that is not after 1970 replaced by the reader's clock: neither the legacy
  -- format nor the check for an empty payload gets in the way.
  pub unmarshal-marshal :
      (now : ℤ) (m : MessageEnvelope) (b : Bytes)
      → FitsInt8 m.kind
      → FitsInt64 m.created_at
      → m.room_id ≢ pos 0
      → marshal c m ≡ ok b
      → unmarshal c now b ≡ ok (delivered now m)
  unfolding marshal unmarshal
  unmarshal-marshal now m [] k f r e =
      absurd (r (law.nonempty (chat_message m) (or_fail-eq-ok _ codec_error e)))
  unmarshal-marshal now m (x ∷ xs) k f r e =
      let sent = or_fail-eq-ok (c.proto_marshal (chat_message m)) codec_error e in
      rw (law.decodes (chat_message m) (x ∷ xs) sent, unmarshal_proto)
        (ap ok (envelope-chat_message now m k f))
