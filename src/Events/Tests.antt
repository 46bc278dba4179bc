-- ===== src/Events/Tests.antt =====
-- A trip over the wire (contracts/events/message.go).
use lan_sync.Prelude.{◌≡◌, refl, [], ◌∷◌, none, arith, string_eq}
use lan_sync.Prelude.Int.{pos, int_eq, wrap64}
use lan_sync.Prelude.Result.{ok}
use lan_sync.Events.{MessageEnvelope, ChatMessage, chat_message, marshal, unmarshal}
use lan_sync.Events.OneMessage.{codec_of, codec_of-IsProtobuf}
use lan_sync.Events.RoundTrip.{delivered, unmarshal-marshal}

abbrev sent : MessageEnvelope
sent = record {
  message_id = pos 4096000;
  room_seq = pos 1;
  room_id = pos 7;
  sender_id = pos 1;
  client_msg_id = "a1";
  kind = pos 0;
  content = "hello";
  created_at = pos 1750000001000000000;
}

abbrev sent_chat : ChatMessage
sent_chat = record {
  room_id = pos 7;
  sender_id = pos 1;
  client_msg_id = "a1";
  kind = pos 0;
  content = "hello";
  created_at_ns = pos 1750000001000000000;
  message_id = pos 4096000;
  room_seq = pos 1;
}

unmarshal-marshal_example :
    unmarshal (codec_of sent_chat (λ _. none)) (pos 3) (1 ∷ []) ≡ ok (delivered (pos 3) sent)
unfolding marshal chat_message wrap64
unmarshal-marshal_example =
    unmarshal-marshal (codec_of sent_chat (λ _. none)) (codec_of-IsProtobuf sent_chat (λ _. none))
      (pos 3) sent (1 ∷ []) (omega arith, omega arith) (omega arith, omega arith)
      (λ e. ground (arith, e)) refl
