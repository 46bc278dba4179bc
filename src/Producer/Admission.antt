-- ===== src/Producer/Admission.antt =====
-- What a request carries to Kafka (services/messages/producer/producer-kafka.go).
use lan_sync.Prelude.{
  ℕ, String, ◌≡◌, ◌≢◌, sym, ap, ◌∙◌, Bool, true, false, Option, none, some, if◌then◌else◌, arith,
}
use lan_sync.Prelude.Int.{ℤ, pos, ltb_ℤ, int_beq, FitsInt64}
use lan_sync.Prelude.Result.{
  Result, ok, err, bind-ok, or_fail, ◌>>=◌, ◌>>◌, refuse_if, ok-injective, err-ne-ok,
}
use lan_sync.Events
use lan_sync.Events.{Bytes, Codec, MessageEnvelope, marshal, unmarshal, zero_time}
use lan_sync.Events.RoundTrip.{IsProtobuf, delivered, unmarshal-marshal}
use lan_sync.Consumer.{KafkaMessage, size}
use lan_sync.Producer.{
  BatchOptions, ProduceRequest, Call, Error, built, build_request, sized, marshalled, incoming,
}

some-injective : {a b : ℤ} → some a ≡ some b → a ≡ b
some-injective e = ground arith

module _ (codec : Codec) (to_bytes : String → Bytes) where
  marshalled-ok :
      (o : Result Events.Error Bytes) (b : Bytes) → marshalled codec to_bytes o ≡ ok b → o ≡ ok b
  marshalled-ok (ok x) b h = ap ok (ok-injective h)
  marshalled-ok (err e) b h = absurd (err-ne-ok h)

  refused_or-message :
      (large : Bool) (m : KafkaMessage) (ticket : ℕ) (r : ProduceRequest)
      → (refuse_if large Error.message_too_large >> ok (record { message = m; ticket = ticket }))
        ≡ ok r
      → r.message ≡ m
  refused_or-message true m ticket r h = absurd (err-ne-ok h)
  refused_or-message false m ticket r h = ap ProduceRequest.message (sym (ok-injective h))

  -- The envelope that a call of a room makes.
  abbrev pub envelope_of : Call → ℤ → MessageEnvelope
  envelope_of call room_id =
      incoming codec to_bytes room_id call.room_id call.sender_id call.content call.client_msg_id
        (if int_beq call.arrived zero_time then call.now else call.arrived)

  build_request-payload :
      (opts : BatchOptions) (call : Call) (room_id : ℤ) (r : ProduceRequest)
      → codec.parse_int call.room_id ≡ some room_id
      → built codec to_bytes opts call ≡ ok r
      → (marshal codec (envelope_of call room_id) ≡ ok r.message.value)
        × (r.message.key ≡ to_bytes call.room_id)
  unfolding build_request
  build_request-payload opts call room_id r p h =
      parsed-payload (codec.parse_int call.room_id) _ p h
    where
      parsed-payload :
          (o : Option ℤ) (f : ℤ → Result Events.Error Bytes)
          → o ≡ some room_id
          → (or_fail o Error.invalid_room_id >>= λ n.
              marshalled codec to_bytes (f n)
              >>= sized codec to_bytes opts call.room_id call.ticket)
            ≡ ok r
          → (f room_id ≡ ok r.message.value) × (r.message.key ≡ to_bytes call.room_id)
      parsed-payload none f e h = absurd (ground arith)
      parsed-payload (some n) f e h =
          let (b, sent, checked) =
            bind-ok (marshalled codec to_bytes (f n))
              (sized codec to_bytes opts call.room_id call.ticket) h in
          let message : KafkaMessage = record {
            key = to_bytes call.room_id;
            value = b;
            offset = pos 0;
          } in
          let same =
            refused_or-message (ltb_ℤ opts.max_bytes (pos (size message))) message call.ticket r
              checked in
          (
            ap f (sym (some-injective e))
                ∙ (marshalled-ok (f n) b sent ∙ ap ok (sym (ap KafkaMessage.value same))),
            ap KafkaMessage.key same,
          )

  -- The message of a request that is built has the room as its key, and its payload reads back as the
  -- caller's message of that room with type 1, sent at the gateway's arrival time, or at the time of the
  -- call if that is not set.
  pub unmarshal-build_request :
      (opts : BatchOptions) (call : Call) (room_id now : ℤ) (r : ProduceRequest)
      → IsProtobuf codec
      → codec.parse_int call.room_id ≡ some room_id
      → room_id ≢ pos 0
      → FitsInt64 (if int_beq call.arrived zero_time then call.now else call.arrived)
      → built codec to_bytes opts call ≡ ok r
      → (unmarshal codec now r.message.value ≡ ok (delivered now (envelope_of call room_id)))
        × (r.message.key ≡ to_bytes call.room_id)
  unmarshal-build_request opts call room_id now r law p z fits h =
      let (payload, key) = build_request-payload opts call room_id r p h in
      (
        unmarshal-marshal codec law now (envelope_of call room_id) r.message.value
            (omega arith, omega arith) fits z payload,
        key,
      )
