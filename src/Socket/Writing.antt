-- ===== src/Socket/Writing.antt =====
-- What WritePump writes (services/gateway/websocket/client.go).
use mathlib.Core.List.{append_assoc, map-append}
use lan_sync.Prelude.{
  ℕ, ◌+◌, ◌<◌, ◌≡◌, refl, sym, ap, ◌∙◌, Bool, true, false, Option, none, some, List, [], ◌∷◌, ◌++◌,
  map, arith, eqb, if◌then◌else◌, All, All-split, concat, total-append, length, length-append,
  if_cases,
}
use lan_sync.Prelude.Int.{ℤ}
use lan_sync.Events.{Bytes}
use lan_sync.Hub.{OutboundMessage}
use lan_sync.Socket.{
  WireFrame, WritePump, WriteEvent, frame_from, flush, or_stop, close_after, append_message,
  is_full, disarm, on_message, write_event, write_pump, new_write_pump,
}
use lan_sync.Socket.Frames.{HasNoBreak, lines_of, lines_of-frame_from}
use lan_sync.Socket.Batches.{
  IsFrame, texts, IsWaiting, IsKept, IsSound, bytes_before_last-append, bytes_before_last-le,
  Flushed, flush-Flushed, same-IsKept, texts-ping, texts-close,
}

or_stop-IsSound :
    (w : WritePump) (o : Option WritePump)
    → IsKept w
    → w.armed ≡ false
    → Flushed w o
    → IsSound (or_stop w o)
or_stop-IsSound w none k a h = record {
  kept = same-IsKept w w.armed false w.sent k refl;
  waiting = λ e. absurd (ground arith);
}
or_stop-IsSound w (some v) k a (kept, batch, bytes, armed) = record {
  kept = kept;
  waiting = λ _. record {
    count = rw batch (omega arith);
    bytes = rw bytes (omega arith);
    timed = ground arith;
  };
}

module _ (w : WritePump) (v : IsSound w) (on : w.running ≡ true) where
  waits : IsWaiting w
  waits = v.waiting on

  batch-IsFrame : 0 < length w.batch → IsFrame w.batch
  batch-IsFrame h = record {
    nonempty = h;
    count = omega (arith, waits.count);
    bytes = omega (arith, waits.bytes, v.kept.counted, bytes_before_last-le w.batch);
  }

  disarm-IsKept : IsKept (disarm w)
  disarm-IsKept = same-IsKept w false w.running w.sent v.kept refl

  appended-IsFrame : (m : OutboundMessage) → IsFrame (w.batch ++ m ∷ [])
  appended-IsFrame m = record {
    nonempty = omega (arith, length-append w.batch (m ∷ []));
    count = omega (arith, waits.count, length-append w.batch (m ∷ []));
    bytes = omega (arith, waits.bytes, v.kept.counted, bytes_before_last-append w.batch m);
  }

  appended-IsKept : (m : OutboundMessage) → IsKept (append_message w m)
  appended-IsKept m = record {
    conserved =
        sym (append_assoc (concat w.written) w.batch (m ∷ []))
        ∙ ap (λ l. l ++ m ∷ []) v.kept.conserved;
    counted = omega (arith, v.kept.counted, total-append (λ n. length n.payload) w.batch (m ∷ []));
    frames = v.kept.frames;
    on_wire = v.kept.on_wire;
  }

  timed_at :
      (n k : ℕ)
      → k ≡ n + 1
      → w.armed ≡ (if eqb n 0 then false else true)
      → (if eqb k 1 then true else w.armed) ≡ (if eqb k 0 then false else true)
  timed_at n k e h = ground arith

  appended-IsWaiting :
      (m : OutboundMessage) → is_full (append_message w m) ≡ false → IsWaiting (append_message w m)
  appended-IsWaiting m h = record {
    count = ground arith;
    bytes = ground arith;
    timed = timed_at (length w.batch) _ (length-append w.batch (m ∷ [])) waits.timed;
  }

  on_message-IsSound :
      (m : OutboundMessage) (writes : Bool) (now : ℤ)
      → IsSound (on_message (append_message w m) writes now)
  unfolding flush
  on_message-IsSound m writes now =
      let d = disarm (append_message w m) in
      let k = same-IsKept (append_message w m) false w.running w.sent (appended-IsKept m) refl in
      if_cases IsSound (is_full (append_message w m)) _ (append_message w m)
        (λ _.
          or_stop-IsSound d _ k refl
            (flush-Flushed d.batch writes now d refl (λ _. appended-IsFrame m) k))
        (λ e. record { kept = appended-IsKept m; waiting = λ _. appended-IsWaiting m e })

  close_after-IsSound :
      (o : Option WritePump) → Flushed (disarm w) o → IsSound (close_after (disarm w) o)
  close_after-IsSound none h = record {
    kept = same-IsKept w false false w.sent v.kept refl;
    waiting = λ e. absurd (ground arith);
  }
  close_after-IsSound (some u) (kept, batch, bytes, armed) = record {
    kept =
        same-IsKept u u.armed false (u.sent ++ WireFrame.close_message ∷ []) kept
          (texts-close u.sent);
    waiting = λ e. absurd (ground arith);
  }

  write_event-IsSound :
      (heartbeat : Bool) (event : WriteEvent) → IsSound (write_event heartbeat w event)
  unfolding flush
  write_event-IsSound heartbeat (WriteEvent.takes m writes now) = on_message-IsSound m writes now
  write_event-IsSound heartbeat (WriteEvent.send_closed writes now) =
      close_after-IsSound _
        (flush-Flushed w.batch writes now (disarm w) refl batch-IsFrame disarm-IsKept)
  write_event-IsSound heartbeat (WriteEvent.flush_fires writes now) =
      if_cases IsSound w.armed _ w
        (λ _.
          or_stop-IsSound (disarm w) _ disarm-IsKept refl
            (flush-Flushed w.batch writes now (disarm w) refl batch-IsFrame disarm-IsKept))
        (λ _. v)
  write_event-IsSound true (WriteEvent.ping_fires true) = record {
    kept =
        same-IsKept w w.armed w.running (w.sent ++ WireFrame.ping ∷ []) v.kept (texts-ping w.sent);
    waiting = λ _. record { count = waits.count; bytes = waits.bytes; timed = waits.timed };
  }
  write_event-IsSound true (WriteEvent.ping_fires false) = record {
    kept = same-IsKept w w.armed false w.sent v.kept refl;
    waiting = λ e. absurd (ground arith);
  }
  write_event-IsSound false (WriteEvent.ping_fires b) = v

write_pump-IsSound :
    (heartbeat : Bool) (events : List WriteEvent) (w : WritePump)
    → IsSound w
    → IsSound (write_pump heartbeat events w)
unfolding write_pump
write_pump-IsSound heartbeat [] w v = v
write_pump-IsSound heartbeat (event ∷ events) w v = write_pump-IsSound heartbeat events _ (
    if_cases IsSound w.running (write_event heartbeat w event) w
      (λ on. write_event-IsSound w v on heartbeat event) (λ _. v))

-- Whatever WritePump is given and whichever writes fail: the batches that were written and the one in hand
-- make up the messages taken from Send in their order; the text frames are those of the written
-- batches; a frame holds 1 to 64 messages, of which all but the last stay under 64 KiB; and while it
-- runs, the batch in hand is under both limits and has its flush timer set exactly if it is not empty.
pub write_pump-frames :
    (heartbeat : Bool) (events : List WriteEvent)
    → IsSound (write_pump heartbeat events new_write_pump)
write_pump-frames heartbeat events = write_pump-IsSound heartbeat events new_write_pump (record {
  kept = record { conserved = refl; counted = refl; frames = tt; on_wire = refl };
  waiting = λ _. record { count = omega arith; bytes = omega arith; timed = refl };
})

-- The payloads that a client reads off the frames.
abbrev pub payloads_read : List Bytes → List Bytes
payloads_read frames = concat (map lines_of frames)

abbrev pub payloads : List OutboundMessage → List Bytes
payloads = map (λ m. m.payload)

payloads_read-frames :
    (batches : List (List OutboundMessage))
    → All IsFrame batches
    → All (λ m. HasNoBreak m.payload) (concat batches)
    → payloads_read (map (frame_from true) batches) ≡ payloads (concat batches)
payloads_read-frames [] f h = refl
payloads_read-frames ([] ∷ batches) (f, fs) h = absurd (omega (arith, f.nonempty))
payloads_read-frames ((m ∷ ms) ∷ batches) (f, fs) h =
    let (here, there) = All-split _ (m ∷ ms) (concat batches) h in
    ap (λ l. l ++ payloads_read (map (frame_from true) batches)) (lines_of-frame_from m ms here)
    ∙ (ap (λ l. payloads (m ∷ ms) ++ l) (payloads_read-frames batches fs there)
        ∙ sym (map-append (λ n. n.payload) (m ∷ ms) (concat batches)))

-- A client that takes the frames apart at line breaks reads the payloads of the messages taken from
-- Send, in their order and without those still in the batch, where no payload has a line break in it.
pub write_pump-read :
    (heartbeat : Bool) (events : List WriteEvent)
    → All (λ m. HasNoBreak m.payload) (write_pump heartbeat events new_write_pump).received
    → let w = write_pump heartbeat events new_write_pump in
      payloads_read (texts w.sent) ++ payloads w.batch ≡ payloads w.received
write_pump-read heartbeat events h =
    let w = write_pump heartbeat events new_write_pump in
    let k = (write_pump-frames heartbeat events).kept in
    let (done, _) = All-split _ (concat w.written) w.batch (rw k.conserved h) in
    ap (λ fs. payloads_read fs ++ payloads w.batch) k.on_wire
    ∙ (ap (λ l. l ++ payloads w.batch) (payloads_read-frames w.written k.frames done)
        ∙ (sym (map-append (λ n. n.payload) (concat w.written) w.batch) ∙ ap payloads k.conserved))
