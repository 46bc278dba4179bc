-- ===== src/Socket/Batches.antt =====
-- The batches of WritePump and what a flush leaves of them (services/gateway/websocket/client.go).
use mathlib.Core.List.{append-nil, map-append}
use lan_sync.Prelude.{
  ℕ, ◌+◌, ◌<◌, ◌≤◌, ◌≡◌, refl, sym, ap, ◌∙◌, Bool, true, false, Option, none, some, List, [], ◌∷◌,
  ◌++◌, map, arith, eqb, if◌then◌else◌, All, All-append, concat, concat-append_one, total, length,
}
use lan_sync.Prelude.Int.{ℤ}
use lan_sync.Events.{Bytes}
use lan_sync.Hub.{OutboundMessage}
use lan_sync.Socket.{
  WireFrame, WritePump, frame_from, flush_batch_of, write_batch_max_messages, write_batch_max_bytes,
}

abbrev pub payload_bytes : List OutboundMessage → ℕ
payload_bytes = total (λ m. length m.payload)

-- The bytes of all messages but the last.
abbrev pub bytes_before_last : List OutboundMessage → ℕ
bytes_before_last [] = 0
bytes_before_last (m ∷ []) = 0
bytes_before_last (m ∷ n ∷ ms) = length m.payload + bytes_before_last (n ∷ ms)

-- A batch that may be written as one frame.
pub record IsFrame (batch : List OutboundMessage) : Type 0 where
  pub nonempty : 0 < length batch
  pub count : length batch ≤ write_batch_max_messages
  pub bytes : bytes_before_last batch < write_batch_max_bytes

abbrev pub texts : List WireFrame → List Bytes
texts [] = []
texts (WireFrame.text frame ∷ rest) = frame ∷ texts rest
texts (WireFrame.ping ∷ rest) = texts rest
texts (WireFrame.close_message ∷ rest) = texts rest

-- A batch that waits for more is within the limits, and the flush timer runs exactly if there is one.
pub record IsWaiting (w : WritePump) : Type 0 where
  pub count : length w.batch < write_batch_max_messages
  pub bytes : w.batch_bytes < write_batch_max_bytes
  pub timed : w.armed ≡ (if eqb (length w.batch) 0 then false else true)

pub record IsKept (w : WritePump) : Type 0 where
  pub conserved : concat w.written ++ w.batch ≡ w.received
  pub counted : w.batch_bytes ≡ payload_bytes w.batch
  pub frames : All IsFrame w.written
  pub on_wire : texts w.sent ≡ map (frame_from true) w.written

pub record IsSound (w : WritePump) : Type 0 where
  pub kept : IsKept w
  pub waiting : w.running ≡ true → IsWaiting w

texts-append : (fs gs : List WireFrame) → texts (fs ++ gs) ≡ texts fs ++ texts gs
texts-append [] gs = refl
texts-append (WireFrame.text frame ∷ fs) gs = ap (λ l. frame ∷ l) (texts-append fs gs)
texts-append (WireFrame.ping ∷ fs) gs = texts-append fs gs
texts-append (WireFrame.close_message ∷ fs) gs = texts-append fs gs

pub bytes_before_last-append :
    (ms : List OutboundMessage) (m : OutboundMessage)
    → bytes_before_last (ms ++ m ∷ []) ≡ payload_bytes ms
bytes_before_last-append [] m = refl
bytes_before_last-append (n ∷ []) m = omega arith
bytes_before_last-append (n ∷ k ∷ ms) m = omega (arith, bytes_before_last-append (k ∷ ms) m)

pub bytes_before_last-le : (ms : List OutboundMessage) → bytes_before_last ms ≤ payload_bytes ms
bytes_before_last-le [] = omega arith
bytes_before_last-le (n ∷ []) = omega arith
bytes_before_last-le (n ∷ k ∷ ms) = omega (arith, bytes_before_last-le (k ∷ ms))

-- What a flush leaves behind, where it does not fail.
abbrev pub Flushed : WritePump → Option WritePump → Type 0
Flushed w none = Unit {0}
Flushed w (some v) = (IsKept v) × (v.batch ≡ []) × (v.batch_bytes ≡ 0) × (v.armed ≡ w.armed)

pub flush-Flushed :
    (batch : List OutboundMessage) (writes : Bool) (now : ℤ) (w : WritePump)
    → w.batch ≡ batch
    → (0 < length batch → IsFrame batch)
    → IsKept w
    → Flushed w (flush_batch_of batch writes now w)
flush-Flushed [] writes now w e f k = (k, e, k.counted ∙ ap payload_bytes e, refl)
flush-Flushed (m ∷ ms) false now w e f k = tt
flush-Flushed (m ∷ ms) true now w e f k = (
  record {
    conserved =
        append-nil (concat (w.written ++ (m ∷ ms) ∷ []))
        ∙ (concat-append_one w.written (m ∷ ms)
            ∙ (ap (λ b. concat w.written ++ b) (sym e) ∙ k.conserved));
    counted = refl;
    frames = All-append IsFrame w.written ((m ∷ ms) ∷ []) k.frames (f (omega arith), tt);
    on_wire =
        texts-append w.sent (WireFrame.text (frame_from true (m ∷ ms)) ∷ [])
        ∙ (ap (λ l. l ++ frame_from true (m ∷ ms) ∷ []) k.on_wire
            ∙ sym (map-append (frame_from true) w.written ((m ∷ ms) ∷ [])));
  },
  refl,
  refl,
  refl,
)

-- Only the batch, the messages and the text frames matter.
pub same-IsKept :
    (w : WritePump) (armed running : Bool) (sent : List WireFrame)
    → IsKept w
    → texts sent ≡ texts w.sent
    → IsKept (record w { armed = armed; running = running; sent = sent })
same-IsKept w armed running sent k e = record {
  conserved = k.conserved;
  counted = k.counted;
  frames = k.frames;
  on_wire = e ∙ k.on_wire;
}

pub texts-ping : (fs : List WireFrame) → texts (fs ++ WireFrame.ping ∷ []) ≡ texts fs
texts-ping fs = texts-append fs (WireFrame.ping ∷ []) ∙ append-nil (texts fs)

pub texts-close : (fs : List WireFrame) → texts (fs ++ WireFrame.close_message ∷ []) ≡ texts fs
texts-close fs = texts-append fs (WireFrame.close_message ∷ []) ∙ append-nil (texts fs)
