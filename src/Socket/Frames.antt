-- ===== src/Socket/Frames.antt =====
-- The frames of WritePump, and how a client takes them apart (services/gateway/websocket/client.go).
use mathlib.Core.List.{append-nil}
use lan_sync.Prelude.{
  ℕ, ◌≡◌, refl, ap, ◌∙◌, true, false, List, [], ◌∷◌, ◌++◌, map, eqb, if◌then◌else◌, All,
}
use lan_sync.Events.{Bytes}
use lan_sync.Hub.{OutboundMessage}
use lan_sync.Socket.{frame_from}

-- A line break inside a payload would split it; the JSON encoding of a message has none.
abbrev pub HasNoBreak : Bytes → Type 0
HasNoBreak = All (λ b. eqb b 10 ≡ false)

abbrev with_byte : ℕ → List Bytes → List Bytes
with_byte b [] = (b ∷ []) ∷ []
with_byte b (line ∷ lines) = (b ∷ line) ∷ lines

-- The lines of a frame.
unfoldable pub lines_of : Bytes → List Bytes
lines_of [] = [] ∷ []
lines_of (b ∷ bs) = let lines = lines_of bs in if eqb b 10 then [] ∷ lines else with_byte b lines

lines_of-last : (line : Bytes) → HasNoBreak line → lines_of line ≡ line ∷ []
unfolding lines_of
lines_of-last [] h = refl
lines_of-last (b ∷ line) (here, there) = rw (here, lines_of-last line there) refl

lines_of-break :
    (line rest : Bytes) → HasNoBreak line → lines_of (line ++ 10 ∷ rest) ≡ line ∷ lines_of rest
unfolding lines_of
lines_of-break [] rest h = refl
lines_of-break (b ∷ line) rest (here, there) = rw (here, lines_of-break line rest there) refl

-- Taking a frame apart at its line breaks gives the payloads of its messages in their order, where no
-- payload has a line break in it.
pub lines_of-frame_from :
    (m : OutboundMessage) (ms : List OutboundMessage)
    → All (λ n. HasNoBreak n.payload) (m ∷ ms)
    → lines_of (frame_from true (m ∷ ms)) ≡ map (λ n. n.payload) (m ∷ ms)
unfolding frame_from
lines_of-frame_from m [] (here, there) = rw (append-nil m.payload) (lines_of-last m.payload here)
lines_of-frame_from m (n ∷ ms) (here, there) =
    lines_of-break m.payload _ here
    ∙ ap (λ lines. m.payload ∷ lines) (lines_of-frame_from n ms there)
