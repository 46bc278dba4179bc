-- ===== src/Socket/Reading.antt =====
-- What ReadPump hands to the producer (services/gateway/websocket/client.go).
use mathlib.Core.List.{append_assoc, append-nil}
use lan_sync.Prelude.{
  ℕ, String, ◌≡◌, refl, sym, ap, ◌∙◌, Bool, true, false, Option, none, some, List, [], ◌∷◌, ◌++◌,
  if◌then◌else◌, ◌==◌, string_eq, Bool-cases, inl, inr,
}
use lan_sync.Prelude.Int.{ℤ}
use lan_sync.Events.{Bytes}
use lan_sync.Producer.{Call}
use lan_sync.Hub
use lan_sync.Hub.{Hub}
use lan_sync.Socket.{Payload, Incoming, Read, ReadPump, hand_over, read_pump}

module _ (decode : Bytes → Option Payload) (format_int : ℤ → String) (user_id : ℤ) where
  abbrev pub incoming_of : ℤ → Payload → Incoming
  incoming_of arrived payload = record {
    room_id = format_int payload.room_id;
    sender_id = user_id;
    content = payload.content;
    client_msg_id = payload.client_msg_id;
    arrived_at = arrived;
  }

  abbrev pub accepted_one : ℤ → Option Payload → List Incoming
  accepted_one arrived none = []
  accepted_one arrived (some payload) =
      if payload.client_msg_id == "" then [] else incoming_of arrived payload ∷ []

  -- The messages with a client id that come before the first error of a read.
  unfoldable pub accepted : List Read → List Incoming
  accepted [] = []
  accepted (Read.reads message arrived ∷ rest) =
      accepted_one arrived (decode message) ++ accepted rest
  accepted (Read.read_fails ∷ rest) = []

  unfoldable pub has_failed : List Read → Bool
  has_failed [] = false
  has_failed (Read.reads message arrived ∷ rest) = has_failed rest
  has_failed (Read.read_fails ∷ rest) = true

  hand_over-parts :
      (p : ReadPump) (arrived : ℤ) (o : Option Payload)
      → ((hand_over decode format_int user_id p arrived o).handed
          ≡ p.handed ++ accepted_one arrived o)
        × ((hand_over decode format_int user_id p arrived o).running ≡ p.running)
        × ((hand_over decode format_int user_id p arrived o).hub ≡ p.hub)
  hand_over-parts p arrived none = (sym (append-nil p.handed), refl, refl)
  hand_over-parts p arrived (some payload) = elim (Bool-cases (payload.client_msg_id == "")) [
    | inl e ↦ rw e (sym (append-nil p.handed), refl, refl)
    | inr e ↦ rw e (refl, refl, refl)
  ]

  -- ReadPump hands over exactly the messages that decode and have a client id and that come before the first error
  -- of a read, in their order, each with the time of its own read; it ends exactly at such an error, and
  -- only then is the client taken out of the hub.
  pub read_pump-handed :
      (client : ℕ) (reads : List Read) (p : ReadPump)
      → p.running ≡ true
      → let q = read_pump decode format_int user_id client reads p in
        (q.handed ≡ p.handed ++ accepted reads)
        × (q.running ≡ (if has_failed reads then false else true))
        × (q.hub ≡ (if has_failed reads then Hub.unregister p.hub client else p.hub))
  unfolding read_pump accepted has_failed
  read_pump-handed client [] p on = (sym (append-nil p.handed), on, refl)
  read_pump-handed client (Read.read_fails ∷ rest) p on = (sym (append-nil p.handed), refl, refl)
  read_pump-handed client (Read.reads message arrived ∷ rest) p on =
      let q =
        hand_over decode format_int user_id (record p { last_read_at = arrived }) arrived
          (decode message) in
      let (one, runs, hub) =
        hand_over-parts (record p { last_read_at = arrived }) arrived (decode message) in
      let (more, ends, gone) = read_pump-handed client rest q (runs ∙ on) in
      (
        more
            ∙ (ap (λ l. l ++ accepted rest) one
                ∙ append_assoc p.handed (accepted_one arrived (decode message)) (accepted rest)),
        ends,
        gone ∙ ap (λ h. if has_failed rest then Hub.unregister h client else h) hub,
      )

-- The call of the producer that a handed message makes.
abbrev pub call_of : Incoming → ℤ → ℕ → Call
call_of i now ticket = record {
  now = now;
  ticket = ticket;
  room_id = i.room_id;
  sender_id = i.sender_id;
  content = i.content;
  client_msg_id = i.client_msg_id;
  arrived = i.arrived_at;
  is_done = false;
  prefers_done = false;
}
