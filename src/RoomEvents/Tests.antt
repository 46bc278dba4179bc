-- ===== src/RoomEvents/Tests.antt =====
-- A user who is removed from a room while the gateway has the user connected (services/rooms/events/redis_notifier.go,
-- services/gateway/websocket/room_events.go).
use lan_sync.Prelude.{
  ℕ, ◌≡◌, refl, sym, ap, String, string_eq, Bool, true, false, Option, none, some, [], ◌∷◌, ◌&&◌,
  ◌==◌, if◌then◌else◌, and_true, eq_of, Bool-cases, inl, inr,
}
use lan_sync.Prelude.Int.{pos, int_eq}
use lan_sync.Rooms.{leaves, disbands}
use lan_sync.Hub.{Client, Hub, new_hub_with_shards, register}
use lan_sync.Hub.Consistency.{IsConsistent}
use lan_sync.Hub.Lifetime.{Step, Reachable, Reachable-IsConsistent}
use lan_sync.RoomEvents.{Event, event_of, member_left, publish_all, listen}
use lan_sync.RoomEvents.Followed.{is_subscribed, listen-is_subscribed}

abbrev clients : ℕ → Client
clients c = record {
  user_id = pos 5;
  active = false;
  room_ids = [];
  send = [];
  capacity = 2;
  send_closed = false;
}

abbrev hub0 : Hub
hub0 = new_hub_with_shards 4 clients 2 1

-- User 5 is connected, in the rooms 7 and 8.
abbrev hub1 : Hub
hub1 = register hub0 0 (pos 7 ∷ pos 8 ∷ [])

hub1-Reachable : Reachable hub0 hub1
unfolding new_hub_with_shards
hub1-Reachable = Reachable.next Reachable.done (Step.connect hub0 0 (pos 7 ∷ pos 8 ∷ []) refl)

hub1-IsConsistent : IsConsistent hub1
hub1-IsConsistent = Reachable-IsConsistent 4 clients 2 1 hub1 (λ c. refl) hub1-Reachable

-- A codec of one event only.
abbrev left : Event
left = record { type = member_left; room_id = pos 7; user_id = pos 5 }

abbrev is_left : Event → Bool
is_left e = e.type == member_left && (e.room_id == pos 7 && e.user_id == pos 5)

abbrev marshal : Event → Option String
marshal e = if is_left e then some "left" else none

abbrev unmarshal : String → Option Event
unmarshal payload = some left

is_left-eq : (e : Event) → is_left e ≡ true → left ≡ e
is_left-eq e h =
    let (a, rest) = and_true (e.type == member_left) _ h in
    let (b, c) = and_true (e.room_id == pos 7) (e.user_id == pos 5) rest in
    let t : e.type ≡ member_left = eq_of e.type member_left a in
    let r : e.room_id ≡ pos 7 = eq_of e.room_id (pos 7) b in
    let u : e.user_id ≡ pos 5 = eq_of e.user_id (pos 5) c in
    λ i. record { type = sym t i; room_id = sym r i; user_id = sym u i }

reads : (e : Event) (payload : String) → marshal e ≡ some payload → unmarshal payload ≡ some e
reads e payload h = elim (Bool-cases (is_left e)) [
  | inl same ↦ ap some (is_left-eq e same)
  | inr other ↦ let found : none ≡ some payload = rw other at h in absurd (cc found)
]

-- The second notice is lost.
listen-is_subscribed_example :
    is_subscribed
      (listen unmarshal hub1
        (publish_all marshal ((leaves (pos 5) (pos 7), true) ∷ (disbands (pos 8), false) ∷ []) []))
      (pos 5)
      (pos 7)
    ≡ false
unfolding event_of
listen-is_subscribed_example =
    listen-is_subscribed marshal unmarshal reads hub1
      ((leaves (pos 5) (pos 7), true) ∷ (disbands (pos 8), false) ∷ []) (pos 5) (pos 7)
      hub1-IsConsistent
