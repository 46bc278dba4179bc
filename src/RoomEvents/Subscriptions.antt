-- ===== src/RoomEvents/Subscriptions.antt =====
-- Which users a hub has in which rooms once it has handled the events of the room service
-- (services/rooms/events/redis_notifier.go, services/gateway/websocket/room_events.go, hub.go).
use lan_sync.Prelude.{
  ℕ, ◌≡◌, refl, sym, ap, ◌∙◌, string_eq, Bool, true, false, not, Option, none, some, ◌∷◌, ◌&&◌,
  ◌||◌, arith, if◌then◌else◌, ◌==◌, eq_of, eqb, eqb_iff, Bool-cases, inl, inr,
}
use lan_sync.Prelude.Int.{ℤ, int_eq}
use lan_sync.Rooms.{Notice, joins, leaves, disbands}
use lan_sync.Hub.{
  Hub, contains, remove, client_by_user, join_client, leave_client, disband_room, set_client,
  add_client_to_room, remove_client_from_room,
}
use lan_sync.Hub.View.{is_member, is_member-add, is_member-remove, add-Frame, remove-Frame}
use lan_sync.Hub.Consistency.{IsConsistent, is_member-set_client, client_by_user-set_client}
use lan_sync.Hub.Moves.{in_rooms}
use lan_sync.Hub.Lifetime.{is_member-disband_room}

-- Is the client that is found for a user in the list of a room?
abbrev pub is_in : Hub → Option ℕ → ℤ → Bool
is_in h none r = false
is_in h (some c) r = is_member h c r

abbrev pub has_client : Option ℕ → Bool
has_client none = false
has_client (some c) = true

-- What a change of a room makes of a subscription.
abbrev pub changed : Notice → Bool → ℤ → ℤ → Bool → Bool
changed (joins user room) connected u r was = if user == u && room == r then connected else was
changed (leaves user room) connected u r was = not (user == u && room == r) && was
changed (disbands room) connected u r was = not (room == r) && was

join-is_member :
    (h : Hub) (c : ℕ) (room : ℤ) (d : ℕ) (r : ℤ)
    → IsConsistent h
    → (h.clients c).active ≡ true
    → is_member (join_client h (some c) room) d r ≡ (((room == r) && eqb c d) || is_member h d r)
unfolding join_client
join-is_member h c room d r v here = elim (Bool-cases (contains room (h.clients c).room_ids)) [
  | inl listed ↦
      let skip : (not (h.clients c).active || contains room (h.clients c).room_ids) ≡ true =
        ground (arith, listed) in
      rw skip (
        ground
          (arith, listed, here, v.rooms c room, v.rooms d r, eqb_iff c d, int_eq.beq_iff room r))
  | inr fresh ↦
      let fits : (not (h.clients c).active || contains room (h.clients c).room_ids) ≡ false =
        ground (arith, here, fresh) in
      let h1 = set_client h c (in_rooms (h.clients c) (room ∷ (h.clients c).room_ids)) in
      rw fits (
        is_member-add h1 c d room r
        ∙ ap (λ b. ((room == r) && eqb c d) || b)
            (is_member-set_client h c (in_rooms (h.clients c) (room ∷ (h.clients c).room_ids)) d r))
]

leave-is_member :
    (h : Hub) (c : ℕ) (room : ℤ) (d : ℕ) (r : ℤ)
    → IsConsistent h
    → (h.clients c).active ≡ true
    → is_member (leave_client h (some c) room) d r
      ≡ (not ((room == r) && eqb c d) && is_member h d r)
unfolding leave_client
leave-is_member h c room d r v here = elim (Bool-cases (contains room (h.clients c).room_ids)) [
  | inl listed ↦
      let fits : (not (h.clients c).active || not (contains room (h.clients c).room_ids)) ≡ false =
        ground (arith, here, listed) in
      let h1 = set_client h c (in_rooms (h.clients c) (remove room (h.clients c).room_ids)) in
      rw fits (
        is_member-remove h1 c d room r
        ∙ ap (λ b. not ((room == r) && eqb c d) && b)
            (is_member-set_client h c (in_rooms (h.clients c) (remove room (h.clients c).room_ids))
              d r))
  | inr fresh ↦
      let skip : (not (h.clients c).active || not (contains room (h.clients c).room_ids)) ≡ true =
        ground (arith, fresh) in
      rw skip (
        ground
          (arith, fresh, here, v.rooms c room, v.rooms d r, eqb_iff c d, int_eq.beq_iff room r))
]

-- The hub keeps one client for each user.
same_user :
    (h : Hub) (u v : ℤ) (c : ℕ)
    → IsConsistent h
    → client_by_user h u ≡ some c
    → client_by_user h v ≡ some c
    → u ≡ v
same_user h u v c ok_h e f = sym (ok_h.users u c e).1 ∙ (ok_h.users v c f).1

client_of-eqb :
    (h : Hub) (u v : ℤ) (c d : ℕ)
    → IsConsistent h
    → client_by_user h u ≡ some c
    → client_by_user h v ≡ some d
    → (u == v) ≡ eqb c d
client_of-eqb h u v c d ok_h e f = elim (Bool-cases (eqb c d)) [
  | inl one ↦
      let same : u ≡ v = same_user h u v c ok_h e (f ∙ ap some (sym ((eqb_iff c d).0 one))) in
      ground (arith, int_eq.beq_iff u v, same, one)
  | inr two ↦ elim (Bool-cases (u == v)) [
    | inl same ↦
        let ends : some c ≡ some d = sym e ∙ (ap (λ w. client_by_user h w) (eq_of u v same) ∙ f) in
        absurd (ground (arith, ends, two, eqb_iff c d))
    | inr apart ↦ apart ∙ sym two
  ]
]

differ :
    (h : Hub) (u v : ℤ) (d : ℕ)
    → client_by_user h u ≡ none
    → client_by_user h v ≡ some d
    → (u == v) ≡ false
differ h u v d e f = elim (Bool-cases (u == v)) [
  | inl same ↦
      let ends : none ≡ some d = sym e ∙ (ap (λ w. client_by_user h w) (eq_of u v same) ∙ f) in
      absurd (cc ends)
  | inr apart ↦ apart
]

pub join_client-is_in :
    (h : Hub) (user room u r : ℤ) (o p : Option ℕ)
    → IsConsistent h
    → client_by_user h user ≡ o
    → client_by_user h u ≡ p
    → is_in (join_client h o room) p r ≡ changed (joins user room) (has_client p) u r (is_in h p r)
unfolding join_client
join_client-is_in h user room u r none none v e f = ground arith
join_client-is_in h user room u r none (some d) v e f = rw (differ h user u d e f) refl
join_client-is_in h user room u r (some c) none v e f = ground arith
join_client-is_in h user room u r (some c) (some d) v e f =
    rw (client_of-eqb h user u c d v e f)
      (join-is_member h c room d r v (v.users user c e).0 ∙ ground arith)

pub leave_client-is_in :
    (h : Hub) (user room u r : ℤ) (o p : Option ℕ)
    → IsConsistent h
    → client_by_user h user ≡ o
    → client_by_user h u ≡ p
    → is_in (leave_client h o room) p r
      ≡ changed (leaves user room) (has_client p) u r (is_in h p r)
unfolding leave_client
leave_client-is_in h user room u r none none v e f = ground arith
leave_client-is_in h user room u r none (some d) v e f = rw (differ h user u d e f) refl
leave_client-is_in h user room u r (some c) none v e f = ground arith
leave_client-is_in h user room u r (some c) (some d) v e f =
    rw (client_of-eqb h user u c d v e f)
      (leave-is_member h c room d r v (v.users user c e).0 ∙ ground arith)

if-client_by_user :
    (b : Bool) (g h f : Hub) (u : ℤ)
    → client_by_user g u ≡ client_by_user f u
    → client_by_user h u ≡ client_by_user f u
    → client_by_user (if b then g else h) u ≡ client_by_user f u
if-client_by_user true g h f u e k = e
if-client_by_user false g h f u e k = k

pub join_client-client_by_user :
    (h : Hub) (o : Option ℕ) (room u : ℤ)
    → client_by_user (join_client h o room) u ≡ client_by_user h u
unfolding join_client
join_client-client_by_user h none room u = refl
join_client-client_by_user h (some c) room u =
    let client = in_rooms (h.clients c) (room ∷ (h.clients c).room_ids) in
    if-client_by_user (not (h.clients c).active || contains room (h.clients c).room_ids) h
      (add_client_to_room (set_client h c client) c room) h u refl
      ((add-Frame (set_client h c client) c room).users u ∙ client_by_user-set_client h c client u)

pub leave_client-client_by_user :
    (h : Hub) (o : Option ℕ) (room u : ℤ)
    → client_by_user (leave_client h o room) u ≡ client_by_user h u
unfolding leave_client
leave_client-client_by_user h none room u = refl
leave_client-client_by_user h (some c) room u =
    let client = in_rooms (h.clients c) (remove room (h.clients c).room_ids) in
    if-client_by_user (not (h.clients c).active || not (contains room (h.clients c).room_ids)) h
      (remove_client_from_room (set_client h c client) c room) h u refl
      ((remove-Frame (set_client h c client) c room).users u
        ∙ client_by_user-set_client h c client u)

pub disband_room-is_in :
    (h : Hub) (room r : ℤ) (p : Option ℕ)
    → is_in (disband_room h room) p r ≡ (not (room == r) && is_in h p r)
disband_room-is_in h room r none = ground arith
disband_room-is_in h room r (some d) = is_member-disband_room h room d r
