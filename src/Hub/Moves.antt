-- ===== src/Hub/Moves.antt =====
-- UpdateRooms, JoinRoom and LeaveRoom on the registry (services/gateway/websocket/hub.go).
use lan_sync.Prelude.{
  ℕ, ◌≡◌, refl, sym, ap, ◌∙◌, Bool, true, false, not, Option, none, some, List, [], ◌∷◌, ◌&&◌, ◌||◌,
  arith, if◌then◌else◌, ◌==◌, nat_eq, eqb, eqb_iff, eqb_self, Bool-cases, inl, inr,
}
use lan_sync.Prelude.Int.{ℤ, int_eq}
use lan_sync.Hub.Sets.{contains, remove, of_list, contains-remove}
use lan_sync.Hub.{
  Hub, Client, client_by_user, set_client, minus, update_rooms, join_client, join_room,
  leave_client, leave_room, add_to_rooms, remove_from_rooms, add_client_to_room,
  remove_client_from_room,
}
use lan_sync.Hub.View.{
  is_member, is_member-add, is_member-remove, is_member-add_to_rooms, is_member-remove_from_rooms,
  Frame, add_to_rooms-Frame, remove_from_rooms-Frame, add-Frame, remove-Frame,
}
use lan_sync.Hub.Consistency.{
  IsConsistent, put-IsConsistent, is_member-set_client, client_by_user-set_client,
}
use lan_sync.Hub.Steps.{if-IsConsistent}

-- A step on an active client that changes its rooms and nothing else.
abbrev pub in_rooms : Client → List ℤ → Client
in_rooms client rs = record client { room_ids = rs }

module _ (h g : Hub) (c : ℕ) (rs : List ℤ) (v : IsConsistent h) (here : (h.clients c).active ≡ true)
    (clients : (d : ℕ) → g.clients d ≡ (if eqb d c then in_rooms (h.clients c) rs else h.clients d))
    (kept : (u : ℤ) → client_by_user g u ≡ client_by_user h u)
    (joins : (r : ℤ) → is_member g c r ≡ contains r rs)
    (others : (d : ℕ) (r : ℤ) → eqb d c ≡ false → is_member g d r ≡ is_member h d r) where
  move-IsConsistent : IsConsistent g
  move-IsConsistent =
      put-IsConsistent h g c (in_rooms (h.clients c) rs) v clients
        (λ r. joins r ∙ ground (arith, here)) others
        (λ u d e.
          let old : client_by_user h u ≡ some d = sym (kept u) ∙ e in
          ((λ same. v.users u c (old ∙ ap some ((eqb_iff d c).0 same))), (λ _. old)))

contains-minus :
    (r : ℤ) (rs other : List ℤ)
    → contains r (minus rs other) ≡ (contains r rs && not (contains r other))
unfolding minus contains
contains-minus r [] other = refl
contains-minus r (x ∷ rs) other = elim (Bool-cases (contains x other)) [
  | inl both ↦ rw (both, contains-minus r rs other) (ground (arith, int_eq.beq_iff x r, both))
  | inr one ↦ rw one (ground (arith, int_eq.beq_iff x r, one, contains-minus r rs other))
]

updated :
    (old new : Bool)
    → ((new && not old) && true || not ((old && not new) && true) && (true && old)) ≡ new
updated old new = ground arith

-- UpdateRooms.
module _ (h : Hub) (c : ℕ) (rs : List ℤ) where
  left : Hub
  left = remove_from_rooms h c (minus (h.clients c).room_ids (of_list rs))

  joined : Hub
  joined = add_to_rooms left c (minus (of_list rs) (h.clients c).room_ids)

  update_rooms_lem : update_rooms h c rs ≡ (
      if (h.clients c).active then set_client joined c (in_rooms (h.clients c) (of_list rs)) else h)
  unfolding update_rooms joined left
  update_rooms_lem = refl

  left-Frame : Frame h left
  unfolding left
  left-Frame = remove_from_rooms-Frame h c (minus (h.clients c).room_ids (of_list rs))

  joined-Frame : Frame left joined
  unfolding joined
  joined-Frame = add_to_rooms-Frame left c (minus (of_list rs) (h.clients c).room_ids)

  is_member-joined :
      (d : ℕ) (r : ℤ)
      → is_member joined d r ≡ (
          ((contains r (of_list rs) && not (contains r (h.clients c).room_ids)) && eqb c d)
          || (not ((contains r (h.clients c).room_ids && not (contains r (of_list rs))) && eqb c d)
              && is_member h d r))
  unfolding joined left
  is_member-joined d r = rw (
    is_member-add_to_rooms left c d (minus (of_list rs) (h.clients c).room_ids) r,
    is_member-remove_from_rooms h c d (minus (h.clients c).room_ids (of_list rs)) r,
    contains-minus r (of_list rs) (h.clients c).room_ids,
    contains-minus r (h.clients c).room_ids (of_list rs),
  )

  not_updated :
      (a b m : Bool) (d : ℕ) → eqb d c ≡ false → ((a && eqb c d) || (not (b && eqb c d) && m)) ≡ m
  not_updated a b m d other = ground (arith, eqb_iff d c, eqb_iff c d)

  pub update_rooms-IsConsistent : IsConsistent h → IsConsistent (update_rooms h c rs)
  update_rooms-IsConsistent v = rw update_rooms_lem (
      if-IsConsistent (h.clients c).active
        (set_client joined c (in_rooms (h.clients c) (of_list rs))) h
        (λ here.
          move-IsConsistent h (set_client joined c (in_rooms (h.clients c) (of_list rs))) c
            (of_list rs) v here
            (λ d.
              ap (λ f. if eqb d c then in_rooms (h.clients c) (of_list rs) else f d)
                (joined-Frame.clients ∙ left-Frame.clients))
            (λ u.
              client_by_user-set_client joined c (in_rooms (h.clients c) (of_list rs)) u
              ∙ joined-Frame.users u
              ∙ left-Frame.users u)
            (λ r.
              is_member-set_client joined c (in_rooms (h.clients c) (of_list rs)) c r
              ∙ is_member-joined c r
              ∙ (rw (v.rooms c r, eqb_self c, here)
                  (updated (contains r (h.clients c).room_ids) (contains r (of_list rs)))))
            (λ d r other.
              is_member-set_client joined c (in_rooms (h.clients c) (of_list rs)) d r
              ∙ is_member-joined d r
              ∙ not_updated _ _ (is_member h d r) d other))
        (λ absent. v))

-- JoinRoom and LeaveRoom.
found_active :
    (h : Hub) (u : ℤ) (c : ℕ)
    → IsConsistent h
    → client_by_user h u ≡ some c
    → (h.clients c).active ≡ true
found_active h u c v e = (v.users u c e).0

not_joined : (b m : Bool) (c d : ℕ) → eqb d c ≡ false → ((b && eqb c d) || m) ≡ m
not_joined b m c d other = ground (arith, eqb_iff d c, eqb_iff c d)

not_left : (b m : Bool) (c d : ℕ) → eqb d c ≡ false → (not (b && eqb c d) && m) ≡ m
not_left b m c d other = ground (arith, eqb_iff d c, eqb_iff c d)

join_client-IsConsistent :
    (h : Hub) (o : Option ℕ) (room : ℤ) → IsConsistent h → IsConsistent (join_client h o room)
unfolding join_client contains
join_client-IsConsistent h none room v = v
join_client-IsConsistent h (some c) room v =
    let client = in_rooms (h.clients c) (room ∷ (h.clients c).room_ids) in
    let h1 = set_client h c client in
    let frame = add-Frame h1 c room in
    if-IsConsistent (not (h.clients c).active || contains room (h.clients c).room_ids) h
      (add_client_to_room h1 c room) (λ _. v)
      (λ fits.
        move-IsConsistent h (add_client_to_room h1 c room) c (room ∷ (h.clients c).room_ids) v
          (ground (arith, fits)) (λ d. ap (λ f. f d) frame.clients)
          (λ u. frame.users u ∙ client_by_user-set_client h c client u)
          (λ r. ground (
            arith,
            is_member-add h1 c c room r,
            is_member-set_client h c client c r,
            v.rooms c r,
            fits,
            eqb_self c,
          ))
          (λ d r other.
            is_member-add h1 c d room r
            ∙ not_joined (room == r) (is_member h1 d r) c d other
            ∙ is_member-set_client h c client d r))

pub join_room-IsConsistent :
    (h : Hub) (user room : ℤ) → IsConsistent h → IsConsistent (join_room h user room)
unfolding join_room
join_room-IsConsistent h user room v = join_client-IsConsistent h (client_by_user h user) room v

leave_client-IsConsistent :
    (h : Hub) (o : Option ℕ) (room : ℤ) → IsConsistent h → IsConsistent (leave_client h o room)
unfolding leave_client contains
leave_client-IsConsistent h none room v = v
leave_client-IsConsistent h (some c) room v =
    let client = in_rooms (h.clients c) (remove room (h.clients c).room_ids) in
    let h1 = set_client h c client in
    let frame = remove-Frame h1 c room in
    if-IsConsistent (not (h.clients c).active || not (contains room (h.clients c).room_ids)) h
      (remove_client_from_room h1 c room) (λ _. v)
      (λ fits.
        move-IsConsistent h (remove_client_from_room h1 c room) c
          (remove room (h.clients c).room_ids) v (ground (arith, fits))
          (λ d. ap (λ f. f d) frame.clients)
          (λ u. frame.users u ∙ client_by_user-set_client h c client u)
          (λ r. ground (
            arith,
            is_member-remove h1 c c room r,
            is_member-set_client h c client c r,
            v.rooms c r,
            fits,
            eqb_self c,
            contains-remove room r (h.clients c).room_ids,
          ))
          (λ d r other.
            is_member-remove h1 c d room r
            ∙ not_left (room == r) (is_member h1 d r) c d other
            ∙ is_member-set_client h c client d r))

pub leave_room-IsConsistent :
    (h : Hub) (user room : ℤ) → IsConsistent h → IsConsistent (leave_room h user room)
unfolding leave_room
leave_room-IsConsistent h user room v = leave_client-IsConsistent h (client_by_user h user) room v
