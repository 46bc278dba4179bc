-- ===== src/Hub/Lifetime.antt =====
-- Disbanding a room, and every state that the hub's methods reach from a new hub
-- (services/gateway/websocket/hub.go).
use lan_sync.Prelude.{
  ℕ, ◌≡◌, refl, sym, ap, ◌∙◌, false, not, some, List, [], ◌∷◌, ◌&&◌, arith, ◌==◌, nat_eq, eq_of,
  eq_self, eqb, eqb_iff, eqb_self, Bool-cases, inl, inr,
}
use lan_sync.Prelude.Int.{ℤ, int_eq}
use lan_sync.Prelude.Assoc.{lookup, delete, lookup-delete}
use lan_sync.Hub.Sets.{contains, remove, contains-remove}
use lan_sync.Hub.{
  Hub, Client, shard_index, new_hub_with_shards, client_by_user, room_members, set_client, register,
  unregister, update_rooms, join_room, leave_room, forget_room, disband_room,
}
use lan_sync.Hub.View.{is_member, set_rooms, users_kept, room_members-set_rooms}
use lan_sync.Hub.Consistency.{
  IsConsistent, register-IsConsistent, is_member-set_client, client_by_user-set_client,
}
use lan_sync.Hub.Steps.{unregister-IsConsistent}
use lan_sync.Hub.Moves.{
  update_rooms-IsConsistent, join_room-IsConsistent, leave_room-IsConsistent, in_rooms,
}

-- What forget_room leaves alone.
forget_room-is_member :
    (h : Hub) (cs : List ℕ) (room : ℤ) (d : ℕ) (r : ℤ)
    → is_member (forget_room h cs room) d r ≡ is_member h d r
unfolding forget_room
forget_room-is_member h [] room d r = refl
forget_room-is_member h (c ∷ cs) room d r =
    let client = in_rooms (h.clients c) (remove room (h.clients c).room_ids) in
    forget_room-is_member (set_client h c client) cs room d r ∙ is_member-set_client h c client d r

forget_room-client_by_user :
    (h : Hub) (cs : List ℕ) (room u : ℤ)
    → client_by_user (forget_room h cs room) u ≡ client_by_user h u
unfolding forget_room
forget_room-client_by_user h [] room u = refl
forget_room-client_by_user h (c ∷ cs) room u =
    let client = in_rooms (h.clients c) (remove room (h.clients c).room_ids) in
    forget_room-client_by_user (set_client h c client) cs room u
    ∙ client_by_user-set_client h c client u

forget_room-active :
    (h : Hub) (cs : List ℕ) (room : ℤ) (d : ℕ)
    → ((forget_room h cs room).clients d).active ≡ (h.clients d).active
unfolding forget_room
forget_room-active h [] room d = refl
forget_room-active h (c ∷ cs) room d =
    let client = in_rooms (h.clients c) (remove room (h.clients c).room_ids) in
    forget_room-active (set_client h c client) cs room d ∙ ground (arith, eqb_iff d c)

forget_room-user_id :
    (h : Hub) (cs : List ℕ) (room : ℤ) (d : ℕ)
    → ((forget_room h cs room).clients d).user_id ≡ (h.clients d).user_id
unfolding forget_room
forget_room-user_id h [] room d = refl
forget_room-user_id h (c ∷ cs) room d =
    let client = in_rooms (h.clients c) (remove room (h.clients c).room_ids) in
    forget_room-user_id (set_client h c client) cs room d ∙ ground (arith, eqb_iff d c)

forget_room-room_ids :
    (h : Hub) (cs : List ℕ) (room : ℤ) (d : ℕ) (r : ℤ)
    → contains r ((forget_room h cs room).clients d).room_ids
      ≡ (not ((room == r) && contains d cs) && contains r (h.clients d).room_ids)
unfolding forget_room contains
forget_room-room_ids h [] room d r = ground arith
forget_room-room_ids h (c ∷ cs) room d r =
    let client = in_rooms (h.clients c) (remove room (h.clients c).room_ids) in
    forget_room-room_ids (set_client h c client) cs room d r ∙ elim (Bool-cases (eqb d c)) [
      | inl same ↦
          rw (same, (eqb_iff d c).0 same)
            (ground (arith, eqb_self c, contains-remove room r (h.clients c).room_ids))
      | inr other ↦ rw other (ground (arith, other, eqb_iff c d, eqb_iff d c))
    ]

-- DisbandRoom.
module _ (h : Hub) (room : ℤ) where
  without_room : Hub
  without_room = set_rooms h room (delete room (h.shards (shard_index h room)).rooms)

  disband_room_lem : disband_room h room ≡ forget_room without_room (room_members h room) room
  unfolding disband_room without_room
  disband_room_lem = refl

  is_member-without_room :
      (d : ℕ) (r : ℤ) → is_member without_room d r ≡ (not (room == r) && is_member h d r)
  unfolding without_room contains
  is_member-without_room d r =
      let old = (h.shards (shard_index h room)).rooms in
      rw
        (room_members-set_rooms h room r (delete room old) []
          (rw (lookup-delete room room old, eq_self room))
          (λ other. rw (lookup-delete room r old, other)))
        (elim (Bool-cases (room == r)) [ inl same ↦ rw same | inr other ↦ rw other ])

  pub is_member-disband_room :
      (d : ℕ) (r : ℤ) → is_member (disband_room h room) d r ≡ (not (room == r) && is_member h d r)
  is_member-disband_room d r = rw disband_room_lem (
      forget_room-is_member without_room (room_members h room) room d r
      ∙ is_member-without_room d r)

  pub client_by_user-disband_room :
      (u : ℤ) → client_by_user (disband_room h room) u ≡ client_by_user h u
  unfolding without_room
  client_by_user-disband_room u =
      rw disband_room_lem (
        forget_room-client_by_user without_room (room_members h room) room u
        ∙ users_kept h room u _)

  pub disband_room-IsConsistent : IsConsistent h → IsConsistent (disband_room h room)
  unfolding without_room
  disband_room-IsConsistent v = rw disband_room_lem (record {
    rooms = λ d r.
        rw
          (
            forget_room-is_member without_room (room_members h room) room d r,
            is_member-without_room d r,
            forget_room-active without_room (room_members h room) room d,
            forget_room-room_ids without_room (room_members h room) room d r,
            v.rooms d r,
          )
          (elim (Bool-cases (room == r)) [
            | inl same ↦ ground (
              arith,
              same,
              v.rooms d room,
              ap (λ x. contains x (h.clients d).room_ids) (eq_of room r same),
            )
            | inr other ↦ ground (arith, other)
          ]);
    users = λ u c e.
        let old : client_by_user h u ≡ some c =
          sym (
            forget_room-client_by_user without_room (room_members h room) room u
            ∙ users_kept h room u _)
          ∙ e in
        (
          forget_room-active without_room (room_members h room) room c ∙ (v.users u c old).0,
          forget_room-user_id without_room (room_members h room) room c ∙ (v.users u c old).1,
        );
  })

-- One call of a method. A client is registered before it is active; its object is made by
-- NewClient for one connection.
pub data Step : Hub → Hub → Type 0 where
  connect :
      (h : Hub) (c : ℕ) (rs : List ℤ) → (h.clients c).active ≡ false → Step h (register h c rs)
  disconnect : (h : Hub) (c : ℕ) → Step h (unregister h c)
  update : (h : Hub) (c : ℕ) (rs : List ℤ) → Step h (update_rooms h c rs)
  join : (h : Hub) (user room : ℤ) → Step h (join_room h user room)
  leave : (h : Hub) (user room : ℤ) → Step h (leave_room h user room)
  disband : (h : Hub) (room : ℤ) → Step h (disband_room h room)

pub data Reachable (start : Hub) : Hub → Type 0 where
  done : Reachable start start
  next : {h g : Hub} → Reachable start h → Step h g → Reachable start g

Step-IsConsistent : {h g : Hub} → IsConsistent h → Step h g → IsConsistent g
Step-IsConsistent v (connect h c rs fresh) = register-IsConsistent h c rs v fresh
Step-IsConsistent v (disconnect h c) = unregister-IsConsistent h c v
Step-IsConsistent v (update h c rs) = update_rooms-IsConsistent h c rs v
Step-IsConsistent v (join h user room) = join_room-IsConsistent h user room v
Step-IsConsistent v (leave h user room) = leave_room-IsConsistent h user room v
Step-IsConsistent v (disband h room) = disband_room-IsConsistent h room v

new-IsConsistent :
    (n : ℕ) (clients : ℕ → Client) (threshold batch_size : ℕ)
    → ((c : ℕ) → (clients c).active ≡ false)
    → IsConsistent (new_hub_with_shards n clients threshold batch_size)
unfolding new_hub_with_shards room_members client_by_user contains lookup
new-IsConsistent n clients threshold batch_size inactive = record {
  rooms = λ c r. ground (arith, inactive c);
  users = λ u c e. ground (arith, e);
}

-- In every state that calls of Register, Unregister, UpdateRooms, JoinRoom, LeaveRoom and DisbandRoom
-- reach from a new hub whose clients are inactive, where Register is called on an inactive
-- client: a client is in the list of a room exactly if it is active and has the room among
-- its own rooms, and the client kept for a user is active and belongs to that user.
pub Reachable-IsConsistent :
    (n : ℕ) (clients : ℕ → Client) (threshold batch_size : ℕ) (h : Hub)
    → ((c : ℕ) → (clients c).active ≡ false)
    → Reachable (new_hub_with_shards n clients threshold batch_size) h
    → IsConsistent h
Reachable-IsConsistent n clients threshold batch_size h inactive done =
    new-IsConsistent n clients threshold batch_size inactive
Reachable-IsConsistent n clients threshold batch_size h inactive (next {h = before} path step) =
    Step-IsConsistent (Reachable-IsConsistent n clients threshold batch_size before inactive path)
      step
