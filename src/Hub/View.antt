-- ===== src/Hub/View.antt =====
-- The registry without its shards: which client a user has, and who is in a room
-- (services/gateway/websocket/hub.go). Each lemma says how a step changes that view.
use lan_sync.Prelude.{
  ℕ, ◌≡◌, refl, ◌∙◌, Bool, false, not, Option, none, some, List, [], ◌∷◌, ◌&&◌, ◌||◌, arith,
  if◌then◌else◌, ◌==◌, nat_eq, eq_of, eq_self, eqb, eqb_iff, eqb_self, Bool-cases, inl, inr,
}
use lan_sync.Prelude.Int.{ℤ, int_eq}
use lan_sync.Prelude.Assoc.{Assoc, lookup, insert, lookup-insert, lookup-insert_self, lookup-delete}
use lan_sync.Hub.Sets.{contains, add, remove, contains-add, contains-remove}
use lan_sync.Hub.{
  Hub, shard_index, members, store_members, without_client, client_by_user, room_members,
  add_client_to_room, remove_client_from_room, add_to_rooms, remove_from_rooms,
}

-- Is client `c` in the list of room `r`?
abbrev pub is_member : Hub → ℕ → ℤ → Bool
is_member h c r = contains c (room_members h r)

-- The room that a step rewrites, and every other room.
abbrev pub set_rooms : Hub → ℤ → Assoc ℤ (List ℕ) → Hub
set_rooms h room rooms = record h {
  shards = λ j.
      if eqb j (shard_index h room)
      then record (h.shards (shard_index h room)) { rooms = rooms }
      else h.shards j;
}

or_shuffle : (a b e m : Bool) → ((b && e) || ((a && e) || m)) ≡ (((a || b) && e) || m)
or_shuffle a b e m = ground arith

and_shuffle : (a b e m : Bool) → (not (b && e) && (not (a && e) && m)) ≡ (not ((a || b) && e) && m)
and_shuffle a b e m = ground arith

pub users_kept :
    (h : Hub) (room u : ℤ) (rooms : Assoc ℤ (List ℕ))
    → client_by_user (set_rooms h room rooms) u ≡ client_by_user h u
unfolding client_by_user
users_kept h room u rooms = elim (Bool-cases (eqb (shard_index h u) (shard_index h room))) [
  | inl shared ↦ rw (shared, (eqb_iff (shard_index h u) (shard_index h room)).0 shared)
  | inr apart ↦ rw apart
]

pub room_members-set_rooms :
    (h : Hub) (room r : ℤ) (rooms : Assoc ℤ (List ℕ)) (cs : List ℕ)
    → members (lookup room rooms) ≡ cs
    → ((room == r) ≡ false → lookup r rooms ≡ lookup r (h.shards (shard_index h room)).rooms)
    → room_members (set_rooms h room rooms) r ≡ (if room == r then cs else room_members h r)
unfolding room_members
room_members-set_rooms h room r rooms cs here elsewhere = elim (Bool-cases (room == r)) [
  | inl same ↦ rw (same, ← eq_of room r same, eqb_self (shard_index h room)) here
  | inr other ↦ rw other (elim (Bool-cases (eqb (shard_index h r) (shard_index h room))) [
    | inl shared ↦
        rw (shared, elsewhere other, (eqb_iff (shard_index h r) (shard_index h room)).0 shared)
    | inr apart ↦ rw apart
  ])
]

pub room_members-add :
    (h : Hub) (c : ℕ) (room r : ℤ)
    → room_members (add_client_to_room h c room) r
      ≡ (if room == r then add c (room_members h room) else room_members h r)
unfolding add_client_to_room
room_members-add h c room r =
    let old = (h.shards (shard_index h room)).rooms in
    let cs = add c (members (lookup room old)) in
    room_members-set_rooms h room r (insert room cs old) (add c (room_members h room))
      (unfold room_members in rw (lookup-insert_self room cs old))
      (λ other. rw (lookup-insert room r cs old, other))

stored-here :
    (rooms : Assoc ℤ (List ℕ)) (room : ℤ) (cs : List ℕ)
    → members (lookup room (store_members rooms room cs)) ≡ cs
stored-here rooms room [] = rw (lookup-delete room room rooms, eq_self room)
stored-here rooms room (c ∷ cs) = rw (lookup-insert_self room (c ∷ cs) rooms)

stored-elsewhere :
    (rooms : Assoc ℤ (List ℕ)) (room r : ℤ) (cs : List ℕ)
    → (room == r) ≡ false
    → lookup r (store_members rooms room cs) ≡ lookup r rooms
stored-elsewhere rooms room r [] e = rw (lookup-delete room r rooms, e)
stored-elsewhere rooms room r (c ∷ cs) e = rw (lookup-insert room r (c ∷ cs) rooms, e)

without_client-here :
    (rooms : Assoc ℤ (List ℕ)) (room : ℤ) (o : Option (List ℕ)) (c : ℕ)
    → lookup room rooms ≡ o
    → members (lookup room (without_client rooms room o c)) ≡ remove c (members o)
without_client-here rooms room none c e = rw e (unfold remove in refl)
without_client-here rooms room (some cs) c e = stored-here rooms room (remove c cs)

without_client-elsewhere :
    (rooms : Assoc ℤ (List ℕ)) (room r : ℤ) (o : Option (List ℕ)) (c : ℕ)
    → (room == r) ≡ false
    → lookup r (without_client rooms room o c) ≡ lookup r rooms
without_client-elsewhere rooms room r none c e = refl
without_client-elsewhere rooms room r (some cs) c e = stored-elsewhere rooms room r (remove c cs) e

pub room_members-remove :
    (h : Hub) (c : ℕ) (room r : ℤ)
    → room_members (remove_client_from_room h c room) r
      ≡ (if room == r then remove c (room_members h room) else room_members h r)
unfolding remove_client_from_room
room_members-remove h c room r =
    let old = (h.shards (shard_index h room)).rooms in
    room_members-set_rooms h room r (without_client old room (lookup room old) c)
      (remove c (room_members h room))
      (unfold room_members in without_client-here old room (lookup room old) c refl)
      (without_client-elsewhere old room r (lookup room old) c)

pub is_member-add :
    (h : Hub) (c d : ℕ) (room r : ℤ)
    → is_member (add_client_to_room h c room) d r ≡ (((room == r) && eqb c d) || is_member h d r)
is_member-add h c d room r = rw (room_members-add h c room r) (elim (Bool-cases (room == r)) [
  | inl same ↦ rw (same, contains-add c d (room_members h room), eq_of room r same)
  | inr other ↦ rw other
])

pub is_member-remove :
    (h : Hub) (c d : ℕ) (room r : ℤ)
    → is_member (remove_client_from_room h c room) d r
      ≡ (not ((room == r) && eqb c d) && is_member h d r)
is_member-remove h c d room r = rw (room_members-remove h c room r) (elim (Bool-cases (room == r)) [
  | inl same ↦ rw (same, contains-remove c d (room_members h room), eq_of room r same)
  | inr other ↦ rw other
])

pub is_member-add_to_rooms :
    (h : Hub) (c d : ℕ) (rs : List ℤ) (r : ℤ)
    → is_member (add_to_rooms h c rs) d r ≡ ((contains r rs && eqb c d) || is_member h d r)
unfolding add_to_rooms contains
is_member-add_to_rooms h c d [] r = refl
is_member-add_to_rooms h c d (x ∷ rs) r =
    rw (is_member-add_to_rooms (add_client_to_room h c x) c d rs r, is_member-add h c d x r)
      (or_shuffle (x == r) (contains r rs) (eqb c d) (is_member h d r))

pub is_member-remove_from_rooms :
    (h : Hub) (c d : ℕ) (rs : List ℤ) (r : ℤ)
    → is_member (remove_from_rooms h c rs) d r ≡ (not (contains r rs && eqb c d) && is_member h d r)
unfolding remove_from_rooms contains
is_member-remove_from_rooms h c d [] r = refl
is_member-remove_from_rooms h c d (x ∷ rs) r =
    rw
      (
        is_member-remove_from_rooms (remove_client_from_room h c x) c d rs r,
        is_member-remove h c d x r,
      )
      (and_shuffle (x == r) (contains r rs) (eqb c d) (is_member h d r))

-- What a step leaves alone: the clients, and whom each user has.
pub record Frame (h g : Hub) : Type 0 where
  pub clients : g.clients ≡ h.clients
  pub users : (u : ℤ) → client_by_user g u ≡ client_by_user h u

Frame-trans : {f g h : Hub} → Frame f g → Frame g h → Frame f h
Frame-trans a b = record { clients = b.clients ∙ a.clients; users = λ u. b.users u ∙ a.users u }

pub add-Frame : (h : Hub) (c : ℕ) (room : ℤ) → Frame h (add_client_to_room h c room)
unfolding add_client_to_room client_by_user
add-Frame h c room = record { clients = refl; users = λ u. users_kept h room u _ }

pub remove-Frame : (h : Hub) (c : ℕ) (room : ℤ) → Frame h (remove_client_from_room h c room)
unfolding remove_client_from_room client_by_user
remove-Frame h c room = record { clients = refl; users = λ u. users_kept h room u _ }

pub add_to_rooms-Frame : (h : Hub) (c : ℕ) (rs : List ℤ) → Frame h (add_to_rooms h c rs)
unfolding add_to_rooms
add_to_rooms-Frame h c [] = record { clients = refl; users = λ u. refl }
add_to_rooms-Frame h c (r ∷ rs) =
    Frame-trans (add-Frame h c r) (add_to_rooms-Frame (add_client_to_room h c r) c rs)

pub remove_from_rooms-Frame : (h : Hub) (c : ℕ) (rs : List ℤ) → Frame h (remove_from_rooms h c rs)
unfolding remove_from_rooms
remove_from_rooms-Frame h c [] = record { clients = refl; users = λ u. refl }
remove_from_rooms-Frame h c (r ∷ rs) =
    Frame-trans (remove-Frame h c r) (remove_from_rooms-Frame (remove_client_from_room h c r) c rs)
