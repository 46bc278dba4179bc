-- ===== src/Hub/Consistency.antt =====
-- The invariant of the registry, and Register (services/gateway/websocket/hub.go).
use lan_sync.Prelude.{
  ℕ, ◌≡◌, refl, sym, ap, ◌∙◌, Bool, true, false, Option, some, List, ◌&&◌, ◌||◌, arith,
  if◌then◌else◌, ◌==◌, nat_eq, ◌⊎◌, eq_of, eqb, eqb_iff, eqb_self, Bool-cases, inl, inr,
}
use lan_sync.Prelude.Int.{ℤ, int_eq}
use lan_sync.Hub.Sets.{contains, of_list, contains-of_list}
use lan_sync.Hub.{
  Hub, Client, client_by_user, room_members, set_client, register, set_user, add_to_rooms,
}
use lan_sync.Hub.View.{is_member, is_member-add_to_rooms, Frame, add_to_rooms-Frame}
use lan_sync.Hub.Users.{client_by_user-set_user, room_members-set_user}

-- A client is in the list of a room exactly if it is active and has the room among its own; the
-- client that is kept for a user is active and is the user's.
pub record IsConsistent (h : Hub) : Type 0 where
  pub rooms :
      (c : ℕ) (r : ℤ)
      → is_member h c r ≡ ((h.clients c).active && contains r (h.clients c).room_ids)
  pub users :
      (u : ℤ) (c : ℕ)
      → client_by_user h u ≡ some c
      → ((h.clients c).active ≡ true) × ((h.clients c).user_id ≡ u)

-- A step that replaces one client, and what is then left to show of the two halves.
abbrev put : (ℕ → Client) → ℕ → Client → ℕ → Client
put clients c v d = if eqb d c then v else clients d

module _ (h g : Hub) (c : ℕ) (new : Client) (v : IsConsistent h)
    (clients : (d : ℕ) → g.clients d ≡ put h.clients c new d)
    (joins : (r : ℤ) → is_member g c r ≡ (new.active && contains r new.room_ids))
    (others : (d : ℕ) (r : ℤ) → eqb d c ≡ false → is_member g d r ≡ is_member h d r)
    (users : (u : ℤ) (d : ℕ)
      → client_by_user g u ≡ some d
      → (eqb d c ≡ true → (new.active ≡ true) × (new.user_id ≡ u))
        × (eqb d c ≡ false → client_by_user h u ≡ some d)) where
  pub put-IsConsistent : IsConsistent g
  put-IsConsistent = record {
    rooms = λ d r. elim (Bool-cases (eqb d c)) [
      | inl mine ↦ rw (clients d, mine, (eqb_iff d c).0 mine) (joins r)
      | inr other ↦ rw (clients d, other) (others d r other ∙ v.rooms d r)
    ];
    users = λ u d e. elim (Bool-cases (eqb d c)) [
      | inl mine ↦ rw (clients d, mine) ((users u d e).0 mine)
      | inr other ↦ rw (clients d, other) (v.users u d ((users u d e).1 other))
    ];
  }

-- Membership in terms of the view, for the client that a step changes and for another.
or_self : (b : Bool) → ((b && true) || false) ≡ b
or_self b = ground arith

some-injective : {c d : ℕ} → some c ≡ some d → c ≡ d
some-injective e = ground arith

room_members-set_client :
    (h : Hub) (c : ℕ) (new : Client) (r : ℤ)
    → room_members (set_client h c new) r ≡ room_members h r
unfolding room_members
room_members-set_client h c new r = refl

pub client_by_user-set_client :
    (h : Hub) (c : ℕ) (new : Client) (u : ℤ)
    → client_by_user (set_client h c new) u ≡ client_by_user h u
unfolding client_by_user
client_by_user-set_client h c new u = refl

pub is_member-set_client :
    (h : Hub) (c : ℕ) (new : Client) (d : ℕ) (r : ℤ)
    → is_member (set_client h c new) d r ≡ is_member h d r
is_member-set_client h c new d r = ap (contains d) (room_members-set_client h c new r)

set_user-clients : (h : Hub) (u : ℤ) (c : ℕ) → (set_user h u c).clients ≡ h.clients
unfolding set_user
set_user-clients h u c = refl

pub kept_cases :
    (b : Bool) (c d : ℕ) (o : Option ℕ)
    → (if b then some c else o) ≡ some d
    → ((b ≡ true) × (c ≡ d)) ⊎ ((b ≡ false) × (o ≡ some d))
kept_cases true c d o e = inl (refl, some-injective e)
kept_cases false c d o e = inr (refl, e)

-- Registering a client that is not registered yet.
module _ (h : Hub) (c : ℕ) (rs : List ℤ) (v : IsConsistent h)
    (fresh : (h.clients c).active ≡ false) where
  registered : Client
  registered = record (h.clients c) { active = true; room_ids = of_list rs }

  with_user : Hub
  unfolding registered
  with_user = set_user (set_client h c registered) (h.clients c).user_id c

  is_member-with_user : (d : ℕ) (r : ℤ) → is_member with_user d r ≡ is_member h d r
  unfolding with_user
  is_member-with_user d r = ap (contains d) (
      room_members-set_user (set_client h c registered) (h.clients c).user_id r c
      ∙ room_members-set_client h c registered r)

  is_member-register :
      (d : ℕ) (r : ℤ)
      → is_member (register h c rs) d r ≡ ((contains r rs && eqb c d) || is_member h d r)
  unfolding register with_user registered
  is_member-register d r =
      is_member-add_to_rooms with_user c d rs r
      ∙ ap (λ b. (contains r rs && eqb c d) || b) (is_member-with_user d r)

  register-clients : (d : ℕ) → (register h c rs).clients d ≡ put h.clients c registered d
  unfolding register registered with_user
  register-clients d =
      let frame : Frame with_user (add_to_rooms with_user c rs) =
        add_to_rooms-Frame with_user c rs in
      ap (λ f. f d)
        (frame.clients ∙ set_user-clients (set_client h c registered) (h.clients c).user_id c)

  pub user_id-register :
      (d : ℕ) → eqb d c ≡ false → ((register h c rs).clients d).user_id ≡ (h.clients d).user_id
  unfolding registered
  user_id-register d other = rw (register-clients d, other)

  pub client_by_user-register :
      (u : ℤ)
      → client_by_user (register h c rs) u
        ≡ (if (h.clients c).user_id == u then some c else client_by_user h u)
  unfolding register registered with_user
  client_by_user-register u =
      let frame : Frame with_user (add_to_rooms with_user c rs) =
        add_to_rooms-Frame with_user c rs in
      let user = (h.clients c).user_id in
      frame.users u
      ∙ client_by_user-set_user (set_client h c registered) user u c
      ∙ ap (λ o. if user == u then some c else o) (client_by_user-set_client h c registered u)

  other_member :
      (b : Bool) (d : ℕ) (r : ℤ)
      → eqb d c ≡ false
      → ((b && eqb c d) || is_member h d r) ≡ is_member h d r
  other_member b d r other = ground (arith, eqb_iff d c, eqb_iff c d)

  user-register :
      (u : ℤ) (d : ℕ)
      → (if (h.clients c).user_id == u then some c else client_by_user h u) ≡ some d
      → (eqb d c ≡ true → (true ≡ true) × ((h.clients c).user_id ≡ u))
        × (eqb d c ≡ false → client_by_user h u ≡ some d)
  user-register u d e = elim (kept_cases ((h.clients c).user_id == u) c d (client_by_user h u) e) [
    | inl (same, mine) ↦ (
      (λ here. (refl, eq_of (h.clients c).user_id u same)),
      (λ other. ground (arith, eqb_iff d c)),
    )
    | inr (differs, old) ↦
        ((λ here. ground (arith, eqb_iff d c, v.users u c, v.users u d)), (λ other. old))
  ]

  pub register-IsConsistent : IsConsistent (register h c rs)
  unfolding registered
  register-IsConsistent =
      put-IsConsistent h (register h c rs) c registered v register-clients
        (λ r.
          rw (is_member-register c r, v.rooms c r, fresh, eqb_self c, contains-of_list r rs)
            (or_self (contains r rs)))
        (λ d r other. is_member-register d r ∙ other_member (contains r rs) d r other)
        (λ u d e. user-register u d (sym (client_by_user-register u) ∙ e))
