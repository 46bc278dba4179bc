-- ===== src/Hub/Steps.antt =====
-- Unregister on the registry (services/gateway/websocket/hub.go).
use lan_sync.Prelude.{
  ℕ, ◌≡◌, refl, sym, ap, ◌∙◌, Bool, true, false, not, Option, none, some, [], ◌&&◌, arith,
  if◌then◌else◌, ◌==◌, nat_eq, eq_self, eqb, eqb_iff, eqb_self, Bool-cases, inl, inr,
}
use lan_sync.Prelude.Int.{ℤ, int_eq}
use lan_sync.Hub.Sets.{contains}
use lan_sync.Hub.{
  Hub, Client, client_by_user, is_client, set_client, unregister, clear_user, remove_from_rooms,
}
use lan_sync.Hub.View.{is_member, is_member-remove_from_rooms, Frame, remove_from_rooms-Frame}
use lan_sync.Hub.Users.{client_by_user-clear_user, room_members-clear_user}
use lan_sync.Hub.Consistency.{
  IsConsistent, put-IsConsistent, is_member-set_client, client_by_user-set_client,
}

pub if-IsConsistent :
    (b : Bool) (g h : Hub)
    → (b ≡ true → IsConsistent g)
    → (b ≡ false → IsConsistent h)
    → IsConsistent (if b then g else h)
if-IsConsistent true g h p q = p refl
if-IsConsistent false g h p q = q refl

clear_user-clients : (h : Hub) (u : ℤ) (c : ℕ) → (clear_user h u c).clients ≡ h.clients
unfolding clear_user
clear_user-clients h u c = ground arith

if_none_cases :
    (b : Bool) (o : Option ℕ) (d : ℕ)
    → (if b then none else o) ≡ some d
    → (b ≡ false) × (o ≡ some d)
if_none_cases true o d e = ground arith
if_none_cases false o d e = (refl, e)

-- What Unregister does to the view.
module _ (h : Hub) (c : ℕ) where
  cleared : Hub
  cleared = clear_user h (h.clients c).user_id c

  is_member-cleared : (d : ℕ) (r : ℤ) → is_member cleared d r ≡ is_member h d r
  unfolding cleared
  is_member-cleared d r = ap (contains d) (room_members-clear_user h (h.clients c).user_id r c)

  gone : Client
  gone = record (h.clients c) { active = false; room_ids = []; send_closed = true }

  removed : Hub
  removed = remove_from_rooms cleared c (h.clients c).room_ids

  removed-Frame : Frame cleared removed
  unfolding removed
  removed-Frame = remove_from_rooms-Frame cleared c (h.clients c).room_ids

  unregister_lem : unregister h c ≡ (if (h.clients c).active then set_client removed c gone else h)
  unfolding unregister removed cleared gone
  unregister_lem = refl

  is_member-removed :
      (d : ℕ) (r : ℤ)
      → is_member removed d r
        ≡ (not (contains r (h.clients c).room_ids && eqb c d) && is_member h d r)
  unfolding removed
  is_member-removed d r =
      is_member-remove_from_rooms cleared c d (h.clients c).room_ids r
      ∙ ap (λ b. not (contains r (h.clients c).room_ids && eqb c d) && b) (is_member-cleared d r)

  client_by_user-removed :
      (u : ℤ)
      → client_by_user removed u ≡ (
          if ((h.clients c).user_id == u) && is_client (client_by_user h (h.clients c).user_id) c
          then none
          else client_by_user h u)
  unfolding cleared
  client_by_user-removed u =
      removed-Frame.users u ∙ client_by_user-clear_user h (h.clients c).user_id u c

  removed-clients : removed.clients ≡ h.clients
  unfolding cleared
  removed-clients = removed-Frame.clients ∙ clear_user-clients h (h.clients c).user_id c

  kept-is_client :
      (u : ℤ)
      → (h.clients c).user_id ≡ u
      → client_by_user h u ≡ some c
      → (((h.clients c).user_id == u) && is_client (client_by_user h (h.clients c).user_id) c)
        ≡ true
  kept-is_client u same kept = rw (same, kept, eq_self u, eqb_self c)

  user-removed :
      (v : IsConsistent h) (u : ℤ) (d : ℕ)
      → client_by_user removed u ≡ some d
      → (eqb d c ≡ false) × (client_by_user h u ≡ some d)
  user-removed v u d e =
      let (kept, old) =
        if_none_cases _ (client_by_user h u) d (sym (client_by_user-removed u) ∙ e) in
      (
        elim (Bool-cases (eqb d c)) [
          | inl same ↦
              let mine : client_by_user h u ≡ some c = old ∙ ap some ((eqb_iff d c).0 same) in
              ground (arith, kept, kept-is_client u (v.users u c mine).1 mine)
          | inr other ↦ other
        ],
        old,
      )

  no_member : (b a : Bool) → (not (b && true) && (a && b)) ≡ false
  no_member b a = ground arith

  not_mine : (b m : Bool) (d : ℕ) → eqb d c ≡ false → (not (b && eqb c d) && m) ≡ m
  not_mine b m d other = ground (arith, eqb_iff d c, eqb_iff c d)

  closed-IsConsistent : IsConsistent h → IsConsistent (set_client removed c gone)
  unfolding gone
  closed-IsConsistent v =
      put-IsConsistent h (set_client removed c gone) c gone v
        (λ d. ap (λ f. if eqb d c then gone else f d) removed-clients)
        (λ r.
          is_member-set_client removed c gone c r
          ∙ is_member-removed c r
          ∙ (rw (v.rooms c r, eqb_self c)
              (no_member (contains r (h.clients c).room_ids) (h.clients c).active)))
        (λ d r other.
          is_member-set_client removed c gone d r
          ∙ is_member-removed d r
          ∙ not_mine _ (is_member h d r) d other)
        (λ u d e.
          let (other, old) =
            user-removed v u d (sym (client_by_user-set_client removed c gone u) ∙ e) in
          ((λ same. ground arith), (λ _. old)))

  pub unregister-IsConsistent : IsConsistent h → IsConsistent (unregister h c)
  unregister-IsConsistent v = rw unregister_lem (
      if-IsConsistent (h.clients c).active (set_client removed c gone) h
        (λ here. closed-IsConsistent v) (λ absent. v))

-- Whom Unregister leaves for a user.
pub client_by_user-unregister :
    (h : Hub) (c : ℕ) (u : ℤ)
    → (is_client (client_by_user h (h.clients c).user_id) c ≡ false)
    → client_by_user (unregister h c) u ≡ client_by_user h u
client_by_user-unregister h c u other =
    rw (unregister_lem h c) (elim (Bool-cases (h.clients c).active) [
      | inl here ↦ rw here (
          client_by_user-set_client (removed h c) c (gone h c) u
          ∙ client_by_user-removed h c u
          ∙ ground (arith, other))
      | inr absent ↦ rw absent
    ])

pub unregister-closes :
    (h : Hub) (c : ℕ)
    → (h.clients c).active ≡ true
    → (((unregister h c).clients c).active ≡ false)
      × (((unregister h c).clients c).send_closed ≡ true)
unfolding gone
unregister-closes h c here = rw (unregister_lem h c, here, eqb_self c) (refl, refl)
