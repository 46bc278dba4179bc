-- ===== src/Hub/Users.antt =====
-- Whom the hub keeps for a user (services/gateway/websocket/hub.go).
use lan_sync.Prelude.{
  ℕ, ◌≡◌, Bool, true, false, Option, none, some, ◌&&◌, arith, if◌then◌else◌, ◌==◌, eq_of, eq_self,
  eqb, eqb_iff, eqb_self, Bool-cases, inl, inr,
}
use lan_sync.Prelude.Int.{ℤ, int_eq}
use lan_sync.Prelude.Assoc.{Assoc, lookup, insert, delete, lookup-insert, lookup-delete}
use lan_sync.Hub.{Hub, shard_index, client_by_user, room_members, set_user, clear_user, is_client}

and-true : (b : Bool) → (b && true) ≡ b
and-true b = ground arith

and-false : (b : Bool) → (b && false) ≡ false
and-false b = ground arith

abbrev set_users : Hub → ℤ → Assoc ℤ ℕ → Hub
set_users h user users = record h {
  shards = λ j.
      if eqb j (shard_index h user)
      then record (h.shards (shard_index h user)) { users = users }
      else h.shards j;
}

client_by_user-set_users :
    (h : Hub) (user u : ℤ) (users : Assoc ℤ ℕ) (o : Option ℕ)
    → lookup user users ≡ o
    → ((user == u) ≡ false → lookup u users ≡ lookup u (h.shards (shard_index h user)).users)
    → client_by_user (set_users h user users) u ≡ (if user == u then o else client_by_user h u)
unfolding client_by_user
client_by_user-set_users h user u users o here elsewhere = elim (Bool-cases (user == u)) [
  | inl same ↦ rw (same, ← eq_of user u same, eqb_self (shard_index h user)) here
  | inr other ↦ rw other (elim (Bool-cases (eqb (shard_index h u) (shard_index h user))) [
    | inl shared ↦
        rw (shared, elsewhere other, (eqb_iff (shard_index h u) (shard_index h user)).0 shared)
    | inr apart ↦ rw apart
  ])
]

room_members-set_users :
    (h : Hub) (user r : ℤ) (users : Assoc ℤ ℕ)
    → room_members (set_users h user users) r ≡ room_members h r
unfolding room_members
room_members-set_users h user r users =
    elim (Bool-cases (eqb (shard_index h r) (shard_index h user))) [
      | inl shared ↦ rw (shared, (eqb_iff (shard_index h r) (shard_index h user)).0 shared)
      | inr apart ↦ rw apart
    ]

pub client_by_user-set_user :
    (h : Hub) (user u : ℤ) (c : ℕ)
    → client_by_user (set_user h user c) u ≡ (if user == u then some c else client_by_user h u)
unfolding set_user
client_by_user-set_user h user u c =
    let old = (h.shards (shard_index h user)).users in
    client_by_user-set_users h user u (insert user c old) (some c)
      (rw (lookup-insert user user c old, eq_self user))
      (λ other. rw (lookup-insert user u c old, other))

pub room_members-set_user :
    (h : Hub) (user r : ℤ) (c : ℕ) → room_members (set_user h user c) r ≡ room_members h r
unfolding set_user
room_members-set_user h user r c = room_members-set_users h user r _

pub client_by_user-clear_user :
    (h : Hub) (user u : ℤ) (c : ℕ)
    → client_by_user (clear_user h user c) u
      ≡ (if (user == u) && is_client (client_by_user h user) c then none else client_by_user h u)
unfolding clear_user
client_by_user-clear_user h user u c =
    let old = (h.shards (shard_index h user)).users in
    elim (Bool-cases (is_client (lookup user old) c)) [
      | inl mine ↦
          let m : is_client (client_by_user h user) c ≡ true = unfold client_by_user in mine in
          rw (mine, m, and-true (user == u))
            (client_by_user-set_users h user u (delete user old) none
              (rw (lookup-delete user user old, eq_self user))
              (λ ne. rw (lookup-delete user u old, ne)))
      | inr other ↦
          let m : is_client (client_by_user h user) c ≡ false = unfold client_by_user in other in
          rw (other, m, and-false (user == u))
    ]

pub room_members-clear_user :
    (h : Hub) (user r : ℤ) (c : ℕ) → room_members (clear_user h user c) r ≡ room_members h r
unfolding clear_user
room_members-clear_user h user r c =
    let old = (h.shards (shard_index h user)).users in
    elim (Bool-cases (is_client (lookup user old) c)) [
      | inl mine ↦ rw mine (room_members-set_users h user r _)
      | inr other ↦ rw other
    ]
