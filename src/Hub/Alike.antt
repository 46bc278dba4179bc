-- ===== src/Hub/Alike.antt =====
-- Hubs on which the order of deliveries leaves no trace but that of the clients to evict
-- (services/gateway/websocket/hub.go).
use mathlib.Core.Path.{subst}
use mathlib.Core.List.{Permᴰ}
use lan_sync.Prelude.{
  ℕ, suc, ◌≡◌, refl, sym, ap, ◌∙◌, Bool, true, false, not, List, [], ◌∷◌, ◌++◌, ◌&&◌, ◌||◌, arith,
  if◌then◌else◌, ltb, eqb, eqb_iff, eqb_self, length, length-append, Bool-cases, inl, inr, if_cases,
}
use lan_sync.Hub.{
  Hub, Client, OutboundMessage, set_shard, shard_index, kill_capacity, try_send, request_evict,
  deliver_to, deliver, send_all,
}

-- The same clients, in hubs of as many shards that wait to evict as many clients.
pub record IsAlike (h g : Hub) : Type 0 where
  pub count : h.shard_count ≡ g.shard_count
  pub clients : (c : ℕ) → h.clients c ≡ g.clients c
  pub kills : (i : ℕ) → length (h.shards i).kill_client ≡ length (g.shards i).kill_client

pub IsAlike-refl : (h : Hub) → IsAlike h h
IsAlike-refl h = record { count = refl; clients = λ c. refl; kills = λ i. refl }

pub IsAlike-trans : (h g f : Hub) → IsAlike h g → IsAlike g f → IsAlike h f
IsAlike-trans h g f a b = record {
  count = a.count ∙ b.count;
  clients = λ c. a.clients c ∙ b.clients c;
  kills = λ i. a.kills i ∙ b.kills i;
}

-- One more client to evict, if it is asked for and there is a place.
abbrev bump : Bool → ℕ → ℕ
bump asks n = if asks && ltb n kill_capacity then suc n else n

bump_comm : (a b : Bool) (n : ℕ) → bump a (bump b n) ≡ bump b (bump a n)
bump_comm true true n = refl
bump_comm true false n = refl
bump_comm false true n = refl
bump_comm false false n = refl

-- `request_evict` on the shard `k`.
abbrev evict_at : Hub → ℕ → ℕ → Hub
evict_at h k x =
    if ltb (length (h.shards k).kill_client) kill_capacity
    then set_shard h k (record (h.shards k) { kill_client = (h.shards k).kill_client ++ x ∷ [] })
    else h

abbrev waiting : Hub → ℕ → ℕ
waiting h i = length (h.shards i).kill_client

evict_at-same : (h : Hub) (i x : ℕ) → waiting (evict_at h i x) i ≡ bump true (waiting h i)
evict_at-same h i x = elim (Bool-cases (ltb (waiting h i) kill_capacity)) [
  | inl room ↦
      rw (room, evict_at)
        (rw (eqb_self i, set_shard, waiting)
          (omega (arith, length-append (h.shards i).kill_client (x ∷ []))))
  | inr full ↦ rw (full, evict_at) refl
]

evict_at-other : (h : Hub) (i k x : ℕ) → eqb i k ≡ false → waiting (evict_at h k x) i ≡ waiting h i
evict_at-other h i k x other = elim (Bool-cases (ltb (waiting h k) kill_capacity)) [
  | inl room ↦ rw (room, evict_at) (rw (other, set_shard, waiting) refl)
  | inr full ↦ rw (full, evict_at) refl
]

evict_at-waiting : (h : Hub) (i k x : ℕ) → waiting (evict_at h k x) i ≡ bump (eqb i k) (waiting h i)
evict_at-waiting h i k x = elim (Bool-cases (eqb i k)) [
  | inl same ↦ rw same (
      subst (λ (k : ℕ). waiting (evict_at h k x) i ≡ bump true (waiting h i)) ((eqb_iff i k).0 same)
        (evict_at-same h i x))
  | inr other ↦ rw other (evict_at-other h i k x other)
]

request_evict-rest :
    (h : Hub) (x : ℕ)
    → ((request_evict h x).clients ≡ h.clients) × ((request_evict h x).shard_count ≡ h.shard_count)
unfolding request_evict
request_evict-rest h x =
    let k = shard_index h (h.clients x).user_id in
    if_cases (λ (g : Hub). (g.clients ≡ h.clients) × (g.shard_count ≡ h.shard_count))
      (ltb (length (h.shards k).kill_client) kill_capacity) _ _ (λ _. (refl, refl))
      (λ _. (refl, refl))

-- What a delivery does, for the outcome of its TrySend.
deliver_to-count :
    (h : Hub) (x : ℕ) (sent : Client × Bool) → (deliver_to h x sent).shard_count ≡ h.shard_count
deliver_to-count h x (client, true) = refl
deliver_to-count h x (client, false) = (request_evict-rest h x).1

deliver_to-client :
    (h : Hub) (x d : ℕ) (sent : Client × Bool)
    → (sent.1 ≡ false → sent.0 ≡ h.clients x)
    → (deliver_to h x sent).clients d ≡ (if eqb d x then sent.0 else h.clients d)
deliver_to-client h x d (client, true) kept = refl
deliver_to-client h x d (client, false) kept = elim (Bool-cases (eqb d x)) [
  | inl same ↦ rw same (
      ap (λ (f : ℕ → Client). f d) (request_evict-rest h x).0
      ∙ (ap h.clients ((eqb_iff d x).0 same) ∙ sym (kept refl)))
  | inr other ↦ rw other (ap (λ (f : ℕ → Client). f d) (request_evict-rest h x).0)
]

deliver_to-waiting :
    (h : Hub) (x i : ℕ) (sent : Client × Bool)
    → waiting (deliver_to h x sent) i
      ≡ bump (not sent.1 && eqb i (shard_index h (h.clients x).user_id)) (waiting h i)
unfolding request_evict
deliver_to-waiting h x i (client, true) = refl
deliver_to-waiting h x i (client, false) =
    evict_at-waiting h i (shard_index h (h.clients x).user_id) x

module _ (m : OutboundMessage) where
  abbrev tried : Client → Client
  tried client = (try_send client m).0

  abbrev asks : Hub → ℕ → ℕ → Bool
  asks h x i = not (try_send (h.clients x) m).1 && eqb i (shard_index h (h.clients x).user_id)

  refused-kept : (client : Client) → (try_send client m).1 ≡ false → tried client ≡ client
  unfolding try_send
  refused-kept client e =
      let shut = client.send_closed || not (ltb (length client.send) client.capacity) in
      elim (Bool-cases shut) [
        | inl yes_shut ↦ rw (yes_shut, tried) refl
        | inr free ↦ absurd (let k = rw free at e in cc k)
      ]

  tried-user : (client : Client) → (tried client).user_id ≡ client.user_id
  unfolding try_send
  tried-user client =
      if_cases (λ (r : Client × Bool). r.0.user_id ≡ client.user_id)
        (client.send_closed || not (ltb (length client.send) client.capacity)) _ _ (λ _. refl)
        (λ _. refl)

  at_client :
      (h : Hub) (x d : ℕ)
      → (if eqb d x then tried (h.clients x) else h.clients d)
        ≡ (if eqb d x then tried (h.clients d) else h.clients d)
  at_client h x d = elim (Bool-cases (eqb d x)) [
    | inl same ↦ rw (same, (eqb_iff d x).0 same) refl
    | inr other ↦ rw other refl
  ]

  deliver-client :
      (h : Hub) (x d : ℕ)
      → (deliver h x m).clients d ≡ (if eqb d x then tried (h.clients d) else h.clients d)
  deliver-client h x d =
      deliver_to-client h x d (try_send (h.clients x) m) (refused-kept (h.clients x))
      ∙ at_client h x d

  deliver-waiting :
      (h : Hub) (x i : ℕ) → waiting (deliver h x m) i ≡ bump (asks h x i) (waiting h i)
  deliver-waiting h x i = deliver_to-waiting h x i (try_send (h.clients x) m)

  -- Two deliveries to different clients do not change what each other asks for.
  asks-deliver : (h : Hub) (x y i : ℕ) → eqb y x ≡ false → asks (deliver h x m) y i ≡ asks h y i
  asks-deliver h x y i other =
      let same : (deliver h x m).clients y ≡ h.clients y = deliver-client h x y ∙ rw other refl in
      let count : (deliver h x m).shard_count ≡ h.shard_count =
        deliver_to-count h x (try_send (h.clients x) m) in
      rw (same, shard_index, count) refl

  pub deliver-IsAlike : (h g : Hub) (x : ℕ) → IsAlike h g → IsAlike (deliver h x m) (deliver g x m)
  deliver-IsAlike h g x a = record {
    count =
        deliver_to-count h x (try_send (h.clients x) m)
        ∙ (a.count ∙ sym (deliver_to-count g x (try_send (g.clients x) m)));
    clients = λ d.
        deliver-client h x d
        ∙ (ap (λ (c : Client). if eqb d x then tried c else c) (a.clients d)
            ∙ sym (deliver-client g x d));
    kills = λ i.
        deliver-waiting h x i
        ∙ (rw (a.clients x, a.count, a.kills i, asks, shard_index, waiting) refl
            ∙ sym (deliver-waiting g x i));
  }

  at_twice :
      (a b : Bool) (c : Client)
      → (if a then tried (if b then tried c else c) else (if b then tried c else c))
        ≡ (if b then tried (if a then tried c else c) else (if a then tried c else c))
  at_twice true true c = refl
  at_twice true false c = refl
  at_twice false true c = refl
  at_twice false false c = refl

  swap-client :
      (h : Hub) (x y d : ℕ)
      → (deliver (deliver h x m) y m).clients d ≡ (deliver (deliver h y m) x m).clients d
  swap-client h x y d =
      rw
        (
          deliver-client (deliver h x m) y d,
          deliver-client (deliver h y m) x d,
          deliver-client h x d,
          deliver-client h y d,
        )
        (at_twice (eqb d y) (eqb d x) (h.clients d))

  swap-waiting :
      (h : Hub) (x y i : ℕ)
      → eqb y x ≡ false
      → eqb x y ≡ false
      → waiting (deliver (deliver h x m) y m) i ≡ waiting (deliver (deliver h y m) x m) i
  swap-waiting h x y i first second =
      rw
        (
          deliver-waiting (deliver h x m) y i,
          deliver-waiting (deliver h y m) x i,
          deliver-waiting h x i,
          deliver-waiting h y i,
          asks-deliver h x y i first,
          asks-deliver h y x i second,
        )
        (bump_comm (asks h y i) (asks h x i) (waiting h i))

  swap-IsAlike :
      (h : Hub) (x y : ℕ) → IsAlike (deliver (deliver h x m) y m) (deliver (deliver h y m) x m)
  swap-IsAlike h x y = elim (Bool-cases (eqb y x)) [
    | inl same ↦ twice (sym ((eqb_iff y x).0 same))
    | inr first ↦ elim (Bool-cases (eqb x y)) [
      | inl same ↦ twice ((eqb_iff x y).0 same)
      | inr second ↦ record {
        count =
            deliver_to-count (deliver h x m) y _
            ∙ (deliver_to-count h x (try_send (h.clients x) m)
                ∙ sym (
                    deliver_to-count (deliver h y m) x _
                    ∙ deliver_to-count h y (try_send (h.clients y) m)));
        clients = swap-client h x y;
        kills = λ i. swap-waiting h x y i first second;
      }
    ]
  ]
    where
      twice : x ≡ y → IsAlike (deliver (deliver h x m) y m) (deliver (deliver h y m) x m)
      twice e =
          subst (λ (z : ℕ). IsAlike (deliver (deliver h x m) z m) (deliver (deliver h z m) x m)) e
            (IsAlike-refl (deliver (deliver h x m) x m))

  send_all-IsAlike :
      (h g : Hub) (cs : List ℕ) → IsAlike h g → IsAlike (send_all h cs m) (send_all g cs m)
  unfolding send_all
  send_all-IsAlike h g [] a = a
  send_all-IsAlike h g (c ∷ cs) a =
      send_all-IsAlike (deliver h c m) (deliver g c m) cs (deliver-IsAlike h g c a)

  -- Whatever the order of the clients, the loop leaves the same clients, and as many to evict in every shard.
  pub send_all-order :
      {order clients : List ℕ} (h : Hub)
      → Permᴰ order clients
      → IsAlike (send_all h order m) (send_all h clients m)
  unfolding send_all
  send_all-order h Permᴰ.nil = IsAlike-refl h
  send_all-order h (Permᴰ.cons {a = a} {b = b} {l₁ = l₁} {l₂ = l₂} e p) =
      subst (λ (z : ℕ). IsAlike (send_all (deliver h a m) l₁ m) (send_all (deliver h z m) l₂ m)) e
        (send_all-order (deliver h a m) p)
  send_all-order h (Permᴰ.swap {a = a} {b = b} {a' = a'} {b' = b'} {l = l} e₁ e₂) =
      subst
        (λ (z : ℕ).
          IsAlike (send_all (deliver (deliver h a m) b m) l m)
            (send_all (deliver (deliver h a' m) z m) l m))
        e₁
        (subst
          (λ (z : ℕ).
            IsAlike (send_all (deliver (deliver h a m) b m) l m)
              (send_all (deliver (deliver h z m) a m) l m))
          e₂ (send_all-IsAlike _ _ l (swap-IsAlike h a b)))
  send_all-order h (Permᴰ.trans {l₁ = l₁} {l₂ = l₂} {l₃ = l₃} p q) =
      IsAlike-trans (send_all h l₁ m) (send_all h l₂ m) (send_all h l₃ m) (send_all-order h p)
        (send_all-order h q)
