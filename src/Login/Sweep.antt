-- ===== src/Login/Sweep.antt =====
-- The login windows with and without their garbage collection
-- (services/auth/security/login_protector.go).
use lan_sync.Prelude.{
  ℕ, ◌≤◌, ◌≡◌, refl, sym, ap, ◌∙◌, inl, inr, Bool, true, false, not, ◌||◌, if◌then◌else◌, String,
  List, [], ◌∷◌, eqb, ltb, ◌==◌, string_eq, Bool-cases,
}
use lan_sync.Prelude.Int.{ltb_ℤ}
use lan_sync.Login.{
  WindowEntry, is_over, increment_window, Config, LoginProtector, sweep, cleanup_locked,
  collect_garbage, set_entry, check_pair, check, pair_key, normalize_username, Attempt, Reply,
  allow, allow_all,
}
use lan_sync.Login.Window.{Agrees, is_over-later, increment_window-Agrees}

-- The protector without a garbage collection.
module _ (trim lower : String → String) where
  unfoldable pub allow_unswept : Config → LoginProtector → Attempt → LoginProtector × Reply
  allow_unswept c p a =
      if c.disable_rate_limit
      then (p, Reply.allowed)
      else check c p a.now a.ip (normalize_username trim lower a.username)

  unfoldable pub replies_unswept : Config → LoginProtector → List Attempt → List Reply
  replies_unswept c p [] = []
  replies_unswept c p (a ∷ rest) =
      (allow_unswept c p a).1 ∷ replies_unswept c (allow_unswept c p a).0 rest

-- The clock's readings do not decrease.
pub data Monotonic : ℕ → List Attempt → Type 0 where
  stop : {t : ℕ} → Monotonic t []
  tick :
      {t : ℕ} (a : Attempt) {rest : List Attempt}
      → t ≤ a.now
      → Monotonic a.now rest
      → Monotonic t (a ∷ rest)

record Close (c : Config) (now : ℕ) (p q : LoginProtector) : Type 0 where
  ips : (k : String) → Agrees now c.ip_window (p.ips k) (q.ips k)
  pairs : (k : String) → Agrees now c.pair_window (p.pairs k) (q.pairs k)

Agrees-later :
    (now later window : ℕ) (e f : WindowEntry)
    → now ≤ later
    → Agrees now window e f
    → Agrees later window e f
unfolding Agrees
Agrees-later now later window e f le (inl same) = inl same
Agrees-later now later window e f le (inr (swept, over)) =
    inr (swept, is_over-later now later f.window_start window le over)

Agrees-sweep :
    (m : String → WindowEntry) (now window : ℕ) (k : String) (f : WindowEntry)
    → Agrees now window (m k) f
    → Agrees now window (sweep m now window k) f
unfolding Agrees
Agrees-sweep m now window k f (inl same) =
    elim (Bool-cases (is_over now (m k).window_start window)) [
      | inl over ↦
          rw over (inr (refl, ap (λ g. is_over now g.window_start window) (sym same) ∙ over))
      | inr fresh ↦ rw fresh (inl same)
    ]
Agrees-sweep m now window k f (inr (swept, over)) =
    elim (Bool-cases (is_over now (m k).window_start window)) [
      | inl gone ↦ rw gone (inr (refl, over))
      | inr fresh ↦ rw fresh (inr (swept, over))
    ]

Agrees-set_entry :
    (m n : String → WindowEntry) (now window : ℕ) (key : String) (e : WindowEntry)
    → ((k : String) → Agrees now window (m k) (n k))
    → (k : String) → Agrees now window (set_entry m key e k) (set_entry n key e k)
unfolding Agrees
Agrees-set_entry m n now window key e h k = elim (Bool-cases (key == k)) [
  | inl same ↦ rw same (inl refl)
  | inr other ↦ rw other (h k)
]

Close-later :
    (c : Config) (now later : ℕ) (p q : LoginProtector)
    → now ≤ later
    → Close c now p q
    → Close c later p q
Close-later c now later p q le h = record {
  ips = λ k. Agrees-later now later c.ip_window (p.ips k) (q.ips k) le (h.ips k);
  pairs = λ k. Agrees-later now later c.pair_window (p.pairs k) (q.pairs k) le (h.pairs k);
}

Close-collect_garbage :
    (c : Config) (now : ℕ) (p q : LoginProtector)
    → Close c now p q
    → Close c now (collect_garbage c p now) q
unfolding collect_garbage cleanup_locked
Close-collect_garbage c now p q h = elim (Bool-cases (eqb p.next_gc 0 || not (ltb now p.next_gc))) [
  | inl due ↦ rw due (record {
    ips = λ k. Agrees-sweep p.ips now c.ip_window k (q.ips k) (h.ips k);
    pairs = λ k. Agrees-sweep p.pairs now c.pair_window k (q.pairs k) (h.pairs k);
  })
  | inr early ↦ rw early h
]

check_pair-Close :
    (c : Config) (p q : LoginProtector) (now : ℕ) (key : String)
    → Close c now p q
    → ((check_pair c p now key).1 ≡ (check_pair c q now key).1)
      × Close c now (check_pair c p now key).0 (check_pair c q now key).0
unfolding check_pair
check_pair-Close c p q now key h =
    let e = increment_window (q.pairs key) now c.pair_window in
    rw (increment_window-Agrees now c.pair_window (p.pairs key) (q.pairs key) (h.pairs key)) (
      refl,
      record {
        ips = h.ips;
        pairs = Agrees-set_entry p.pairs q.pairs now c.pair_window key e h.pairs;
      },
    )

check-Close :
    (c : Config) (p q : LoginProtector) (now : ℕ) (ip username : String)
    → Close c now p q
    → ((check c p now ip username).1 ≡ (check c q now ip username).1)
      × Close c now (check c p now ip username).0 (check c q now ip username).0
unfolding check
check-Close c p q now ip username h =
    let e = increment_window (q.ips ip) now c.ip_window in
    let p1 : LoginProtector = record p { ips = set_entry p.ips ip e } in
    let q1 : LoginProtector = record q { ips = set_entry q.ips ip e } in
    let h1 : Close c now p1 q1 = record {
      ips = Agrees-set_entry p.ips q.ips now c.ip_window ip e h.ips;
      pairs = h.pairs;
    } in
    rw (increment_window-Agrees now c.ip_window (p.ips ip) (q.ips ip) (h.ips ip))
      (elim (Bool-cases (ltb_ℤ c.ip_limit e.count)) [
        | inl over ↦ rw over (refl, h1)
        | inr under ↦ rw under (check_pair-Close c p1 q1 now (pair_key ip username) h1)
      ])

if-Close :
    (c : Config) (now : ℕ) (b : Bool) (x y x1 y1 : LoginProtector × Reply)
    → (x.1 ≡ y.1) × Close c now x.0 y.0
    → (x1.1 ≡ y1.1) × Close c now x1.0 y1.0
    → ((if b then x else x1).1 ≡ (if b then y else y1).1)
      × Close c now (if b then x else x1).0 (if b then y else y1).0
if-Close c now true x y x1 y1 h k = h
if-Close c now false x y x1 y1 h k = k

module _ (trim lower : String → String) where
  allow-Close :
      (c : Config) (p q : LoginProtector) (a : Attempt)
      → Close c a.now p q
      → ((allow trim lower c p a).1 ≡ (allow_unswept trim lower c q a).1)
        × Close c a.now (allow trim lower c p a).0 (allow_unswept trim lower c q a).0
  unfolding allow allow_unswept
  allow-Close c p q a h =
      let username = normalize_username trim lower a.username in
      if-Close c a.now c.disable_rate_limit (p, Reply.allowed) (q, Reply.allowed)
        (check c (collect_garbage c p a.now) a.now a.ip username) (check c q a.now a.ip username)
        (refl, h)
        (check-Close c (collect_garbage c p a.now) q a.now a.ip username
          (Close-collect_garbage c a.now p q h))

  replies-Close :
      (c : Config) (t : ℕ) (p q : LoginProtector) (attempts : List Attempt)
      → Close c t p q
      → Monotonic t attempts
      → (allow_all trim lower c p attempts).1 ≡ replies_unswept trim lower c q attempts
  unfolding allow_all replies_unswept
  replies-Close c t p q [] h stop = refl
  replies-Close c t p q (a ∷ rest) h (tick _ le mono) =
      let (same, h1) = allow-Close c p q a (Close-later c t a.now p q le h) in
      rw (
        same,
        replies-Close c a.now (allow trim lower c p a).0 (allow_unswept trim lower c q a).0 rest h1
            mono,
      )

  -- For every protector and every sequence of login attempts whose clock does not go back, Allow
  -- gives the answers that it would give if it never collected garbage.
  pub allow_all-replies_unswept :
      (c : Config) (t : ℕ) (p : LoginProtector) (attempts : List Attempt)
      → Monotonic t attempts
      → (allow_all trim lower c p attempts).1 ≡ replies_unswept trim lower c p attempts
  unfolding Agrees
  allow_all-replies_unswept c t p attempts mono =
      replies-Close c t p p attempts (record { ips = λ k. inl refl; pairs = λ k. inl refl }) mono
