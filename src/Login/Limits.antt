-- ===== src/Login/Limits.antt =====
-- How many logins an IP address tries in a window
-- (services/auth/security/login_protector.go).
use lan_sync.Prelude.{
  ℕ, suc, ◌+◌, ◌^◌, ◌<◌, ◌≤◌, ◌≡◌, refl, sym, ap, ◌∙◌, ◌⊎◌, inl, inr, Bool, true, false, not, ◌||◌,
  if◌then◌else◌, arith, String, List, [], ◌∷◌, eqb, eqb_iff, ltb, ◌==◌, string_eq, eq_of,
  Bool-cases, All, length,
}
use lan_sync.Prelude.Int.{pos, ltb_ℤ, wrap64-suc}
use lan_sync.Login.{
  WindowEntry, is_over, increment_window, Config, LoginProtector, new_login_protector, sweep,
  cleanup_locked, collect_garbage, set_entry, check_pair, check, pair_key, normalize_username,
  Attempt, Reply, Error, allow, allow_all,
}
use lan_sync.Login.Window.{is_over-before}

-- An entry that has counted `n` attempts in a window which began at `low` or later.
record Counted (low n : ℕ) (e : WindowEntry) : Type 0 where
  count : e.count ≡ pos n
  start : ((n ≡ 0) × (e.window_start ≡ 0)) ⊎ (low ≤ e.window_start)

Counted-sweep :
    (low window now n : ℕ) (m : String → WindowEntry) (k : String)
    → 0 < window
    → now < low + window
    → Counted low n (m k)
    → Counted low n (sweep m now window k)
Counted-sweep low window now n m k w lt h = elim h.start [
  | inl (none_yet, no_window) ↦ elim (Bool-cases (is_over now (m k).window_start window)) [
    | inl over ↦ rw over (record { count = ap pos (sym none_yet); start = inl (none_yet, refl) })
    | inr fresh ↦ rw fresh h
  ]
  | inr began ↦
      let kept : is_over now (m k).window_start window ≡ false =
        is_over-before now (m k).window_start window w (omega arith) in
      rw kept h
]

Counted-increment_window :
    (low window now n : ℕ) (e : WindowEntry)
    → 0 < low
    → 0 < window
    → low ≤ now
    → now < low + window
    → n + 1 < 2 ^ 63
    → Counted low n e
    → Counted low (suc n) (increment_window e now window)
unfolding increment_window
Counted-increment_window low window now n e p w le lt fits h = elim h.start [
  | inl (none_yet, no_window) ↦
      let unset : eqb e.window_start 0 ≡ true = (eqb_iff e.window_start 0).1 no_window in
      rw unset (record {
        count = wrap64-suc 0 (omega arith) ∙ ap (λ x. pos (suc x)) (sym none_yet);
        start = inr le;
      })
  | inr began ↦
      let set : eqb e.window_start 0 ≡ false = ground arith in
      let kept : is_over now e.window_start window ≡ false =
        is_over-before now e.window_start window w (omega arith) in
      rw (set, kept, h.count) (record { count = wrap64-suc n fits; start = inr began })
]

-- The attempts of an IP address.
unfoldable pub count_ip : String → List Attempt → ℕ
count_ip k [] = 0
count_ip k (a ∷ rest) = let n = count_ip k rest in if a.ip == k then suc n else n

count_ip-le : (k : String) (attempts : List Attempt) → count_ip k attempts ≤ length attempts
unfolding count_ip
count_ip-le k [] = omega arith
count_ip-le k (a ∷ rest) = ground (arith, count_ip-le k rest)

count_shift : (b : Bool) (n m : ℕ) → ((if b then suc n else n) + m) ≡ (n + (if b then suc m else m))
count_shift b n m = ground arith

add_zero : (n : ℕ) → n + 0 ≡ n
add_zero n = omega arith

zero_add : (n : ℕ) → 0 + n ≡ n
zero_add n = omega arith

new-Counted : (low : ℕ) (k : String) → Counted low 0 (new_login_protector.ips k)
unfolding new_login_protector
new-Counted low k = record { count = refl; start = inl (refl, refl) }

Counted-set_entry :
    (low window now n : ℕ) (m : String → WindowEntry) (key k : String)
    → 0 < low
    → 0 < window
    → low ≤ now
    → now < low + window
    → n + 1 < 2 ^ 63
    → Counted low n (m k)
    → Counted low
        (if key == k then suc n else n)
        (set_entry m key (increment_window (m key) now window) k)
Counted-set_entry low window now n m key k p w le lt fits h = elim (Bool-cases (key == k)) [
  | inl same ↦
      rw (same, eq_of key k same) (Counted-increment_window low window now n (m k) p w le lt fits h)
  | inr other ↦ rw other h
]

-- The clock stays within one window, which begins at `low`.
abbrev pub InWindow : ℕ → ℕ → Attempt → Type 0
InWindow low window a = (low ≤ a.now) × (a.now < low + window)

collect_garbage-ips :
    (c : Config) (p : LoginProtector) (now low n : ℕ) (k : String)
    → 0 < c.ip_window
    → now < low + c.ip_window
    → Counted low n (p.ips k)
    → Counted low n ((collect_garbage c p now).ips k)
unfolding collect_garbage cleanup_locked
collect_garbage-ips c p now low n k w lt h =
    elim (Bool-cases (eqb p.next_gc 0 || not (ltb now p.next_gc))) [
      | inl due ↦ rw due (Counted-sweep low c.ip_window now n p.ips k w lt h)
      | inr early ↦ rw early h
    ]

check-ips :
    (c : Config) (p : LoginProtector) (now : ℕ) (ip username : String)
    → (check c p now ip username).0.ips
      ≡ set_entry p.ips ip (increment_window (p.ips ip) now c.ip_window)
unfolding check check_pair
check-ips c p now ip username =
    elim (Bool-cases (ltb_ℤ c.ip_limit (increment_window (p.ips ip) now c.ip_window).count)) [
      | inl over ↦ rw over
      | inr under ↦ rw under
    ]

unfoldable pub is_ip_limited : Reply → Bool
is_ip_limited Reply.allowed = false
is_ip_limited (Reply.refused Error.ip_rate_limited) = true
is_ip_limited (Reply.refused _) = false

check_pair-is_ip_limited :
    (c : Config) (p : LoginProtector) (now : ℕ) (key : String)
    → is_ip_limited (check_pair c p now key).1 ≡ false
unfolding check_pair is_ip_limited
check_pair-is_ip_limited c p now key =
    elim (Bool-cases
      (ltb_ℤ c.pair_limit (increment_window (p.pairs key) now c.pair_window).count)) [
        | inl over ↦ rw over
        | inr under ↦ rw under
      ]

check-is_ip_limited :
    (c : Config) (p : LoginProtector) (now : ℕ) (ip username : String)
    → is_ip_limited (check c p now ip username).1
      ≡ ltb_ℤ c.ip_limit (increment_window (p.ips ip) now c.ip_window).count
unfolding check is_ip_limited
check-is_ip_limited c p now ip username =
    let state = increment_window (p.ips ip) now c.ip_window in
    elim (Bool-cases (ltb_ℤ c.ip_limit state.count)) [
      | inl over ↦ rw over
      | inr under ↦ rw under (
          check_pair-is_ip_limited c (record p { ips = set_entry p.ips ip state }) now
            (pair_key ip username))
    ]

module _ (trim lower : String → String) (c : Config) (low : ℕ)
    (enabled : c.disable_rate_limit ≡ false) (p0 : 0 < low) (w : 0 < c.ip_window) where
  allow-enabled :
      (p : LoginProtector) (a : Attempt)
      → allow trim lower c p a
        ≡ check c (collect_garbage c p a.now) a.now a.ip (normalize_username trim lower a.username)
  unfolding allow
  allow-enabled p a = simp enabled

  allow-Counted :
      (p : LoginProtector) (a : Attempt) (k : String) (n : ℕ)
      → InWindow low c.ip_window a
      → n + 1 < 2 ^ 63
      → Counted low n (p.ips k)
      → Counted low (if a.ip == k then suc n else n) ((allow trim lower c p a).0.ips k)
  allow-Counted p a k n (le, lt) fits h =
      let swept : Counted low n ((collect_garbage c p a.now).ips k) =
        collect_garbage-ips c p a.now low n k w lt h in
      rw
        (
          allow-enabled p a,
          check-ips c (collect_garbage c p a.now) a.now a.ip
              (normalize_username trim lower a.username),
        )
        (Counted-set_entry low c.ip_window a.now n (collect_garbage c p a.now).ips a.ip k p0 w le lt
          fits swept)

  allow_all-Counted :
      (p : LoginProtector) (attempts : List Attempt) (k : String) (n : ℕ)
      → All (InWindow low c.ip_window) attempts
      → n + length attempts < 2 ^ 63
      → Counted low n (p.ips k)
      → Counted low (n + count_ip k attempts) ((allow_all trim lower c p attempts).0.ips k)
  unfolding allow_all count_ip
  allow_all-Counted p [] k n within fits h = rw (add_zero n) h
  allow_all-Counted p (a ∷ rest) k n (here, within) fits h =
      rw⁻¹ (count_shift (a.ip == k) n (count_ip k rest)) (
        allow_all-Counted (allow trim lower c p a).0 rest k (if a.ip == k then suc n else n) within
          (ground (arith, fits)) (allow-Counted p a k n here (omega arith) h))

  -- While the clock stays within one IP window and the limits are enabled, an attempt after
  -- fewer than 2^63 - 1 earlier ones from a new protector is refused for its IP address
  -- exactly if the attempts of that address, itself included, are more than the limit.
  pub allow-ip_limit :
      (earlier : List Attempt) (a : Attempt)
      → All (InWindow low c.ip_window) earlier
      → InWindow low c.ip_window a
      → length earlier + 1 < 2 ^ 63
      → is_ip_limited
          (allow trim lower c (allow_all trim lower c new_login_protector earlier).0 a).1
        ≡ ltb_ℤ c.ip_limit (pos (suc (count_ip a.ip earlier)))
  allow-ip_limit earlier a within here fits =
      let p = (allow_all trim lower c new_login_protector earlier).0 in
      let n = count_ip a.ip earlier in
      let counted : Counted low n (p.ips a.ip) =
        (rw⁻¹ (zero_add n) (
          allow_all-Counted new_login_protector earlier a.ip 0 within (omega arith)
            (new-Counted low a.ip))) in
      let swept : Counted low n ((collect_garbage c p a.now).ips a.ip) =
        collect_garbage-ips c p a.now low n a.ip w here.1 counted in
      let next : Counted low (suc n)
          (increment_window ((collect_garbage c p a.now).ips a.ip) a.now c.ip_window) =
        Counted-increment_window low c.ip_window a.now n ((collect_garbage c p a.now).ips a.ip) p0 w
          here.0 here.1 (ground (arith, count_ip-le a.ip earlier)) swept in
      rw (
        allow-enabled p a,
        check-is_ip_limited c (collect_garbage c p a.now) a.now a.ip
            (normalize_username trim lower a.username),
        next.count,
      )
