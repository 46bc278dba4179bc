-- ===== src/Login/Tests.antt =====
-- Runs of the login protector (services/auth/security/login_protector.go).
use lan_sync.Prelude.{ℕ, ◌≡◌, refl, [], ◌∷◌, String, false, arith, suc}
use lan_sync.Prelude.Int.{pos, ltb_ℤ}
use lan_sync.Login.{Config, new_login_protector, Attempt, allow, allow_all}
use lan_sync.Login.Sweep.{replies_unswept, Monotonic, allow_all-replies_unswept}
use lan_sync.Login.Limits.{is_ip_limited, count_ip, allow-ip_limit}

abbrev config : Config
config = record {
  disable_rate_limit = false;
  ip_limit = pos 1;
  ip_window = 60;
  pair_limit = pos 5;
  pair_window = 60;
  bcrypt_concurrent = 2;
}

abbrev same : String → String
same s = s

abbrev attempt : ℕ → String → Attempt
attempt now ip = record { now = now; ip = ip; username = "ann" }

limit_example :
    is_ip_limited
      (allow same same config
        (allow_all same same config new_login_protector (attempt 10 "a" ∷ attempt 20 "b" ∷ [])).0
        (attempt 30 "a")).1
    ≡ ltb_ℤ (pos 1) (pos (suc (count_ip "a" (attempt 10 "a" ∷ attempt 20 "b" ∷ []))))
limit_example =
    allow-ip_limit same same config 10 refl (omega arith) (omega arith)
      (attempt 10 "a" ∷ attempt 20 "b" ∷ []) (attempt 30 "a")
      ((omega arith, omega arith), ((omega arith, omega arith), tt)) (omega arith, omega arith)
      (omega arith)

unswept_example :
    (allow_all same same config new_login_protector (attempt 10 "a" ∷ attempt 80 "a" ∷ [])).1
    ≡ replies_unswept same same config new_login_protector (attempt 10 "a" ∷ attempt 80 "a" ∷ [])
unswept_example =
    allow_all-replies_unswept same same config 10 new_login_protector
      (attempt 10 "a" ∷ attempt 80 "a" ∷ [])
      (Monotonic.tick (attempt 10 "a") (omega arith)
        (Monotonic.tick (attempt 80 "a") (omega arith) Monotonic.stop))
