-- ===== src/Login/Window.antt =====
-- The arithmetic of a window (services/auth/security/login_protector.go).
use lan_sync.Prelude.{ℕ, ◌+◌, ◌<◌, ◌≤◌, ◌≡◌, ◌⊎◌, inl, inr, Bool, true, false, ◌||◌, arith, eqb}
use lan_sync.Login.{WindowEntry, zero_entry, is_over, sub_time, increment_window}

-- A window that is over stays over.
pub is_over-later :
    (now later start window : ℕ)
    → now ≤ later
    → is_over now start window ≡ true
    → is_over later start window ≡ true
unfolding is_over sub_time
is_over-later now later start window le over = ground arith

-- A window is not over before its length has passed.
pub is_over-before :
    (now start window : ℕ) → 0 < window → now < start + window → is_over now start window ≡ false
unfolding is_over sub_time
is_over-before now start window p lt = ground arith

or_true : (b : Bool) → (b || true) ≡ true
or_true b = ground arith

-- The entry of a map that is swept, and the entry that the map would have without sweeping.
unfoldable pub Agrees : ℕ → ℕ → WindowEntry → WindowEntry → Type 0
Agrees now window e f = (e ≡ f) ⊎ ((e ≡ zero_entry) × (is_over now f.window_start window ≡ true))

pub increment_window-Agrees :
    (now window : ℕ) (e f : WindowEntry)
    → Agrees now window e f
    → increment_window e now window ≡ increment_window f now window
unfolding Agrees increment_window
increment_window-Agrees now window e f (inl same) = rw same
increment_window-Agrees now window e f (inr (swept, over)) =
    rw (swept, over, or_true (eqb f.window_start 0))
