-- ===== src/Login.antt =====
-- services/auth/security/login_protector.go: the rate limits on logins and the slots for bcrypt.
-- A Go map whose missing entries read as the zero value is a function. A time is its distance in
-- nanoseconds from the zero time; the clock's reading is an argument. The maps of the source
-- are iterated only to delete entries, which `sweep` does at every key.
mod Window
pub mod Sweep
pub mod Limits
mod Tests
use lan_sync.Prelude.{
  ℕ, zero, suc, ◌+◌, ◌-◌, ◌^◌, min, String, Bool, true, false, not, List, [], ◌∷◌, ◌&&◌, ◌||◌,
  if◌then◌else◌, ◌==◌, string_eq, ltb, leb, eqb,
}
use lan_sync.Prelude.Int.{ℤ, pos, negsuc, wrap64, ◌+ℤ◌, ltb_ℤ, leb_ℤ}
use Prim.Native.String.{◌++◌ as push_str}

pub data Error : Type 0 where
  ip_rate_limited pair_rate_limited bcrypt_busy cancelled : Error

-- Limits and the concurrency are positive: NewLoginProtector panics on others.
pub record Config : Type 0 where
  pub disable_rate_limit : Bool
  pub ip_limit : ℤ
  pub ip_window : ℕ
  pub pair_limit : ℤ
  pub pair_window : ℕ
  pub bcrypt_concurrent : ℕ

pub record WindowEntry : Type 0 where
  pub window_start : ℕ
  pub count : ℤ

abbrev pub zero_entry : WindowEntry
zero_entry = record { window_start = 0; count = pos 0 }

pub record LoginProtector : Type 0 where
  pub ips : String → WindowEntry
  pub pairs : String → WindowEntry
  pub slots : ℕ  -- how many of the channel's places are taken
  pub next_gc : ℕ

unfoldable pub new_login_protector : LoginProtector
new_login_protector = record {
  ips = λ k. zero_entry;
  pairs = λ k. zero_entry;
  slots = 0;
  next_gc = 0;
}

-- time.Time.Sub, which saturates at the ends of Duration.
unfoldable pub sub_time : ℕ → ℕ → ℤ
sub_time now start =
    if leb start now
    then pos (min (now - start) (2 ^ 63 - 1))
    else negsuc (min (start - now - 1) (2 ^ 63 - 1))

-- `now.Sub(state.windowStart) >= window`
unfoldable pub is_over : ℕ → ℕ → ℕ → Bool
is_over now start window = leb_ℤ (pos window) (sub_time now start)

unfoldable pub increment_window : WindowEntry → ℕ → ℕ → WindowEntry
increment_window state now window =
    let opened : WindowEntry =
      if eqb state.window_start 0 || is_over now state.window_start window
      then record { window_start = now; count = pos 0 }
      else state in
    record opened { count = wrap64 (opened.count +ℤ pos 1) }

abbrev pub sweep : (String → WindowEntry) → ℕ → ℕ → String → WindowEntry
sweep m now window k = if is_over now (m k).window_start window then zero_entry else m k

unfoldable pub cleanup_locked : Config → LoginProtector → ℕ → LoginProtector
cleanup_locked c p now = record p {
  ips = sweep p.ips now c.ip_window;
  pairs = sweep p.pairs now c.pair_window;
}

unfoldable pub collect_garbage : Config → LoginProtector → ℕ → LoginProtector
collect_garbage c p now =
    if eqb p.next_gc 0 || not (ltb now p.next_gc)
    then record (cleanup_locked c p now) { next_gc = now + min c.ip_window c.pair_window }
    else p

abbrev pub set_entry : (String → WindowEntry) → String → WindowEntry → String → WindowEntry
set_entry m key e k = if key == k then e else m k

-- `trim` and `lower` are strings.TrimSpace and strings.ToLower.
abbrev pub normalize_username : (String → String) → (String → String) → String → String
normalize_username trim lower username = lower (trim username)

unfoldable pub pair_key : String → String → String
pair_key ip username = push_str ip (push_str "\0" username)

-- The error of Allow, where nil is `allowed`; `check` is Allow after the garbage collection.
pub data Reply : Type 0 where
  allowed : Reply
  refused : Error → Reply

unfoldable pub check_pair : Config → LoginProtector → ℕ → String → LoginProtector × Reply
check_pair c p now key =
    let state = increment_window (p.pairs key) now c.pair_window in
    (
      record p { pairs = set_entry p.pairs key state },
      if ltb_ℤ c.pair_limit state.count then refused pair_rate_limited else allowed,
    )

unfoldable pub check : Config → LoginProtector → ℕ → String → String → LoginProtector × Reply
check c p now ip username =
    let state = increment_window (p.ips ip) now c.ip_window in
    let p1 : LoginProtector = record p { ips = set_entry p.ips ip state } in
    if ltb_ℤ c.ip_limit state.count
    then (p1, refused ip_rate_limited)
    else check_pair c p1 now (pair_key ip username)

-- One login attempt: the reading of the clock and the arguments of Allow.
pub record Attempt : Type 0 where
  pub now : ℕ
  pub ip : String
  pub username : String

module _ (trim lower : String → String) where
  unfoldable pub allow : Config → LoginProtector → Attempt → LoginProtector × Reply
  allow c p a =
      if c.disable_rate_limit
      then (p, allowed)
      else check c (collect_garbage c p a.now) a.now a.ip (normalize_username trim lower a.username)

  unfoldable pub allow_all : Config → LoginProtector → List Attempt → LoginProtector × List Reply
  allow_all c p [] = (p, [])
  allow_all c p (a ∷ rest) =
      let (p1, reply) = allow c p a in
      let (p2, replies) = allow_all c p1 rest in (p2, reply ∷ replies)

-- Compare takes a slot, or gives up; when the context is done and a slot is free, `select` may
-- take either case, which `prefers_done` decides.
unfoldable pub begin_compare : Config → LoginProtector → Bool → Bool → LoginProtector × Reply
begin_compare c p is_done prefers_done =
    if ltb p.slots c.bcrypt_concurrent && not (is_done && prefers_done)
    then (record p { slots = p.slots + 1 }, allowed)
    else (p, refused (if is_done then cancelled else bcrypt_busy))

-- The deferred `<-p.slots` of the goroutine that compares.
unfoldable pub end_compare : LoginProtector → LoginProtector
end_compare p = record p { slots = p.slots - 1 }
