-- ===== src/Prelude/Int.antt =====
-- Signed machine integers: the integer they stand for, and the wrap-around of Go's conversions.
use Prim.Native.Nat.{ℕ, suc, ◌+◌, ◌-◌, ◌*◌, ◌%◌, ◌^◌, ◌≤◌, ◌<◌}
use mathlib.Core.Path.{◌≡◌}
use mathlib.Core.Logic.{◌↔◌}
use mathlib.Core.Bool.{Bool, true, false}
use native.Mathlib.Omega.{arith}
use lan_sync.Prelude.Logic.{ltb, leb, eqb, if◌then◌else◌, Eq}

-- `negsuc n` is -(n + 1).
pub data ℤ : Type 0 where
  pos : ℕ → ℤ
  negsuc : ℕ → ℤ

abbrev pub pos_part : ℤ → ℕ
pos_part (pos n) = n
pos_part (negsuc n) = 0

abbrev pub neg_part : ℤ → ℕ
neg_part (pos n) = 0
neg_part (negsuc n) = suc n

-- a - b, as an integer.
abbrev pub sub_ℕ : ℕ → ℕ → ℤ
sub_ℕ a b = if leb b a then pos (a - b) else negsuc (b - a - 1)

infixl 65 ◌+ℤ◌ ◌-ℤ◌
abbrev pub ◌+ℤ◌ : ℤ → ℤ → ℤ
a +ℤ b = sub_ℕ (pos_part a + pos_part b) (neg_part a + neg_part b)

abbrev pub ◌-ℤ◌ : ℤ → ℤ → ℤ
a -ℤ b = sub_ℕ (pos_part a + neg_part b) (neg_part a + pos_part b)

abbrev pub ltb_ℤ : ℤ → ℤ → Bool
ltb_ℤ a b = ltb (pos_part a + neg_part b) (pos_part b + neg_part a)

abbrev pub leb_ℤ : ℤ → ℤ → Bool
leb_ℤ a b = leb (pos_part a + neg_part b) (pos_part b + neg_part a)

infix 50 ◌<ℤ◌ ◌≤ℤ◌
abbrev pub ◌<ℤ◌ : ℤ → ℤ → Type 0
a <ℤ b = pos_part a + neg_part b < pos_part b + neg_part a

abbrev pub ◌≤ℤ◌ : ℤ → ℤ → Type 0
a ≤ℤ b = pos_part a + neg_part b ≤ pos_part b + neg_part a

-- Multiplication by a natural number.
abbrev pub scale : ℤ → ℕ → ℤ
scale a k = sub_ℕ (pos_part a * k) (neg_part a * k)

abbrev pub int_beq : ℤ → ℤ → Bool
int_beq (pos a) (pos b) = eqb a b
int_beq (negsuc a) (negsuc b) = eqb a b
int_beq _ _ = false

pub int_beq_iff : (a b : ℤ) → (int_beq a b ≡ true) ↔ (a ≡ b)
int_beq_iff (pos a) (pos b) = ground arith
int_beq_iff (pos a) (negsuc b) = ground arith
int_beq_iff (negsuc a) (pos b) = ground arith
int_beq_iff (negsuc a) (negsuc b) = ground arith

instance abbrev pub int_eq : Eq ℤ
int_eq = record { beq = int_beq; beq_iff = int_beq_iff }

-- The bit pattern of a signed value, and the signed value of a bit pattern, at `m` = 2^w.
abbrev pub to_bits : ℕ → ℤ → ℕ
to_bits m (pos n) = n % m
to_bits m (negsuc n) = m - 1 - n % m

abbrev pub of_bits : ℕ → ℕ → ℕ → ℤ
of_bits half m u = if ltb u half then pos u else negsuc (m - 1 - u)

-- `int64(z)`, `int8(z)` and `uint64(z)`.
unfoldable pub wrap64 : ℤ → ℤ
wrap64 z = of_bits (2 ^ 63) (2 ^ 64) (to_bits (2 ^ 64) z)

unfoldable pub wrap8 : ℤ → ℤ
wrap8 z = of_bits 128 256 (to_bits 256 z)

unfoldable pub u64 : ℤ → ℕ
u64 z = to_bits (2 ^ 64) z

-- The values that an int64, or an int8, can have.
abbrev pub FitsInt64 : ℤ → Type 0
FitsInt64 z = (pos_part z < 2 ^ 63) × (neg_part z ≤ 2 ^ 63)

abbrev pub FitsInt8 : ℤ → Type 0
FitsInt8 z = (pos_part z < 128) × (neg_part z ≤ 128)

pub wrap64-fits : (z : ℤ) → FitsInt64 (wrap64 z)
unfolding wrap64
wrap64-fits (pos n) = ground arith
wrap64-fits (negsuc n) = ground arith

pub wrap64-id : (z : ℤ) → FitsInt64 z → wrap64 z ≡ z
unfolding wrap64
wrap64-id (pos n) h = ground arith
wrap64-id (negsuc n) h = ground arith

pub wrap8-id : (z : ℤ) → FitsInt8 z → wrap8 z ≡ z
unfolding wrap8
wrap8-id (pos n) h = ground arith
wrap8-id (negsuc n) h = ground arith

pub wrap64-suc : (n : ℕ) → n + 1 < 2 ^ 63 → wrap64 (pos n +ℤ pos 1) ≡ pos (suc n)
unfolding wrap64
wrap64-suc n h = ground arith

pub neg_part_of_lt : (a b : ℤ) → neg_part a ≡ 0 → a <ℤ b → neg_part b ≡ 0
neg_part_of_lt a (pos n) z h = omega arith
neg_part_of_lt a (negsuc n) z h = absurd (omega arith)
