-- ===== src/Messages/Ordered.antt =====
-- The order in which both stores read their rows, and the rows behind a cursor (services/messages/repository).
use lan_sync.Prelude.{
  ◌≡◌, ◌≢◌, refl, Bool, true, false, Option, none, some, List, [], ◌∷◌, ◌&&◌, ◌||◌, ◌==◌, All,
  arith,
}
use lan_sync.Prelude.Int.{ℤ, pos, ltb_ℤ, ◌<ℤ◌, int_eq}
use lan_sync.Messages.{Row, or_zero}
use lan_sync.Messages.Mysql
use lan_sync.Messages.Mongo

-- Whether the first of two rows comes earlier under `room_seq DESC, id DESC`, where NULL comes last.
abbrev pub seq_first : Option ℤ → Option ℤ → Bool → Bool
seq_first none none by_id = by_id
seq_first none (some b) by_id = false
seq_first (some a) none by_id = true
seq_first (some a) (some b) by_id = ltb_ℤ b a || (a == b && by_id)

abbrev pub is_newer : Row → Row → Bool
is_newer a b = seq_first a.room_seq b.room_seq (ltb_ℤ b.id a.id)

-- A number is positive where there is one.
abbrev pub IsNumber : Option ℤ → Type 0
IsNumber none = Unit
IsNumber (some n) = pos 0 <ℤ n

module _ (x y : Row) (p : IsNumber x.room_seq) (q : IsNumber y.room_seq) where
  seqs-mysql :
      (s t : Option ℤ)
      → IsNumber s
      → IsNumber t
      → s ≡ x.room_seq
      → t ≡ y.room_seq
      → Mysql.older (or_zero x.room_seq) x.id y ≡ is_newer x y
  unfolding Mysql.older
  seqs-mysql none none p q e f = rw (← e, ← f) (ground arith)
  seqs-mysql none (some b) p q e f = rw (← e, ← f) (ground (arith, int_eq.beq_iff b (pos 0)))
  seqs-mysql (some a) none p q e f = rw (← e, ← f) (ground arith)
  seqs-mysql (some a) (some b) p q e f =
      rw (← e, ← f) (ground (arith, int_eq.beq_iff a b, int_eq.beq_iff b a))

  seqs-mongo :
      (s t : Option ℤ)
      → IsNumber s
      → IsNumber t
      → s ≡ x.room_seq
      → t ≡ y.room_seq
      → Mongo.older (or_zero x.room_seq) x.id y ≡ is_newer x y
  unfolding Mongo.older
  seqs-mongo none none p q e f = rw (← e, ← f) (ground arith)
  seqs-mongo none (some b) p q e f = rw (← e, ← f) (ground (arith, int_eq.beq_iff b (pos 0)))
  seqs-mongo (some a) none p q e f = rw (← e, ← f) (ground arith)
  seqs-mongo (some a) (some b) p q e f =
      rw (← e, ← f) (ground (arith, int_eq.beq_iff a b, int_eq.beq_iff b a))

  -- The conditions of both stores pick exactly the rows behind the cursor.
  pub mysql-older : Mysql.older (or_zero x.room_seq) x.id y ≡ is_newer x y
  mysql-older = seqs-mysql x.room_seq y.room_seq p q refl refl

  pub mongo-older : Mongo.older (or_zero x.room_seq) x.id y ≡ is_newer x y
  mongo-older = seqs-mongo x.room_seq y.room_seq p q refl refl

seq_first-asym :
    (s t : Option ℤ) (b c : Bool)
    → (b ≡ true → c ≡ false)
    → seq_first s t b ≡ true
    → seq_first t s c ≡ false
seq_first-asym none none b c k h = k h
seq_first-asym none (some m) b c k h = cc h
seq_first-asym (some n) none b c k h = refl
seq_first-asym (some n) (some m) b c k h = ground (arith, int_eq.beq_iff n m, int_eq.beq_iff m n, k)

ltb_ℤ-asym : (a b : ℤ) → ltb_ℤ a b ≡ true → ltb_ℤ b a ≡ false
ltb_ℤ-asym a b h = ground arith

pub is_newer-asym : (x y : Row) → is_newer x y ≡ true → is_newer y x ≡ false
is_newer-asym x y =
    seq_first-asym x.room_seq y.room_seq (ltb_ℤ y.id x.id) (ltb_ℤ x.id y.id) (ltb_ℤ-asym y.id x.id)

-- Rows as an engine sorts them: newest first, with different ids, and numbers that are positive.
abbrev pub IsOrdered : List Row → Type 0
IsOrdered [] = Unit
IsOrdered (x ∷ rest) =
    (IsNumber x.room_seq × All (λ y. (is_newer x y ≡ true) × (x.id ≢ y.id)) rest) × IsOrdered rest
