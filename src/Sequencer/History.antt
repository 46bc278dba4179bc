-- ===== src/Sequencer/History.antt =====
-- The abstract view of the sequencer: the list of the messages that it numbered, oldest first
-- (services/messages/sequencer/sequencer.go). The map of the requests keeps them in that order.
use lan_sync.Prelude.{
  ℕ, zero, suc, ◌+◌, ◌<◌, ◌≤◌, ◌^◌, ◌≡◌, refl, List, [], ◌∷◌, ◌++◌, map, inl, inr, none, arith,
  if◌then◌else◌, ◌==◌, eq_of, Bool-cases, length, length-append, keep, keep-append, All, All-append,
  All-map, string_eq, pair_eq,
}
use lan_sync.Prelude.Int.{
  ℤ, pos, ◌<ℤ◌, ◌≤ℤ◌, wrap64-suc, neg_part_of_lt, pos_part, neg_part, int_eq,
}
use lan_sync.Prelude.Assoc.{values, lookup, lookup-insert, values-insert_new}
use lan_sync.Events.{MessageEnvelope}
use lan_sync.Sequencer.{
  Sequencer, new, key_of, room_counter, next_id, number, record_message, assign_all,
}
use lan_sync.Sequencer.Numbering.{IsClock, next_id_grows, next_id_bound, assign_cases, after}
use mathlib.Core.List.{map-append, append-nil}
use native.Mathlib.Nat.{add-zero}
use native.Mathlib.Numerals.{add-one}

abbrev pub history : Sequencer → List MessageEnvelope
history s = values s.requests

abbrev pub in_room : ℤ → List MessageEnvelope → List MessageEnvelope
in_room r = keep (λ m. m.room_id == r)

abbrev pub seqs : ℤ → List MessageEnvelope → List ℤ
seqs r h = map (λ m. m.room_seq) (in_room r h)

-- 1, 2, …, n
abbrev pub upto : ℕ → List ℤ
upto zero = []
upto (suc n) = upto n ++ pos (suc n) ∷ []

-- The ids grow from each message to all that follow it.
abbrev pub Ascending : List MessageEnvelope → Type 0
Ascending [] = Unit
Ascending (m ∷ ms) = All (λ x. m.message_id <ℤ x.message_id) ms × Ascending ms

Ascending-append :
    (ms : List MessageEnvelope) (m : MessageEnvelope)
    → Ascending ms
    → All (λ x. x.message_id <ℤ m.message_id) ms
    → Ascending (ms ++ m ∷ [])
Ascending-append [] m a b = (tt, tt)
Ascending-append (x ∷ ms) m a b =
    (All-append _ ms (m ∷ []) a.0 (b.0, tt), Ascending-append ms m a.1 b.1)

in_room-le : (r : ℤ) (h : List MessageEnvelope) → length (in_room r h) ≤ length h
in_room-le r [] = omega arith
in_room-le r (m ∷ h) = ground (arith, in_room-le r h)

-- What holds after `n` calls.
pub record Inv (n : ℕ) (s : Sequencer) : Type 0 where
  pub counters : (r : ℤ) → room_counter s.rooms r ≡ pos (length (in_room r (history s)))
  pub gap_free : (r : ℤ) → seqs r (history s) ≡ upto (length (in_room r (history s)))
  pub ascending : Ascending (history s)
  pub below : All (λ m. m.message_id ≤ℤ s.last_id) (history s)
  pub numbered : length (history s) ≤ n
  pub last_positive : neg_part s.last_id ≡ 0
  pub last_bound : pos_part s.last_id ≤ 2 ^ 62 + n

pub new-Inv : Inv 0 new
unfolding room_counter lookup
new-Inv = record {
  counters = λ r. refl;
  gap_free = λ r. refl;
  ascending = tt;
  below = tt;
  numbered = omega arith;
  last_positive = refl;
  last_bound = omega arith;
}

-- A call that numbers nothing keeps the invariant.
Inv-wait : (n : ℕ) (s : Sequencer) → Inv n s → Inv (suc n) s
Inv-wait n s v = record {
  counters = v.counters;
  gap_free = v.gap_free;
  ascending = v.ascending;
  below = v.below;
  numbered = omega (arith, v.numbered);
  last_positive = v.last_positive;
  last_bound = omega (arith, v.last_bound);
}

module _ (now : ℤ) (n : ℕ) (s : Sequencer) (input : MessageEnvelope) (v : Inv n s)
    (clock : IsClock now) (room : n + 1 < 2 ^ 62)
    (fresh : lookup (key_of input) s.requests ≡ none) where
  history_grows :
      history (record_message s (number now s input)) ≡ history s ++ number now s input ∷ []
  unfolding record_message number
  history_grows = values-insert_new (key_of input) (number now s input) s.requests fresh

  seq_next : (number now s input).room_seq ≡ pos (suc (length (in_room input.room_id (history s))))
  unfolding number
  seq_next =
      rw (v.counters input.room_id)
        (wrap64-suc _ (omega (arith, in_room-le input.room_id (history s), v.numbered)))

  room_grows :
      (r : ℤ)
      → in_room r (history (record_message s (number now s input))) ≡ (
          if input.room_id == r
          then in_room r (history s) ++ number now s input ∷ []
          else in_room r (history s))
  unfolding number
  room_grows r =
      rw (history_grows, keep-append (λ m. m.room_id == r) (history s))
        (ground (arith, append-nil (in_room r (history s))))

  counter_grows :
      (r : ℤ)
      → room_counter (record_message s (number now s input)).rooms r
        ≡ (if input.room_id == r then (number now s input).room_seq else room_counter s.rooms r)
  unfolding record_message room_counter number
  counter_grows r =
      ground (arith, lookup-insert input.room_id r (number now s input).room_seq s.rooms)

  counters_next :
      (r : ℤ)
      → room_counter (record_message s (number now s input)).rooms r
        ≡ pos (length (in_room r (history (record_message s (number now s input)))))
  counters_next r =
      rw (counter_grows r, room_grows r)
        (ground (
          arith,
          seq_next,
          v.counters r,
          eq_of input.room_id r,
          length-append (in_room r (history s)) (number now s input ∷ []),
        ))

  upto_next :
      (xs : List MessageEnvelope)
      → map (λ m. m.room_seq) xs ≡ upto (length xs)
      → (number now s input).room_seq ≡ pos (suc (length xs))
      → map (λ m. m.room_seq) (xs ++ number now s input ∷ [])
        ≡ upto (length (xs ++ number now s input ∷ []))
  upto_next xs h e = rw (
    map-append (λ (m : MessageEnvelope). m.room_seq) xs (number now s input ∷ []),
    length-append xs (number now s input ∷ []),
    add-one (length xs),
    h,
    e,
  )

  gap_free_next :
      (r : ℤ)
      → seqs r (history (record_message s (number now s input)))
        ≡ upto (length (in_room r (history (record_message s (number now s input)))))
  gap_free_next r = elim (Bool-cases (input.room_id == r)) [
    | inl here ↦
        rw (room_grows r, here)
          (upto_next _ (v.gap_free r) (rw (← eq_of input.room_id r here) seq_next))
    | inr elsewhere ↦ rw (room_grows r, elsewhere) (v.gap_free r)
  ]

  grows : s.last_id <ℤ next_id now s.last_id
  grows = next_id_grows now s.last_id (omega (arith, v.last_positive)) (omega (arith, v.last_bound))

  record-Inv : Inv (suc n) (record_message s (number now s input))
  unfolding record_message number
  record-Inv = record {
    counters = counters_next;
    gap_free = gap_free_next;
    ascending = rw history_grows (
        Ascending-append (history s) (number now s input) v.ascending
          (All-map (λ m h. omega (arith, grows)) (history s) v.below));
    below = rw history_grows (
        All-append _ (history s) (number now s input ∷ [])
          (All-map (λ m h. omega (arith, grows)) (history s) v.below) (omega arith, tt));
    numbered =
        rw history_grows
          (omega (arith, v.numbered, length-append (history s) (number now s input ∷ [])));
    last_positive = neg_part_of_lt s.last_id _ v.last_positive grows;
    last_bound = omega (
      arith,
      v.last_bound,
      next_id_bound now s.last_id clock (omega (arith, v.last_positive))
          (omega (arith, v.last_bound)),
    );
  }

-- One call keeps the invariant.
after-Inv :
    (now : ℤ) (n : ℕ) (s : Sequencer) (input : MessageEnvelope)
    → Inv n s
    → IsClock now
    → n + 1 < 2 ^ 62
    → Inv (suc n) (after now s input)
after-Inv now n s input v clock room =
    assign_cases (λ r. Inv (suc n) r.1) now s input (λ _. Inv-wait n s v) (λ _ _ _. Inv-wait n s v)
      λ _ e. record-Inv now n s input v clock room e

pub assign_all-Inv :
    (calls : List (ℤ × MessageEnvelope)) (n : ℕ) (s : Sequencer)
    → Inv n s
    → All (λ c. IsClock c.0) calls
    → n + length calls < 2 ^ 62
    → Inv (n + length calls) (assign_all s calls).1
unfolding assign_all
assign_all-Inv [] n s v clocks room = rw add-zero v
assign_all-Inv ((now, input) ∷ calls) n s v clocks room =
    let e : suc n + length calls ≡ n + suc (length calls) = omega arith in
    rw (← e) (
      assign_all-Inv calls (suc n) (after now s input)
        (after-Inv now n s input v clocks.0 (omega arith)) clocks.1 (omega arith))

-- However the calls are mixed, and however the clock jumps, the messages of each room are numbered
-- 1, 2, 3, … in the order in which they were accepted, with no gap and no repetition.
pub assign_all-gap_free :
    (calls : List (ℤ × MessageEnvelope)) (r : ℤ)
    → All (λ c. IsClock c.0) calls
    → length calls < 2 ^ 62
    → let h = history (assign_all new calls).1 in seqs r h ≡ upto (length (in_room r h))
assign_all-gap_free calls r clocks room =
    (assign_all-Inv calls 0 new new-Inv clocks (omega arith)).gap_free r

-- And their ids grow strictly from each accepted message to all later ones, over all rooms.
pub assign_all-Ascending :
    (calls : List (ℤ × MessageEnvelope))
    → All (λ c. IsClock c.0) calls
    → length calls < 2 ^ 62
    → Ascending (history (assign_all new calls).1)
assign_all-Ascending calls clocks room =
    (assign_all-Inv calls 0 new new-Inv clocks (omega arith)).ascending
