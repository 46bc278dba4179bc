-- ===== src/Sequencer/Numbering.antt =====
-- One call of Assign (services/messages/sequencer/sequencer.go).
use lan_sync.Prelude.{
  ◌+◌, ◌<◌, ◌≤◌, ◌^◌, ◌≡◌, refl, List, [], ◌∷◌, String, ◌⊎◌, inl, inr, true, false, none, some,
  arith, if◌then◌else◌, Bool-cases, Option-cases, string_eq, pair_eq, eq_self, eq_of,
}
use lan_sync.Prelude.Int.{ℤ, pos, ◌+ℤ◌, ◌<ℤ◌, wrap64-id, pos_part, neg_part, scale, ◌-ℤ◌, int_eq}
use lan_sync.Prelude.Assoc.{lookup, lookup-insert, lookup-insert_self}
use lan_sync.Prelude.Result.{Result, ok, err}
use lan_sync.Events.{MessageEnvelope}
use lan_sync.Sequencer.{
  Sequencer, Error, invalid_identity, conflicting_retry, RequestKey, assign_all, key_of, is_invalid,
  is_conflict, next_id, number, record_message, assign,
}

-- While the last id is not the largest int64, the next one is larger, whatever the clock shows.
pub next_id_grows :
    (now last : ℤ) → neg_part last ≤ 2 ^ 63 → pos_part last + 1 < 2 ^ 63 → last <ℤ next_id now last
unfolding next_id
next_id_grows now last lo hi = ground (arith, wrap64-id (last +ℤ pos 1))

-- Milliseconds within some 35,000 years of 1970.
abbrev pub IsClock : ℤ → Type 0
IsClock now = (pos_part now ≤ 2 ^ 50) × (neg_part now ≤ 2 ^ 50)

pub next_id_bound :
    (now last : ℤ)
    → IsClock now
    → neg_part last ≤ 2 ^ 63
    → pos_part last + 1 < 2 ^ 63
    → (pos_part (next_id now last) ≤ 2 ^ 62) ⊎ (pos_part (next_id now last) ≤ pos_part last + 1)
unfolding next_id
next_id_bound now last c lo hi =
    ground (arith, wrap64-id (last +ℤ pos 1), wrap64-id (scale (now -ℤ pos 1750000000000) 4096))

-- The three things that a call can do: refuse the input, answer a repeated request, number a message.
pub assign_cases {ℓ} :
    (P : Result Error MessageEnvelope × Sequencer → Type ℓ) (now : ℤ) (s : Sequencer)
    (input : MessageEnvelope)
    → (is_invalid input ≡ true → P (err invalid_identity, s))
    → ((old : MessageEnvelope)
        → is_invalid input ≡ false
        → lookup (key_of input) s.requests ≡ some old
        → P (if is_conflict old input then err conflicting_retry else ok old, s))
    → (is_invalid input ≡ false
        → lookup (key_of input) s.requests ≡ none
        → P (ok (number now s input), record_message s (number now s input)))
    → P (assign now s input)
assign_cases P now s input refused repeated fresh = elim (Bool-cases (is_invalid input)) [
  | inl bad ↦ unfold assign in rw bad (refused bad)
  | inr good ↦ elim (Option-cases (lookup (key_of input) s.requests)) [
    | inl e ↦ unfold assign in rw (good, e) (fresh good e)
    | inr (old, e) ↦ unfold assign in rw (good, e) (repeated old good e)
  ]
]

abbrev pub after : ℤ → Sequencer → MessageEnvelope → Sequencer
after now s input = (assign now s input).1

abbrev pub reply : ℤ → Sequencer → MessageEnvelope → Result Error MessageEnvelope
reply now s input = (assign now s input).0

-- A refused call changes nothing.
assign-err :
    (now : ℤ) (s : Sequencer) (input : MessageEnvelope) (e : Error)
    → reply now s input ≡ err e
    → after now s input ≡ s
assign-err now s input e =
    assign_cases (λ r. r.0 ≡ err e → r.1 ≡ s) now s input (λ _ _. refl) (λ _ _ _ _. refl)
      (λ _ _ h. cc h)

-- What was stored for a request stays stored.
pub lookup-after :
    (now : ℤ) (s : Sequencer) (input : MessageEnvelope) (k : RequestKey) (m : MessageEnvelope)
    → lookup k s.requests ≡ some m
    → lookup k (after now s input).requests ≡ some m
lookup-after now s input k m h =
    assign_cases (λ r. lookup k r.1.requests ≡ some m) now s input (λ _. h) (λ _ _ _. h)
      λ _ e.
        unfold record_message number in
        ground (
          arith,
          lookup-insert (key_of input) k (number now s input) s.requests,
          (pair_eq {A = ℤ} {B = String}).beq_iff (key_of input) k,
        )

pub lookup-assign_all :
    (calls : List (ℤ × MessageEnvelope)) (s : Sequencer) (k : RequestKey) (m : MessageEnvelope)
    → lookup k s.requests ≡ some m
    → lookup k (assign_all s calls).1.requests ≡ some m
unfolding assign_all
lookup-assign_all [] s k m h = h
lookup-assign_all ((now, input) ∷ calls) s k m h =
    lookup-assign_all calls (after now s input) k m (lookup-after now s input k m h)

-- What an accepted call has stored, and how it relates to what was asked.
pub record Accepted (s : Sequencer) (input m : MessageEnvelope) : Type 0 where
  pub valid : is_invalid input ≡ false
  pub stored : lookup (key_of input) s.requests ≡ some m
  pub agrees : is_conflict m input ≡ false

number-agrees :
    (now : ℤ) (s : Sequencer) (input : MessageEnvelope)
    → is_conflict (number now s input) input ≡ false
unfolding number is_conflict
number-agrees now s input = simp (eq_self input.room_id, eq_self input.content, eq_self input.kind)

numbered-Accepted :
    (now : ℤ) (s : Sequencer) (input : MessageEnvelope)
    → is_invalid input ≡ false
    → Accepted (record_message s (number now s input)) input (number now s input)
unfolding record_message
numbered-Accepted now s input v = record {
  valid = v;
  stored = unfold number in lookup-insert_self (key_of input) (number now s input) s.requests;
  agrees = number-agrees now s input;
}

conflict_shared :
    (m input other : MessageEnvelope)
    → is_conflict m input ≡ false
    → is_conflict input other ≡ true
    → is_conflict m other ≡ true
unfolding is_conflict
conflict_shared m input other a c =
    ground
      (arith, eq_of m.room_id input.room_id, eq_of m.content input.content, eq_of m.kind input.kind)

pub reply-Accepted :
    (now : ℤ) (s : Sequencer) (input m : MessageEnvelope)
    → reply now s input ≡ ok m
    → Accepted (after now s input) input m
reply-Accepted now s input m =
    assign_cases (λ r. r.0 ≡ ok m → Accepted r.1 input m) now s input (λ _ h. cc h)
      (λ old v e h. ground arith)
      λ v e h.
        let same : number now s input ≡ m = cc h in rw (← same) (numbered-Accepted now s input v)

-- A request that was accepted is given the same reply, and changes nothing, however often it is
-- repeated: at any later time, and after any other calls.
pub reply-repeated :
    (now later : ℤ) (s : Sequencer) (input m : MessageEnvelope) (calls : List (ℤ × MessageEnvelope))
    → reply now s input ≡ ok m
    → let s' = (assign_all (after now s input) calls).1 in assign later s' input ≡ (ok m, s')
unfolding assign
reply-repeated now later s input m calls h =
    let a = reply-Accepted now s input m h in
    rw (a.valid, lookup-assign_all calls (after now s input) (key_of input) m a.stored, a.agrees)

-- Once a request is accepted, its sender and client id are bound to its room, content and type: a
-- valid call with the same two ids that differs in any of these is refused, changing nothing.
pub reply-conflict :
    (now later : ℤ) (s : Sequencer) (input other m : MessageEnvelope)
    (calls : List (ℤ × MessageEnvelope))
    → reply now s input ≡ ok m
    → key_of other ≡ key_of input
    → is_invalid other ≡ false
    → is_conflict input other ≡ true
    → let s' = (assign_all (after now s input) calls).1 in
      assign later s' other ≡ (err conflicting_retry, s')
unfolding assign
reply-conflict now later s input other m calls h k v c =
    let a = reply-Accepted now s input m h in
    rw (
      v,
      k,
      lookup-assign_all calls (after now s input) (key_of input) m a.stored,
      conflict_shared m input other a.agrees c,
    )
