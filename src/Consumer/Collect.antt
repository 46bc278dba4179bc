-- ===== src/Consumer/Collect.antt =====
-- The inner loop of consumeBatches (services/messages/sequencer/batch.go).
use mathlib.Core.List.{append_assoc}
use lan_sync.Prelude.{
  ℕ, ◌+◌, ◌<◌, ◌≡◌, refl, true, false, Option, none, some, List, [], ◌∷◌, ◌++◌, arith, length,
  length-append, total, total-append, Bool-cases, and_true, inl, inr,
}
use lan_sync.Prelude.Int.{pos, ltb_ℤ, ◌≤ℤ◌, ◌<ℤ◌}
use lan_sync.Consumer.{
  KafkaMessage, size, BatchOptions, has_room, Poll, arrives, expired, fails, Batch, collect,
}

abbrev pub to_list {ℓ} : {A : Type ℓ} → Option A → List A
to_list none = []
to_list (some a) = a ∷ []

-- Nothing that was fetched is dropped, repeated or reordered: it is in the batch, pending, or still
-- in the partition.
pub collect-conserves :
    (opts : BatchOptions) (records : List KafkaMessage) (bytes : ℕ) (polls : List Poll)
    (source : List KafkaMessage)
    → let b = collect opts records bytes polls source in
      b.records ++ (to_list b.pending ++ b.source) ≡ records ++ source
unfolding collect
collect-conserves opts records bytes [] source = refl
collect-conserves opts records bytes (arrives ∷ polls) [] = refl
collect-conserves opts records bytes (arrives ∷ polls) (next ∷ source) = ground (
  arith,
  collect-conserves opts (records ++ next ∷ []) (bytes + size next) polls source,
  append_assoc records (next ∷ []) source,
)
collect-conserves opts records bytes (expired ∷ polls) source = refl
collect-conserves opts records bytes (fails ∷ polls) source = ground arith

-- A batch keeps to both limits, if it keeps to them when the loop starts.
pub record Fits (opts : BatchOptions) (records : List KafkaMessage) : Type 0 where
  pub count : pos (length records) ≤ℤ opts.max_messages
  pub bytes : pos (total size records) ≤ℤ opts.max_bytes
  pub nonempty : 0 < length records

Fits-append :
    (opts : BatchOptions) (records : List KafkaMessage) (next : KafkaMessage)
    → ltb_ℤ (pos (length records)) opts.max_messages ≡ true
    → ltb_ℤ opts.max_bytes (pos (total size records + size next)) ≡ false
    → Fits opts (records ++ next ∷ [])
Fits-append opts records next room fits = record {
  count = rw (length-append records (next ∷ [])) (ground arith);
  bytes = rw (total-append size records (next ∷ [])) (ground arith);
  nonempty = rw (length-append records (next ∷ [])) (omega arith);
}

pub collect-Fits :
    (opts : BatchOptions) (records : List KafkaMessage) (bytes : ℕ) (polls : List Poll)
    (source : List KafkaMessage)
    → bytes ≡ total size records
    → Fits opts records
    → Fits opts (collect opts records bytes polls source).records
unfolding collect
collect-Fits opts records bytes [] source e f = f
collect-Fits opts records bytes (arrives ∷ polls) [] e f = f
collect-Fits opts records bytes (arrives ∷ polls) (next ∷ source) e f =
    elim (Bool-cases (has_room opts records bytes)) [
      | inr full ↦ rw full f
      | inl room ↦ elim (Bool-cases (ltb_ℤ opts.max_bytes (pos (bytes + size next)))) [
        | inl over ↦ rw (room, over) f
        | inr fits ↦
            rw (room, fits)
              (collect-Fits opts (records ++ next ∷ []) (bytes + size next) polls source
                (rw (e, total-append size records (next ∷ [])) (omega arith))
                (Fits-append opts records next (and_true _ _ room).0 (rw (← e) fits)))
      ]
    ]
collect-Fits opts records bytes (expired ∷ polls) source e f = f
collect-Fits opts records bytes (fails ∷ polls) source e f = ground arith

abbrev SetAside : BatchOptions → KafkaMessage → Batch → Type 0
SetAside opts m b = b.pending ≡ some m → opts.max_bytes <ℤ pos (total size b.records + size m)

SetAside-next :
    (opts : BatchOptions) (records : List KafkaMessage) (bytes : ℕ) (next : KafkaMessage)
    (source : List KafkaMessage) (m : KafkaMessage)
    → bytes ≡ total size records
    → ltb_ℤ opts.max_bytes (pos (bytes + size next)) ≡ true
    → SetAside opts m
        (record { records = records; pending = some next; terminal = none; source = source })
SetAside-next opts records bytes next source m e over h =
    let same : next ≡ m = cc h in rw (← same, ← e) (ground arith)

-- A message is set aside only where it would take the batch over the byte limit.
collect-pending :
    (opts : BatchOptions) (records : List KafkaMessage) (bytes : ℕ) (polls : List Poll)
    (source : List KafkaMessage) (m : KafkaMessage)
    → bytes ≡ total size records
    → (collect opts records bytes polls source).pending ≡ some m
    → opts.max_bytes <ℤ pos (total size (collect opts records bytes polls source).records + size m)
unfolding collect
collect-pending opts records bytes [] source m e = λ h. cc h
collect-pending opts records bytes (arrives ∷ polls) [] m e = λ h. cc h
collect-pending opts records bytes (arrives ∷ polls) (next ∷ source) m e =
    elim (Bool-cases (has_room opts records bytes)) [
      | inr full ↦ rw full (λ h. cc h)
      | inl room ↦ elim (Bool-cases (ltb_ℤ opts.max_bytes (pos (bytes + size next)))) [
        | inl over ↦ rw (room, over) (SetAside-next opts records bytes next source m e over)
        | inr fits ↦
            rw (room, fits)
              (collect-pending opts (records ++ next ∷ []) (bytes + size next) polls source m
                (rw (e, total-append size records (next ∷ [])) (omega arith)))
      ]
    ]
collect-pending opts records bytes (expired ∷ polls) source m e = λ h. cc h
collect-pending opts records bytes (fails ∷ polls) source m e = λ h. ground arith
