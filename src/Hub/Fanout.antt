-- ===== src/Hub/Fanout.antt =====
-- How dispatchMessage cuts a large room into tasks (services/gateway/websocket/hub.go).
use lan_sync.Prelude.{
  ℕ, zero, suc, ◌+◌, ◌-◌, ◌*◌, ◌/◌, ◌≤◌, ◌<◌, ◌≡◌, refl, List, [], ◌∷◌, arith, length, length-drop,
  length-take-le, drop, take-append-drop, concat, All, ltb, Bool-cases, inl, inr, All-map,
}
use lan_sync.Hub.{task_count, balanced_batch_size, slices, batches}

concat-slices :
    (fuel size : ℕ) (cs : List ℕ) → 0 < size → length cs ≤ fuel → concat (slices fuel size cs) ≡ cs
unfolding slices
concat-slices zero size [] p h = refl
concat-slices zero size (c ∷ cs) p h = absurd (omega arith)
concat-slices (suc fuel) size [] p h = refl
concat-slices (suc fuel) size (c ∷ cs) p h =
    rw
      (concat-slices fuel size (drop size (c ∷ cs)) p
        (rw (length-drop size (c ∷ cs)) (omega arith)))
      (take-append-drop size (c ∷ cs))

slices_sizes : (fuel size : ℕ) (cs : List ℕ) → All (λ b. length b ≤ size) (slices fuel size cs)
unfolding slices
slices_sizes zero size cs = tt
slices_sizes (suc fuel) size [] = tt
slices_sizes (suc fuel) size (c ∷ cs) =
    (length-take-le size (c ∷ cs), slices_sizes fuel size (drop size (c ∷ cs)))

length-slices-le :
    (fuel size tasks : ℕ) (cs : List ℕ)
    → length cs ≤ tasks * size
    → length (slices fuel size cs) ≤ tasks
unfolding slices
length-slices-le zero size tasks cs h = omega arith
length-slices-le (suc fuel) size tasks [] h = omega arith
length-slices-le (suc fuel) size zero (c ∷ cs) h = absurd (omega arith)
length-slices-le (suc fuel) size (suc tasks) (c ∷ cs) h = omega (
  arith,
  length-slices-le fuel size tasks (drop size (c ∷ cs))
      (rw (length-drop size (c ∷ cs)) (grind arith)),
)

-- A quotient rounded up covers what is divided, and is the least that does.
ceil-covers : (n k : ℕ) → 0 < k → n ≤ (n + k - 1) / k * k
ceil-covers n k p = grind arith

ceil-least : (n k m : ℕ) → 0 < k → n ≤ m * k → (n + k - 1) / k ≤ m
ceil-least n k m p h = grind arith

task_count-covers : (n s : ℕ) → 0 < s → n ≤ task_count n s * s
unfolding task_count
task_count-covers n s p = elim (Bool-cases (ltb ((n + s - 1) / s) 2)) [
  | inl few ↦ rw few (let h = ceil-covers n s p in grind arith)
  | inr many ↦ rw many (ceil-covers n s p)
]

task_count-ge-two : (n s : ℕ) → 2 ≤ task_count n s
unfolding task_count
task_count-ge-two n s = ground arith

balanced_pos : (n t : ℕ) → 0 < n → 0 < t → 0 < balanced_batch_size n t
unfolding balanced_batch_size
balanced_pos n t h p = let e = ceil-covers n t p in grind arith

balanced-le : (n t s : ℕ) → 0 < t → n ≤ t * s → balanced_batch_size n t ≤ s
unfolding balanced_batch_size
balanced-le n t s p h = ceil-least n t s p (omega (arith, h))

balanced-covers : (n t : ℕ) → 0 < t → n ≤ t * balanced_batch_size n t
unfolding balanced_batch_size
balanced-covers n t p = omega (arith, ceil-covers n t p)

-- The slices of a dispatch, put together again, are the clients in their order; no slice is larger
-- than the configured size, and there are at most `task_count` of them.
batches_partition :
    (s : ℕ) (clients : List ℕ)
    → 0 < s
    → 0 < length clients
    → let bs = batches s clients in
      (concat bs ≡ clients)
      × All (λ b. length b ≤ s) bs
      × (length bs ≤ task_count (length clients) s)
batches_partition s clients p h =
    let n = length clients in
    let t = task_count n s in
    let tp : 0 < t = omega (arith, task_count-ge-two n s) in
    let k = balanced_batch_size n t in
    (
      concat-slices n k clients (balanced_pos n t h tp) (omega arith),
      All-map (λ b le. omega (arith, balanced-le n t s tp (task_count-covers n s p))) _
          (slices_sizes n k clients),
      length-slices-le n k t clients (balanced-covers n t tp),
    )

pub concat-batches : (s : ℕ) (clients : List ℕ) → 0 < s → concat (batches s clients) ≡ clients
concat-batches s [] p = unfold slices in refl
concat-batches s (c ∷ cs) p = (batches_partition s (c ∷ cs) p (omega arith)).0

-- A room of up to 2000 clients, in slices of 200, makes at most ten tasks.
pub task_count_limit : (n : ℕ) → n ≤ 2000 → task_count n 200 ≤ 10
unfolding task_count
task_count_limit n h = ground arith

balanced-lt : (n t : ℕ) → 2 ≤ n → 2 ≤ t → balanced_batch_size n t < n
unfolding balanced_batch_size
balanced-lt n t h p = let e = ceil-least n t (n - 1) (omega arith) (grind arith) in omega (arith, e)

slices_some : (fuel size : ℕ) (cs : List ℕ) → 0 < length cs → 1 ≤ length (slices (suc fuel) size cs)
unfolding slices
slices_some fuel size [] h = absurd (omega arith)
slices_some fuel size (c ∷ cs) h = omega arith

slices_two :
    (fuel size : ℕ) (cs : List ℕ)
    → 2 ≤ fuel
    → size < length cs
    → 0 < size
    → 2 ≤ length (slices fuel size cs)
unfolding slices
slices_two fuel size [] f h p = absurd (omega arith)
slices_two zero size (c ∷ cs) f h p = absurd (omega arith)
slices_two (suc zero) size (c ∷ cs) f h p = absurd (omega arith)
slices_two (suc (suc fuel)) size (c ∷ cs) f h p = omega (
  arith,
  slices_some fuel size (drop size (c ∷ cs)) (rw (length-drop size (c ∷ cs)) (omega arith)),
)

-- A room of at least two clients is cut into at least two tasks.
batches_parallel :
    (s : ℕ) (clients : List ℕ) → 0 < s → 2 ≤ length clients → 2 ≤ length (batches s clients)
batches_parallel s clients p h =
    let n = length clients in
    let t = task_count n s in
    slices_two n (balanced_batch_size n t) clients h (balanced-lt n t h (task_count-ge-two n s))
      (balanced_pos n t (omega arith) (omega (arith, task_count-ge-two n s)))
