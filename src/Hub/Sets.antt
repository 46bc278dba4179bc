-- ===== src/Hub/Sets.antt =====
-- Go's map[K]struct{} and map[*Client]bool, as lists with the operations that the hub makes.
use lan_sync.Prelude.{
  ◌≡◌, refl, Bool, false, not, List, [], ◌∷◌, ◌&&◌, ◌||◌, arith, if◌then◌else◌, Eq, ◌==◌,
  Bool-cases, inl, inr,
}

module _ {ℓ} {A : Type ℓ} ⦃e : Eq A⦄ where
  unfoldable pub contains : A → List A → Bool
  contains a [] = false
  contains a (x ∷ xs) = (x == a) || contains a xs

  -- `m[a] = …`
  unfoldable pub add : A → List A → List A
  unfolding contains
  add a xs = if contains a xs then xs else a ∷ xs

  -- `delete(m, a)`
  unfoldable pub remove : A → List A → List A
  remove a [] = []
  remove a (x ∷ xs) = let rest = remove a xs in if x == a then rest else x ∷ rest

  unfoldable pub of_list : List A → List A
  unfolding add
  of_list [] = []
  of_list (x ∷ xs) = add x (of_list xs)

  pub contains-add : (a b : A) (xs : List A) → contains b (add a xs) ≡ ((a == b) || contains b xs)
  unfolding add
  contains-add a b xs = elim (Bool-cases (contains a xs)) [
    | inl old ↦ rw old (ground (arith, e.beq_iff a b))
    | inr new ↦ rw new
  ]

  pub contains-remove :
      (a b : A) (xs : List A) → contains b (remove a xs) ≡ (not (a == b) && contains b xs)
  unfolding contains remove
  contains-remove a b [] = ground arith
  contains-remove a b (x ∷ xs) =
      ground (arith, e.beq_iff x a, e.beq_iff x b, e.beq_iff a b, contains-remove a b xs)

  pub contains-of_list : (b : A) (xs : List A) → contains b (of_list xs) ≡ contains b xs
  unfolding contains of_list
  contains-of_list b [] = refl
  contains-of_list b (x ∷ xs) = ground (arith, contains-add x b (of_list xs), contains-of_list b xs)
