-- ===== src/Messages/Pages.antt =====
-- The pages of a room's rows: where a page ends among the rows of all rooms, and what it shows
-- (services/messages/api/history_handler.go).
use lan_sync.Prelude.{
  ℕ, zero, suc, ◌≤◌, ◌≡◌, refl, ap, ◌∙◌, Bool, true, false, List, [], ◌∷◌, ◌++◌, keep, take, drop,
  length, length-append, map, arith, Bool-cases, inl, inr,
}
use mathlib.Core.List.{reverse, reverse-append, map-append}
use lan_sync.Messages.{Row, to_message}
use lan_sync.Messages.Cache.{CachedMsg, cached_msg}

-- The part of the rows up to the last that a page shows.
pub record Split (picks : Row → Bool) (n : ℕ) (rows : List Row) : Type 0 where
  pub front : List Row
  pub last : Row
  pub back : List Row
  pub rows_are : rows ≡ front ++ last ∷ back
  pub rest_is : keep picks back ≡ drop n (keep picks rows)
  pub page_is : take n (keep picks rows) ≡ keep picks front ++ last ∷ []
  pub picked : picks last ≡ true

module _ (picks : Row → Bool) where
  Split-skip :
      (n : ℕ) (y : Row) (rows : List Row)
      → picks y ≡ false
      → Split picks n rows
      → Split picks n (y ∷ rows)
  Split-skip n y rows e s = record {
    front = y ∷ s.front;
    last = s.last;
    back = s.back;
    rows_are = ap (λ l. y ∷ l) s.rows_are;
    rest_is = rw e s.rest_is;
    page_is = rw e s.page_is;
    picked = s.picked;
  }

  Split-first : (y : Row) (rows : List Row) → picks y ≡ true → Split picks 1 (y ∷ rows)
  Split-first y rows e = record {
    front = [];
    last = y;
    back = rows;
    rows_are = refl;
    rest_is = rw e refl;
    page_is = rw e refl;
    picked = e;
  }

  Split-next :
      (n : ℕ) (y : Row) (rows : List Row)
      → picks y ≡ true
      → Split picks n rows
      → Split picks (suc n) (y ∷ rows)
  Split-next n y rows e s = record {
    front = y ∷ s.front;
    last = s.last;
    back = s.back;
    rows_are = ap (λ l. y ∷ l) s.rows_are;
    rest_is = rw e s.rest_is;
    page_is = rw e (ap (λ l. y ∷ l) s.page_is);
    picked = s.picked;
  }

  cut_first :
      (n : ℕ) (y : Row) (rows : List Row)
      → picks y ≡ true
      → suc n ≤ suc (length (keep picks rows))
      → ((k : ℕ) → suc k ≤ length (keep picks rows) → Split picks (suc k) rows)
      → Split picks (suc n) (y ∷ rows)
  cut_first zero y rows e h next = Split-first y rows e
  cut_first (suc k) y rows e h next = Split-next (suc k) y rows e (next k (omega arith))

  pub cut_page :
      (n : ℕ) (rows : List Row) → suc n ≤ length (keep picks rows) → Split picks (suc n) rows
  cut_page n [] h = absurd (omega arith)
  cut_page n (y ∷ rows) h = elim (Bool-cases (picks y)) [
    | inr e ↦ Split-skip (suc n) y rows e (cut_page n rows (rw e at h))
    | inl e ↦ cut_first n y rows e (rw e at h) (λ k. cut_page k rows)
  ]

pub length-map {ℓ κ} :
    {A : Type ℓ} {B : Type κ} (f : A → B) (xs : List A) → length (map f xs) ≡ length xs
length-map f [] = refl
length-map f (x ∷ xs) = ap suc (length-map f xs)

length-reverse {ℓ} : {A : Type ℓ} (xs : List A) → length (reverse xs) ≡ length xs
length-reverse [] = refl
length-reverse (x ∷ xs) =
    ap length (reverse-append (x ∷ []) xs)
    ∙ (length-append (reverse xs) (x ∷ []) ∙ omega (arith, length-reverse xs))

pub length-take {ℓ} : {A : Type ℓ} (n : ℕ) (xs : List A) → n ≤ length xs → length (take n xs) ≡ n
length-take zero xs h = refl
length-take (suc n) [] h = absurd (omega arith)
length-take (suc n) (x ∷ xs) h = ap suc (length-take n xs (omega arith))

pub take-all {ℓ} : {A : Type ℓ} (n : ℕ) (xs : List A) → length xs ≤ n → take n xs ≡ xs
take-all zero [] h = refl
take-all zero (x ∷ xs) h = absurd (omega arith)
take-all (suc n) [] h = refl
take-all (suc n) (x ∷ xs) h = ap (λ l. x ∷ l) (take-all n xs (omega arith))

-- Rows that stand newest first, as a page shows them.
abbrev pub shown : List Row → List CachedMsg
shown rows = map cached_msg (map to_message (reverse rows))

pub shown-append : (newer older : List Row) → shown (newer ++ older) ≡ shown older ++ shown newer
shown-append newer older =
    ap (λ l. map cached_msg (map to_message l)) (reverse-append newer older)
    ∙ (ap (map cached_msg) (map-append to_message (reverse older) (reverse newer))
        ∙ map-append cached_msg (map to_message (reverse older)) (map to_message (reverse newer)))

pub length-shown : (rows : List Row) → length (map to_message (reverse rows)) ≡ length rows
length-shown rows = length-map to_message (reverse rows) ∙ length-reverse rows
