-- ===== src/Messages/Store.antt =====
-- What both stores answer to GetHistoryByCursor (services/messages/repository/mysql_repository.go,
-- mongo_repository.go).
use lan_sync.Prelude.{
  ℕ, ◌≡◌, ◌≢◌, refl, ap, ◌∙◌, Bool, true, false, List, [], ◌∷◌, ◌++◌, ◌&&◌, All, All-map, All-split,
  keep, take, arith, eq_self, Bool-cases, inl, inr, if◌then◌else◌,
}
use lan_sync.Prelude.Int.{ℤ, pos, ltb_ℤ, ◌<ℤ◌, int_eq}
use lan_sync.Prelude.Result.{Result, ok, err}
use lan_sync.Messages.{
  Message, Row, Engine, DbError, no_documents, or_zero, is_cursor, oldest_first,
}
use lan_sync.Messages.Ordered.{
  IsNumber, IsOrdered, is_newer, is_newer-asym, mysql-older, mongo-older,
}
use lan_sync.Messages.Mysql
use lan_sync.Messages.Mongo

abbrev pub first_where : (Row → Bool) → List Row → Result DbError Row
first_where picks [] = err no_documents
first_where picks (x ∷ rest) = elim (picks x) [ true ↦ ok x | false ↦ first_where picks rest ]

-- What a query engine does with a snapshot of its rows in their order: it finds a first row, and the first
-- rows up to a limit, that satisfy a condition.
pub record IsEngine (engine : Engine) (rows : List Row) : Type 0 where
  pub find_one : (picks : Row → Bool) → engine.find_one picks ≡ first_where picks rows
  pub find :
      (picks : Row → Bool) (n : ℕ) → engine.find picks (pos n) ≡ ok (take n (keep picks rows))

-- What a repository promises the history: without a cursor the newest visible rows of the room, and
-- with the id of a row of the room the newest behind it, whether that row is visible or deleted.
pub record IsHistory (get : ℤ → ℤ → ℤ → Result DbError (List Message)) (visible : ℤ → Row → Bool)
    (rows : List Row) : Type 0 where
  pub newest :
      (room : ℤ) (n : ℕ)
      → get room (pos 0) (pos n) ≡ oldest_first (ok (take n (keep (visible room) rows)))
  pub behind :
      (room : ℤ) (n : ℕ) (front : List Row) (x : Row) (back : List Row)
      → rows ≡ front ++ x ∷ back
      → x.room_id ≡ room
      → pos 0 <ℤ x.id
      → get room x.id (pos n) ≡ oldest_first (ok (take n (keep (visible room) back)))

-- The rows around one of them.
abbrev IsBefore : Row → Row → Type 0
IsBefore x a = IsNumber a.room_seq × (is_newer a x ≡ true) × (a.id ≢ x.id)

abbrev IsBehind : Row → Row → Type 0
IsBehind x b = IsNumber b.room_seq × (is_newer x b ≡ true)

IsOrdered-All : (rows : List Row) → IsOrdered rows → All (λ y. IsNumber y.room_seq) rows
IsOrdered-All [] h = tt
IsOrdered-All (x ∷ rows) h = (h.0.0, IsOrdered-All rows h.1)

All-IsBehind :
    (x : Row) (rows : List Row)
    → All (λ y. (is_newer x y ≡ true) × (x.id ≢ y.id)) rows
    → All (λ y. IsNumber y.room_seq) rows
    → All (IsBehind x) rows
All-IsBehind x [] h k = tt
All-IsBehind x (y ∷ rows) h k = ((k.0, h.0.0), All-IsBehind x rows h.1 k.1)

IsOrdered-around :
    (front : List Row) (x : Row) (back : List Row)
    → IsOrdered (front ++ x ∷ back)
    → IsNumber x.room_seq × All (IsBefore x) front × All (IsBehind x) back
IsOrdered-around [] x back h = (h.0.0, tt, All-IsBehind x back h.0.1 (IsOrdered-All back h.1))
IsOrdered-around (a ∷ front) x back h =
    let (number, before, behind) = IsOrdered-around front x back h.1 in
    let (_, rest) = All-split (λ y. (is_newer a y ≡ true) × (a.id ≢ y.id)) front (x ∷ back) h.0.1 in
    (number, ((h.0.0, rest.0.0, rest.0.1), before), behind)

module _ (room : ℤ) (x : Row) (in_room : x.room_id ≡ room) where
  first-cursor :
      (front back : List Row)
      → All (IsBefore x) front
      → first_where (is_cursor room x.id) (front ++ x ∷ back) ≡ ok x
  first-cursor [] back h = ground (arith, eq_self x.id, int_eq.beq_iff x.room_id room)
  first-cursor (a ∷ front) back h =
      ground (arith, int_eq.beq_iff a.id x.id, h.0.2, first-cursor front back h.1)

-- A condition that holds of just the rows behind `x` picks those.
module _ (shown behind : Row → Bool) where
  abbrev both : Row → Bool
  both y = shown y && behind y

  keep-front :
      (front back : List Row)
      → All (λ y. behind y ≡ false) front
      → keep both (front ++ back) ≡ keep both back
  keep-front [] back h = refl
  keep-front (y ∷ front) back h = ground (arith, h.0, keep-front front back h.1)

  keep-back : (back : List Row) → All (λ y. behind y ≡ true) back → keep both back ≡ keep shown back
  keep-back [] h = refl
  keep-back (y ∷ back) h = ground (arith, h.0, keep-back back h.1)

  keep-around :
      (front : List Row) (x : Row) (back : List Row)
      → All (λ y. behind y ≡ false) front
      → behind x ≡ false
      → All (λ y. behind y ≡ true) back
      → keep both (front ++ x ∷ back) ≡ keep shown back
  keep-around front x back before at after =
      keep-front front (x ∷ back) before
      ∙ (keep-front (x ∷ []) back (at, tt) ∙ keep-back back after)

is_newer_irrefl : (x : Row) → is_newer x x ≡ false
is_newer_irrefl x = elim (Bool-cases (is_newer x x)) [ inl h ↦ is_newer-asym x x h | inr h ↦ h ]

-- The condition that compares with the cursor, as either store builds it.
module _ (older : ℤ → ℤ → Row → Bool)
    (meets : (x y : Row)
      → IsNumber x.room_seq
      → IsNumber y.room_seq
      → older (or_zero x.room_seq) x.id y ≡ is_newer x y)
    (shown : Row → Bool) where
  keep-older :
      (front : List Row) (x : Row) (back : List Row)
      → IsOrdered (front ++ x ∷ back)
      → keep (λ y. shown y && older (or_zero x.room_seq) x.id y) (front ++ x ∷ back)
        ≡ keep shown back
  keep-older front x back ordered =
      let (number, before, behind) = IsOrdered-around front x back ordered in
      keep-around shown (older (or_zero x.room_seq) x.id) front x back
        (All-map (λ a h. meets x a number h.0 ∙ is_newer-asym a x h.1) front before)
        (meets x x number number ∙ is_newer_irrefl x)
        (All-map (λ b h. meets x b number h.0 ∙ h.1) back behind)

and_true : (b : Bool) → (b && true) ≡ b
and_true true = refl
and_true false = refl

keep-and_true :
    (picks : Row → Bool) (rows : List Row) → keep (λ y. picks y && true) rows ≡ keep picks rows
keep-and_true picks [] = refl
keep-and_true picks (y ∷ rows) = ground (arith, and_true (picks y), keep-and_true picks rows)

ltb_of_lt : (a b : ℤ) → a <ℤ b → ltb_ℤ a b ≡ true
ltb_of_lt a b h = ground arith

module _ (engine : Engine) (rows : List Row) (law : IsEngine engine rows)
    (ordered : IsOrdered rows) where
  page-of_find :
      (n : ℕ) (picks : Row → Bool) (expected : List Row)
      → keep picks rows ≡ expected
      → oldest_first (engine.find picks (pos n)) ≡ oldest_first (ok (take n expected))
  page-of_find n picks expected e =
      ap oldest_first (law.find picks n) ∙ ap (λ k. oldest_first (ok (take n k))) e

  found_cursor :
      (room : ℤ) (front : List Row) (x : Row) (back : List Row)
      → rows ≡ front ++ x ∷ back
      → x.room_id ≡ room
      → engine.find_one (is_cursor room x.id) ≡ ok x
  found_cursor room front x back e in_room =
      law.find_one (is_cursor room x.id)
      ∙ (ap (first_where (is_cursor room x.id)) e
          ∙ first-cursor room x in_room front back
              (IsOrdered-around front x back (rw (← e) ordered)).1)

  -- The condition of a page behind a cursor that is found.
  cursor_where :
      {A : Type 0} (x : Row) (condition : Bool → Result DbError Row → A) (room : ℤ)
      (front back : List Row)
      → rows ≡ front ++ x ∷ back
      → x.room_id ≡ room
      → pos 0 <ℤ x.id
      → condition (ltb_ℤ (pos 0) x.id) (engine.find_one (is_cursor room x.id))
        ≡ condition true (ok x)
  cursor_where x condition room front back e in_room positive =
      ap (λ b. condition b (engine.find_one (is_cursor room x.id)))
        (ltb_of_lt (pos 0) x.id positive)
      ∙ ap (condition true) (found_cursor room front x back e in_room)

  split_rows :
      (front : List Row) (x : Row) (back : List Row) (picks : Row → Bool) (expected : List Row)
      → rows ≡ front ++ x ∷ back
      → keep picks (front ++ x ∷ back) ≡ expected
      → keep picks rows ≡ expected
  split_rows front x back picks expected e h = ap (keep picks) e ∙ h

  pub mysql-IsHistory : IsHistory (Mysql.get_history_by_cursor engine) Mysql.in_room rows
  unfolding Mysql.get_history_by_cursor
  mysql-IsHistory = record {
    newest = λ room n.
        page-of_find n (λ y. Mysql.in_room room y && true) _
          (keep-and_true (Mysql.in_room room) rows);
    behind = λ room n front x back e in_room positive.
        ap (λ w. oldest_first (engine.find w (pos n)))
          (cursor_where x
            (λ b r y. Mysql.in_room room y && (if b then Mysql.after_cursor x.id r y else true))
            room front back e in_room positive)
        ∙ page-of_find n _ (keep (Mysql.in_room room) back) (
            split_rows front x back _ _ e (
              keep-older Mysql.older mysql-older (Mysql.in_room room) front x back
                (rw (← e) ordered)));
  }

  pub mongo-IsHistory : IsHistory (Mongo.get_history_by_cursor engine) Mongo.in_room rows
  unfolding Mongo.get_history_by_cursor
  mongo-IsHistory = record {
    newest = λ room n.
        page-of_find n (λ y. Mongo.in_room room y && true) _
          (keep-and_true (Mongo.in_room room) rows);
    behind = λ room n front x back e in_room positive.
        ap (λ w. oldest_first (engine.find w (pos n)))
          (cursor_where x
            (λ b r y. Mongo.in_room room y && (if b then Mongo.after_cursor x.id r y else true))
            room front back e in_room positive)
        ∙ page-of_find n _ (keep (Mongo.in_room room) back) (
            split_rows front x back _ _ e (
              keep-older Mongo.older mongo-older (Mongo.in_room room) front x back
                (rw (← e) ordered)));
  }
