-- ===== src/Messages/Searching.antt =====
-- Reading all that a search finds, page by page (services/messages/api/search_handler.go over the repositories).
use lan_sync.Prelude.{
  ℕ, zero, suc, ◌+◌, ◌≤◌, ◌<◌, ◌≡◌, refl, sym, ap, ◌∙◌, String, string_eq, Bool, true, false, none,
  some, List, [], ◌∷◌, ◌++◌, ◌&&◌, ◌==◌, keep, take, drop, length, length-drop, take-append-drop,
  map, arith, All, ◌⊎◌, Bool-cases, inl, inr, if◌then◌else◌,
}
use lan_sync.Prelude.Int.{ℤ, pos, ltb_ℤ, int_eq}
use lan_sync.Prelude.Result.{Result, ok, err, ◌>>=◌}
use std.Path.{fun_ext}
use mathlib.Core.List.{map-append}
use native.Mathlib.Numerals.{unary_clauses}
use lan_sync.Messages.{Message, Row, DbError, to_message}
use lan_sync.Messages.Query.{
  MessageSearchParams, QueryEngine, created_at_desc, id_desc, not_before, is_before, search_page,
  search_limit, search_offset,
}
use lan_sync.Messages.Elastic.{Elastic, MessageHit, SearchResult}
use lan_sync.Messages.Search.{
  SearchModule, SearchRequest, SearchReply, refused, from_index, from_store, instant, search_params,
  store_params, index_hits, message_hit, search_room, clamp_size, clamp_first,
}
use lan_sync.Messages.Pages.{take-all}
use lan_sync.Messages.Complete.{visible_in}
use lan_sync.Messages.Mysql.Queries as MysqlQueries
use lan_sync.Messages.Mongo.Queries as MongoQueries

-- A row that is newer than another one, or as old and with a greater id.
abbrev pub IsNewer : Row → Row → Type 0
IsNewer x y =
    (ltb_ℤ y.created_at x.created_at ≡ true)
    ⊎ ((y.created_at ≡ x.created_at) × (ltb_ℤ y.id x.id ≡ true))

-- Every row is newer than all behind it.
abbrev pub IsNewestFirst : List Row → Type 0
IsNewestFirst [] = Unit
IsNewestFirst (x ∷ xs) = All (IsNewer x) xs × IsNewestFirst xs

-- What a query engine answers from its rows: their number, and a part of those picked. Where it is asked for the
-- order of created_at and then id, both descending, `rows` are its rows in this order.
pub record IsQueryEngine (engine : QueryEngine) (rows : List Row) : Type 0 where
  pub sorted : IsNewestFirst rows
  pub count : (picks : Row → Bool) → engine.count picks ≡ ok (pos (length (keep picks rows)))
  pub find :
      (picks : Row → Bool) (o n : ℕ)
      → engine.find picks (created_at_desc ∷ id_desc ∷ []) (pos o) (pos (suc n))
        ≡ ok (take (suc n) (drop o (keep picks rows)))

All-keep :
    (P : Row → Type 0) (picks : Row → Bool) (rows : List Row) → All P rows → All P (keep picks rows)
All-keep P picks [] h = tt
All-keep P picks (x ∷ xs) (here, there) = elim (Bool-cases (picks x)) [
  | inl e ↦ rw e (here, All-keep P picks xs there)
  | inr e ↦ rw e (All-keep P picks xs there)
]

keep-IsNewestFirst :
    (picks : Row → Bool) (rows : List Row) → IsNewestFirst rows → IsNewestFirst (keep picks rows)
keep-IsNewestFirst picks [] h = tt
keep-IsNewestFirst picks (x ∷ xs) (here, there) = elim (Bool-cases (picks x)) [
  | inl e ↦ rw e (All-keep (IsNewer x) picks xs here, keep-IsNewestFirst picks xs there)
  | inr e ↦ rw e (keep-IsNewestFirst picks xs there)
]

abbrev pub search_store :
    Bool
    → QueryEngine
    → (String → String → Bool)
    → MessageSearchParams
    → Result DbError (List Message × ℤ)
search_store true engine = MongoQueries.search_messages engine
search_store false engine = MysqlQueries.search_messages engine

abbrev store_where : Bool → (String → String → Bool) → MessageSearchParams → Row → Bool
store_where true = MongoQueries.search_filter
store_where false = MysqlQueries.search_where

-- A reader who asks for a page and goes on behind it while more is announced: all hits that it is shown, or the
-- status of a refusal.
abbrev pub result_then :
    ℕ → SearchResult → (ℕ → Result ℕ (List MessageHit)) → Result ℕ (List MessageHit)
result_then behind result go_on =
    if ltb_ℤ (pos behind) result.total
    then (go_on behind >>= λ rest. ok (result.hits ++ rest))
    else ok result.hits

abbrev pub reply_then :
    ℕ → SearchReply → (ℕ → Result ℕ (List MessageHit)) → Result ℕ (List MessageHit)
reply_then behind (refused status) go_on = err status
reply_then behind (from_index result) go_on = result_then behind result go_on
reply_then behind (from_store result) go_on = result_then behind result go_on

abbrev pub page_at : ℤ → SearchRequest → ℕ → ℕ → SearchRequest
page_at room r size first = record r { room_id = some room; first = pos first; size = pos size }

pub search_all : SearchModule → ℤ → SearchRequest → ℕ → ℕ → ℕ → Result ℕ (List MessageHit)
search_all m room r size zero first = err 0
search_all m room r size (suc fuel) first =
    reply_then (first + size) (search_room m (page_at room r size first))
      (search_all m room r size fuel)

-- The messages that a request asks for.
abbrev pub is_sought :
    (ℤ → Row → Bool) → (String → String → Bool) → ℤ → String → SearchRequest → Row → Bool
is_sought visible contains room keyword r row =
    visible room row
    && contains keyword row.content
    && (if ltb_ℤ (pos 0) r.sender_id then row.sender_id == r.sender_id else true)
    && not_before (instant r.start) row.created_at
    && is_before (instant r.end_time) row.created_at

abbrev hits : List Row → List MessageHit
hits rows = map message_hit (map to_message rows)

hits-append : (xs ys : List Row) → hits (xs ++ ys) ≡ hits xs ++ hits ys
hits-append xs ys =
    ap (map message_hit) (map-append to_message xs ys)
    ∙ map-append message_hit (map to_message xs) (map to_message ys)

drop-drop {ℓ} : {A : Type ℓ} (o n : ℕ) (xs : List A) → drop (o + n) xs ≡ drop n (drop o xs)
drop-drop zero n xs = ap (λ k. drop k xs) (omega arith)
drop-drop (suc o) zero [] = simp unary_clauses refl
drop-drop (suc o) (suc n) [] = simp unary_clauses refl
drop-drop (suc o) n (x ∷ xs) =
    let e : suc o + n ≡ suc (o + n) = omega arith in ap (λ k. drop k (x ∷ xs)) e ∙ drop-drop o n xs

module _ (m : SearchModule) (room : ℤ) (r : SearchRequest) (n : ℕ) (rows : List Row) where
  -- Every page is the store's part of the rows.
  abbrev IsStored : Type 0
  IsStored =
      (o : ℕ)
      → search_room m (page_at room r (suc n) o)
        ≡ from_store
            (record { total = pos (length rows); hits = hits (take (suc n) (drop o rows)) })

  pages :
      (fuel o : ℕ)
      → IsStored
      → length (drop o rows) < fuel
      → search_all m room r (suc n) fuel o ≡ ok (hits (drop o rows))
  unfolding search_all
  pages zero o stored h = absurd (omega arith)
  pages (suc fuel) o stored h = elim (Bool-cases (ltb_ℤ (pos (o + suc n)) (pos (length rows)))) [
    | inl more ↦
        let enough : length (drop (o + suc n) rows) < fuel =
          ground (arith, length-drop o rows, length-drop (o + suc n) rows) in
        rw (stored o, more, pages fuel (o + suc n) stored enough, drop-drop o (suc n) rows)
          (ap ok (
            sym (hits-append (take (suc n) (drop o rows)) (drop (suc n) (drop o rows)))
            ∙ ap hits (take-append-drop (suc n) (drop o rows))))
    | inr done ↦
        let short : length (drop o rows) ≤ suc n = ground (arith, length-drop o rows) in
        rw (stored o, done) (ap (λ v. ok (hits v)) (take-all (suc n) (drop o rows) short))
  ]

-- What the handler calls over a store and its engine.
abbrev pub search_module :
    Bool
    → QueryEngine
    → (String → String → Bool)
    → (ℤ → ℤ → Result DbError Bool)
    → (String → String)
    → Elastic
    → SearchModule
search_module mongo engine contains members trim elastic = record {
  check_is_member = members;
  trim = trim;
  elastic = elastic;
  search_messages = search_store mongo engine contains;
}

module _ (engine : QueryEngine) (rows : List Row) (law : IsQueryEngine engine rows)
    (contains : String → String → Bool) (members : ℤ → ℤ → Result DbError Bool)
    (trim : String → String) (elastic : Elastic) (room : ℤ) (r : SearchRequest) (n : ℕ)
    (most : suc n ≤ 100) (named : trim r.q == "" ≡ false) where
  abbrev server : Bool → SearchModule
  server mongo = search_module mongo engine contains members trim elastic

  abbrev sought : Bool → Row → Bool
  sought mongo = is_sought (visible_in mongo) contains room (trim r.q) r

  picks-sought :
      (mongo : Bool) (o : ℕ) (y : Row)
      → store_where mongo contains
          (store_params room (search_params (trim r.q) (page_at room r (suc n) o)))
          y
        ≡ sought mongo y
  unfolding search_params MysqlQueries.search_where MongoQueries.search_filter
  picks-sought true o y = rw named refl
  picks-sought false o y = rw named refl

  size_kept : search_limit (clamp_size (pos (suc n))) ≡ pos (suc n)
  size_kept = ground arith

  first_kept : (o : ℕ) → search_offset (clamp_first (pos o)) ≡ pos o
  first_kept o = ground arith

  engine-page :
      (picks : Row → Bool) (o : ℕ)
      → search_page engine picks (clamp_first (pos o)) (clamp_size (pos (suc n)))
        ≡ ok (
          map to_message (take (suc n) (drop o (keep picks rows))),
          pos (length (keep picks rows)),
        )
  engine-page picks o = rw (law.count, size_kept, first_kept o, law.find) refl

  store-page :
      (mongo : Bool) (o : ℕ)
      → search_store mongo engine contains
          (store_params room (search_params (trim r.q) (page_at room r (suc n) o)))
        ≡ ok (
          map to_message (take (suc n) (drop o (keep (sought mongo) rows))),
          pos (length (keep (sought mongo) rows)),
        )
  unfolding search_params MysqlQueries.search_messages MongoQueries.search_messages
  store-page true o =
      ap (λ picks. search_page engine picks (clamp_first (pos o)) (clamp_size (pos (suc n))))
        (fun_ext (picks-sought true o))
      ∙ engine-page (sought true) o
  store-page false o =
      ap (λ picks. search_page engine picks (clamp_first (pos o)) (clamp_size (pos (suc n))))
        (fun_ext (picks-sought false o))
      ∙ engine-page (sought false) o

  -- A member of a room who searches it with any page size from 1 to 100, page by page, until no more is announced,
  -- is shown exactly the messages of the room that are not deleted, contain the keyword and meet the request's
  -- sender and times, each once and from the newest to the oldest, with either store, while the index is off,
  -- fails or has no hit; the pages are at most as many as the messages, and one. The rows do not change meanwhile,
  -- and the keyword is not blank.
  pub search_all_complete :
      (mongo : Bool)
      → members room r.user_id ≡ ok true
      → ((o : ℕ)
          → index_hits (server mongo) room (search_params (trim r.q) (page_at room r (suc n) o))
            ≡ none)
      → (search_all (server mongo) room r (suc n) (suc (length (keep (sought mongo) rows))) 0
          ≡ ok (map message_hit (map to_message (keep (sought mongo) rows))))
        × IsNewestFirst (keep (sought mongo) rows)
  unfolding search_room
  search_all_complete mongo member quiet = (
    pages (server mongo) room r n (keep (sought mongo) rows)
        (suc (length (keep (sought mongo) rows))) 0
        (λ o. rw (member, named, quiet o, store-page mongo o) refl) (omega arith),
    keep-IsNewestFirst (sought mongo) rows law.sorted,
  )
