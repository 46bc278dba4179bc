-- ===== src/Messages/Query.antt =====
-- What the searches and the other queries of both repositories share (services/messages/repository/interfaces.go,
-- mysql_repository.go, mongo_repository.go).
use lan_sync.Prelude.{
  String, Bool, true, Option, none, some, List, [], ◌∷◌, ◌||◌, if◌then◌else◌, map,
}
use lan_sync.Prelude.Int.{ℤ, pos, ltb_ℤ, leb_ℤ}
use lan_sync.Prelude.Result.{Result, ok, ◌>>=◌}
use lan_sync.Messages.{Message, Row, DbError, to_message}

-- `none` is the zero time.
pub record MessageSearchParams : Type 0 where
  pub room_id : ℤ
  pub keyword : String
  pub sender_id : ℤ
  pub start : Option ℤ
  pub end_time : Option ℤ
  pub offset : ℤ
  pub limit : ℤ

-- A key of an ORDER BY, or of a sort document.
pub data SortKey : Type 0 where
  created_at_asc created_at_desc id_asc id_desc : SortKey

-- Queries of an engine by a condition on the rows: their number, and a part of them in the order of some keys,
-- behind an offset and up to a limit.
pub record QueryEngine : Type 0 where
  pub count : (Row → Bool) → Result DbError ℤ
  pub find : (Row → Bool) → List SortKey → ℤ → ℤ → Result DbError (List Row)

abbrev pub not_before : Option ℤ → ℤ → Bool
not_before none at = true
not_before (some start) at = leb_ℤ start at

abbrev pub is_before : Option ℤ → ℤ → Bool
is_before none at = true
is_before (some limit) at = ltb_ℤ at limit

abbrev pub search_limit : ℤ → ℤ
search_limit limit = if leb_ℤ limit (pos 0) || ltb_ℤ (pos 100) limit then pos 20 else limit

abbrev pub search_offset : ℤ → ℤ
search_offset offset = if ltb_ℤ offset (pos 0) then pos 0 else offset

abbrev pub messages_of : Result DbError (List Row) → Result DbError (List Message)
messages_of rows = rows >>= λ found. ok (map to_message found)

-- The body of SearchMessages once its condition is made.
abbrev pub search_page : QueryEngine → (Row → Bool) → ℤ → ℤ → Result DbError (List Message × ℤ)
search_page engine picks offset limit = engine.count picks >>= λ total.
    messages_of (
      engine.find picks (created_at_desc ∷ id_desc ∷ []) (search_offset offset)
        (search_limit limit))
    >>= λ messages. ok (messages, total)
