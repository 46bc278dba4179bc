-- ===== src/Messages.antt =====
-- The store of the chat messages and the reading of its history: services/messages/models,
-- services/messages/repository/mysql_repository.go and mongo_repository.go, cache/redisconfig.go and
-- services/messages/api/history_handler.go, and the search: services/messages/api/search_handler.go and
-- services/messages/search/elasticsearch.go. The query engines of MySQL and MongoDB, Redis and the
-- membership of rooms are parameters; a condition that the source hands to an engine is a test on rows.
pub mod Mysql
pub mod Mongo
pub mod Cache
pub mod History
pub mod Query
pub mod Elastic
pub mod Search
pub mod Searching
mod SearchTests
pub mod Pages
pub mod Paging
pub mod Complete
mod Tests
pub mod Ordered
pub mod Saving
pub mod Replays
pub mod Store
use lan_sync.Prelude.{String, Bool, true, false, Option, none, some, List, [], ◌∷◌, ◌&&◌, ◌==◌, map}
use lan_sync.Prelude.Int.{ℤ, pos, ltb_ℤ, int_eq}
use lan_sync.Prelude.Result.{Result, ok, err}
use mathlib.Core.List.{reverse}

pub record Message : Type 0 where
  pub id : ℤ
  pub room_seq : ℤ
  pub room_id : ℤ
  pub sender_id : ℤ
  pub client_msg_id : String
  pub type : ℤ
  pub content : String
  pub created_at : ℤ
  pub deleted_at : ℤ

-- A row of the table, or a document of the collection: `none` is NULL, or a field that is missing.
pub record Row : Type 0 where
  pub id : ℤ
  pub room_seq : Option ℤ
  pub room_id : ℤ
  pub sender_id : ℤ
  pub client_msg_id : String
  pub type : ℤ
  pub content : String
  pub created_at : ℤ
  pub deleted_at : Option ℤ

abbrev pub or_zero : Option ℤ → ℤ
or_zero none = pos 0
or_zero (some n) = n

abbrev pub soft_delete_at : ℤ → ℤ
soft_delete_at v = elim (ltb_ℤ (pos 0) v) [ true ↦ v | false ↦ pos 0 ]

-- What a query decodes to.
abbrev pub to_message : Row → Message
to_message d = record {
  id = d.id;
  room_seq = or_zero d.room_seq;
  room_id = d.room_id;
  sender_id = d.sender_id;
  client_msg_id = d.client_msg_id;
  type = d.type;
  content = d.content;
  created_at = d.created_at;
  deleted_at = soft_delete_at (or_zero d.deleted_at);
}

pub data DbError : Type 0 where
  no_documents query_failed : DbError

-- Queries of an engine: the first row that a test picks, and the rows that a test picks, sorted by room_seq and
-- then id, both descending, up to a limit.
pub record Engine : Type 0 where
  pub find_one : (Row → Bool) → Result DbError Row
  pub find : (Row → Bool) → ℤ → Result DbError (List Row)

-- Comparisons with a column: none holds of NULL or of a missing field.
abbrev pub is_null : Option ℤ → Bool
is_null none = true
is_null (some n) = false

abbrev pub column_lt : Option ℤ → ℤ → Bool
column_lt none m = false
column_lt (some n) m = ltb_ℤ n m

abbrev pub column_eq : Option ℤ → ℤ → Bool
column_eq none m = false
column_eq (some n) m = n == m

-- The condition `_id = cursor AND room_id = room`.
abbrev pub is_cursor : ℤ → ℤ → Row → Bool
is_cursor room cursor row = row.id == cursor && row.room_id == room

-- The rows come newest first and are turned round.
abbrev pub oldest_first : Result DbError (List Row) → Result DbError (List Message)
oldest_first (err e) = err e
oldest_first (ok rows) = ok (map to_message (reverse rows))
