-- ===== src/Messages/Mysql.antt =====
-- GetHistoryByCursor of services/messages/repository/mysql_repository.go.
pub mod Queries
use lan_sync.Prelude.{Bool, ◌&&◌, ◌||◌, ◌==◌, List, if◌then◌else◌, true}
use lan_sync.Prelude.Int.{ℤ, pos, ltb_ℤ, int_eq}
use lan_sync.Prelude.Result.{Result, ok, err}
use lan_sync.Messages.{
  Message, Row, Engine, DbError, or_zero, is_null, column_lt, column_eq, is_cursor, oldest_first,
}

-- gorm's soft delete adds the condition on `deleted_at`.
unfoldable pub in_room : ℤ → Row → Bool
in_room room row = column_eq row.deleted_at (pos 0) && row.room_id == room

-- The condition for rows behind a cursor with the number `seq`, 0 where it has none.
unfoldable pub older : ℤ → ℤ → Row → Bool
older seq cursor row =
    if ltb_ℤ (pos 0) seq
    then column_lt row.room_seq seq
      || is_null row.room_seq
      || (column_eq row.room_seq seq && ltb_ℤ row.id cursor)
    else (is_null row.room_seq || column_eq row.room_seq (pos 0)) && ltb_ℤ row.id cursor

abbrev pub after_cursor : ℤ → Result DbError Row → Row → Bool
after_cursor cursor (ok found) row = older (or_zero found.room_seq) cursor row
after_cursor cursor (err e) row = ltb_ℤ row.id cursor

module _ (engine : Engine) where
  abbrev pub history_where : ℤ → ℤ → Row → Bool
  history_where room cursor row =
      in_room room row
      && (if ltb_ℤ (pos 0) cursor
          then after_cursor cursor (engine.find_one (is_cursor room cursor)) row
          else true)

  unfoldable pub get_history_by_cursor : ℤ → ℤ → ℤ → Result DbError (List Message)
  get_history_by_cursor room cursor limit =
      oldest_first (engine.find (history_where room cursor) limit)
