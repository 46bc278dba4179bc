-- ===== src/Messages/Mongo.antt =====
-- GetHistoryByCursor of services/messages/repository/mongo_repository.go.
pub mod Queries
use lan_sync.Prelude.{Bool, ◌&&◌, ◌||◌, ◌==◌, List, if◌then◌else◌, true}
use lan_sync.Prelude.Int.{ℤ, pos, ltb_ℤ, int_eq}
use lan_sync.Prelude.Result.{Result, ok, err}
use lan_sync.Messages.{
  Message, Row, Engine, DbError, or_zero, is_null, column_lt, column_eq, is_cursor, oldest_first,
}

unfoldable pub not_deleted : Row → Bool
not_deleted row = is_null row.deleted_at || column_eq row.deleted_at (pos 0)

unfoldable pub in_room : ℤ → Row → Bool
in_room room row = not_deleted row && row.room_id == room

unfoldable pub older : ℤ → ℤ → Row → Bool
older seq cursor row =
    column_lt row.room_seq seq
    || (column_eq row.room_seq seq && ltb_ℤ row.id cursor)
    || (if ltb_ℤ (pos 0) seq
        then is_null row.room_seq
        else is_null row.room_seq && ltb_ℤ row.id cursor)

abbrev pub after_cursor : ℤ → Result DbError Row → Row → Bool
after_cursor cursor (ok found) row = older (or_zero found.room_seq) cursor row
after_cursor cursor (err e) row = ltb_ℤ row.id cursor

module _ (engine : Engine) where
  abbrev pub history_filter : ℤ → ℤ → Row → Bool
  history_filter room cursor row =
      in_room room row
      && (if ltb_ℤ (pos 0) cursor
          then after_cursor cursor (engine.find_one (is_cursor room cursor)) row
          else true)

  unfoldable pub get_history_by_cursor : ℤ → ℤ → ℤ → Result DbError (List Message)
  get_history_by_cursor room cursor limit =
      oldest_first (engine.find (history_filter room cursor) limit)
