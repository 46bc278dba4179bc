-- ===== src/Messages/Mysql/Queries.antt =====
-- SearchMessages, GetMessagesByTimeRange, GetMessagesAfterID and CountMessagesAfterID of
-- services/messages/repository/mysql_repository.go. `located` is LOCATE(keyword, content) > 0.
use lan_sync.Prelude.{String, string_eq, Bool, true, List, [], ◌∷◌, ◌&&◌, ◌==◌, if◌then◌else◌}
use lan_sync.Prelude.Int.{ℤ, pos, ltb_ℤ, leb_ℤ, int_eq}
use lan_sync.Prelude.Result.{Result}
use lan_sync.Messages.{Message, Row, DbError}
use lan_sync.Messages.Query.{
  MessageSearchParams, QueryEngine, created_at_asc, id_asc, not_before, is_before, messages_of,
  search_page,
}
use lan_sync.Messages.Mysql.{in_room}

abbrev pub since_where : ℤ → ℤ → Row → Bool
since_where room since row =
    in_room room row && (if ltb_ℤ (pos 0) since then ltb_ℤ since row.id else true)

unfoldable pub search_where : (String → String → Bool) → MessageSearchParams → Row → Bool
search_where located p row =
    in_room p.room_id row
    && (if p.keyword == "" then true else located p.keyword row.content)
    && (if ltb_ℤ (pos 0) p.sender_id then row.sender_id == p.sender_id else true)
    && not_before p.start row.created_at
    && is_before p.end_time row.created_at

module _ (engine : QueryEngine) where
  abbrev pub get_messages_by_time_range : ℤ → ℤ → ℤ → ℤ → Result DbError (List Message)
  get_messages_by_time_range room start end_time limit = messages_of (
      engine.find
        (λ row. in_room room row && leb_ℤ start row.created_at && ltb_ℤ row.created_at end_time)
        (created_at_asc ∷ id_asc ∷ []) (pos 0) limit)

  abbrev pub get_messages_after_id : ℤ → ℤ → ℤ → Result DbError (List Message)
  get_messages_after_id room since limit =
      messages_of (engine.find (since_where room since) (id_asc ∷ []) (pos 0) limit)

  abbrev pub count_messages_after_id : ℤ → ℤ → Result DbError ℤ
  count_messages_after_id room since = engine.count (since_where room since)

  unfoldable pub search_messages :
      (String → String → Bool) → MessageSearchParams → Result DbError (List Message × ℤ)
  search_messages located p = search_page engine (search_where located p) p.offset p.limit
