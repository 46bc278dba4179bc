-- ===== src/Messages/Search.antt =====
-- SearchMessages of services/messages/api/search_handler.go.
use lan_sync.Prelude.{
  ℕ, String, string_eq, Bool, true, false, Option, none, some, List, [], ◌^◌, ◌==◌, map,
  if◌then◌else◌,
}
use lan_sync.Prelude.Int.{ℤ, pos, negsuc, scale, ltb_ℤ, leb_ℤ, int_eq}
use lan_sync.Prelude.Result.{Result, ok, err}
use lan_sync.Messages.{Message, DbError}
use lan_sync.Messages.Query.{MessageSearchParams}
use lan_sync.Messages.Elastic.{
  Elastic, EsError, SearchParams, MessageHit, SearchResult, search_index,
}

-- What the handler calls, and the texts of the standard library.
pub record SearchModule : Type 0 where
  pub check_is_member : ℤ → ℤ → Result DbError Bool
  pub trim : String → String
  pub elastic : Elastic
  pub search_messages : MessageSearchParams → Result DbError (List Message × ℤ)

-- The parts of a request; the numbers are what strconv makes of the parameters, and an instant is missing where
-- strconv refuses it.
pub record SearchRequest : Type 0 where
  pub room_id : Option ℤ
  pub user_id : ℤ
  pub q : String
  pub sender_id : ℤ
  pub start : Option ℤ
  pub end_time : Option ℤ
  pub first : ℤ
  pub size : ℤ

pub data SearchReply : Type 0 where
  refused : ℕ → SearchReply
  from_index : SearchResult → SearchReply
  from_store : SearchResult → SearchReply

-- time.UnixMilli, in nanoseconds: `none` is the zero time, the start of the year 1.
abbrev pub unix_milli : ℤ → Option ℤ
unix_milli ms = if ms == negsuc 62135596799999 then none else some (scale ms (10 ^ 6))

abbrev pub instant : Option ℤ → Option ℤ
instant none = none
instant (some ms) = unix_milli ms

abbrev pub clamp_first : ℤ → ℤ
clamp_first first = if ltb_ℤ first (pos 0) then pos 0 else first

abbrev pub clamp_size : ℤ → ℤ
clamp_size size =
    if ltb_ℤ (pos 100) size then pos 100 else if leb_ℤ size (pos 0) then pos 20 else size

unfoldable pub search_params : String → SearchRequest → SearchParams
search_params keyword r = record {
  query = keyword;
  sender_id = r.sender_id;
  start = instant r.start;
  end_time = instant r.end_time;
  first = clamp_first r.first;
  size = clamp_size r.size;
}

-- What the index found, where it counts: an error or no hit does not.
abbrev pub indexed : Result EsError SearchResult → Option SearchResult
indexed (err e) = none
indexed (ok result) = if ltb_ℤ (pos 0) result.total then some result else none

unfoldable pub index_hits : SearchModule → ℤ → SearchParams → Option SearchResult
index_hits m room p =
    if m.elastic.enabled then indexed (search_index m.trim m.elastic room p) else none

abbrev pub message_hit : Message → MessageHit
message_hit m = record {
  room_seq = m.room_seq;
  id = m.id;
  room_id = m.room_id;
  sender_id = m.sender_id;
  client_msg_id = m.client_msg_id;
  type = m.type;
  content = m.content;
  created_at = m.created_at;
  highlight = [];
}

abbrev pub store_params : ℤ → SearchParams → MessageSearchParams
store_params room p = record {
  room_id = room;
  keyword = p.query;
  sender_id = p.sender_id;
  start = p.start;
  end_time = p.end_time;
  offset = p.first;
  limit = p.size;
}

abbrev pub store_hits : Result DbError (List Message × ℤ) → SearchReply
store_hits (err e) = refused 500
store_hits (ok (messages, total)) =
    from_store (record { total = total; hits = map message_hit messages })

abbrev pub hits_of : SearchModule → ℤ → SearchParams → Option SearchResult → SearchReply
hits_of m room p (some result) = from_index result
hits_of m room p none = store_hits (m.search_messages (store_params room p))

abbrev pub keyword_search : SearchModule → ℤ → SearchRequest → String → SearchReply
keyword_search m room r keyword =
    if keyword == ""
    then refused 400
    else hits_of m room (search_params keyword r) (index_hits m room (search_params keyword r))

abbrev pub member_search : SearchModule → ℤ → SearchRequest → Result DbError Bool → SearchReply
member_search m room r (err e) = refused 403
member_search m room r (ok false) = refused 403
member_search m room r (ok true) = keyword_search m room r (m.trim r.q)

abbrev pub room_search : SearchModule → SearchRequest → Option ℤ → SearchReply
room_search m r none = refused 400
room_search m r (some room) = member_search m room r (m.check_is_member room r.user_id)

unfoldable pub search_room : SearchModule → SearchRequest → SearchReply
search_room m r = room_search m r r.room_id
