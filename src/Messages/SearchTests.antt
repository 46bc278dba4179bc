-- ===== src/Messages/SearchTests.antt =====
-- A search of a room of three messages that is read page by page, and one that the index answers
-- (services/messages/api/search_handler.go).
use lan_sync.Prelude.{
  ◌≡◌, refl, String, string_eq, Bool, true, false, none, some, List, [], ◌∷◌, ◌==◌, keep, take,
  drop, length, map, arith, inl,
}
use lan_sync.Prelude.Int.{ℤ, pos, pos_part}
use lan_sync.Prelude.Result.{Result, ok}
use lan_sync.Messages.{Row, DbError, to_message}
use lan_sync.Messages.Mysql
use lan_sync.Messages.Query.{QueryEngine}
use lan_sync.Messages.Elastic.{Elastic, MessageDoc, to_message_doc, search_index, hit_of}
use lan_sync.Messages.Search.{
  SearchRequest, from_index, message_hit, index_hits, search_params, search_room,
}
use lan_sync.Messages.Searching.{
  IsQueryEngine, IsNewestFirst, search_module, search_all, search_all_complete, page_at,
}

abbrev row : ℤ → String → ℤ → Row
row id content deleted = record {
  id = id;
  room_seq = some id;
  room_id = pos 4;
  sender_id = pos 1;
  client_msg_id = "c";
  type = pos 1;
  content = content;
  created_at = id;
  deleted_at = some deleted;
}

abbrev rows : List Row
rows =
    row (pos 40) "hi" (pos 0)
    ∷ row (pos 30) "no" (pos 0)
    ∷ row (pos 20) "hi" (pos 77)
    ∷ row (pos 10) "hi" (pos 0)
    ∷ []

-- The only order that it is asked for is that of its rows.
abbrev engine : QueryEngine
engine = record {
  count = λ picks. ok (pos (length (keep picks rows)));
  find = λ picks keys o n. ok (take (pos_part n) (drop (pos_part o) (keep picks rows)));
}

engine-IsQueryEngine : IsQueryEngine engine rows
engine-IsQueryEngine = record {
  sorted = (
    (inl refl, (inl refl, (inl refl, tt))),
    ((inl refl, (inl refl, tt)), ((inl refl, tt), (tt, tt))),
  );
  count = λ picks. refl;
  find = λ picks o n. refl;
}

abbrev everyone : ℤ → ℤ → Result DbError Bool
everyone room user = ok true

abbrev same_text : String → String → Bool
same_text a b = a == b

abbrev as_it_is : String → String
as_it_is s = s

abbrev no_index : Elastic
no_index = record { enabled = false; client = none }

abbrev request : SearchRequest
request = record {
  room_id = some (pos 4);
  user_id = pos 1;
  q = "hi";
  sender_id = pos 1;
  start = none;
  end_time = none;
  first = pos 0;
  size = pos 0;
}

search_all_complete_example :
    (search_all
        (search_module false engine same_text everyone as_it_is no_index)
        (pos 4)
        request
        1
        3
        0
      ≡ ok (
          map message_hit
            (map to_message (row (pos 40) "hi" (pos 0) ∷ row (pos 10) "hi" (pos 0) ∷ []))))
    × IsNewestFirst (row (pos 40) "hi" (pos 0) ∷ row (pos 10) "hi" (pos 0) ∷ [])
unfolding index_hits Mysql.in_room
search_all_complete_example =
    search_all_complete engine rows engine-IsQueryEngine same_text everyone as_it_is no_index
      (pos 4) request 0 (omega arith) refl false refl (λ o. refl)

-- An index that has only the last of the messages.
abbrev last_only : MessageDoc × List String
last_only = (to_message_doc (to_message (row (pos 10) "hi" (pos 0))), [])

abbrev late_index : Elastic
late_index = record {
  enabled = true;
  client = some record {
    search = λ q. ok record { total = pos 1; hits = last_only ∷ [] };
    bulk = λ docs. ok tt;
  };
}

-- Its answer is all that the search gives.
late_index_example :
    search_room
      (search_module false engine same_text everyone as_it_is late_index)
      (page_at (pos 4) request 20 0)
    ≡ from_index (record { total = pos 1; hits = hit_of last_only ∷ [] })
unfolding search_room index_hits search_index search_params
late_index_example = refl
