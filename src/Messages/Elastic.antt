-- ===== src/Messages/Elastic.antt =====
-- The index of messages: services/messages/search/elasticsearch.go. Elasticsearch answers a query or an index
-- request; its JSON is a parameter with it. strings.TrimSpace is `trim`.
use lan_sync.Prelude.{
  String, string_eq, Bool, true, false, Option, none, some, List, [], ◌∷◌, ◌++◌, ◌==◌, map,
  if◌then◌else◌,
}
use lan_sync.Prelude.Int.{ℤ, pos, ltb_ℤ, leb_ℤ}
use lan_sync.Prelude.Result.{Result, ok, err}
use lan_sync.Messages.{Message}

pub record MessageDoc : Type 0 where
  pub room_seq : ℤ
  pub id : ℤ
  pub room_id : ℤ
  pub sender_id : ℤ
  pub client_msg_id : String
  pub type : ℤ
  pub content : String
  pub created_at : ℤ
  pub deleted_at : Option ℤ

-- `none` is the zero time; `size` is the field Size, and `first` the field From.
pub record SearchParams : Type 0 where
  pub query : String
  pub sender_id : ℤ
  pub start : Option ℤ
  pub end_time : Option ℤ
  pub first : ℤ
  pub size : ℤ

pub record MessageHit : Type 0 where
  pub room_seq : ℤ
  pub id : ℤ
  pub room_id : ℤ
  pub sender_id : ℤ
  pub client_msg_id : String
  pub type : ℤ
  pub content : String
  pub created_at : ℤ
  pub highlight : List String

pub record SearchResult : Type 0 where
  pub total : ℤ
  pub hits : List MessageHit

pub data Clause : Type 0 where
  term_room : ℤ → Clause
  multi_match : String → Clause
  term_sender : ℤ → Clause
  created_range : Option ℤ → Option ℤ → Clause

-- The parts of the query that are not fixed: every one excludes documents with `deleted_at` and sorts by
-- created_at and then id, both descending.
pub record EsQuery : Type 0 where
  pub must : List Clause
  pub first : ℤ
  pub size : ℤ

pub record EsAnswer : Type 0 where
  pub total : ℤ
  pub hits : List (MessageDoc × List String)

pub data EsError : Type 0 where
  not_enabled request_failed : EsError

pub record EsClient : Type 0 where
  pub search : EsQuery → Result EsError EsAnswer
  pub bulk : List (ℤ × MessageDoc) → Result EsError (Unit {0})

-- The variables of the package: `enabled` and `esClient`.
pub record Elastic : Type 0 where
  pub enabled : Bool
  pub client : Option EsClient

abbrev pub es_size : ℤ → ℤ
es_size size = if leb_ℤ size (pos 0) then pos 20 else if ltb_ℤ (pos 100) size then pos 100 else size

abbrev pub range_clause : Option ℤ → Option ℤ → List Clause
range_clause none none = []
range_clause none (some t) = created_range none (some t) ∷ []
range_clause (some t) none = created_range (some t) none ∷ []
range_clause (some t) (some u) = created_range (some t) (some u) ∷ []

unfoldable pub must_clauses : (String → String) → ℤ → SearchParams → List Clause
must_clauses trim room p =
    term_room room
    ∷ ((if trim p.query == "" then [] else multi_match p.query ∷ [])
        ++ ((if ltb_ℤ (pos 0) p.sender_id then term_sender p.sender_id ∷ [] else [])
            ++ range_clause p.start p.end_time))

abbrev pub hit_of : MessageDoc × List String → MessageHit
hit_of (doc, highlight) = record {
  room_seq = doc.room_seq;
  id = doc.id;
  room_id = doc.room_id;
  sender_id = doc.sender_id;
  client_msg_id = doc.client_msg_id;
  type = doc.type;
  content = doc.content;
  created_at = doc.created_at;
  highlight = highlight;
}

abbrev pub search_result : Result EsError EsAnswer → Result EsError SearchResult
search_result (err e) = err e
search_result (ok answer) = ok record { total = answer.total; hits = map hit_of answer.hits }

abbrev pub query_index :
    (String → String) → Bool → Option EsClient → ℤ → SearchParams → Result EsError SearchResult
query_index trim false client room p = err not_enabled
query_index trim true none room p = err not_enabled
query_index trim true (some es) room p =
    search_result (
      es.search
        (record { must = must_clauses trim room p; first = p.first; size = es_size p.size }))

unfoldable pub search_index :
    (String → String) → Elastic → ℤ → SearchParams → Result EsError SearchResult
search_index trim e room p = query_index trim e.enabled e.client room p

abbrev pub to_message_doc : Message → MessageDoc
to_message_doc m = record {
  room_seq = m.room_seq;
  id = m.id;
  room_id = m.room_id;
  sender_id = m.sender_id;
  client_msg_id = m.client_msg_id;
  type = m.type;
  content = m.content;
  created_at = m.created_at;
  deleted_at = if ltb_ℤ (pos 0) m.deleted_at then some m.deleted_at else none;
}

-- The documents under their ids; `none` is a nil message.
abbrev pub documents : List (Option Message) → List (ℤ × MessageDoc)
documents [] = []
documents (none ∷ rest) = documents rest
documents (some m ∷ rest) = (m.id, to_message_doc m) ∷ documents rest

abbrev pub index_with : Bool → Option EsClient → List (Option Message) → Result EsError (Unit {0})
index_with false client msgs = ok tt
index_with true none msgs = ok tt
index_with true (some es) [] = ok tt
index_with true (some es) (m ∷ msgs) = es.bulk (documents (m ∷ msgs))

abbrev pub index_messages : Elastic → List (Option Message) → Result EsError (Unit {0})
index_messages e msgs = index_with e.enabled e.client msgs
