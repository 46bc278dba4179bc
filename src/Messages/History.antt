-- ===== src/Messages/History.antt =====
-- GetChatHistory of services/messages/api/history_handler.go.
use lan_sync.Prelude.{
  ℕ, Bool, true, false, not, Option, none, some, List, [], ◌∷◌, ◌&&◌, ◌==◌, map, length,
  if◌then◌else◌,
}
use lan_sync.Prelude.Int.{ℤ, pos, ltb_ℤ, leb_ℤ, int_eq}
use lan_sync.Prelude.Result.{Result, ok, err}
use lan_sync.Messages.{Message, DbError}
use lan_sync.Messages.Cache.{CachedMsg, cached_msg}

-- What the handler calls: the membership of rooms, the cache and the repository; `store_is_mongo` tells
-- whether MESSAGE_STORE is "mongo".
pub record Module : Type 0 where
  pub check_is_member : ℤ → ℤ → Result DbError Bool
  pub get_latest_messages : ℤ → ℤ → Result DbError (List CachedMsg)
  pub get_history_by_cursor : ℤ → ℤ → ℤ → Result DbError (List Message)
  pub store_is_mongo : Bool

-- The parts of a request; `cursor` and `limit` are what strconv makes of the parameters.
pub record HistoryRequest : Type 0 where
  pub room_id : Option ℤ
  pub user_id : ℤ
  pub cursor : ℤ
  pub limit : ℤ

-- The reply, and for the store's pages the messages that are handed to the cache.
pub data HistoryReply : Type 0 where
  refused : ℕ → HistoryReply
  from_redis : List CachedMsg → ℤ → Bool → HistoryReply
  from_store : List CachedMsg → ℤ → Bool → List Message → HistoryReply

abbrev pub clamp_limit : ℤ → ℤ
clamp_limit limit =
    if ltb_ℤ (pos 100) limit then pos 100 else if leb_ℤ limit (pos 0) then pos 50 else limit

-- `length_int(xs)`
abbrev pub length_int {ℓ} : {A : Type ℓ} → List A → ℤ
length_int xs = pos (length xs)

-- The cached page counts where it is full.
abbrev pub full_page : ℤ → Result DbError (List CachedMsg) → Option (List CachedMsg)
full_page limit (err e) = none
full_page limit (ok cached) = if length_int cached == limit then some cached else none

abbrev pub cached_page : Module → ℤ → ℤ → ℤ → Option (List CachedMsg)
cached_page m room cursor limit =
    if cursor == pos 0 && not m.store_is_mongo
    then full_page limit (m.get_latest_messages room limit)
    else none

abbrev pub first_id : List CachedMsg → ℤ
first_id [] = pos 0
first_id (m ∷ rest) = m.id

abbrev pub redis_page : ℤ → List CachedMsg → HistoryReply
redis_page limit cached = from_redis cached (first_id cached) (length_int cached == limit)

abbrev pub backfilled : ℤ → List Message → List Message
backfilled cursor found = if cursor == pos 0 then found else []

abbrev pub store_page : ℤ → ℤ → Result DbError (List Message) → HistoryReply
store_page cursor limit (err e) = refused 500
store_page cursor limit (ok found) =
    from_store (map cached_msg found) (first_id (map cached_msg found)) (length_int found == limit)
      (backfilled cursor found)

abbrev pub page_of : Module → ℤ → ℤ → ℤ → Option (List CachedMsg) → HistoryReply
page_of m room cursor limit (some cached) = redis_page limit cached
page_of m room cursor limit none =
    store_page cursor limit (m.get_history_by_cursor room cursor limit)

abbrev pub member_page : Module → ℤ → ℤ → ℤ → Result DbError Bool → HistoryReply
member_page m room cursor limit (err e) = refused 403
member_page m room cursor limit (ok false) = refused 403
member_page m room cursor limit (ok true) =
    page_of m room cursor limit (cached_page m room cursor limit)

abbrev pub room_page : Module → HistoryRequest → Option ℤ → HistoryReply
room_page m r none = refused 400
room_page m r (some room) =
    member_page m room r.cursor (clamp_limit r.limit) (m.check_is_member room r.user_id)

unfoldable pub get_chat_history : Module → HistoryRequest → HistoryReply
get_chat_history m r = room_page m r r.room_id
