-- ===== src/Messages/Complete.antt =====
-- The history over either store, as services/messages/runtime/runtime.go joins them.
use lan_sync.Prelude.{
  take, ℕ, suc, ◌≤◌, ◌≡◌, Bool, true, false, List, All, and_true, eq_of, keep, length,
}
use lan_sync.Prelude.Int.{ℤ, pos, ◌<ℤ◌, int_eq}
use lan_sync.Prelude.Result.{Result, ok}
use lan_sync.Messages.{Message, Row, Engine, DbError}
use lan_sync.Messages.Ordered.{IsOrdered}
use lan_sync.Messages.Cache.{CachedMsg}
use lan_sync.Messages.History.{Module}
use lan_sync.Messages.Store.{IsEngine, mysql-IsHistory, mongo-IsHistory}
use lan_sync.Messages.Paging.{read_all, read_all-shown}
use lan_sync.Messages.Pages.{shown}
use lan_sync.Messages.Mysql
use lan_sync.Messages.Mongo

abbrev pub repository : Bool → Engine → ℤ → ℤ → ℤ → Result DbError (List Message)
repository true engine = Mongo.get_history_by_cursor engine
repository false engine = Mysql.get_history_by_cursor engine

abbrev pub message_module :
    Bool
    → Engine
    → (ℤ → ℤ → Result DbError Bool)
    → (ℤ → ℤ → Result DbError (List CachedMsg))
    → Module
message_module mongo engine members latest = record {
  check_is_member = members;
  get_latest_messages = latest;
  get_history_by_cursor = repository mongo engine;
  store_is_mongo = mongo;
}

-- The rows of a room that are not deleted.
abbrev pub visible_in : Bool → ℤ → Row → Bool
visible_in true = Mongo.in_room
visible_in false = Mysql.in_room

visible-room :
    (mongo : Bool) (room : ℤ) (y : Row) → visible_in mongo room y ≡ true → y.room_id ≡ room
unfolding Mongo.in_room Mysql.in_room
visible-room true room y h = eq_of y.room_id room (and_true _ _ h).1
visible-room false room y h = eq_of y.room_id room (and_true _ _ h).1

module _ (engine : Engine) (rows : List Row) (law : IsEngine engine rows) (ordered : IsOrdered rows)
    (positive : All (λ y. pos 0 <ℤ y.id) rows) (members : ℤ → ℤ → Result DbError Bool)
    (latest : ℤ → ℤ → Result DbError (List CachedMsg)) where
  -- A member of a room who reads its history with any page size from 1 to 100, page by page, until no more is
  -- announced, is shown every message of the room that is not deleted, once and from the oldest to the newest,
  -- with either store; the pages are at most as many as the messages, and one. The rows do not change meanwhile,
  -- their ids and numbers are positive, and a full page of the cache is the newest page of the store.
  pub read_all_complete :
      (mongo : Bool) (room user : ℤ) (n : ℕ)
      → members room user ≡ ok true
      → suc n ≤ 100
      → ((cached : List CachedMsg)
          → latest room (pos (suc n)) ≡ ok cached
          → length cached ≡ suc n
          → cached ≡ shown (take (suc n) (keep (visible_in mongo room) rows)))
      → read_all
          (message_module mongo engine members latest)
          room
          user
          (pos (suc n))
          (suc (length (keep (visible_in mongo room) rows)))
          (pos 0)
        ≡ ok (shown (keep (visible_in mongo room) rows))
  read_all_complete true room user n member most fresh =
      read_all-shown (message_module true engine members latest) rows Mongo.in_room
        (mongo-IsHistory engine rows law ordered) (visible-room true) room user member n most
        positive fresh
  read_all_complete false room user n member most fresh =
      read_all-shown (message_module false engine members latest) rows Mysql.in_room
        (mysql-IsHistory engine rows law ordered) (visible-room false) room user member n most
        positive fresh
