-- ===== src/Messages/Tests.antt =====
-- A room of three messages that is read page by page, and a message that is saved twice (services/messages).
use lan_sync.Prelude.{
  ◌≡◌, ◌≢◌, refl, ap, Bool, true, false, Option, none, some, List, [], ◌∷◌, keep, take, arith,
}
use lan_sync.Prelude.Int.{ℤ, pos, pos_part}
use lan_sync.Prelude.Result.{Result, ok, err}
use lan_sync.Prelude.Assoc.{lookup, insert}
use lan_sync.Messages.Saving.{
  MessageTable, mysql_save_message_batch, reconcile_all, reconcile_message, by_key,
}
use lan_sync.Messages.Replays.{IsOutcome, mysql_save_message_batch-IsOutcome}
use lan_sync.Messages.{Message, Row, Engine, DbError, no_documents}
use lan_sync.Messages.Cache.{CachedMsg}
use lan_sync.Messages.Ordered.{IsOrdered}
use lan_sync.Messages.Store.{IsEngine, first_where}
use lan_sync.Messages.Paging.{read_all}
use lan_sync.Messages.Pages.{shown}
use lan_sync.Messages.Complete.{message_module, read_all_complete}
use lan_sync.Messages.Mysql

abbrev row : ℤ → Option ℤ → ℤ → Row
row id seq deleted = record {
  id = id;
  room_seq = seq;
  room_id = pos 4;
  sender_id = pos 1;
  client_msg_id = "c";
  type = pos 1;
  content = "hi";
  created_at = pos 0;
  deleted_at = some deleted;
}

-- The second is deleted, and the last has no number.
abbrev rows : List Row
rows =
    row (pos 30) (some (pos 2)) (pos 0)
    ∷ row (pos 20) (some (pos 1)) (pos 77)
    ∷ row (pos 90) none (pos 0)
    ∷ []

abbrev found : (Row → Bool) → ℤ → Result DbError (List Row)
found picks limit = ok (take (pos_part limit) (keep picks rows))

abbrev engine : Engine
engine = record { find_one = λ picks. first_where picks rows; find = found }

engine-IsEngine : IsEngine engine rows
engine-IsEngine = record { find_one = λ picks. refl; find = λ picks n. refl }

differ : (a b : ℤ) → pos_part a ≢ pos_part b → a ≢ b
differ a b h e = h (ap pos_part e)

rows-IsOrdered : IsOrdered rows
rows-IsOrdered = (
  (
    omega arith,
    (
      (refl, differ (pos 30) (pos 20) (omega arith)),
      ((refl, differ (pos 30) (pos 90) (omega arith)), tt),
    ),
  ),
  ((omega arith, ((refl, differ (pos 20) (pos 90) (omega arith)), tt)), ((tt, tt), tt)),
)

no_cache : ℤ → ℤ → Result DbError (List CachedMsg)
no_cache room limit = err no_documents

everyone : ℤ → ℤ → Result DbError Bool
everyone room user = ok true

read_all_complete_example :
    read_all (message_module false engine everyone no_cache) (pos 4) (pos 1) (pos 1) 3 (pos 0)
    ≡ ok (shown (row (pos 30) (some (pos 2)) (pos 0) ∷ row (pos 90) none (pos 0) ∷ []))
unfolding no_cache everyone Mysql.in_room
read_all_complete_example =
    read_all_complete engine rows engine-IsEngine rows-IsOrdered
      (omega arith, (omega arith, (omega arith, tt))) everyone no_cache false (pos 4) (pos 1) 0 refl
      (omega arith) (λ cached e. cc e)

abbrev message : Message
message = record {
  id = pos 30;
  room_seq = pos 2;
  room_id = pos 4;
  sender_id = pos 1;
  client_msg_id = "c";
  type = pos 1;
  content = "hi";
  created_at = pos 0;
  deleted_at = pos 0;
}

-- A table in which the message is stored, and which stores no other.
abbrev table : MessageTable (List Message)
table = record {
  create_in_batches = λ msgs s. (ok tt, s);
  bulk_write = λ msgs s. (ok tt, s);
  find_by_client_ids = λ ids s. ok s;
}

mysql_save_message_batch-IsOutcome_example :
    IsOutcome table
      (record message { created_at = pos 9 } ∷ [])
      (message ∷ [])
      (mysql_save_message_batch table (record message { created_at = pos 9 } ∷ []) (message ∷ [])).0
      (mysql_save_message_batch table (record message { created_at = pos 9 } ∷ []) (message ∷ [])).1
mysql_save_message_batch-IsOutcome_example =
    mysql_save_message_batch-IsOutcome table (record message { created_at = pos 9 } ∷ [])
      (message ∷ [])

-- The time that was stored first stays.
replay_example :
    (mysql_save_message_batch table (record message { created_at = pos 9 } ∷ []) (message ∷ [])).0
    ≡ ok (message ∷ [])
unfolding mysql_save_message_batch reconcile_all reconcile_message by_key lookup insert
replay_example = refl
