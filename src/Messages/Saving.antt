-- ===== src/Messages/Saving.antt =====
-- Saving a batch of messages, of which some may have been saved before: SaveMessageBatch of
-- services/messages/repository/mysql_repository.go and mongo_repository.go, and
-- services/messages/models/message_identity.go.
use lan_sync.Prelude.{
  String, Bool, not, List, [], ◌∷◌, ◌&&◌, ◌||◌, ◌==◌, map, keep, if◌then◌else◌, string_eq, pair_eq,
}
use lan_sync.Prelude.Int.{ℤ, pos, ltb_ℤ, int_eq}
use lan_sync.Prelude.Assoc.{Assoc, lookup, insert}
use lan_sync.Prelude.Result.{Result, ok, err, ◌>>=◌, or_fail}
use lan_sync.Messages.{Message, DbError}

pub data SaveError : Type 0 where
  identity_conflict missing_message store_failed : SaveError

abbrev pub MessageRequestKey : Type 0
MessageRequestKey = ℤ × String

abbrev pub request_key : Message → MessageRequestKey
request_key m = (m.sender_id, m.client_msg_id)

-- Whether a message with a number differs from the one that is stored.
abbrev pub is_conflict : Message → Message → Bool
is_conflict incoming stored =
    ltb_ℤ (pos 0) incoming.room_seq
    && (not (incoming.id == stored.id)
        || not (incoming.room_seq == stored.room_seq)
        || not (incoming.room_id == stored.room_id)
        || not (incoming.sender_id == stored.sender_id)
        || not (incoming.client_msg_id == stored.client_msg_id)
        || not (incoming.content == stored.content)
        || not (incoming.type == stored.type))

-- The message that `incoming` becomes.
unfoldable pub reconcile_message : Message → Message → Result SaveError Message
reconcile_message incoming stored =
    if is_conflict incoming stored then err identity_conflict else ok stored

-- The map of the stored messages; a later one takes the place of an earlier.
unfoldable pub by_key :
    Assoc MessageRequestKey Message → List Message → Assoc MessageRequestKey Message
by_key table [] = table
by_key table (m ∷ rest) = by_key (insert (request_key m) m table) rest

unfoldable pub reconcile_all :
    Assoc MessageRequestKey Message → List Message → Result SaveError (List Message)
reconcile_all stored [] = ok []
reconcile_all stored (m ∷ rest) = do
  found ← or_fail (lookup (request_key m) stored) missing_message
  same ← reconcile_message m found
  others ← reconcile_all stored rest
  ok (same ∷ others)

-- The writes that insert the messages whose key is new, and the stored messages with one of some client ids.
pub record MessageTable (S : Type 0) : Type 0 where
  pub create_in_batches : List Message → S → Result DbError (Unit {0}) × S
  pub bulk_write : List Message → S → Result DbError (Unit {0}) × S
  pub find_by_client_ids : List String → S → Result DbError (List Message)

-- gorm's Transaction: an error takes back what was written.
abbrev pub transaction {ℓ} :
    {S : Type 0} {A : Type ℓ} → S → Result SaveError A × S → Result SaveError A × S
transaction s (ok a, t) = (ok a, t)
transaction s (err e, t) = (err e, s)

module _ {S : Type 0} (table : MessageTable S) where
  abbrev pub client_ids : List Message → List String
  client_ids = map Message.client_msg_id

  abbrev pub reconciled :
      List Message → S → Result DbError (List Message) → Result SaveError (List Message) × S
  reconciled msgs t (err e) = (err store_failed, t)
  reconciled msgs t (ok found) = (reconcile_all (by_key [] found) msgs, t)

  abbrev pub after_write :
      List Message → Result DbError (Unit {0}) × S → Result SaveError (List Message) × S
  after_write msgs (err e, t) = (err store_failed, t)
  after_write msgs (ok _, t) = reconciled msgs t (table.find_by_client_ids (client_ids msgs) t)

  -- The messages as the caller's pointers hold them afterwards.
  unfoldable pub mysql_save_message_batch : List Message → S → Result SaveError (List Message) × S
  mysql_save_message_batch [] s = (ok [], s)
  mysql_save_message_batch (m ∷ rest) s =
      transaction s (after_write (m ∷ rest) (table.create_in_batches (m ∷ rest) s))

  abbrev pub is_writable : Message → Bool
  is_writable m = not (m.client_msg_id == "")

  abbrev pub written : List Message → List Message → S → Result SaveError (List Message) × S
  written msgs [] s = (ok msgs, s)
  written msgs (w ∷ writes) s = after_write msgs (table.bulk_write (w ∷ writes) s)

  unfoldable pub mongo_save_message_batch : List Message → S → Result SaveError (List Message) × S
  mongo_save_message_batch [] s = (ok [], s)
  mongo_save_message_batch (m ∷ rest) s = written (m ∷ rest) (keep is_writable (m ∷ rest)) s
