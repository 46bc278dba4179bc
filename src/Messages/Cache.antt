-- ===== src/Messages/Cache.antt =====
-- The cache of a room's newest messages: GetLatestMessages and BackfillRoomCache of cache/redisconfig.go.
-- Redis and encoding/json are parameters: what the query of the sorted set answers, and a list of commands.
use lan_sync.Prelude.{
  not, ◌^◌, String, Bool, Option, none, some, List, [], ◌∷◌, ◌||◌, ◌==◌, map, if◌then◌else◌,
  string_eq,
}
use lan_sync.Prelude.Int.{ℤ, pos, ltb_ℤ, leb_ℤ, ◌-ℤ◌, int_eq}
use lan_sync.Prelude.Result.{Result, ok, err}
use mathlib.Core.List.{reverse}
use lan_sync.Messages.{Message, DbError}

-- The message as it is cached and as the API returns it, which have the same fields.
pub record CachedMsg : Type 0 where
  pub room_seq : ℤ
  pub client_msg_id : String
  pub id : ℤ
  pub room_id : ℤ
  pub sender_id : ℤ
  pub type : ℤ
  pub content : String
  pub created_at : ℤ

abbrev pub cached_msg : Message → CachedMsg
cached_msg m = record {
  room_seq = m.room_seq;
  client_msg_id = m.client_msg_id;
  id = m.id;
  room_id = m.room_id;
  sender_id = m.sender_id;
  type = m.type;
  content = m.content;
  created_at = m.created_at;
}

abbrev pub room_latest_max : ℤ
room_latest_max = pos 100

-- The values that decode, in their order.
unfoldable pub decoded : (String → Option CachedMsg) → List String → List CachedMsg
decoded unmarshal [] = []
decoded unmarshal (v ∷ rest) =
    let others = decoded unmarshal rest in
    elim (unmarshal v) [ none ↦ others | some m ↦ m ∷ others ]

-- `z_rev_range` answers the members of the room's set from the highest score down.
unfoldable pub get_latest_messages :
    (ℤ → ℤ → ℤ → Result DbError (List String))
    → (String → Option CachedMsg)
    → ℤ
    → ℤ
    → Result DbError (List CachedMsg)
get_latest_messages z_rev_range unmarshal room limit =
    elim (z_rev_range room (pos 0) (limit -ℤ pos 1)) [
      | err e ↦ err e
      | ok vals ↦ ok (reverse (decoded unmarshal vals))
    ]

-- A command of the pipeline, for the key of a room.
pub data RedisCommand : Type 0 where
  z_add : ℤ → ℤ → String → RedisCommand
  z_rem_range_by_rank : ℤ → ℤ → ℤ → RedisCommand
  expire : ℤ → RedisCommand

abbrev pub is_cacheable : Message → Bool
is_cacheable m = not (leb_ℤ m.room_seq (pos 0) || ltb_ℤ (pos (2 ^ 53)) m.room_seq)

-- The rooms of the loop, each once.
abbrev pub with_room : ℤ → List ℤ → List ℤ
with_room room [] = room ∷ []
with_room room (r ∷ rest) =
    let others = with_room room rest in if r == room then r ∷ rest else r ∷ others

module _ (marshal : CachedMsg → Option String) where
  unfoldable pub backfill_commands : List Message → List ℤ → List RedisCommand
  backfill_commands [] rooms = map expire rooms
  backfill_commands (m ∷ rest) rooms =
      let skipped = backfill_commands rest rooms in
      let added = backfill_commands rest (with_room m.room_id rooms) in
      if is_cacheable m
      then (elim (marshal (cached_msg m)) [
        | none ↦ skipped
        | some payload ↦
            z_add m.room_id m.room_seq payload
            ∷ z_rem_range_by_rank m.room_id (pos 0) (pos 0 -ℤ room_latest_max -ℤ pos 1)
            ∷ added
      ])
      else skipped

  -- The source expires the keys in the order in which Go runs through its map.
  unfoldable pub backfill_room_cache : List Message → List RedisCommand
  backfill_room_cache msgs = backfill_commands msgs []
