-- ===== src/Hub/State.antt =====
-- The state of the registry (services/gateway/websocket/hub.go, client.go).
use lan_sync.Prelude.{ℕ, ◌%◌, Bool, Option, none, some, List, [], if◌then◌else◌, nat_eq, eqb}
use lan_sync.Prelude.Int.{ℤ, u64, int_eq}
use lan_sync.Prelude.Assoc.{Assoc, lookup}
use lan_sync.Events.{Bytes}

pub record OutboundMessage : Type 0 where
  pub payload : Bytes
  pub gateway_arrived_at : ℤ

pub record Client : Type 0 where
  pub user_id : ℤ
  pub active : Bool
  pub room_ids : List ℤ
  pub send : List OutboundMessage
  pub capacity : ℕ  -- of the channel `Send`
  pub send_closed : Bool

-- The message of a room with its JSON encoding.
pub record Message : Type 0 where
  pub room_id : ℤ
  pub payload : Bytes
  pub created_at : ℤ

pub record Shard : Type 0 where
  pub users : Assoc ℤ ℕ
  pub rooms : Assoc ℤ (List ℕ)
  pub forward : List Message
  pub kill_client : List ℕ

pub record Hub : Type 0 where
  pub shard_count : ℕ
  pub shards : ℕ → Shard
  pub clients : ℕ → Client
  pub fanout_threshold : ℕ
  pub fanout_batch_size : ℕ

abbrev pub empty_shard : Shard
empty_shard = record { users = []; rooms = []; forward = []; kill_client = [] }

-- NewHubWithShards, after the fallback to 64 shards.
unfoldable pub new_hub_with_shards : ℕ → (ℕ → Client) → ℕ → ℕ → Hub
new_hub_with_shards n clients threshold batch_size = record {
  shard_count = if eqb n 0 then 64 else n;
  shards = λ _. empty_shard;
  clients = clients;
  fanout_threshold = threshold;
  fanout_batch_size = batch_size;
}

-- `shardForUser` and `shardForRoom`.
abbrev pub shard_index : Hub → ℤ → ℕ
shard_index h id = u64 id % h.shard_count

abbrev pub set_shard : Hub → ℕ → Shard → Hub
set_shard h i s = record h { shards = λ j. if eqb j i then s else h.shards j }

abbrev pub set_client : Hub → ℕ → Client → Hub
set_client h c v = record h { clients = λ d. if eqb d c then v else h.clients d }

abbrev pub members : Option (List ℕ) → List ℕ
members none = []
members (some cs) = cs

unfoldable pub client_by_user : Hub → ℤ → Option ℕ
client_by_user h user = lookup user (h.shards (shard_index h user)).users

unfoldable pub room_members : Hub → ℤ → List ℕ
room_members h room = members (lookup room (h.shards (shard_index h room)).rooms)
