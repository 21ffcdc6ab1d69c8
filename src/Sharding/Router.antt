-- ===== src/Sharding/Router.antt =====
-- sharding/router.rs: from keys to shards and their nodes.
pub mod Routes
use raft_kv_distributed_kv_s.Sharding.Ring
use raft_kv_distributed_kv_s.Sharding.Ring.{HashRing}
use Prim.Native.Nat.{ℕ}
use raft_kv_distributed_kv_s.Prelude.{
  ℕ, List, Text, ◌++◌, Option, ◌∷◌, Bool, length, none, [], if◌then◌else◌, ◌==◌, some, false,
}

pub record ShardConfig : Type 0 where
  pub shard_id : ℕ
  pub node_ids : List ℕ
  pub leader_port : Option ℕ

pub record Router : Type 0 where
  pub ring : HashRing
  pub shards : List ShardConfig

unfoldable pub add_all : HashRing → List ShardConfig → HashRing
add_all ring [] = ring
add_all ring (s ∷ shards) = add_all (Ring.add_shard ring s.shard_id) shards

unfoldable pub new : List ShardConfig → ℕ → Router
unfolding add_all
new shards virtual_nodes = record {
  ring = add_all (Ring.new virtual_nodes) shards;
  shards = shards;
}

-- `shards.iter().find(|s| s.shard_id == shard_id)`
unfoldable pub find_shard : ℕ → List ShardConfig → Option ShardConfig
find_shard id [] = none
find_shard id (s ∷ shards) = if s.shard_id == id then some s else find_shard id shards

-- `?` on the owner, then the search.
unfoldable pub route_to : Option ℕ → List ShardConfig → Option ShardConfig
route_to none shards = none
route_to (some id) shards = find_shard id shards

unfoldable pub route : Router → Text → Option ShardConfig
route r key = route_to (Ring.get_shard r.ring key) r.shards

unfoldable pub get_shard_id : Router → Text → Option ℕ
get_shard_id r key = Ring.get_shard r.ring key

unfoldable pub is_owner : Option ℕ → ℕ → Bool
is_owner none shard_id = false
is_owner (some id) shard_id = id == shard_id

unfoldable pub key_belongs_to_shard : Router → Text → ℕ → Bool
key_belongs_to_shard r key shard_id = is_owner (Ring.get_shard r.ring key) shard_id

unfoldable pub get_shard : Router → ℕ → Option ShardConfig
get_shard r shard_id = find_shard shard_id r.shards

unfoldable pub add_shard : Router → ShardConfig → Router
add_shard r config = record {
  ring = Ring.add_shard r.ring config.shard_id;
  shards = r.shards ++ config ∷ [];
}

unfoldable pub retain_shards : ℕ → List ShardConfig → List ShardConfig
retain_shards id [] = []
retain_shards id (s ∷ shards) =
    let rest = retain_shards id shards in if s.shard_id == id then rest else s ∷ rest

unfoldable pub remove_shard : Router → ℕ → Router
remove_shard r shard_id = record {
  ring = Ring.remove_shard r.ring shard_id;
  shards = retain_shards shard_id r.shards;
}

unfoldable pub shard_count : Router → ℕ
shard_count r = length r.shards
