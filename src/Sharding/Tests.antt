-- ===== src/Sharding/Tests.antt =====
-- Examples of rings and routers.
use raft_kv_distributed_kv_s.Sharding.Ring
use raft_kv_distributed_kv_s.Sharding.Router
use raft_kv_distributed_kv_s.Prelude.{
  ℕ, [], ◌∷◌, ◌≡◌, ◌≢◌, ◌⊎◌, refl, arith, some, none, Text, ◌==◌,
}
use raft_kv_distributed_kv_s.Sharding.Ring.{
  HashRing, get_shard, shard_at, add_shard, remove_shard, hash, add_vnodes, fnv, fnv_step,
  xor_shift, vnode_key,
}
use raft_kv_distributed_kv_s.Sharding.Router.{
  ShardConfig, Router, get_shard_id, add_all, route, key_belongs_to_shard,
}
use raft_kv_distributed_kv_s.Sharding.Ring.Clockwise.{Clockwise}
use raft_kv_distributed_kv_s.Sharding.Ring.Sorted.{changes, joins, change, owner-Clockwise}
use raft_kv_distributed_kv_s.Sharding.Ring.Owner.{
  add_shard_moves, remove_shard_keeps, remove_shard_gone,
}
use raft_kv_distributed_kv_s.Sharding.Router.Routes.{route_found, new-IsCovered}
use raft_kv_distributed_kv_s.OrderedMap.{insert, first_from}
use raft_kv_distributed_kv_s.Decimal.{decimal, decimal_from}

-- Two shards with two points each, and a key.
abbrev ring_2 : HashRing
ring_2 = changes (Ring.new 2) (joins 1 ∷ joins 2 ∷ [])

abbrev key : Text
key = b'k' ∷ b'e' ∷ b'y' ∷ []

owner_in_ring_2 : get_shard ring_2 key ≡ some 2
unfolding get_shard shard_at changes change add_shard add_vnodes hash fnv fnv_step xor_shift
    vnode_key decimal decimal_from insert first_from
owner_in_ring_2 = refl

add_shard_moves_example :
    (get_shard (add_shard ring_2 3) key ≡ get_shard ring_2 key)
    ⊎ (get_shard (add_shard ring_2 3) key ≡ some 3)
add_shard_moves_example = add_shard_moves ring_2 3 key

remove_shard_keeps_example : get_shard (remove_shard ring_2 1) key ≡ some 2
remove_shard_keeps_example =
    remove_shard_keeps ring_2 1 key 2 owner_in_ring_2 (λ e. absurd (omega (arith, e)))

remove_shard_gone_example : get_shard (remove_shard ring_2 2) key ≢ some 2
remove_shard_gone_example = remove_shard_gone ring_2 2 key

owner-Clockwise_example : Clockwise ring_2.ring (hash key) 2
owner-Clockwise_example = owner-Clockwise 2 (joins 1 ∷ joins 2 ∷ []) key 2 owner_in_ring_2

abbrev config : ℕ → ShardConfig
config id = record { shard_id = id; node_ids = 1 ∷ 2 ∷ 3 ∷ []; leader_port = none }

abbrev router_2 : Router
router_2 = Router.new (config 1 ∷ config 2 ∷ []) 2

owner_in_router_2 : get_shard_id router_2 key ≡ some 2
unfolding get_shard_id Router.new add_all get_shard shard_at add_shard add_vnodes hash fnv fnv_step
    xor_shift vnode_key decimal decimal_from insert first_from
owner_in_router_2 = refl

route_found_example :
    ((c : ShardConfig) × (route router_2 key ≡ some c) × (c.shard_id ≡ 2))
    × ((s : ℕ) → key_belongs_to_shard router_2 key s ≡ (2 == s))
route_found_example =
    route_found router_2 key 2 (new-IsCovered (config 1 ∷ config 2 ∷ []) 2) owner_in_router_2
