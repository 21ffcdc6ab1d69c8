-- ===== src/Main/Integration/Sharding.antt =====
-- main.rs: the tests of the hash ring, of the router and of a node with shards.
use raft_kv_distributed_kv_s.Prelude.{if◌then◌else◌}
use raft_kv_distributed_kv_s.Raft.Node.Commit
use raft_kv_distributed_kv_s.Decimal
use raft_kv_distributed_kv_s.Raft.Log
use raft_kv_distributed_kv_s.Storage.Memtable
use raft_kv_distributed_kv_s.Raft.Node.Entries
use raft_kv_distributed_kv_s.Storage.Lines
use raft_kv_distributed_kv_s.OrderedMap.Orders
use raft_kv_distributed_kv_s.Raft.State
use raft_kv_distributed_kv_s.Raft.Node.Replicate
use raft_kv_distributed_kv_s.Raft.Persist
use raft_kv_distributed_kv_s.Raft.Node.Election
use raft_kv_distributed_kv_s.Raft.Node
use raft_kv_distributed_kv_s.Storage.Wal
use raft_kv_distributed_kv_s.OrderedMap
use raft_kv_distributed_kv_s.Cluster
use raft_kv_distributed_kv_s.Sharding.Ring
use raft_kv_distributed_kv_s.Sharding.Router
use raft_kv_distributed_kv_s.Storage.Engine
use raft_kv_distributed_kv_s.Sharding.Ring.{HashRing, add_shard, remove_shard, get_shard}
use raft_kv_distributed_kv_s.Sharding.Router.{
  ShardConfig, Router, get_shard_id, key_belongs_to_shard, route,
}
use raft_kv_distributed_kv_s.Decimal.{decimal}
use raft_kv_distributed_kv_s.Cluster.{ClusterNode, handle_client_command}
use raft_kv_distributed_kv_s.Protocol.{Response, set, get, bulk_string, error, null}
use raft_kv_distributed_kv_s.Raft.Node.{with_persistence}
use raft_kv_distributed_kv_s.Raft.Persist.{Json}
use raft_kv_distributed_kv_s.Main.Integration.{
  all_hold, option_eq, is_none, is_simple, ticks, no_file, ℕ, Option, List, Bool, Text, IoResult,
  [], false, true, ◌∷◌, text_eq, suc, some, ok, tick_until_acts,
}
use raft_kv_distributed_kv_s.Prelude.{
  ℕ, Option, List, Bool, ◌≡◌, Text, IoResult, map, codes, [], false, true, ◌∷◌, take, suc, some,
  ◌&&◌, ◌==◌, ok, refl, ◌++◌, leb, ◌||◌, ltb, not, none, ◌+◌, length, io_error, zero,
}
use raft_kv_distributed_kv_s.Storage.Lines.{text_eq}

-- `(0..n).map(|i| format!("<prefix>{}", i))`, from `i` on, by the rounds left.
abbrev keys : ℕ → ℕ → Text → List Text
keys zero i prefix = []
keys (suc rounds) i prefix = (prefix ++ decimal i) ∷ keys rounds (i + 1) prefix

abbrev is_one_of : Option ℕ → ℕ → ℕ → Bool
is_one_of none low high = false
is_one_of (some shard) low high = leb low shard && leb shard high

abbrev within : List (Option ℕ) → ℕ → ℕ → Bool
within [] low high = true
within (o ∷ rest) low high = is_one_of o low high && within rest low high

abbrev count : ℕ → List (Option ℕ) → ℕ
count shard [] = 0
count shard (o ∷ rest) =
    (if option_eq (λ a b. a == b) o (some shard) then 1 else 0) + count shard rest

abbrev is_first_or_third : Option ℕ → Bool
is_first_or_third none = false
is_first_or_third (some shard) = (shard == 1) || (shard == 3)

abbrev is_some : Option ℕ → Bool
is_some none = false
is_some (some shard) = true

unfoldable test_consistent_hashing_ring : Bool
test_consistent_hashing_ring =
    let r0 = Ring.new 64 in
    let r3 = add_shard (add_shard (add_shard r0 1) 2) 3 in
    let owners = map (get_shard r3) (keys 100 0 (codes "key_")) in
    let r2 = remove_shard r3 2 in
    all_hold (
      is_none (get_shard r0 (codes "any_key"))
      ∷ (Ring.shard_count r3 == 3)
      ∷ within owners 1 3
      ∷ is_some (get_shard r3 (codes "test_key"))
      ∷ option_eq (λ a b. a == b) (get_shard r3 (codes "test_key"))
          (get_shard r3 (codes "test_key"))
      ∷ ltb 10 (count 1 owners)
      ∷ ltb 10 (count 2 owners)
      ∷ ltb 10 (count 3 owners)
      ∷ is_some (get_shard r3 (codes "stable_key"))
      ∷ (Ring.shard_count r2 == 2)
      ∷ is_first_or_third (get_shard r2 (codes "stable_key"))
      ∷ [])

ring_test : test_consistent_hashing_ring ≡ true
unfolding test_consistent_hashing_ring Ring.add_shard Ring.add_vnodes Ring.get_shard Ring.shard_at
    Ring.hash Ring.fnv Ring.fnv_step Ring.xor_shift Ring.vnode_key OrderedMap.insert
    OrderedMap.first_from Decimal.decimal Decimal.decimal_from Ring.remove_shard OrderedMap.retain
    Ring.shard_count Ring.sort Ring.insert_sorted Ring.dedup
ring_test = refl

abbrev shards : List ShardConfig
shards =
    record { shard_id = 1; node_ids = 1 ∷ 2 ∷ 3 ∷ []; leader_port = some 6381 }
    ∷ record { shard_id = 2; node_ids = 4 ∷ 5 ∷ 6 ∷ []; leader_port = some 6384 }
    ∷ []

abbrev config_holds : Option ShardConfig → ℕ → Bool
config_holds none owning = false
config_holds (some c) owning = (c.shard_id == owning) && ltb 0 (length c.node_ids)

abbrev owner_holds : Router → Text → Option ℕ → Bool
owner_holds r key none = false
owner_holds r key (some owning) = all_hold (
    key_belongs_to_shard r key owning
    ∷ not (key_belongs_to_shard r key (if owning == 1 then 2 else 1))
    ∷ config_holds (route r key) owning
    ∷ [])

unfoldable test_router_key_routing : Bool
test_router_key_routing =
    let r = Router.new shards 64 in
    let key = codes "important_data" in
    all_hold (
      within (map (get_shard_id r) (keys 50 0 (codes "user_"))) 1 2
      ∷ owner_holds r key (get_shard_id r key)
      ∷ [])

router_test : test_router_key_routing ≡ true
unfolding test_router_key_routing Ring.add_shard Ring.add_vnodes Ring.get_shard Ring.shard_at
    Ring.hash Ring.fnv Ring.fnv_step Ring.xor_shift Ring.vnode_key OrderedMap.insert
    OrderedMap.first_from Decimal.decimal Decimal.decimal_from Router.new Router.add_all
    Router.route Router.route_to Router.find_shard Router.get_shard_id Router.is_owner
    Router.key_belongs_to_shard
router_test = refl

-- `e.starts_with("MOVED")`
abbrev is_moved : Response → Bool
is_moved (error e) = text_eq (take 5 e) (codes "MOVED")
is_moved _ = false

-- A SET for each key, and the replies in turn.
unfoldable sets : Json → ClusterNode → List Text → ClusterNode × List Response
sets json n [] = (n, [])
sets json n (key ∷ rest) =
    let (m, reply) = handle_client_command json n (set key (codes "test")) in
    let (k, replies) = sets json m rest in (k, reply ∷ replies)

abbrev count_replies : (Response → Bool) → List Response → ℕ
count_replies p [] = 0
count_replies p (r ∷ rest) = (if p r then 1 else 0) + count_replies p rest

abbrev each : (Response → Bool) → List Response → Bool
each p [] = true
each p (r ∷ rest) = p r && each p rest

unfoldable gets : Json → ClusterNode → List Text → List Response
gets json n [] = []
gets json n (key ∷ rest) =
    let (m, reply) = handle_client_command json n (get key) in reply ∷ gets json m rest

abbrev is_read : Response → Bool
is_read (bulk_string s) = true
is_read null = true
is_read r = is_moved r

unfoldable sharded_holds : Json → IoResult ClusterNode → Bool
sharded_holds json io_error = false
sharded_holds json (ok n) =
    let all_keys = keys 50 0 (codes "key_") in
    let (m, replies) = sets json (ticks 65 json n) all_keys in
    all_hold (
      each (λ r. is_simple r (codes "OK") || is_moved r) replies
      ∷ ltb 5 (count_replies (λ r. is_simple r (codes "OK")) replies)
      ∷ ltb 5 (count_replies is_moved replies)
      ∷ each is_read (gets json m all_keys)
      ∷ [])

unfoldable test_sharded_cluster_node : Json → Bool
test_sharded_cluster_node json = sharded_holds json (
    Cluster.with_sharding 1 shards [] (Engine.new [] true true)
      (with_persistence json 1 (1 ∷ []) no_file true true))

sharded_test : (json : Json) → test_sharded_cluster_node json ≡ true
unfolding test_sharded_cluster_node sharded_holds sets gets ticks Cluster.with_sharding Cluster.tick
    Cluster.process_actions Cluster.process_action Cluster.apply Cluster.store Cluster.next_sync
    Cluster.handle_client_command Cluster.write Cluster.read Cluster.moved_to Cluster.write_as
    Cluster.after_propose Node.with_persistence Node.restore Persist.load Log.from_entries
    Persist.write Node.new Node.reset_election_timeout tick_until_acts Election.tick
    Election.tick_as Election.tick_election Node.timeout_of Node.next_seed Election.start_election
    Election.has_majority State.majority_count Election.stand Node.persist State.become_candidate
    Election.request_votes Election.handle_request_vote Election.vote_request Election.decide_vote
    Election.may_vote_for Election.adopt_term State.become_follower Election.up_to_date
    Log.last_term Log.last_index Election.handle_request_vote_response Election.vote_response_as
    Election.grant_vote Election.count_vote Node.insert_vote Node.contains Election.win_election
    Log.entries_from Log.term_at Log.to_entries Election.tick_heartbeat Replicate.find_index
    Replicate.replicate_to Replicate.replicate_to_all_peers Replicate.replicate_to_peer
    Replicate.request_from Replicate.send_heartbeats Node.save_if_any Persist.save
    State.become_leader State.track Entries.handle_append_entries Entries.follow_leader
    Entries.check_entries Entries.accept_entries Entries.take_entries Entries.merge_entries
    Entries.new_entries Entries.scan Entries.store_entries Entries.follow_commit Entries.propose_as
    Entries.propose Entries.append_proposal Entries.handle_append_entries_response
    Entries.append_response_as Entries.note_success Entries.note_failure Entries.step_back
    Entries.update_index Commit.maybe_advance_commit_index Commit.advance_loop Commit.can_commit
    Commit.replicas Commit.apply_committed_entries Commit.apply_loop Commit.apply_found
    Commit.apply_command Log.append Log.append_entries Log.truncate_from Log.get text_eq Engine.new
    Engine.put Engine.delete Engine.get Engine.recover Engine.recover_as Wal.append Wal.sync
    Wal.replay Wal.parse_lines Lines.lines Wal.serialize_entry Wal.entry_line Wal.parse_line
    Wal.parse_fields Lines.split Lines.strip_return Memtable.get OrderedMap.get Memtable.put
    OrderedMap.insert Orders.text_lt Memtable.delete Ring.add_shard Ring.add_vnodes Ring.get_shard
    Ring.shard_at Ring.hash Ring.fnv Ring.fnv_step Ring.xor_shift Ring.vnode_key
    OrderedMap.first_from Decimal.decimal Decimal.decimal_from Router.new Router.add_all
    Router.route Router.route_to Router.find_shard Router.get_shard_id Router.is_owner
    Router.key_belongs_to_shard
sharded_test json = refl
