-- ===== src/Metrics/Tests.antt =====
-- An example of a node's metrics.
use raft_kv_distributed_kv_s.Storage.Memtable
use raft_kv_distributed_kv_s.Prelude.{codes, none, some, [], ◌∷◌, ◌≡◌, arith, ap}
use raft_kv_distributed_kv_s.Raft.Node.{RaftNode, fresh}
use raft_kv_distributed_kv_s.Cluster.{ClusterNode, or_zero}
use raft_kv_distributed_kv_s.Metrics.Scrape.{scrape, scrape-generate_metrics}
use raft_kv_distributed_kv_s.Metrics.{generate_metrics}

abbrev raft : RaftNode
raft = record (fresh 2 (1 ∷ 2 ∷ 3 ∷ []) none) {
  state = record ((fresh 2 (1 ∷ 2 ∷ 3 ∷ []) none).state) {
    current_term = 7;
    commit_index = 41;
    leader_id = some 3;
  };
}

abbrev node : ClusterNode
node = record {
  raft = raft;
  storage = record { wal = record { file = []; buffer = [] }; memtable = Memtable.new };
  outbound_messages = [];
  router = none;
  shard_id = 1;
  pending_commit_index = none;
  syncs = [];
}

scrape-generate_metrics_example :
    scrape (generate_metrics node 2)
    ≡ (codes "raftkv_current_term", 7)
      ∷ (codes "raftkv_role", 0)
      ∷ (codes "raftkv_commit_index", 41)
      ∷ (codes "raftkv_last_applied", 0)
      ∷ (codes "raftkv_log_length", 0)
      ∷ (codes "raftkv_is_leader", 0)
      ∷ (codes "raftkv_known_leader", 3)
      ∷ []
scrape-generate_metrics_example = scrape-generate_metrics node 2 (record {
  term = omega arith;
  commit = omega arith;
  applied = omega arith;
  sentinel = omega arith;
  entries = omega arith;
  known = λ id e. omega (arith, ap or_zero e);
})
