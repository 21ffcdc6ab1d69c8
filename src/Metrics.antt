-- ===== src/Metrics.antt =====
-- metrics.rs: the metrics of a node, as a text for Prometheus.
pub mod Readings
pub mod Scrape
mod Tests
use raft_kv_distributed_kv_s.Prelude.{ℕ, Text, codes, Option, none, some, List, [], ◌∷◌, ◌++◌}
use raft_kv_distributed_kv_s.Decimal.{decimal}
use raft_kv_distributed_kv_s.Raft.State.{NodeRole, RaftState, follower, leader, candidate}
use raft_kv_distributed_kv_s.Cluster.{ClusterNode}
use raft_kv_distributed_kv_s.Raft.Log.{last_index}

-- One metric: the three pieces of text that are pushed for it. `labels` come behind the node's.
pub record Metric : Type 0 where
  pub name : Text
  pub help : Text
  pub labels : Text
  pub value : ℕ

unfoldable pub help_line : Metric → Text
help_line m = codes "# HELP " ++ (m.name ++ 32 ∷ m.help)

unfoldable pub type_line : Metric → Text
type_line m = codes "# TYPE " ++ (m.name ++ codes " gauge")

unfoldable pub value_line : ℕ → Metric → Text
value_line node_id m =
    m.name
    ++ (codes "{node=\""
        ++ (decimal node_id ++ (b'"' ∷ (m.labels ++ (codes "} " ++ decimal m.value)))))

unfoldable pub print : ℕ → List Metric → Text
print node_id [] = []
print node_id (m ∷ ms) =
    help_line m ++ 10 ∷ (type_line m ++ 10 ∷ (value_line node_id m ++ 10 ∷ print node_id ms))

abbrev pub role_num : NodeRole → ℕ
role_num follower = 0
role_num candidate = 1
role_num leader = 2

abbrev pub role_str : NodeRole → Text
role_str follower = codes "follower"
role_str candidate = codes "candidate"
role_str leader = codes "leader"

abbrev pub is_leader : NodeRole → ℕ
is_leader leader = 1
is_leader _ = 0

abbrev pub known_leader : Option ℕ → List Metric
known_leader none = []
known_leader (some id) =
    record {
      name = codes "raftkv_known_leader";
      help = codes "The node ID of the known leader";
      labels = [];
      value = id;
    }
    ∷ []

abbrev pub role_metric : NodeRole → Metric
role_metric r = record {
  name = codes "raftkv_role";
  help = codes "Current role (0=follower, 1=candidate, 2=leader)";
  labels = codes ",role=\"" ++ (role_str r ++ codes "\"");
  value = role_num r;
}

abbrev pub metrics : RaftState → List Metric
metrics s =
    record {
      name = codes "raftkv_current_term";
      help = codes "The current Raft term";
      labels = [];
      value = s.current_term;
    }
    ∷ role_metric s.role
    ∷ record {
      name = codes "raftkv_commit_index";
      help = codes "The highest committed log index";
      labels = [];
      value = s.commit_index;
    }
    ∷ record {
      name = codes "raftkv_last_applied";
      help = codes "The highest applied log index";
      labels = [];
      value = s.last_applied;
    }
    ∷ record {
      name = codes "raftkv_log_length";
      help = codes "Number of entries in the Raft log";
      labels = [];
      value = last_index s.log;
    }
    ∷ record {
      name = codes "raftkv_is_leader";
      help = codes "Whether this node is the leader (1=yes, 0=no)";
      labels = [];
      value = is_leader s.role;
    }
    ∷ known_leader s.leader_id

unfoldable pub generate_metrics : ClusterNode → ℕ → Text
generate_metrics node node_id = print node_id (metrics node.raft.state)
