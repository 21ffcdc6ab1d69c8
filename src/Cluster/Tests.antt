-- ===== src/Cluster/Tests.antt =====
-- Examples of clients' commands and of actions.
use raft_kv_distributed_kv_s.Storage.Memtable
use raft_kv_distributed_kv_s.Raft.Node
use raft_kv_distributed_kv_s.Sharding.Router
use raft_kv_distributed_kv_s.Sharding.Router.{ShardConfig}
use raft_kv_distributed_kv_s.Prelude.{ℕ, Text, List, [], ◌∷◌, none, some, true}
use raft_kv_distributed_kv_s.Raft.Node.{Action, RaftNode, apply_entry, send_request_vote_response}
use raft_kv_distributed_kv_s.Raft.Persist.{Json}
use raft_kv_distributed_kv_s.Raft.State.{NodeRole, leader}
use raft_kv_distributed_kv_s.Cluster.Reads.{Got, committed, get_after_commit}
use raft_kv_distributed_kv_s.Raft.Log.{sentinel}
use raft_kv_distributed_kv_s.Storage.Lines.{text_eq}
use raft_kv_distributed_kv_s.Protocol.{get}
use raft_kv_distributed_kv_s.Cluster.Clients.{Written, client_writes}
use raft_kv_distributed_kv_s.Raft.Message.{RequestVoteResponse}
use raft_kv_distributed_kv_s.Cluster.Actions.{Processed, process_actions-Processed}
use raft_kv_distributed_kv_s.Cluster.{
  process_actions, RaftNode, ClusterNode, leader, true, apply_entry, put, ok_string,
  send_request_vote_response, delete, handle_client_command, set, integer, del,
}
use raft_kv_distributed_kv_s.Raft.Log.{put, delete}

abbrev json : Json
json = record { to_string_pretty = λ _. none; from_str = λ _. none }

abbrev a : Text
a = b'a' ∷ []

abbrev b : Text
b = b'b' ∷ []

abbrev raft_of : ℕ → NodeRole → RaftNode
raft_of id role = record (Node.new id (1 ∷ 2 ∷ 3 ∷ [])) {
  state = record ((Node.new id (1 ∷ 2 ∷ 3 ∷ [])).state) { role = role; current_term = 1 };
}

abbrev node_of : ℕ → NodeRole → ClusterNode
node_of id role = record {
  raft = raft_of id role;
  storage = record { wal = record { file = []; buffer = [] }; memtable = Memtable.new };
  outbound_messages = [];
  router = none;
  shard_id = 1;
  pending_commit_index = some 5;
  syncs = [];
}

-- A leader of shard 1 with a router over two shards.
abbrev config : ℕ → ShardConfig
config id = record { shard_id = id; node_ids = 1 ∷ 2 ∷ 3 ∷ []; leader_port = none }

abbrev sharded : ClusterNode
sharded = record (node_of 1 leader) { router = some (Router.new (config 1 ∷ config 2 ∷ []) 2) }

client_writes_example :
    Written sharded a (put a b) ok_string (handle_client_command json sharded (set a b))
    × Written sharded a (delete a) (integer 1) (handle_client_command json sharded (del a))
client_writes_example = client_writes json sharded a b

-- Actions that apply two commands.
abbrev vote : RequestVoteResponse
vote = record { term = 1; vote_granted = true }

abbrev leaders : List Action
leaders =
    apply_entry 1 (put a b) ∷ send_request_vote_response 3 vote ∷ apply_entry 2 (delete b) ∷ []

process_actions-Processed_example :
    Processed (node_of 1 leader) leaders (process_actions (node_of 1 leader) leaders)
process_actions-Processed_example = process_actions-Processed (node_of 1 leader) leaders

-- A node that has applied nothing of the two writes in its log.
abbrev behind : ClusterNode
behind = record (node_of 1 leader) {
  raft = record (raft_of 1 leader) {
    state = record ((raft_of 1 leader).state) {
      log = record {
        entries =
            sentinel
            ∷ record { term = 1; command = put a b }
            ∷ record { term = 1; command = delete b }
            ∷ [];
      };
    };
  };
}

get_after_commit_example :
    Got behind a (some b) (handle_client_command json (committed behind 2) (get a)).1
unfolding text_eq Node.new Node.reset_election_timeout
get_after_commit_example = get_after_commit json behind 2 a
