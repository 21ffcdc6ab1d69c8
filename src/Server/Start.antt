-- ===== src/Server/Start.antt =====
-- network/server.rs, Server::new, with the files that it opens as an argument.
use raft_kv_distributed_kv_s.Cluster
use raft_kv_distributed_kv_s.Storage.Engine
use raft_kv_distributed_kv_s.Prelude.{
  ℕ, Text, Bool, Option, none, some, List, [], ◌∷◌, ◌==◌, if◌then◌else◌, IoResult, ok, io_error,
}
use raft_kv_distributed_kv_s.Transport
use raft_kv_distributed_kv_s.Cluster.{ClusterNode}
use raft_kv_distributed_kv_s.Transport.{NodeConfig, PeerTransport}
use raft_kv_distributed_kv_s.Raft.Persist.{StatePersister, Json}
use raft_kv_distributed_kv_s.Storage.Wal.{SyncResult}
use raft_kv_distributed_kv_s.Raft.Node.{with_persistence}

-- What a data directory holds, and the outcomes of opening and reading it and of the syncs to come.
pub record Disk : Type 0 where
  pub wal_file : Text
  pub wal_opened : Bool
  pub wal_readable : Bool
  pub state_file : StatePersister
  pub dir_made : Bool
  pub state_readable : Bool
  pub syncs : List SyncResult

unfoldable pub open_node : Json → ℕ → List ℕ → Disk → IoResult ClusterNode
open_node json id peers disk =
    Cluster.new disk.syncs (Engine.new disk.wal_file disk.wal_opened disk.wal_readable)
      (with_persistence json id peers disk.state_file disk.dir_made disk.state_readable)

pub record Server : Type 0 where
  pub node : ClusterNode
  pub addr : Text
  pub transport : PeerTransport
  pub peer_port : ℕ
  pub node_id : ℕ
  pub all_nodes : List NodeConfig

unfoldable pub find_config : ℕ → List NodeConfig → Option NodeConfig
find_config id [] = none
find_config id (c ∷ cs) = let rest = find_config id cs in if c.id == id then some c else rest

-- `none` is a panic: the node has no configuration.
abbrev pub with_config :
    (ℕ → Option Text)
    → ℕ
    → Text
    → List NodeConfig
    → ClusterNode
    → Option NodeConfig
    → Option (IoResult Server)
with_config host id addr all_nodes node none = none
with_config host id addr all_nodes node (some c) = some (
    ok (record {
      node = node;
      addr = addr;
      transport = Transport.new host id all_nodes;
      peer_port = c.peer_port;
      node_id = id;
      all_nodes = all_nodes;
    }))

abbrev pub with_node :
    (ℕ → Option Text) → ℕ → Text → List NodeConfig → IoResult ClusterNode → Option (IoResult Server)
with_node host id addr all_nodes io_error = some io_error
with_node host id addr all_nodes (ok node) =
    with_config host id addr all_nodes node (find_config id all_nodes)

unfoldable pub new :
    (ℕ → Option Text) → Json → ℕ → List ℕ → Text → List NodeConfig → Disk → Option (IoResult Server)
new host json id peers addr all_nodes disk =
    with_node host id addr all_nodes (open_node json id peers disk)
