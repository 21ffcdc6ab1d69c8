-- ===== src/Main.antt =====
-- main.rs: the configuration of a process from its arguments and its environment. `none` is a panic.
pub mod Initial
mod Integration
mod Tests
use raft_kv_distributed_kv_s.System.{ids}
use raft_kv_distributed_kv_s.Server.Start
use raft_kv_distributed_kv_s.Server.Start.{Server, Disk, find_config}
use raft_kv_distributed_kv_s.Prelude.{
  ℕ, Text, codes, Option, none, some, List, [], ◌∷◌, ◌++◌, IoResult,
}
use raft_kv_distributed_kv_s.Transport.{NodeConfig, or_localhost}
use raft_kv_distributed_kv_s.Decimal.{parse_usize, decimal}
use raft_kv_distributed_kv_s.Raft.Persist.{Json}

abbrev pub all_nodes : List NodeConfig
all_nodes =
    record { id = 1; client_port = 6381; peer_port = 7001 }
    ∷ record { id = 2; client_port = 6382; peer_port = 7002 }
    ∷ record { id = 3; client_port = 6383; peer_port = 7003 }
    ∷ []

-- The variables RAFTKV_HOST and PEER_HOST_<id>.
pub record Environment : Type 0 where
  pub raftkv_host : Option Text
  pub peer_host : ℕ → Option Text

-- The first argument is the program's name; without another, the node is the first, alone.
unfoldable pub node_id : List Text → Option ℕ
node_id (program ∷ id ∷ rest) = parse_usize id
node_id _ = some 1

unfoldable pub peers : List Text → List ℕ
peers (program ∷ id ∷ rest) = ids all_nodes
peers _ = 1 ∷ []

abbrev pub data_dir : ℕ → Text
unfolding decimal
data_dir id = codes "/tmp/raftkv-node-" ++ decimal id

abbrev pub client_addr : Option Text → NodeConfig → Text
client_addr host c = or_localhost host ++ b':' ∷ decimal c.client_port

abbrev pub start_with :
    Environment
    → Json
    → (Text → Disk)
    → List Text
    → ℕ
    → Option NodeConfig
    → Option (IoResult Server)
start_with env json disks args id none = none
start_with env json disks args id (some c) =
    Start.new env.peer_host json id (peers args) (client_addr env.raftkv_host c) all_nodes
      (disks (data_dir id))

abbrev pub start_as :
    Environment → Json → (Text → Disk) → List Text → Option ℕ → Option (IoResult Server)
start_as env json disks args none = none
start_as env json disks args (some id) =
    start_with env json disks args id (find_config id all_nodes)

-- The server of a process, before it runs. `disks` gives the data directories.
unfoldable pub start : Environment → Json → (Text → Disk) → List Text → Option (IoResult Server)
start env json disks args = start_as env json disks args (node_id args)
