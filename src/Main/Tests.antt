-- ===== src/Main/Tests.antt =====
-- An example of the program's processes.
use mathlib.Core.Path.{subst}
use raft_kv_distributed_kv_s.Storage.Memtable
use raft_kv_distributed_kv_s.Server.Start
use raft_kv_distributed_kv_s.Cluster
use raft_kv_distributed_kv_s.Storage.Engine
use raft_kv_distributed_kv_s.Storage.Wal
use raft_kv_distributed_kv_s.Transport
use raft_kv_distributed_kv_s.Prelude.{
  ℕ, Text, codes, none, some, [], ◌∷◌, ok, ◌≡◌, refl, inl, inr, ◌+◌, arith, ◌∙◌,
}
use raft_kv_distributed_kv_s.Transport.{MessageJson, NodeConfig}
use raft_kv_distributed_kv_s.Server.Start.{Disk, open_node, find_config, Server}
use raft_kv_distributed_kv_s.Main.{Environment, Server, client_addr, all_nodes}
use raft_kv_distributed_kv_s.Raft.Persist.{Json, load}
use raft_kv_distributed_kv_s.System.{System, IsInitial}
use raft_kv_distributed_kv_s.Main.Initial.{
  unused, setting, Started, processes-IsInitial, start-number,
}
use raft_kv_distributed_kv_s.Raft.Node.{with_persistence, reset_election_timeout, fresh, restore}
use raft_kv_distributed_kv_s.Raft.Quorum.{Among}
use raft_kv_distributed_kv_s.Raft.Durable.{reliable}
use raft_kv_distributed_kv_s.Storage.Lines.{lines}

abbrev env : Environment
env = record { raftkv_host = none; peer_host = λ _. none }

abbrev json : Json
json = record { to_string_pretty = λ _. none; from_str = λ _. none }

abbrev no_messages : MessageJson
no_messages = record { to_string = λ _. none; from_str = λ _. none }

abbrev disks : Text → Disk
disks dir = unused []

abbrev program : Text
program = codes "raftkv"

-- The server of a process, made by hand.
abbrev server_of : ℕ → NodeConfig → Server
server_of i c = record {
  node = record {
    raft = reset_election_timeout (fresh i (1 ∷ 2 ∷ 3 ∷ []) (some (reliable none)));
    storage = record { wal = record { file = []; buffer = [] }; memtable = Memtable.new };
    outbound_messages = [];
    router = none;
    shard_id = 1;
    pending_commit_index = none;
    syncs = [];
  };
  addr = client_addr none c;
  transport = Transport.new (λ _. none) i all_nodes;
  peer_port = c.peer_port;
  node_id = i;
  all_nodes = all_nodes;
}

abbrev config : ℕ → NodeConfig
config i = record { id = i; client_port = 6380 + i; peer_port = 7000 + i }

abbrev processes : System
processes = record { node = λ i. (server_of i (config i)).node; in_flight = [] }

opened : (i : ℕ) → open_node json i (1 ∷ 2 ∷ 3 ∷ []) (unused []) ≡ ok (server_of i (config i)).node
unfolding open_node Cluster.new Engine.new Engine.recover Wal.replay with_persistence load restore
    lines Wal.parse_lines
opened i = refl

is_Started :
    (i : ℕ) → Among i (1 ∷ 2 ∷ 3 ∷ []) → Started env json disks program i (processes.node i)
unfolding find_config Start.new
is_Started i (inl e) =
    subst (λ i. Started env json disks program i (processes.node i)) e
      (record {
        server = server_of 1 (config 1);
        started =
            start-number env json disks program 1 (config 1) (omega arith) refl
            ∙ rw (opened 1) refl;
        is_node = refl;
      })
is_Started i (inr (inl e)) =
    subst (λ i. Started env json disks program i (processes.node i)) e
      (record {
        server = server_of 2 (config 2);
        started =
            start-number env json disks program 2 (config 2) (omega arith) refl
            ∙ rw (opened 2) refl;
        is_node = refl;
      })
is_Started i (inr (inr (inl e))) =
    subst (λ i. Started env json disks program i (processes.node i)) e
      (record {
        server = server_of 3 (config 3);
        started =
            start-number env json disks program 3 (config 3) (omega arith) refl
            ∙ rw (opened 3) refl;
        is_node = refl;
      })
is_Started i (inr (inr (inr h))) = absurd h

processes-IsInitial_example : IsInitial (setting env json no_messages) processes
processes-IsInitial_example =
    processes-IsInitial env json no_messages disks program processes (λ _. ([], refl)) is_Started
      refl
