-- ===== src/Main/Initial.antt =====
-- main.rs: the three processes of the program are an initial state of the cluster.
use mathlib.Core.Path.{subst, sym}
use raft_kv_distributed_kv_s.Cluster
use raft_kv_distributed_kv_s.Storage.Engine
use raft_kv_distributed_kv_s.Storage.Wal
use raft_kv_distributed_kv_s.Server.Start
use raft_kv_distributed_kv_s.Prelude.{
  ℕ, Text, Option, none, some, List, [], ◌∷◌, ok, ◌≡◌, true, ◌<◌, IoResult, word, inl, ap, io_error,
  arith, sym, inr, ◌∙◌, refl,
}
use raft_kv_distributed_kv_s.Raft.State
use raft_kv_distributed_kv_s.System.{System, Setting, IsInitial, members}
use raft_kv_distributed_kv_s.Storage.Wal.{SyncResult}
use raft_kv_distributed_kv_s.Main.{
  Environment, Disk, Json, Server, start, all_nodes, data_dir, decimal, NodeConfig, IoResult,
  node_id, find_config, peers, client_addr,
}
use raft_kv_distributed_kv_s.Cluster.{ClusterNode}
use raft_kv_distributed_kv_s.Server.Start.{
  open_node, Disk, Server, find_config, with_config, with_node,
}
use raft_kv_distributed_kv_s.Raft.Persist.{Json, load}
use raft_kv_distributed_kv_s.Raft.Durable.{reliable}
use raft_kv_distributed_kv_s.Transport.{MessageJson, NodeConfig}
use raft_kv_distributed_kv_s.Decimal.{decimal, parse_usize-decimal}
use raft_kv_distributed_kv_s.Raft.Quorum.{Among}
use raft_kv_distributed_kv_s.Raft.Node.{with_persistence, restore, reset_election_timeout}
use raft_kv_distributed_kv_s.Storage.Lines.{lines}

-- A data directory that was never used, on a disk without errors of the state file.
abbrev pub unused : List SyncResult → Disk
unused syncs = record {
  wal_file = [];
  wal_opened = true;
  wal_readable = true;
  state_file = reliable none;
  dir_made = true;
  state_readable = true;
  syncs = syncs;
}

-- The server of the process for a node in its first run.
pub record Started (env : Environment) (json : Json) (disks : Text → Disk) (program : Text) (i : ℕ)
    (n : ClusterNode) : Type 0 where
  pub server : Server
  pub started : start env json disks (program ∷ decimal i ∷ []) ≡ some (ok server)
  pub is_node : server.node ≡ n

-- What such a node is.
pub record New (i : ℕ) (n : ClusterNode) : Type 0 where
  pub state : n.raft.state ≡ State.new i (1 ∷ 2 ∷ 3 ∷ [])
  pub file : n.raft.persister ≡ some (reliable none)
  pub queue : n.outbound_messages ≡ []

of_ok : {i : ℕ} {n m : ClusterNode} → ok n ≡ ok m → New i n → New i m
of_ok {i} h new = subst (New i) (cc h) new

opened-New :
    (json : Json) (i : ℕ) (syncs : List SyncResult) (n : ClusterNode)
    → open_node json i (1 ∷ 2 ∷ 3 ∷ []) (unused syncs) ≡ ok n
    → New i n
unfolding open_node Cluster.new Engine.new Engine.recover Wal.replay with_persistence load restore
    reset_election_timeout lines
opened-New json i syncs n h = of_ok h (record { state = refl; file = refl; queue = refl })

-- A server that starts has the node that was opened.
node-with_config :
    (host : ℕ → Option Text) (id : ℕ) (addr : Text) (n : ClusterNode) (o : Option NodeConfig)
    (server : Server)
    → with_config host id addr all_nodes n o ≡ some (ok server)
    → n ≡ server.node
node-with_config host id addr n none server h = cc h
node-with_config host id addr n (some c) server h = cc h

node-with_node :
    (host : ℕ → Option Text) (id : ℕ) (addr : Text) (o : IoResult ClusterNode) (server : Server)
    → with_node host id addr all_nodes o ≡ some (ok server)
    → o ≡ ok server.node
node-with_node host id addr io_error server h = cc h
node-with_node host id addr (ok n) server h =
    ap (λ n. ok n) (node-with_config host id addr n (find_config id all_nodes) server h)

-- The number of a node, from its argument.
pub start-number :
    (env : Environment) (json : Json) (disks : Text → Disk) (program : Text) (i : ℕ)
    (c : NodeConfig)
    → i < word
    → find_config i all_nodes ≡ some c
    → start env json disks (program ∷ decimal i ∷ [])
      ≡ Start.new env.peer_host json i
          (1 ∷ 2 ∷ 3 ∷ [])
          (client_addr env.raftkv_host c)
          all_nodes
          (disks (data_dir i))
unfolding start node_id peers
start-number env json disks program i c h found = rw (parse_usize-decimal i h, found) refl

Started-New :
    (env : Environment) (json : Json) (disks : Text → Disk) (program : Text) (i : ℕ)
    (n : ClusterNode) (c : NodeConfig) (syncs : List SyncResult)
    → i < word
    → find_config i all_nodes ≡ some c
    → disks (data_dir i) ≡ unused syncs
    → Started env json disks program i n
    → New i n
unfolding Start.new
Started-New env json disks program i n c syncs h found empty s = subst (New i) s.is_node (
    opened-New json i syncs s.server.node (
      ap (open_node json i (1 ∷ 2 ∷ 3 ∷ [])) (sym empty)
      ∙ node-with_node env.peer_host i (client_addr env.raftkv_host c) _ s.server
          (sym (start-number env json disks program i c h found) ∙ s.started)))

-- The three numbers have a configuration.
abbrev Configured : ℕ → Type 0
Configured i = (i < word) × ((c : NodeConfig) × (find_config i all_nodes ≡ some c))

members-Configured : (i : ℕ) → Among i (1 ∷ 2 ∷ 3 ∷ []) → Configured i
unfolding find_config
members-Configured i (inl e) = subst Configured e (omega arith, (_, refl))
members-Configured i (inr (inl e)) = subst Configured e (omega arith, (_, refl))
members-Configured i (inr (inr (inl e))) = subst Configured e (omega arith, (_, refl))
members-Configured i (inr (inr (inr h))) = absurd h

-- The cluster of the configuration.
abbrev pub setting : Environment → Json → MessageJson → Setting
setting env json messages = record {
  messages = messages;
  json = json;
  host = env.peer_host;
  all_nodes = all_nodes;
}

-- The program's three processes, each started with its number on an unused data directory, whose
-- state file takes every write, with nothing sent, are an initial state of the cluster: each node
-- is a follower in term 0 with the ids of all three as its peers.
pub processes-IsInitial :
    (env : Environment) (json : Json) (messages : MessageJson) (disks : Text → Disk)
    (program : Text) (s : System)
    → ((i : ℕ) → (syncs : List SyncResult) × (disks (data_dir i) ≡ unused syncs))
    → ((i : ℕ)
        → Among i (members (setting env json messages))
        → Started env json disks program i (s.node i))
    → s.in_flight ≡ []
    → IsInitial (setting env json messages) s
processes-IsInitial env json messages disks program s empty started none_sent = record {
  new_state = λ i here. (new_node i here).state;
  new_file = λ i here. (new_node i here).file;
  none_queued = λ i here. (new_node i here).queue;
  none_sent = none_sent;
}
  where
    new_node : (i : ℕ) → Among i (1 ∷ 2 ∷ 3 ∷ []) → New i (s.node i)
    new_node i here =
        let (small, (c, found)) = members-Configured i here in
        let (syncs, none_used) = empty i in
        Started-New env json disks program i (s.node i) c syncs small found none_used
          (started i here)
