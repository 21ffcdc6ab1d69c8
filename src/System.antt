-- ===== src/System.antt =====
-- The whole cluster: nodes that tick, receive lines, serve clients and restart, and the lines in
-- flight between them.
pub mod Steps
pub mod Voters
pub mod Lines
pub mod Sound
pub mod Arrivals
pub mod Runs
pub mod Winners
pub mod Ledger
pub mod Safety
pub mod Matching
pub mod Leaders
pub mod Terms
mod Tests
use raft_kv_distributed_kv_s.Prelude.{
  ℕ, List, [], ◌∷◌, ◌++◌, ◌≡◌, ◌<◌, ◌+◌, ◌==◌, if◌then◌else◌, word, some, true, ok, Option, Text,
  length, none,
}
use raft_kv_distributed_kv_s.Transport
use raft_kv_distributed_kv_s.Cluster
use raft_kv_distributed_kv_s.Raft.State
use raft_kv_distributed_kv_s.Transport.{
  NodeConfig, MessageJson, PeerTransport, Delivery, receive_line,
}
use raft_kv_distributed_kv_s.Cluster.{ClusterNode}
use raft_kv_distributed_kv_s.Raft.Quorum.{Among}
use raft_kv_distributed_kv_s.Raft.Persist.{Json, StatePersister}
use raft_kv_distributed_kv_s.Raft.Durable.{reliable}
use raft_kv_distributed_kv_s.Server.{tick_round, serve}
use raft_kv_distributed_kv_s.Protocol.{Command}
use raft_kv_distributed_kv_s.Raft.Node.{RaftNode, with_persistence}
use raft_kv_distributed_kv_s.Storage.Wal.{SyncResult}
use raft_kv_distributed_kv_s.Storage.Engine.{StorageEngine}

abbrev pub ids : List NodeConfig → List ℕ
ids [] = []
ids (c ∷ cs) = c.id ∷ ids cs

-- A line stays in flight when it is received, so that it can come again, and any line can be lost.
pub record System : Type 0 where
  pub node : ℕ → ClusterNode
  pub in_flight : List Delivery

-- What a run of the cluster is given: the JSON library, the environment and the configuration.
pub record Setting : Type 0 where
  pub messages : MessageJson
  pub json : Json
  pub host : ℕ → Option Text
  pub all_nodes : List NodeConfig

abbrev pub members : Setting → List ℕ
members e = ids e.all_nodes

abbrev pub transport : Setting → ℕ → PeerTransport
transport e i = Transport.new e.host i e.all_nodes

abbrev pub changed : ℕ → ClusterNode → (ℕ → ClusterNode) → ℕ → ClusterNode
changed i n nodes j = if j == i then n else nodes j

-- Node `i` has done some work and sent lines.
abbrev pub after : ℕ → System → ClusterNode → List Delivery → System
after i s n sent = record { node = changed i n s.node; in_flight = s.in_flight ++ sent }

-- The term of a node can grow by one within 64 bits.
abbrev pub HasRoom : ClusterNode → Type 0
HasRoom n = n.raft.state.current_term + 1 < word

-- The log can take one more entry within 64 bits.
abbrev pub HasSpace : ClusterNode → Type 0
HasSpace n = length n.raft.state.log.entries + 1 < word

pub data Step (e : Setting) (s : System) : System → Type 0 where
  ticks :
      (i : ℕ)
      → Among i (members e)
      → HasRoom (s.node i)
      → (k : ClusterNode) (sent : List Delivery)
      → tick_round e.messages e.json (transport e i) (s.node i) ≡ (k, sent)
      → Step e s (after i s k sent)
  receives :
      (d : Delivery)
      → Among d s.in_flight
      → Among d.to (members e)
      → (k : ClusterNode) (sent : List Delivery)
      → receive_line e.messages e.json (transport e d.to) (s.node d.to) d.line ≡ (k, sent)
      → Step e s (after d.to s k sent)
  serves :
      (i : ℕ)
      → Among i (members e)
      → HasSpace (s.node i)
      → (c : Command)
      → Step e s (
          after i s
            (serve e.messages e.json (transport e i) (s.node i) c).node
            (serve e.messages e.json (transport e i) (s.node i) c).sent)
  -- A node that stops, whose state file and log directory are read when it starts again.
  restarts :
      (i : ℕ)
      → Among i (members e)
      → (p : StatePersister) → (s.node i).raft.persister ≡ some p
      → (raft : RaftNode) → with_persistence e.json i (members e) p true true ≡ ok raft
      → (syncs : List SyncResult) (storage : StorageEngine) (k : ClusterNode)
      → Cluster.new syncs (ok storage) (ok raft) ≡ ok k
      → Step e s (after i s k [])

-- All nodes are new, on disks without a state file where every write succeeds, and nothing is sent.
pub record IsInitial (e : Setting) (s : System) : Type 0 where
  pub new_state : (i : ℕ) → Among i (members e) → (s.node i).raft.state ≡ State.new i (members e)
  pub new_file : (i : ℕ) → Among i (members e) → (s.node i).raft.persister ≡ some (reliable none)
  pub none_queued : (i : ℕ) → Among i (members e) → (s.node i).outbound_messages ≡ []
  pub none_sent : s.in_flight ≡ []

pub data Reach (e : Setting) : System → Type 0 where
  start : {s : System} → IsInitial e s → Reach e s
  next : {s t : System} → Reach e s → Step e s t → Reach e t

-- The states that come after a state, itself the first.
pub data Later (e : Setting) (s : System) : System → Type 0 where
  now : Later e s s
  later : {t u : System} → Later e s t → Step e t u → Later e s u
