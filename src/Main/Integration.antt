-- ===== src/Main/Integration.antt =====
-- main.rs, mod tests: the integration tests as functions that say whether every assertion holds. A
-- value that the test unwraps or matches on, and that is not there, is a failure. The directories that
-- the tests use are empty at first.
mod Storage
mod Log
mod Election
mod Replication
mod Persistence
mod Commands
mod Sharding
use raft_kv_distributed_kv_s.Cluster
use raft_kv_distributed_kv_s.Protocol.{Response, simple_string, bulk_string, error}
use raft_kv_distributed_kv_s.Raft.Node
use raft_kv_distributed_kv_s.Storage.Lines.{text_eq}
use raft_kv_distributed_kv_s.Raft.Log.{LogCommand, put, delete, noop}
use raft_kv_distributed_kv_s.Raft.State.{NodeRole, follower, candidate, leader}
use raft_kv_distributed_kv_s.Storage.Wal.{Operation}
use raft_kv_distributed_kv_s.Prelude.{
  List, Bool, Option, IoResult, true, false, ◌∷◌, some, ok, ◌&&◌, none, io_error, [], ℕ, suc,
  if◌then◌else◌, ◌==◌, zero, Text,
}
use raft_kv_distributed_kv_s.Raft.Node.{RaftNode, Action}
use raft_kv_distributed_kv_s.Raft.Persist.{Json, StatePersister}
use raft_kv_distributed_kv_s.Raft.Message.{RequestVoteRequest}
use raft_kv_distributed_kv_s.Raft.Node.Election.{handle_request_vote, tick}
use raft_kv_distributed_kv_s.Cluster.{ClusterNode}

-- The assertions of a test.
abbrev pub all_hold : List Bool → Bool
all_hold [] = true
all_hold (b ∷ bs) = b && all_hold bs

abbrev pub option_eq : {A : Type 0} → (A → A → Bool) → Option A → Option A → Bool
option_eq eq none none = true
option_eq eq (some a) (some b) = eq a b
option_eq eq _ _ = false

abbrev pub is_none : {A : Type 0} → Option A → Bool
is_none none = true
is_none (some a) = false

abbrev pub role_eq : NodeRole → NodeRole → Bool
role_eq follower follower = true
role_eq candidate candidate = true
role_eq leader leader = true
role_eq _ _ = false

abbrev pub operation_eq : Operation → Operation → Bool
operation_eq Operation.put Operation.put = true
operation_eq Operation.delete Operation.delete = true
operation_eq _ _ = false

abbrev pub is_ok : {A : Type 0} → IoResult A → Bool
is_ok io_error = false
is_ok (ok a) = true

abbrev pub command_eq : LogCommand → LogCommand → Bool
command_eq noop noop = true
command_eq (put k v) (put l w) = text_eq k l && text_eq v w
command_eq (delete k) (delete l) = text_eq k l
command_eq _ _ = false

-- The three nodes of a test, none with a state file.
pub record Trio : Type 0 where
  pub node1 : RaftNode
  pub node2 : RaftNode
  pub node3 : RaftNode

abbrev pub new_trio : Trio
new_trio = record {
  node1 = Node.new 1 (1 ∷ 2 ∷ 3 ∷ []);
  node2 = Node.new 2 (1 ∷ 2 ∷ 3 ∷ []);
  node3 = Node.new 3 (1 ∷ 2 ∷ 3 ∷ []);
}

abbrev acted : RaftNode × List Action → RaftNode × List Action → RaftNode × List Action
acted (n, []) later = later
acted (n, a ∷ actions) later = (n, a ∷ actions)

-- The rounds left of `for _ in 0..65`, which ends at the first tick with actions.
unfoldable pub tick_until_acts : ℕ → Json → RaftNode → RaftNode × List Action
tick_until_acts zero json n = (n, [])
tick_until_acts (suc rounds) json n =
    let r = tick json n in acted r (tick_until_acts rounds json r.0)

-- A vote request goes to the node that it is for.
abbrev pub vote_at : Json → Trio → ℕ → RequestVoteRequest → Trio × List Action
vote_at json c to r =
    if to == 2
    then (let (m, actions) = handle_request_vote json c.node2 r in
        (record c { node2 = m }, actions))
    else (let (m, actions) = handle_request_vote json c.node3 r in
        (record c { node3 = m }, actions))

-- A file that is not there yet, to which every write succeeds.
abbrev pub no_file : StatePersister
no_file = record { file = none; writes = [] }

-- `for _ in 0..65 { node.tick(); }`, by the rounds left.
unfoldable pub ticks : ℕ → Json → ClusterNode → ClusterNode
ticks zero json n = n
ticks (suc rounds) json n = ticks rounds json (Cluster.tick json n)

abbrev pub is_simple : Response → Text → Bool
is_simple (simple_string s) t = text_eq s t
is_simple _ t = false

abbrev pub is_bulk : Response → Text → Bool
is_bulk (bulk_string s) t = text_eq s t
is_bulk _ t = false
