-- ===== src/Raft/Node.antt =====
-- raft/node.rs: the node with its timers, its actions and its saving of state. The handlers are in
-- the modules below.
pub mod Commit
pub mod Replicate
pub mod Election
pub mod Entries
pub mod Step
use raft_kv_distributed_kv_s.Prelude.{
  ℕ, ◌+◌, ◌-◌, ◌*◌, ◌%◌, Bool, true, false, IoResult, ok, io_error, Option, none, some, List, [],
  ◌∷◌, ◌==◌, ◌||◌, if◌then◌else◌, word,
}
use raft_kv_distributed_kv_s.Raft.Log.{LogCommand, from_entries, to_entries}
use raft_kv_distributed_kv_s.Raft.Message.{
  RequestVoteRequest, RequestVoteResponse, AppendEntriesRequest, AppendEntriesResponse,
}
use raft_kv_distributed_kv_s.Raft.State
use raft_kv_distributed_kv_s.Raft.State.{RaftState}
use raft_kv_distributed_kv_s.Raft.Persist.{PersistentState, Json, StatePersister, save, load}

pub data Action : Type 0 where
  send_request_vote : (to : ℕ) → RequestVoteRequest → Action
  send_request_vote_response : (to : ℕ) → RequestVoteResponse → Action
  send_append_entries : (to : ℕ) → AppendEntriesRequest → Action
  send_append_entries_response : (to : ℕ) → AppendEntriesResponse → Action
  apply_entry : (index : ℕ) → LogCommand → Action

abbrev pub election_timeout_min : ℕ
election_timeout_min = 30

abbrev pub election_timeout_max : ℕ
election_timeout_max = 60

abbrev pub heartbeat_interval : ℕ
heartbeat_interval = 3

-- `votes_received` is a set, kept as a list with no repetition.
pub record RaftNode : Type 0 where
  pub state : RaftState
  pub persister : Option StatePersister
  pub election_timeout : ℕ
  pub election_timeout_duration : ℕ
  pub heartbeat_timeout : ℕ
  pub votes_received : List ℕ
  pub random_seed : ℕ

-- `HashSet::contains` and `HashSet::insert`.
unfoldable pub contains : ℕ → List ℕ → Bool
contains a [] = false
contains a (b ∷ bs) = a == b || contains a bs

unfoldable pub insert_vote : ℕ → List ℕ → List ℕ
insert_vote a votes = if contains a votes then votes else a ∷ votes

-- The seed is multiplied and added to with wrap-around at 64 bits.
unfoldable pub next_seed : ℕ → ℕ
next_seed seed = ((seed * 6364136223846793005) % word + 1442695040888963407) % word

unfoldable pub timeout_of : ℕ → ℕ
timeout_of seed = seed % (election_timeout_max - election_timeout_min) + election_timeout_min

unfoldable pub reset_election_timeout : RaftNode → RaftNode
reset_election_timeout n =
    let seed = next_seed n.random_seed in
    record n {
      random_seed = seed;
      election_timeout_duration = timeout_of seed;
      election_timeout = timeout_of seed;
    }

abbrev pub persistent : RaftState → PersistentState
persistent s = record {
  current_term = s.current_term;
  voted_for = s.voted_for;
  log = to_entries s.log;
}

-- The error of a failed save is printed and dropped.
unfoldable pub save_if_any : Json → Option StatePersister → PersistentState → Option StatePersister
save_if_any json none state = none
save_if_any json (some p) state = some (save json p state).0

unfoldable pub persist : Json → RaftNode → RaftNode
persist json n = record n { persister = save_if_any json n.persister (persistent n.state) }

abbrev pub fresh : ℕ → List ℕ → Option StatePersister → RaftNode
fresh id peers p = record {
  state = State.new id peers;
  persister = p;
  election_timeout = 0;
  election_timeout_duration = 0;
  heartbeat_timeout = heartbeat_interval;
  votes_received = [];
  random_seed = id;
}

unfoldable pub new : ℕ → List ℕ → RaftNode
new id peers = reset_election_timeout (fresh id peers none)

-- A state file that is missing or cannot be read leaves the new node as it is.
unfoldable pub restore : RaftState → IoResult (Option PersistentState) → RaftState
restore s io_error = s
restore s (ok none) = s
restore s (ok (some saved)) = record s {
  current_term = saved.current_term;
  voted_for = saved.voted_for;
  log = from_entries saved.log;
}

-- `dir_made` is whether `create_dir_all` succeeds, `readable` whether the state file can be read.
unfoldable pub with_persistence :
    Json → ℕ → List ℕ → StatePersister → Bool → Bool → IoResult RaftNode
with_persistence json id peers p false readable = io_error
with_persistence json id peers p true readable =
    let n = fresh id peers (some p) in
    ok (reset_election_timeout (record n { state = restore n.state (load json p readable) }))
