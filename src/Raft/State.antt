-- ===== src/Raft/State.antt =====
-- raft/state.rs: the state of a node, and its changes of role.
use raft_kv_distributed_kv_s.Prelude.{
  ℕ, ◌+◌, ◌/◌, Option, none, some, List, [], ◌∷◌, ltb, ◌==◌, if◌then◌else◌, length, next_word,
}
use raft_kv_distributed_kv_s.Raft.Log
use raft_kv_distributed_kv_s.Raft.Log.{RaftLog, last_index}

pub data NodeRole : Type 0 where
  follower candidate leader : NodeRole

pub record RaftState : Type 0 where
  pub id : ℕ
  pub peers : List ℕ
  pub current_term : ℕ
  pub voted_for : Option ℕ
  pub log : RaftLog
  pub commit_index : ℕ
  pub last_applied : ℕ
  pub next_index : List (ℕ × ℕ)
  pub match_index : List (ℕ × ℕ)
  pub role : NodeRole
  pub leader_id : Option ℕ

abbrev pub new : ℕ → List ℕ → RaftState
new id peers = record {
  id = id;
  peers = peers;
  current_term = 0;
  voted_for = none;
  log = Log.new;
  commit_index = 0;
  last_applied = 0;
  next_index = [];
  match_index = [];
  role = follower;
  leader_id = none;
}

unfoldable pub become_follower : RaftState → ℕ → RaftState
become_follower s term =
    let newer = ltb s.current_term term in
    record s {
      current_term = if newer then term else s.current_term;
      voted_for = if newer then none else s.voted_for;
      role = follower;
      next_index = [];
      match_index = [];
    }

-- `current_term += 1` is kept on 64 bits.
unfoldable pub become_candidate : RaftState → RaftState
become_candidate s = record s {
  current_term = next_word s.current_term;
  role = candidate;
  voted_for = some s.id;
  leader_id = none;
}

-- `peers.iter().filter(|p| p != id).map(|p| (p, index)).collect()`
unfoldable pub track : ℕ → ℕ → List ℕ → List (ℕ × ℕ)
track id index [] = []
track id index (p ∷ ps) = if p == id then track id index ps else (p, index) ∷ track id index ps

unfoldable pub become_leader : RaftState → RaftState
become_leader s = record s {
  role = leader;
  leader_id = some s.id;
  next_index = track s.id (last_index s.log + 1) s.peers;
  match_index = track s.id 0 s.peers;
}

unfoldable pub majority_count : RaftState → ℕ
majority_count s = length s.peers / 2 + 1
