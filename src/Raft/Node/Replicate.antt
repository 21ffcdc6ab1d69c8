-- ===== src/Raft/Node/Replicate.antt =====
-- raft/node.rs: the AppendEntries requests of a leader.
use raft_kv_distributed_kv_s.Prelude.{
  ℕ, ◌-◌, Option, none, some, List, [], ◌∷◌, ltb, ◌==◌, if◌then◌else◌,
}
use raft_kv_distributed_kv_s.Raft.Log.{term_at, entries_from}
use raft_kv_distributed_kv_s.Raft.Message.{AppendEntriesRequest}
use raft_kv_distributed_kv_s.Raft.State.{RaftState}
use raft_kv_distributed_kv_s.Raft.Node.{Action, send_append_entries}

-- `iter().find(|(id, _)| id == peer).map(|(_, idx)| idx)`
unfoldable pub find_index : ℕ → List (ℕ × ℕ) → Option ℕ
find_index peer [] = none
find_index peer ((id, index) ∷ rest) = if id == peer then some index else find_index peer rest

-- The request for a follower whose next index is known.
unfoldable pub request_from : RaftState → ℕ → AppendEntriesRequest
request_from s next_idx =
    let prev = if ltb 0 next_idx then next_idx - 1 else 0 in
    record {
      term = s.current_term;
      leader_id = s.id;
      prev_log_index = prev;
      prev_log_term = term_at s.log prev;
      entries = entries_from s.log next_idx;
      leader_commit = s.commit_index;
    }

unfoldable pub replicate_to_peer : RaftState → ℕ → Option Action
replicate_to_peer s peer = elim (find_index peer s.next_index) [
  | none ↦ none
  | some next_idx ↦ some (send_append_entries peer (request_from s next_idx))
]

abbrev pub push_some : Option Action → List Action → List Action
push_some none actions = actions
push_some (some a) actions = a ∷ actions

unfoldable pub replicate_to : RaftState → List ℕ → List Action
replicate_to s [] = []
replicate_to s (peer ∷ peers) =
    let rest = replicate_to s peers in
    if peer == s.id then rest else push_some (replicate_to_peer s peer) rest

unfoldable pub replicate_to_all_peers : RaftState → List Action
replicate_to_all_peers s = replicate_to s s.peers

unfoldable pub send_heartbeats : RaftState → List Action
send_heartbeats s = replicate_to_all_peers s
