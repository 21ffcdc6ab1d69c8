-- ===== src/Raft/Node/Step.antt =====
-- Every input of a node as one function, as `tick` and `dispatch_message` (transport.rs) and the
-- client's writes (cluster.rs) feed it.
use raft_kv_distributed_kv_s.Prelude.{ℕ, List, [], ◌∷◌}
use raft_kv_distributed_kv_s.Raft.Log.{LogCommand}
use raft_kv_distributed_kv_s.Raft.Message.{
  RequestVoteRequest, RequestVoteResponse, AppendEntriesRequest, AppendEntriesResponse,
}
use raft_kv_distributed_kv_s.Raft.Persist.{Json}
use raft_kv_distributed_kv_s.Raft.Node.{Action, RaftNode}
use raft_kv_distributed_kv_s.Raft.Node.Election.{
  tick, handle_request_vote, handle_request_vote_response,
}
use raft_kv_distributed_kv_s.Raft.Node.Entries.{
  handle_append_entries, handle_append_entries_response, propose,
}

pub data NetworkMessage : Type 0 where
  request_vote : (from : ℕ) → RequestVoteRequest → NetworkMessage
  request_vote_response : (from : ℕ) → RequestVoteResponse → NetworkMessage
  append_entries : (from : ℕ) → AppendEntriesRequest → NetworkMessage
  append_entries_response : (from : ℕ) → AppendEntriesResponse → NetworkMessage

unfoldable pub dispatch : Json → RaftNode → NetworkMessage → RaftNode × List Action
dispatch json n (request_vote from r) = handle_request_vote json n r
dispatch json n (request_vote_response from r) = handle_request_vote_response json n from r
dispatch json n (append_entries from r) = handle_append_entries json n r
dispatch json n (append_entries_response from r) = handle_append_entries_response json n from r

pub data Input : Type 0 where
  ticked : Input
  received : NetworkMessage → Input
  proposed : LogCommand → Input

unfoldable pub step : Json → RaftNode → Input → RaftNode
step json n ticked = (tick json n).0
step json n (received m) = (dispatch json n m).0
step json n (proposed c) = (propose json n c).0

unfoldable pub run : Json → RaftNode → List Input → RaftNode
run json n [] = n
run json n (i ∷ is) = run json (step json n i) is
