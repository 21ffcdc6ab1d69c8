-- ===== src/Raft/Votes/Runs.antt =====
-- raft/node.rs: the term and the vote over every input, and over every run.
use raft_kv_distributed_kv_s.Prelude.{◌+◌, ◌<◌, word}
use raft_kv_distributed_kv_s.Raft.Persist.{Json}
use raft_kv_distributed_kv_s.Raft.Node.{RaftNode}
use raft_kv_distributed_kv_s.Raft.Node.Election.{tick, handle_request_vote_response}
use raft_kv_distributed_kv_s.Raft.Node.Entries.{handle_append_entries_response, propose}
use raft_kv_distributed_kv_s.Raft.Node.Step.{
  Input, ticked, received, proposed, request_vote, request_vote_response, append_entries,
  append_entries_response, dispatch, step, NetworkMessage,
}
use raft_kv_distributed_kv_s.Raft.Votes.{Keeps, Keeps-refl, Keeps-trans, Moves}
use raft_kv_distributed_kv_s.Raft.Votes.Election.{
  tick-Moves, handle_request_vote-Moves, vote_response-Moves,
}
use raft_kv_distributed_kv_s.Raft.Votes.Entries.{
  handle_append_entries-Moves, append_response-Moves, propose-Keeps,
}

pub dispatch-Moves : (json : Json) (n : RaftNode) (m : NetworkMessage) → Moves n (dispatch json n m)
unfolding dispatch handle_request_vote_response handle_append_entries_response
dispatch-Moves json n (request_vote from r) = handle_request_vote-Moves json n r
dispatch-Moves json n (request_vote_response from r) =
    vote_response-Moves json n from r n.state.role
dispatch-Moves json n (append_entries from r) = handle_append_entries-Moves json n r
dispatch-Moves json n (append_entries_response from r) =
    append_response-Moves json n from r n.state.role

-- On every input a node keeps its identity and its list of peers, its term does not fall, and a
-- vote that it has cast stays the same as long as the term does, provided the term can grow by
-- one within 64 bits.
pub step-Keeps :
    (json : Json) (n : RaftNode) (i : Input)
    → n.state.current_term + 1 < word
    → Keeps n.state (step json n i).state
unfolding step tick propose
step-Keeps json n ticked h = (tick-Moves json n h n.state.role).kept
step-Keeps json n (received m) h = (dispatch-Moves json n m).kept
step-Keeps json n (proposed c) h = propose-Keeps json n c n.state.role

-- The nodes that a node can become, its term staying below the largest 64-bit number.
pub data Runs (json : Json) (n : RaftNode) : RaftNode → Type 0 where
  here : Runs json n n
  next :
      {m : RaftNode}
      → Runs json n m
      → m.state.current_term + 1 < word
      → (i : Input) → Runs json n (step json m i)

-- Over any run, its term staying below the largest 64-bit number, a node keeps its identity and its list of peers, its term does not fall, and within
-- a term a vote that it has cast stays the same.
pub Runs-Keeps : {json : Json} {n m : RaftNode} → Runs json n m → Keeps n.state m.state
Runs-Keeps {n} here = Keeps-refl n.state
Runs-Keeps {json} (next {m} r h i) = Keeps-trans (Runs-Keeps r) (step-Keeps json m i h)
