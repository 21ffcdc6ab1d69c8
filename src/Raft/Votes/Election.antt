-- ===== src/Raft/Votes/Election.antt =====
-- raft/node.rs: elections and votes keep the term and the vote.
use raft_kv_distributed_kv_s.Prelude.{
  ℕ, ◌+◌, ◌<◌, ◌≡◌, refl, true, arith, if_elim, word, Bool-cases, ltb, inl, inr, ◌&&◌, not, ◌==◌,
}
use raft_kv_distributed_kv_s.Raft.Message.{RequestVoteRequest, RequestVoteResponse}
use raft_kv_distributed_kv_s.Raft.State.{
  follower, candidate, leader, become_candidate, become_leader, NodeRole,
}
use raft_kv_distributed_kv_s.Raft.Persist.{Json}
use raft_kv_distributed_kv_s.Raft.Node.{RaftNode, reset_election_timeout, persist}
use raft_kv_distributed_kv_s.Raft.Node.Election.{
  tick_as, tick_election, tick_heartbeat, start_election, stand, win_election, handle_request_vote,
  decide_vote, adopt_term, grant_vote, may_vote_for, vote_response_as, count_vote, has_majority,
  up_to_date,
}
use raft_kv_distributed_kv_s.Raft.Votes.{
  Keeps, Keeps-refl, become_follower-Keeps, same-Keeps, countdown, counted, Moves, unmoved,
  then-Moves,
}

stand-Keeps :
    (json : Json) (n : RaftNode)
    → n.state.current_term + 1 < word
    → Keeps n.state (stand json n).state
unfolding stand become_candidate persist reset_election_timeout
stand-Keeps json n h = record {
  same_id = refl;
  same_peers = refl;
  grows = omega arith;
  stays = λ e. absurd (omega arith);
}

win_election-Moves : (n : RaftNode) → Moves n (win_election n)
unfolding win_election become_leader
win_election-Moves n = record { kept = same-Keeps n.state _ refl refl refl refl }

start_election-Moves :
    (json : Json) (n : RaftNode) → n.state.current_term + 1 < word → Moves n (start_election json n)
unfolding start_election
start_election-Moves json n h =
    if_elim (Moves n) (has_majority (stand json n)) _ _
      (λ _. then-Moves n (stand json n) (stand-Keeps json n h) (win_election-Moves (stand json n)))
      (λ _. record { kept = stand-Keeps json n h })

pub tick-Moves :
    (json : Json) (n : RaftNode)
    → n.state.current_term + 1 < word
    → (role : NodeRole) → Moves n (tick_as role json n)
unfolding tick_as tick_election tick_heartbeat
tick-Moves json n h leader =
    if_elim (Moves n) (ltb 0 (countdown n.heartbeat_timeout)) _ _ (λ _. unmoved n _ _ refl)
      (λ _. unmoved n _ _ refl)
tick-Moves json n h _ =
    if_elim (Moves n) (ltb 0 (countdown n.election_timeout)) _ _ (λ _. unmoved n _ _ refl)
      (λ _. then-Moves n _ (Keeps-refl n.state) (start_election-Moves json _ h))

adopt_term-Keeps :
    (json : Json) (n : RaftNode) (term : ℕ) → Keeps n.state (adopt_term json n term).state
unfolding adopt_term persist
adopt_term-Keeps json n term = elim (Bool-cases (ltb n.state.current_term term)) [
  | inl e ↦ rw e (become_follower-Keeps n.state term)
  | inr e ↦ rw e (Keeps-refl n.state)
]

grant_vote-Keeps :
    (json : Json) (n : RaftNode) (c : ℕ)
    → may_vote_for n.state.voted_for c ≡ true
    → Keeps n.state (grant_vote json n c).state
unfolding grant_vote may_vote_for persist reset_election_timeout
grant_vote-Keeps json n c free = record {
  same_id = refl;
  same_peers = refl;
  grows = omega arith;
  stays = λ e x h. ground arith;
}

decide_vote-Moves :
    (json : Json) (n : RaftNode) (r : RequestVoteRequest) → Moves n (decide_vote json n r)
unfolding decide_vote
decide_vote-Moves json n r =
    if_elim (Moves n) (may_vote_for n.state.voted_for r.candidate_id && up_to_date n.state.log r) _
      _ (λ free. record { kept = grant_vote-Keeps json n r.candidate_id (ground arith) })
      (λ _. unmoved n _ _ refl)

pub handle_request_vote-Moves :
    (json : Json) (n : RaftNode) (r : RequestVoteRequest) → Moves n (handle_request_vote json n r)
unfolding handle_request_vote
handle_request_vote-Moves json n r =
    if_elim (Moves n) (ltb r.term n.state.current_term) _ _ (λ _. unmoved n _ _ refl)
      (λ _. then-Moves n _ (adopt_term-Keeps json n r.term) (decide_vote-Moves json _ r))

pub handle_request_vote-Keeps :
    (json : Json) (n : RaftNode) (r : RequestVoteRequest)
    → Keeps n.state (handle_request_vote json n r).0.state
handle_request_vote-Keeps json n r = (handle_request_vote-Moves json n r).kept

count_vote-Moves :
    (n : RaftNode) (from : ℕ) (r : RequestVoteResponse) → Moves n (count_vote n from r)
unfolding count_vote
count_vote-Moves n from r =
    if_elim (Moves n) (has_majority (counted n from r)) _ _
      (λ _. then-Moves n _ (Keeps-refl n.state) (win_election-Moves _)) (λ _. unmoved n _ _ refl)

pub vote_response-Moves :
    (json : Json) (n : RaftNode) (from : ℕ) (r : RequestVoteResponse) (role : NodeRole)
    → Moves n (vote_response_as role json n from r)
unfolding vote_response_as persist
vote_response-Moves json n from r follower = unmoved n _ _ refl
vote_response-Moves json n from r leader = unmoved n _ _ refl
vote_response-Moves json n from r candidate =
    if_elim (Moves n) (ltb n.state.current_term r.term) _ _
      (λ _. record { kept = become_follower-Keeps n.state r.term })
      λ _.
        if_elim (Moves n) (not (r.term == n.state.current_term)) _ _ (λ _. unmoved n _ _ refl)
          (λ _. count_vote-Moves n from r)
