-- ===== src/Raft/Durable/Steps.antt =====
-- raft/node.rs: the timers and the votes leave the file with the state that they leave in memory.
use raft_kv_distributed_kv_s.Raft.Persist.{Json}
use raft_kv_distributed_kv_s.Raft.Durable.{
  RoundTrips, RaftNode, Durable, persist_after, Lasts, quiet, persisted,
}
use raft_kv_distributed_kv_s.Raft.Node.{RaftNode, reset_election_timeout}
use raft_kv_distributed_kv_s.Raft.Node.Election.{
  stand, win_election, start_election, tick_as, adopt_term, decide_vote, handle_request_vote,
  count_vote, vote_response_as, tick_election, grant_vote, tick_heartbeat, has_majority,
  may_vote_for, up_to_date,
}
use Prim.Native.Nat.{ℕ}
use raft_kv_distributed_kv_s.Prelude.{
  ℕ, if_elim, Bool-cases, ltb, refl, inl, ◌&&◌, not, [], inr, ◌==◌,
}
use raft_kv_distributed_kv_s.Raft.State.{become_leader, NodeRole, leader, follower, candidate}
use raft_kv_distributed_kv_s.Raft.Message.{RequestVoteRequest, RequestVoteResponse}
use raft_kv_distributed_kv_s.Raft.Votes.{countdown, counted}

module _ (json : Json) (rt : RoundTrips json) where
  stand-Durable : (n : RaftNode) → Durable json n → Durable json (stand json n)
  unfolding stand reset_election_timeout
  stand-Durable n d = persist_after n _ rt refl d

  win_election-Lasts : (n : RaftNode) → Durable json n → Lasts json (win_election n)
  unfolding win_election become_leader
  win_election-Lasts n d = quiet n _ _ refl refl d

  start_election-Lasts : (n : RaftNode) → Durable json n → Lasts json (start_election json n)
  unfolding start_election
  start_election-Lasts n d =
      if_elim (Lasts json) (has_majority (stand json n)) _ _
        (λ _. win_election-Lasts (stand json n) (stand-Durable n d))
        (λ _. record { kept = stand-Durable n d })

  pub tick-Lasts :
      (n : RaftNode) (role : NodeRole) → Durable json n → Lasts json (tick_as role json n)
  unfolding tick_as tick_election tick_heartbeat
  tick-Lasts n leader d =
      if_elim (Lasts json) (ltb 0 (countdown n.heartbeat_timeout)) _ _
        (λ _. quiet n _ _ refl refl d) (λ _. quiet n _ _ refl refl d)
  tick-Lasts n _ d =
      if_elim (Lasts json) (ltb 0 (countdown n.election_timeout)) _ _ (λ _. quiet n _ _ refl refl d)
        (λ _. start_election-Lasts _ ((quiet n _ [] refl refl d).kept))

  adopt_term-Durable : (n : RaftNode) (t : ℕ) → Durable json n → Durable json (adopt_term json n t)
  unfolding adopt_term
  adopt_term-Durable n t d = elim (Bool-cases (ltb n.state.current_term t)) [
    | inl e ↦ rw e (persist_after n _ rt refl d)
    | inr e ↦ rw e d
  ]

  decide_vote-Lasts :
      (n : RaftNode) (r : RequestVoteRequest) → Durable json n → Lasts json (decide_vote json n r)
  unfolding decide_vote grant_vote reset_election_timeout
  decide_vote-Lasts n r d =
      if_elim (Lasts json)
        (may_vote_for n.state.voted_for r.candidate_id && up_to_date n.state.log r) _ _
        (λ _. persisted n _ _ rt refl d) (λ _. quiet n _ _ refl refl d)

  pub handle_request_vote-Lasts :
      (n : RaftNode) (r : RequestVoteRequest)
      → Durable json n
      → Lasts json (handle_request_vote json n r)
  unfolding handle_request_vote
  handle_request_vote-Lasts n r d =
      if_elim (Lasts json) (ltb r.term n.state.current_term) _ _ (λ _. quiet n _ _ refl refl d)
        (λ _. decide_vote-Lasts (adopt_term json n r.term) r (adopt_term-Durable n r.term d))

  count_vote-Lasts :
      (n : RaftNode) (from : ℕ) (r : RequestVoteResponse)
      → Durable json n
      → Lasts json (count_vote n from r)
  unfolding count_vote
  count_vote-Lasts n from r d =
      if_elim (Lasts json) (has_majority (counted n from r)) _ _
        (λ _. win_election-Lasts _ ((quiet n _ [] refl refl d).kept)) (λ _. quiet n _ _ refl refl d)

  pub vote_response-Lasts :
      (n : RaftNode) (from : ℕ) (r : RequestVoteResponse) (role : NodeRole)
      → Durable json n
      → Lasts json (vote_response_as role json n from r)
  unfolding vote_response_as
  vote_response-Lasts n from r follower d = quiet n _ _ refl refl d
  vote_response-Lasts n from r leader d = quiet n _ _ refl refl d
  vote_response-Lasts n from r candidate d =
      if_elim (Lasts json) (ltb n.state.current_term r.term) _ _ (λ _. persisted n _ _ rt refl d)
        λ _.
          if_elim (Lasts json) (not (r.term == n.state.current_term)) _ _
            (λ _. quiet n _ _ refl refl d) (λ _. count_vote-Lasts n from r d)
