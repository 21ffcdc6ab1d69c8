-- ===== src/Raft/Votes/Candidacy/Elections.antt =====
-- raft/node.rs: the candidacy of a node through ticks, vote requests and vote responses.
use raft_kv_distributed_kv_s.Prelude.{
  ℕ, ◌≡◌, ◌⊎◌, inl, inr, refl, List, true, arith, if_elim, Bool-cases, ltb, ◌∙◌, ap, not, ◌==◌,
  ◌&&◌, leb→le,
}
use raft_kv_distributed_kv_s.Raft.Persist.{Json}
use raft_kv_distributed_kv_s.Raft.Node.Election.{
  start_election, tick_as, adopt_term, stand, tick_election, tick_heartbeat, win_election,
  has_majority, decide_vote, handle_request_vote, count_vote, vote_response_as, grant_vote,
  may_vote_for, up_to_date,
}
use raft_kv_distributed_kv_s.Raft.Node.{RaftNode, Action, persist, reset_election_timeout}
use raft_kv_distributed_kv_s.Raft.Votes.Candidacy.{
  Replies, follower, Fair, started, Nothing, resigned, same_candidacy, Replies-send_heartbeats,
  Replies-request_votes, Among, Distinct, carried,
}
use raft_kv_distributed_kv_s.Raft.State.{
  become_candidate, become_follower, follower, NodeRole, become_leader, majority_count, leader,
  candidate,
}
use raft_kv_distributed_kv_s.Raft.Votes.{countdown, RequestVoteResponse, counted}
use raft_kv_distributed_kv_s.Raft.Message.{RequestVoteResponse, RequestVoteRequest}
use raft_kv_distributed_kv_s.Raft.Quorum.{Among, Distinct, Among-insert_vote, Distinct-insert_vote}

start_election-Fair :
    (json : Json) (n : RaftNode) (o : RaftNode) (Given : ℕ → Type 0)
    → Fair Given o (start_election json n)
unfolding start_election stand become_candidate persist reset_election_timeout win_election
    become_leader has_majority majority_count
start_election-Fair json n o Given =
    if_elim (Fair Given o) (has_majority (stand json n)) _ _
      (λ won. record {
        replies =
            Replies-send_heartbeats (become_leader (stand json n).state)
              (become_leader (stand json n).state);
        candidacy = started (record { votes = refl; voted = refl; elected = λ l. ground arith });
      })
      (λ _. record {
        replies =
            Replies-request_votes (stand json n).state (stand json n).state
              (stand json n).state.peers;
        candidacy = started (record { votes = refl; voted = refl; elected = λ l. cc });
      })

pub tick-Fair :
    (json : Json) (n : RaftNode) (role : NodeRole)
    → n.state.role ≡ role
    → Fair Nothing n (tick_as role json n)
unfolding tick_as tick_election tick_heartbeat
tick-Fair json n leader e =
    if_elim (Fair Nothing n) (ltb 0 (countdown n.heartbeat_timeout)) _ _
      (λ _. record { replies = tt; candidacy = same_candidacy Nothing n _ refl refl refl })
      (λ _. record {
        replies = Replies-send_heartbeats n.state n.state;
        candidacy = same_candidacy Nothing n _ refl refl refl;
      })
tick-Fair json n _ e =
    if_elim (Fair Nothing n) (ltb 0 (countdown n.election_timeout)) _ _
      (λ _. record { replies = tt; candidacy = same_candidacy Nothing n _ refl refl refl })
      (λ _. start_election-Fair json _ n Nothing)

adopt_term-cases :
    (json : Json) (n : RaftNode) (term : ℕ)
    → ((adopt_term json n term).state.role ≡ follower) ⊎ (adopt_term json n term ≡ n)
unfolding adopt_term persist become_follower
adopt_term-cases json n term = elim (Bool-cases (ltb n.state.current_term term)) [
  | inl e ↦ inl (rw e refl)
  | inr e ↦ inr (rw e refl)
]

-- A decision on a vote leaves role, term and collected votes alone.
record Aside (n : RaftNode) (r : RaftNode × List Action) : Type 0 where
  role : r.0.state.role ≡ n.state.role
  term : r.0.state.current_term ≡ n.state.current_term
  votes : r.0.votes_received ≡ n.votes_received
  replies : Replies r.0.state r.1

decide_vote-Aside :
    (json : Json) (n : RaftNode) (r : RequestVoteRequest) → Aside n (decide_vote json n r)
unfolding decide_vote grant_vote persist reset_election_timeout
decide_vote-Aside json n r =
    if_elim (Aside n) (may_vote_for n.state.voted_for r.candidate_id && up_to_date n.state.log r) _
      _ (λ _. record { role = refl; term = refl; votes = refl; replies = (λ _. (refl, refl), tt) })
      (λ _. record { role = refl; term = refl; votes = refl; replies = (λ e. cc e, tt) })

adopted-Candidacy :
    (n m : RaftNode) (r : RaftNode × List Action)
    → (m.state.role ≡ follower) ⊎ (m ≡ n)
    → Aside m r
    → Fair Nothing n r
adopted-Candidacy n m r (inl e) a = record {
  replies = a.replies;
  candidacy = resigned (a.role ∙ e);
}
adopted-Candidacy n m r (inr e) a = record {
  replies = a.replies;
  candidacy =
      same_candidacy Nothing n r.0 (a.role ∙ ap (λ x. x.state.role) e)
        (a.term ∙ ap (λ x. x.state.current_term) e) (a.votes ∙ ap (λ x. x.votes_received) e);
}

pub handle_request_vote-Fair :
    (json : Json) (n : RaftNode) (r : RequestVoteRequest)
    → Fair Nothing n (handle_request_vote json n r)
unfolding handle_request_vote
handle_request_vote-Fair json n r =
    if_elim (Fair Nothing n) (ltb r.term n.state.current_term) _ _
      (λ _. record {
        replies = (λ e. cc e, tt);
        candidacy = same_candidacy Nothing n n refl refl refl;
      })
      (λ _.
        adopted-Candidacy n (adopt_term json n r.term) _ (adopt_term-cases json n r.term)
          (decide_vote-Aside json (adopt_term json n r.term) r))

-- The vote that a response brings to a candidate of its term.
pub record ArrivedVote (n : RaftNode) (from : ℕ) (r : RequestVoteResponse) (v : ℕ) : Type 0 where
  pub voter : from ≡ v
  pub granted : r.vote_granted ≡ true
  pub in_term : r.term ≡ n.state.current_term

counted-votes :
    (n : RaftNode) (from : ℕ) (r : RequestVoteResponse)
    → r.term ≡ n.state.current_term
    → (v : ℕ) → Among v (counted n from r).votes_received
    → ArrivedVote n from r v ⊎ Among v n.votes_received
counted-votes n from r e v = elim (Bool-cases r.vote_granted) [
  | inl yes_vote ↦ λ h. elim (Among-insert_vote v from n.votes_received (rw yes_vote at h)) [
    | inl same ↦ inl (record { voter = same; granted = yes_vote; in_term = e })
    | inr old ↦ inr old
  ]
  | inr no_vote ↦ λ h. inr (rw no_vote at h)
]

counted-Distinct :
    (n : RaftNode) (from : ℕ) (r : RequestVoteResponse)
    → Distinct n.votes_received
    → Distinct (counted n from r).votes_received
counted-Distinct n from r d = elim (Bool-cases r.vote_granted) [
  | inl yes_vote ↦ rw yes_vote (Distinct-insert_vote from n.votes_received d)
  | inr no_vote ↦ rw no_vote d
]

count_vote-Fair :
    (n : RaftNode) (from : ℕ) (r : RequestVoteResponse)
    → n.state.role ≡ candidate
    → r.term ≡ n.state.current_term
    → Fair (ArrivedVote n from r) n (count_vote n from r)
unfolding count_vote win_election become_leader has_majority majority_count
count_vote-Fair n from r role e =
    if_elim (Fair (ArrivedVote n from r) n) (has_majority (counted n from r)) _ _
      (λ won. record {
        replies = Replies-send_heartbeats (become_leader n.state) (become_leader n.state);
        candidacy = carried (record {
          same_term = refl;
          was = λ f. cc (f, role);
          votes = counted-votes n from r e;
          distinct = counted-Distinct n from r;
          elected = λ l. inr (leb→le _ _ won);
        });
      })
      (λ _. record {
        replies = tt;
        candidacy = carried (record {
          same_term = refl;
          was = λ f. cc (f, role);
          votes = counted-votes n from r e;
          distinct = counted-Distinct n from r;
          elected = λ l. cc (l, role);
        });
      })

pub vote_response-Fair :
    (json : Json) (n : RaftNode) (from : ℕ) (r : RequestVoteResponse) (role : NodeRole)
    → n.state.role ≡ role
    → Fair (ArrivedVote n from r) n (vote_response_as role json n from r)
unfolding vote_response_as persist become_follower
vote_response-Fair json n from r follower e = record { replies = tt; candidacy = resigned e }
vote_response-Fair json n from r leader e = record {
  replies = tt;
  candidacy = same_candidacy (ArrivedVote n from r) n n refl refl refl;
}
vote_response-Fair json n from r candidate e =
    if_elim (Fair (ArrivedVote n from r) n) (ltb n.state.current_term r.term) _ _
      (λ _. record { replies = tt; candidacy = resigned refl })
      λ _.
        if_elim (Fair (ArrivedVote n from r) n) (not (r.term == n.state.current_term)) _ _
          (λ _. record {
            replies = tt;
            candidacy = same_candidacy (ArrivedVote n from r) n n refl refl refl;
          })
          (λ same. count_vote-Fair n from r e (ground arith))
