-- ===== src/Raft/Votes/Won.antt =====
-- raft/node.rs: an election that is won.
use mathlib.Core.Path.{subst}
use raft_kv_distributed_kv_s.Prelude.{
  ℕ, List, [], ◌∷◌, ◌≡◌, ◌<◌, ◌≤◌, ◌+◌, refl, true, false, arith, ap, ◌∙◌, sym, inl, inr, length,
  word, ltb, Bool-cases, le→not_ltb, ◌/◌, if_elim, not, ◌==◌, eq→not_ne,
}
use raft_kv_distributed_kv_s.Raft.Node.Step.{dispatch, request_vote_response}
use raft_kv_distributed_kv_s.Raft.Node.{
  RaftNode, insert_vote, Action, contains, persist, reset_election_timeout,
}
use raft_kv_distributed_kv_s.Raft.Message.{RequestVoteResponse}
use raft_kv_distributed_kv_s.Raft.Node.Election.{
  handle_request_vote_response, count_vote, start_election, vote_response_as, win_election,
  has_majority, stand,
}
use raft_kv_distributed_kv_s.Raft.Persist.{Json}
use raft_kv_distributed_kv_s.Cluster.{request_vote_response}
use raft_kv_distributed_kv_s.Raft.State.{
  leader, candidate, majority_count, become_leader, become_candidate,
}
use raft_kv_distributed_kv_s.Raft.Quorum.{Among, Distinct, contains-Among}
use raft_kv_distributed_kv_s.Raft.Votes.{counted}

-- The node after granted replies of a term, one from each of the nodes.
pub hear : Json → ℕ → RaftNode → List ℕ → RaftNode
unfolding dispatch
hear json t n [] = n
hear json t n (v ∷ vs) =
    hear json t
      (dispatch json n (request_vote_response v (record { term = t; vote_granted = true }))).0 vs

-- A leader of the term.
pub record Leads (t : ℕ) (n : RaftNode) : Type 0 where
  pub is_leader : n.state.role ≡ leader
  pub in_term : n.state.current_term ≡ t

abbrev reply : ℕ → RequestVoteResponse
reply t = record { term = t; vote_granted = true }

handle-leader :
    (json : Json) (t : ℕ) (n : RaftNode) (v : ℕ)
    → n.state.role ≡ leader
    → (handle_request_vote_response json n v (reply t)).0 ≡ n
unfolding handle_request_vote_response vote_response_as
handle-leader json t n v l = rw l refl

hear-Leads :
    (json : Json) (t : ℕ) (n : RaftNode) (vs : List ℕ) → Leads t n → Leads t (hear json t n vs)
unfolding hear dispatch
hear-Leads json t n [] l = l
hear-Leads json t n (v ∷ vs) l =
    hear-Leads json t (handle_request_vote_response json n v (reply t)).0 vs
      (subst (Leads t) (sym (handle-leader json t n v l.is_leader)) l)

-- A candidate of the term that has no majority yet.
record Standing (t : ℕ) (n : RaftNode) : Type 0 where
  is_candidate : n.state.role ≡ candidate
  its_term : n.state.current_term ≡ t
  short : length n.votes_received < majority_count n.state

-- What one more vote does.
data Heard (t : ℕ) (n : RaftNode) (v : ℕ) (m : RaftNode) : Type 0 where
  won : Leads t m → Heard t n v m
  runs :
      Standing t m
      → m.votes_received ≡ v ∷ n.votes_received
      → m.state.peers ≡ n.state.peers
      → Heard t n v m

record HeardIn (t : ℕ) (n : RaftNode) (v : ℕ) (r : RaftNode × List Action) : Type 0 where
  heard : Heard t n v r.0

new_vote :
    (n : RaftNode) (v t : ℕ)
    → ¬ (Among v n.votes_received)
    → (counted n v (reply t)).votes_received ≡ v ∷ n.votes_received
unfolding insert_vote
new_vote n v t fresh = elim (Bool-cases (contains v n.votes_received)) [
  | inl had ↦ absurd (fresh (contains-Among v n.votes_received had))
  | inr new ↦ rw new refl
]

count_vote-Heard :
    (n : RaftNode) (v t : ℕ)
    → Standing t n
    → ¬ (Among v n.votes_received)
    → HeardIn t n v (count_vote n v (reply t))
unfolding count_vote win_election become_leader has_majority majority_count
count_vote-Heard n v t r fresh =
    if_elim (HeardIn t n v) (has_majority (counted n v (reply t))) _ _
      (λ _. record { heard = won (record { is_leader = refl; in_term = r.its_term }) })
      (λ lost. record {
        heard =
            runs
              (record {
                is_candidate = r.is_candidate;
                its_term = r.its_term;
                short = ground arith;
              })
              (new_vote n v t fresh) refl;
      })

handle-Heard :
    (json : Json) (n : RaftNode) (v t : ℕ)
    → Standing t n
    → ¬ (Among v n.votes_received)
    → Heard t n v (handle_request_vote_response json n v (reply t)).0
unfolding handle_request_vote_response vote_response_as
handle-Heard json n v t r fresh =
    subst (λ x. Heard t n v x.0)
      (sym (ap (λ role. vote_response_as role json n v (reply t)) r.is_candidate ∙ counted_now))
      ((count_vote-Heard n v t r fresh).heard)
  where
    current : ltb n.state.current_term t ≡ false
    current = le→not_ltb n.state.current_term t (omega (arith, r.its_term))

    same : not (t == n.state.current_term) ≡ false
    same = eq→not_ne t n.state.current_term (sym r.its_term)

    counted_now : vote_response_as candidate json n v (reply t) ≡ count_vote n v (reply t)
    counted_now = rw (current, same) refl

-- Enough votes, from nodes that the candidate has not heard.
hear-candidate :
    (json : Json) (t : ℕ) (n : RaftNode) (vs : List ℕ)
    → Standing t n
    → Distinct vs
    → ((v : ℕ) → Among v vs → ¬ (Among v n.votes_received))
    → majority_count n.state ≤ length n.votes_received + length vs
    → Leads t (hear json t n vs)
unfolding hear dispatch majority_count
hear-candidate json t n [] r d new enough = absurd (omega (arith, r.short, enough))
hear-candidate json t n (v ∷ vs) r d new enough =
    elim (handle-Heard json n v t r (new v (inl refl))) [
      | won l ↦ hear-Leads json t (handle_request_vote_response json n v (reply t)).0 vs l
      | runs s votes peers ↦
          hear-candidate json t (handle_request_vote_response json n v (reply t)).0 vs s d.1
            (λ w on h. elim (subst (Among w) votes h) [
              | inl e ↦ d.0 (subst (λ x. Among x vs) (sym e) on)
              | inr old ↦ new w (inr on) old
            ])
            (omega (arith, ap length votes, ap length peers, enough))
    ]

record LeadsIn (json : Json) (t : ℕ) (vs : List ℕ) (r : RaftNode × List Action) : Type 0 where
  leads : Leads t (hear json t r.0 vs)

stood-Leads :
    (json : Json) (n : RaftNode) (vs : List ℕ) (t : ℕ)
    → t ≡ n.state.current_term + 1
    → t < word
    → Distinct vs
    → ¬ (Among n.state.id vs)
    → length n.state.peers / 2 ≤ length vs
    → LeadsIn json t vs (start_election json n)
unfolding start_election win_election become_leader has_majority majority_count stand
    become_candidate persist reset_election_timeout
stood-Leads json n vs t e room d other enough =
    if_elim (LeadsIn json t vs) (has_majority (stand json n)) _ _
      (λ _. record {
        leads =
            hear-Leads json t _ vs (record { is_leader = refl; in_term = omega (arith, e, room) });
      })
      (λ lost. record {
        leads =
            hear-candidate json t (stand json n) vs
              (record {
                is_candidate = refl;
                its_term = omega (arith, e, room);
                short = ground arith;
              })
              d
              (λ v on h. elim h [
                | inl own ↦ other (subst (λ x. Among x vs) (sym own) on)
                | inr none_else ↦ none_else
              ])
              (omega (arith, enough));
      })

-- An election that is won: a node that starts an election, and then hears a grant in the new term from
-- as many distinct other nodes as half of its peers, rounded down, is the leader of the new term, if the
-- term can grow by one within 64 bits.
pub election_is_won :
    (json : Json) (n : RaftNode) (vs : List ℕ)
    → n.state.current_term + 1 < word
    → Distinct vs
    → ¬ (Among n.state.id vs)
    → length n.state.peers / 2 ≤ length vs
    → Leads
        (n.state.current_term + 1)
        (hear json (n.state.current_term + 1) (start_election json n).0 vs)
election_is_won json n vs room d other enough =
    (stood-Leads json n vs (n.state.current_term + 1) refl room d other enough).leads
