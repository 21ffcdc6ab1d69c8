-- ===== src/Raft/Votes/Candidacy.antt =====
-- raft/node.rs: which votes a candidate or a leader counts, and which votes a node's replies grant.
pub mod Elections
pub mod Requests
use raft_kv_distributed_kv_s.Prelude.{
  ℕ, zero, suc, ◌≡◌, ◌≢◌, ◌≤◌, ◌⊎◌, inl, inr, refl, List, [], ◌∷◌, ◌++◌, none, some, true, false,
  arith, Option, Bool-cases, ◌∙◌, ◌+◌, ◌==◌, length, Option-cases,
}
use raft_kv_distributed_kv_s.Raft.State.{
  RaftState, follower, leader, NodeRole, majority_count, candidate,
}
use raft_kv_distributed_kv_s.Raft.Node.{
  RaftNode, Action, send_request_vote_response, send_request_vote, send_append_entries,
  send_append_entries_response, apply_entry,
}
use raft_kv_distributed_kv_s.Raft.Node.Commit.{apply_command, apply_found, apply_loop}
use raft_kv_distributed_kv_s.Raft.Node.Replicate.{
  replicate_to, send_heartbeats, replicate_to_all_peers, push_some, replicate_to_peer, find_index,
  request_from,
}
use raft_kv_distributed_kv_s.Raft.Node.Election.{request_votes}
use raft_kv_distributed_kv_s.Raft.Log.{LogCommand, RaftLog, put, LogEntry, delete, get, noop}
use raft_kv_distributed_kv_s.Raft.Quorum.{Among, Distinct}

-- A reply in the list grants a vote only as the state has recorded it.
abbrev pub Replies : RaftState → List Action → Type 0
Replies s [] = Unit
Replies s (send_request_vote_response to r ∷ rest) =
    (r.vote_granted ≡ true → (r.term ≡ s.current_term) × (s.voted_for ≡ some to)) × Replies s rest
Replies s (send_request_vote _ _ ∷ rest) = Replies s rest
Replies s (send_append_entries _ _ ∷ rest) = Replies s rest
Replies s (send_append_entries_response _ _ ∷ rest) = Replies s rest
Replies s (apply_entry _ _ ∷ rest) = Replies s rest

-- A candidacy that goes on: the votes are those from before and those that just arrived.
pub record Carried (Given : ℕ → Type 0) (n m : RaftNode) : Type 0 where
  pub same_term : m.state.current_term ≡ n.state.current_term
  pub was : n.state.role ≢ follower
  pub votes : (v : ℕ) → Among v m.votes_received → Given v ⊎ Among v n.votes_received
  pub distinct : Distinct n.votes_received → Distinct m.votes_received
  pub elected :
      m.state.role ≡ leader
      → ((n.state.role ≡ leader) × (m.votes_received ≡ n.votes_received))
        ⊎ (majority_count m.state ≤ length m.votes_received)

-- A candidacy that starts, with the node's own vote.
pub record Started (m : RaftNode) : Type 0 where
  pub votes : m.votes_received ≡ m.state.id ∷ []
  pub voted : m.state.voted_for ≡ some m.state.id
  pub elected : m.state.role ≡ leader → majority_count m.state ≤ 1

pub data Candidacy (Given : ℕ → Type 0) (n m : RaftNode) : Type 0 where
  resigned : m.state.role ≡ follower → Candidacy Given n m
  carried : Carried Given n m → Candidacy Given n m
  started : Started m → Candidacy Given n m

-- What a handler does to the votes.
pub record Fair (Given : ℕ → Type 0) (n : RaftNode) (r : RaftNode × List Action) : Type 0 where
  pub replies : Replies r.0.state r.1
  pub candidacy : Candidacy Given n r.0

-- No vote arrives.
abbrev pub Nothing : ℕ → Type 0
Nothing v = ⊥

pub same_candidacy :
    (Given : ℕ → Type 0) (n m : RaftNode)
    → m.state.role ≡ n.state.role
    → m.state.current_term ≡ n.state.current_term
    → m.votes_received ≡ n.votes_received
    → Candidacy Given n m
same_candidacy Given n m role term votes = go n.state.role refl
  where
    go : (r : NodeRole) → n.state.role ≡ r → Candidacy Given n m
    go follower e = resigned (role ∙ e)
    go candidate e = carried (record {
      same_term = term;
      was = λ f. cc (f, e);
      votes = λ v h. inr (rw votes at h);
      distinct = λ d. rw votes d;
      elected = λ l. cc (l, role, e);
    })
    go leader e = carried (record {
      same_term = term;
      was = λ f. cc (f, e);
      votes = λ v h. inr (rw votes at h);
      distinct = λ d. rw votes d;
      elected = λ l. inl (e, votes);
    })

-- The other lists of actions hold no vote replies.
pub Replies-append :
    (s : RaftState) (xs ys : List Action) → Replies s xs → Replies s ys → Replies s (xs ++ ys)
Replies-append s [] ys a b = b
Replies-append s (send_request_vote_response _ _ ∷ xs) ys a b = (a.0, Replies-append s xs ys a.1 b)
Replies-append s (send_request_vote _ _ ∷ xs) ys a b = Replies-append s xs ys a b
Replies-append s (send_append_entries _ _ ∷ xs) ys a b = Replies-append s xs ys a b
Replies-append s (send_append_entries_response _ _ ∷ xs) ys a b = Replies-append s xs ys a b
Replies-append s (apply_entry _ _ ∷ xs) ys a b = Replies-append s xs ys a b

Replies-apply_command :
    (s : RaftState) (i : ℕ) (c : LogCommand) (rest : List Action)
    → Replies s rest
    → Replies s (apply_command i c ++ rest)
unfolding apply_command
Replies-apply_command s i noop rest h = h
Replies-apply_command s i (put k v) rest h = h
Replies-apply_command s i (delete k) rest h = h

Replies-apply_found :
    (s : RaftState) (i : ℕ) (o : Option LogEntry) (rest : List Action)
    → Replies s rest
    → Replies s (apply_found i o ++ rest)
unfolding apply_found
Replies-apply_found s i none rest h = h
Replies-apply_found s i (some e) rest h = Replies-apply_command s i e.command rest h

pub Replies-apply_loop :
    (s : RaftState) (k : ℕ) (log : RaftLog) (a : ℕ) → Replies s (apply_loop k log a).1
unfolding apply_loop
Replies-apply_loop s zero log a = tt
Replies-apply_loop s (suc k) log a =
    Replies-apply_found s (a + 1) (get log (a + 1)) _ (Replies-apply_loop s k log (a + 1))

Replies-push_some :
    (s t : RaftState) (p : ℕ) (rest : List Action)
    → Replies s rest
    → Replies s (push_some (replicate_to_peer t p) rest)
unfolding replicate_to_peer
Replies-push_some s t p rest h =
    elim (find_index p t.next_index)
      as (λ (o : Option ℕ). Replies s (
        push_some
          (elim o [ none ↦ none | some i ↦ some (send_append_entries p (request_from t i)) ])
          rest)) [ none ↦ h | some i ↦ h ]

pub Replies-replicate_to : (s t : RaftState) (ps : List ℕ) → Replies s (replicate_to t ps)
unfolding replicate_to
Replies-replicate_to s t [] = tt
Replies-replicate_to s t (p ∷ ps) = elim (Bool-cases (p == t.id)) [
  | inl self ↦ rw self (Replies-replicate_to s t ps)
  | inr other ↦ rw other (Replies-push_some s t p (replicate_to t ps) (Replies-replicate_to s t ps))
]

pub Replies-send_heartbeats : (s t : RaftState) → Replies s (send_heartbeats t)
unfolding send_heartbeats replicate_to_all_peers
Replies-send_heartbeats s t = Replies-replicate_to s t t.peers

pub Replies-request_votes : (s t : RaftState) (ps : List ℕ) → Replies s (request_votes t ps)
unfolding request_votes
Replies-request_votes s t [] = tt
Replies-request_votes s t (p ∷ ps) = elim (Bool-cases (p == t.id)) [
  | inl self ↦ rw self (Replies-request_votes s t ps)
  | inr other ↦ rw other (Replies-request_votes s t ps)
]
