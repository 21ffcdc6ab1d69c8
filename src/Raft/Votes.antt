-- ===== src/Raft/Votes.antt =====
-- raft/node.rs: what a node promises about its term and its vote, and the steps that change neither.
pub mod Election
pub mod Entries
pub mod Runs
pub mod Once
pub mod Candidacy
pub mod Won
use raft_kv_distributed_kv_s.Prelude.{
  ℕ, zero, suc, ◌+◌, ◌≤◌, ◌<◌, ◌≡◌, refl, true, Option, none, some, List, [], ◌∷◌, arith, if_elim,
  word, suc, ◌-◌, Bool-cases, ltb, inl, inr, if◌then◌else◌, ◌&&◌, not, ◌==◌,
}
use raft_kv_distributed_kv_s.Raft.Log.{LogCommand, last_index, LogEntry, term_at}
use raft_kv_distributed_kv_s.Raft.Message.{
  RequestVoteRequest, RequestVoteResponse, AppendEntriesRequest, AppendEntriesResponse,
}
use raft_kv_distributed_kv_s.Raft.State.{
  follower, candidate, leader, RaftState, become_follower, become_candidate, become_leader,
  NodeRole,
}
use raft_kv_distributed_kv_s.Raft.Persist.{Json}
use raft_kv_distributed_kv_s.Raft.Node.{
  RaftNode, reset_election_timeout, persist, Action, insert_vote,
}
use raft_kv_distributed_kv_s.Raft.Node.Commit.{
  apply_committed_entries, advance_loop, maybe_advance_commit_index,
}
use raft_kv_distributed_kv_s.Raft.Node.Election.{
  tick, tick_as, tick_election, tick_heartbeat, start_election, stand, win_election,
  handle_request_vote, decide_vote, adopt_term, grant_vote, may_vote_for,
  handle_request_vote_response, vote_response_as, count_vote, has_majority, up_to_date,
}
use raft_kv_distributed_kv_s.Raft.Node.Entries.{
  handle_append_entries, check_entries, follow_leader, accept_entries, take_entries, follow_commit,
  handle_append_entries_response, append_response_as, note_success, note_failure, propose,
  propose_as, append_proposal, store_entries, merge_entries,
}
use raft_kv_distributed_kv_s.Raft.Node.Step.{
  Input, ticked, received, proposed, request_vote, request_vote_response, append_entries,
  append_entries_response, dispatch, step, NetworkMessage,
}

-- The identity stays; the term does not fall; within a term a vote that is cast stays cast.
pub record Keeps (s t : RaftState) : Type 0 where
  pub same_id : t.id ≡ s.id
  pub same_peers : t.peers ≡ s.peers
  pub grows : s.current_term ≤ t.current_term
  pub stays :
      t.current_term ≡ s.current_term → (c : ℕ) → s.voted_for ≡ some c → t.voted_for ≡ some c

pub Keeps-refl : (s : RaftState) → Keeps s s
Keeps-refl s = record { same_id = refl; same_peers = refl; grows = omega arith; stays = λ _ _ h. h }

pub Keeps-trans : {s t u : RaftState} → Keeps s t → Keeps t u → Keeps s u
Keeps-trans {s} {t} {u} p q = record {
  same_id = cc (p.same_id, q.same_id);
  same_peers = cc (p.same_peers, q.same_peers);
  grows = omega (arith, p.grows, q.grows);
  stays = λ e c h.
      q.stays (omega (arith, p.grows, q.grows)) c (p.stays (omega (arith, p.grows, q.grows)) c h);
}

pub become_follower-Keeps : (s : RaftState) (term : ℕ) → Keeps s (become_follower s term)
unfolding become_follower
become_follower-Keeps s term = record {
  same_id = refl;
  same_peers = refl;
  grows = ground arith;
  stays = λ e c h. ground arith;
}

-- Only `commit_index` changes in the loop.
pub advance_loop-frame :
    (k : ℕ) (s : RaftState) (i : ℕ)
    → advance_loop k s i ≡ record s { commit_index = (advance_loop k s i).commit_index }
unfolding advance_loop
advance_loop-frame zero s i = refl
advance_loop-frame (suc k) s i = advance_loop-frame k _ (i + 1)

pub same-Keeps :
    (s t : RaftState)
    → t.id ≡ s.id
    → t.peers ≡ s.peers
    → t.current_term ≡ s.current_term
    → t.voted_for ≡ s.voted_for
    → Keeps s t
same-Keeps s t a b c d = record {
  same_id = a;
  same_peers = b;
  grows = omega arith;
  stays = λ _ x h. cc;
}

pub apply-Keeps : (s t : RaftState) (i : ℕ) → Keeps s t → Keeps s (apply_committed_entries t i).0
unfolding apply_committed_entries
apply-Keeps s t i k = Keeps-trans k (same-Keeps t _ refl refl refl refl)

-- A timer's countdown.
abbrev pub countdown : ℕ → ℕ
countdown t = if ltb 0 t then t - 1 else t

abbrev pub counted : RaftNode → ℕ → RequestVoteResponse → RaftNode
counted n from r = record n {
  votes_received = if r.vote_granted then insert_vote from n.votes_received else n.votes_received;
}

-- The change of a state, or of a node, by a step that also returns actions.
pub record StateMoves (s : RaftState) (r : RaftState × List Action) : Type 0 where
  pub kept : Keeps s r.0

pub record Moves (n : RaftNode) (r : RaftNode × List Action) : Type 0 where
  pub kept : Keeps n.state r.0.state

pub advance-Moves : (s : RaftState) → StateMoves s (maybe_advance_commit_index s)
unfolding maybe_advance_commit_index
advance-Moves s =
    if_elim (StateMoves s) (ltb s.commit_index t.commit_index) _ _
      (λ _. record { kept = apply-Keeps s t t.commit_index moved }) (λ _. record { kept = moved })
  where
    t : RaftState
    t = advance_loop (last_index s.log - s.commit_index) s (s.commit_index + 1)

    moved : Keeps s t
    moved = rw advance_loop-frame (same-Keeps s _ refl refl refl refl)

pub advance-Keeps : (s : RaftState) → Keeps s (maybe_advance_commit_index s).0
advance-Keeps s = (advance-Moves s).kept

pub follow_commit-Moves : (s : RaftState) (c : ℕ) → StateMoves s (follow_commit s c)
unfolding follow_commit
follow_commit-Moves s c =
    if_elim (StateMoves s) (ltb s.commit_index c) _ _
      (λ _. record { kept = apply-Keeps s s _ (Keeps-refl s) })
      (λ _. record { kept = Keeps-refl s })

-- A node that a step leaves in the same state.
pub unmoved : (n m : RaftNode) (actions : List Action) → m.state ≡ n.state → Moves n (m, actions)
unmoved n m actions e = record { kept = rw e (Keeps-refl n.state) }

pub then-Moves :
    (n m : RaftNode) {r : RaftNode × List Action} → Keeps n.state m.state → Moves m r → Moves n r
then-Moves n m k q = record { kept = Keeps-trans k q.kept }
