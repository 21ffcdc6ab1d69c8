-- ===== src/Raft/Writes/Entries.antt =====
-- raft/node.rs: logs, roles and requests through replies to AppendEntries and proposals.
use mathlib.Core.Path.{subst, sym}
use raft_kv_distributed_kv_s.Raft.Writes.Actions.{All, All-append, All-advance}
use raft_kv_distributed_kv_s.Raft.Writes.Elections.{replicate-Sends}
use raft_kv_distributed_kv_s.Raft.Node.Entries.{
  update_index, step_back, note_success, note_failure, append_response_as, propose_as,
  append_proposal,
}
use raft_kv_distributed_kv_s.Prelude.{
  Option, ℕ, ◌≡◌, length, List, ◌<◌, some, ◌+◌, arith, word, none, ◌∷◌, Bool-cases, ◌-◌, refl, ◌==◌,
  ap, inl, [], inr, ◌∙◌, if_elim, ltb, sym, ◌++◌,
}
use raft_kv_distributed_kv_s.Raft.Node.Commit.{
  maybe_advance_commit_index, apply_committed_entries, advance_loop,
}
use raft_kv_distributed_kv_s.Raft.State.{
  RaftState, become_follower, NodeRole, leader, follower, candidate,
}
use raft_kv_distributed_kv_s.Raft.Message.{AppendEntriesResponse}
use raft_kv_distributed_kv_s.Raft.Node.{persist, RaftNode, Action}
use raft_kv_distributed_kv_s.Raft.Persist.{Json}
use raft_kv_distributed_kv_s.Raft.Writes.{
  AllPositive, Sends, Writes, Unasked, stayed, kept, appended, resigned,
}
use raft_kv_distributed_kv_s.Raft.Node.Replicate.{replicate_to_all_peers, replicate_to}
use raft_kv_distributed_kv_s.Raft.Log.{last_index, append, LogCommand}
use raft_kv_distributed_kv_s.Raft.Votes.{advance_loop-frame}
use raft_kv_distributed_kv_s.Raft.Votes.Candidacy.Requests.{
  Steady, actions_of, Steady-note_success, Steady-advance, Steady-note_failure,
}
use raft_kv_distributed_kv_s.Cluster.Clients.{log-advance}

update_index-AllPositive :
    (from : ℕ) (f : ℕ → ℕ) (m : List (ℕ × ℕ))
    → ((i : ℕ) → 0 < i → 0 < f i)
    → AllPositive m
    → AllPositive (update_index from f m)
unfolding update_index
update_index-AllPositive from f [] pos p = tt
update_index-AllPositive from f ((id, x) ∷ m) pos p = elim (Bool-cases (id == from)) [
  | inl here ↦ rw here (pos x p.0, p.1)
  | inr there ↦ rw there (p.0, update_index-AllPositive from f m pos p.1)
]

step_back-positive : (i : ℕ) → 0 < i → 0 < step_back i
unfolding step_back
step_back-positive i h = ground arith

-- A reply names an index whose successor is on 64 bits.
abbrev pub Near : Option ℕ → Type 0
Near o = (m : ℕ) → o ≡ some m → m + 1 < word

note_success-AllPositive :
    (s : RaftState) (from : ℕ) (o : Option ℕ)
    → Near o
    → AllPositive s.next_index
    → AllPositive (note_success s from o).next_index
unfolding note_success
note_success-AllPositive s from none near p = p
note_success-AllPositive s from (some m) near p =
    update_index-AllPositive from _ s.next_index (λ _ _. omega (arith, near m refl)) p

note_failure-AllPositive :
    (s : RaftState) (from : ℕ) (o : Option ℕ)
    → Near o
    → AllPositive s.next_index
    → AllPositive (note_failure s from o).next_index
unfolding note_failure
note_failure-AllPositive s from none near p =
    update_index-AllPositive from step_back s.next_index step_back-positive p
note_failure-AllPositive s from (some m) near p =
    update_index-AllPositive from _ s.next_index (λ _ _. omega (arith, near m refl)) p

log-note_success : (s : RaftState) (from : ℕ) (o : Option ℕ) → (note_success s from o).log ≡ s.log
unfolding note_success
log-note_success s from none = refl
log-note_success s from (some m) = refl

log-note_failure : (s : RaftState) (from : ℕ) (o : Option ℕ) → (note_failure s from o).log ≡ s.log
unfolding note_failure
log-note_failure s from none = refl
log-note_failure s from (some m) = refl

next_index-advance : (s : RaftState) → (maybe_advance_commit_index s).0.next_index ≡ s.next_index
unfolding maybe_advance_commit_index apply_committed_entries
next_index-advance s = ground (arith, loop)
  where
    loop :
        (advance_loop (last_index s.log - s.commit_index) s (s.commit_index + 1)).next_index
        ≡ s.next_index
    loop =
        ap (λ t. t.next_index)
          (advance_loop-frame (last_index s.log - s.commit_index) s (s.commit_index + 1))

still :
    (s t : RaftState)
    → t.role ≡ s.role
    → t.current_term ≡ s.current_term
    → t.log ≡ s.log
    → AllPositive t.next_index
    → (actions : List Action) → All (Sends t.current_term t.log) actions
    → (n : RaftNode) → n.state ≡ t
    → Writes Unasked s (n, actions)
still s t role term log p actions a n e = record {
  office = stayed (ap (λ x. x.role) e ∙ role) (ap (λ x. x.current_term) e ∙ term);
  log = kept (ap (λ x. x.log) e ∙ log);
  indices = subst (λ x. AllPositive x.next_index) (sym e) p;
  sends = subst (λ x. All (Sends x.current_term x.log) actions) (sym e) a;
}

pub append_response-Writes :
    (json : Json) (n : RaftNode) (from : ℕ) (r : AppendEntriesResponse) (role : NodeRole)
    → Near r.match_index
    → AllPositive n.state.next_index
    → Writes Unasked n.state (append_response_as role json n from r)
unfolding append_response_as persist become_follower
append_response-Writes json n from r follower near p =
    still n.state n.state refl refl refl p [] tt n refl
append_response-Writes json n from r candidate near p =
    still n.state n.state refl refl refl p [] tt n refl
append_response-Writes json n from r leader near p =
    if_elim (Writes Unasked n.state) (ltb n.state.current_term r.term) _ _
      (λ _. record { office = resigned refl; log = kept refl; indices = tt; sends = tt })
      λ _.
        if_elim (Writes Unasked n.state) r.success _ _
          (λ _.
            still n.state advanced ((Steady-advance noted).role ∙ success.role)
              ((Steady-advance noted).term ∙ success.term)
              (log-advance noted ∙ log-note_success n.state from r.match_index)
              (subst AllPositive (sym (next_index-advance noted))
                (note_success-AllPositive n.state from r.match_index near p))
              _ (All-advance (Sends advanced.current_term advanced.log) noted (λ _ _. tt)) _ refl)
          (λ _.
            still n.state (note_failure n.state from r.match_index) failure.role failure.term
              (log-note_failure n.state from r.match_index)
              (note_failure-AllPositive n.state from r.match_index near p) [] tt _ refl)
  where
    noted : RaftState
    noted = note_success n.state from r.match_index

    advanced : RaftState
    advanced = (maybe_advance_commit_index noted).0

    success : Steady n.state noted
    success = Steady-note_success n.state from r.match_index

    failure : Steady n.state (note_failure n.state from r.match_index)
    failure = Steady-note_failure n.state from r.match_index

-- A leader's log can take one more entry within 64 bits.
abbrev pub HasSpace : RaftState → Type 0
HasSpace s = length s.log.entries + 1 < word

pub propose-Writes :
    (json : Json) (n : RaftNode) (c : LogCommand)
    → n.state.role ≡ leader
    → AllPositive n.state.next_index
    → HasSpace n.state
    → let (m, actions) = propose_as leader json n c in
      Writes Unasked n.state (m, actions_of actions)
unfolding propose_as append_proposal persist replicate_to_all_peers append
propose-Writes json n c role p space = record {
  office = stayed (Steady-advance s).role (Steady-advance s).term;
  log =
      appended (record { term = n.state.current_term; command = c }) role
        ((Steady-advance s).role ∙ role) (Steady-advance s).term refl space
        (ap (λ l. l.entries) (log-advance s));
  indices = subst AllPositive (sym (next_index-advance s)) p;
  sends =
      subst
        (λ c.
          All (Sends c advanced.log) (replicate_to s s.peers ++ (maybe_advance_commit_index s).1))
        (sym (Steady-advance s).term)
        (subst
          (λ l.
            All (Sends s.current_term l)
              (replicate_to s s.peers ++ (maybe_advance_commit_index s).1))
          (sym (log-advance s))
          (All-append (Sends s.current_term s.log) (replicate_to s s.peers) _
            (replicate-Sends s p s.peers)
            (All-advance (Sends s.current_term s.log) s (λ _ _. tt))));
}
  where
    s : RaftState
    s = (append_proposal json n c).state

    advanced : RaftState
    advanced = (maybe_advance_commit_index s).0
