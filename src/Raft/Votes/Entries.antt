-- ===== src/Raft/Votes/Entries.antt =====
-- raft/node.rs: AppendEntries and proposals keep the term and the vote.
use raft_kv_distributed_kv_s.Prelude.{
  ℕ, refl, Option, none, some, List, [], ◌∷◌, if_elim, ltb, not, ◌==◌,
}
use raft_kv_distributed_kv_s.Raft.Log.{LogCommand, LogEntry, term_at}
use raft_kv_distributed_kv_s.Raft.Message.{AppendEntriesRequest, AppendEntriesResponse}
use raft_kv_distributed_kv_s.Raft.State.{follower, candidate, leader, RaftState, NodeRole}
use raft_kv_distributed_kv_s.Raft.Persist.{Json}
use raft_kv_distributed_kv_s.Raft.Node.{RaftNode, reset_election_timeout, persist}
use raft_kv_distributed_kv_s.Raft.Node.Entries.{
  handle_append_entries, check_entries, follow_leader, accept_entries, take_entries,
  append_response_as, note_success, note_failure, propose_as, append_proposal, store_entries,
  merge_entries,
}
use raft_kv_distributed_kv_s.Raft.Votes.{
  Keeps, Keeps-refl, Keeps-trans, become_follower-Keeps, same-Keeps, Moves, advance-Keeps,
  follow_commit-Moves, unmoved, then-Moves,
}

follow_leader-Keeps :
    (json : Json) (n : RaftNode) (r : AppendEntriesRequest)
    → Keeps n.state (follow_leader json n r).state
unfolding follow_leader persist reset_election_timeout
follow_leader-Keeps json n r =
    Keeps-trans (become_follower-Keeps n.state r.term) (same-Keeps _ _ refl refl refl refl)

store_entries-Keeps :
    (json : Json) (n : RaftNode) (es : List LogEntry)
    → Keeps n.state (store_entries json n es).state
unfolding store_entries persist
store_entries-Keeps json n [] = Keeps-refl n.state
store_entries-Keeps json n (e ∷ es) = same-Keeps n.state _ refl refl refl refl

take_entries-Keeps :
    (json : Json) (n : RaftNode) (r : AppendEntriesRequest) (es : List LogEntry)
    → Keeps n.state (take_entries json n r es).state
unfolding take_entries merge_entries
take_entries-Keeps json n r [] = Keeps-refl n.state
take_entries-Keeps json n r (e ∷ es) =
    Keeps-trans (same-Keeps n.state _ refl refl refl refl) (store_entries-Keeps json _ _)

check_entries-Moves :
    (json : Json) (n : RaftNode) (r : AppendEntriesRequest) → Moves n (check_entries json n r)
unfolding check_entries accept_entries
check_entries-Moves json n r =
    if_elim (Moves n) (not (term_at n.state.log r.prev_log_index == r.prev_log_term)) _ _
      (λ _. unmoved n _ _ refl)
      λ _. record {
        kept = Keeps-trans (take_entries-Keeps json n r r.entries) (follow_commit-Moves _ _).kept;
      }

pub handle_append_entries-Moves :
    (json : Json) (n : RaftNode) (r : AppendEntriesRequest)
    → Moves n (handle_append_entries json n r)
unfolding handle_append_entries
handle_append_entries-Moves json n r =
    if_elim (Moves n) (ltb r.term n.state.current_term) _ _ (λ _. unmoved n _ _ refl)
      (λ _. then-Moves n _ (follow_leader-Keeps json n r) (check_entries-Moves json _ r))

note_success-Keeps : (s : RaftState) (from : ℕ) (m : Option ℕ) → Keeps s (note_success s from m)
unfolding note_success
note_success-Keeps s from none = Keeps-refl s
note_success-Keeps s from (some m) = same-Keeps s _ refl refl refl refl

note_failure-Keeps : (s : RaftState) (from : ℕ) (m : Option ℕ) → Keeps s (note_failure s from m)
unfolding note_failure
note_failure-Keeps s from none = same-Keeps s _ refl refl refl refl
note_failure-Keeps s from (some m) = same-Keeps s _ refl refl refl refl

pub append_response-Moves :
    (json : Json) (n : RaftNode) (from : ℕ) (r : AppendEntriesResponse) (role : NodeRole)
    → Moves n (append_response_as role json n from r)
unfolding append_response_as persist
append_response-Moves json n from r follower = unmoved n _ _ refl
append_response-Moves json n from r candidate = unmoved n _ _ refl
append_response-Moves json n from r leader =
    if_elim (Moves n) (ltb n.state.current_term r.term) _ _
      (λ _. record { kept = become_follower-Keeps n.state r.term })
      λ _.
        if_elim (Moves n) r.success _ _
          (λ _. record {
            kept = Keeps-trans (note_success-Keeps n.state from r.match_index) (advance-Keeps _);
          })
          (λ _. record { kept = note_failure-Keeps n.state from r.match_index })

pub propose-Keeps :
    (json : Json) (n : RaftNode) (c : LogCommand) (role : NodeRole)
    → Keeps n.state (propose_as role json n c).0.state
unfolding propose_as append_proposal persist
propose-Keeps json n c follower = Keeps-refl n.state
propose-Keeps json n c candidate = Keeps-refl n.state
propose-Keeps json n c leader =
    Keeps-trans (same-Keeps n.state _ refl refl refl refl) (advance-Keeps _)
