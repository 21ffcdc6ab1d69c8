-- ===== src/Raft/Node/Entries.antt =====
-- raft/node.rs: both sides of AppendEntries, and the proposal of a command.
use raft_kv_distributed_kv_s.Prelude.{
  ℕ, ◌+◌, ◌-◌, min, Bool, true, false, not, ◌&&◌, Option, none, some, List, [], ◌∷◌, ◌++◌, ltb,
  ◌==◌, if◌then◌else◌, drop, next_word,
}
use raft_kv_distributed_kv_s.Raft.Log.{
  LogCommand, LogEntry, RaftLog, last_index, term_at, append, append_entries, truncate_from,
}
use raft_kv_distributed_kv_s.Raft.Message.{AppendEntriesRequest, AppendEntriesResponse}
use raft_kv_distributed_kv_s.Raft.State.{
  NodeRole, follower, candidate, leader, RaftState, become_follower,
}
use raft_kv_distributed_kv_s.Raft.Persist.{Json}
use raft_kv_distributed_kv_s.Raft.Node.{
  Action, send_append_entries_response, RaftNode, reset_election_timeout, persist,
}
use raft_kv_distributed_kv_s.Raft.Node.Commit.{apply_committed_entries, maybe_advance_commit_index}
use raft_kv_distributed_kv_s.Raft.Node.Replicate.{replicate_to_all_peers}

-- The loop over the request's entries: the log, cut at a conflict, and the index where it ends.
unfoldable pub scan : RaftLog → List LogEntry → ℕ → RaftLog × ℕ
scan log [] index = (log, index)
scan log (e ∷ es) index =
    let rest = scan log es (index + 1) in
    if (term_at log index == 0) && ltb (last_index log) index
    then (log, index)
    else if not (term_at log index == e.term)
    then (truncate_from log index, index)
    else rest

-- The entries of the request that the scan did not find, and the log that they go to.
unfoldable pub new_entries : RaftLog → AppendEntriesRequest → RaftLog × List LogEntry
new_entries log r =
    let first = next_word r.prev_log_index in
    let (cut, index) = scan log r.entries first in (cut, drop (index - first) r.entries)

-- The log is saved only when something is appended.
unfoldable pub store_entries : Json → RaftNode → List LogEntry → RaftNode
store_entries json n [] = n
store_entries json n (e ∷ es) =
    persist json
      (record n { state = record (n.state) { log = append_entries n.state.log (e ∷ es) } })

unfoldable pub merge_entries : Json → RaftNode → AppendEntriesRequest → RaftNode
merge_entries json n r =
    let (cut, fresh) = new_entries n.state.log r in
    store_entries json (record n { state = record (n.state) { log = cut } }) fresh

-- The log step of the handler, skipped for an empty request.
unfoldable pub take_entries : Json → RaftNode → AppendEntriesRequest → List LogEntry → RaftNode
take_entries json n r [] = n
take_entries json n r (e ∷ es) = merge_entries json n r

unfoldable pub follow_commit : RaftState → ℕ → RaftState × List Action
follow_commit s leader_commit =
    if ltb s.commit_index leader_commit
    then apply_committed_entries s (min leader_commit (last_index s.log))
    else (s, [])

abbrev pub append_reply : RaftState → AppendEntriesRequest → Bool → Option ℕ → Action
append_reply s r success match_index =
    send_append_entries_response r.leader_id
      (record { term = s.current_term; success = success; match_index = match_index })

-- The handler once the logs agree at `prev_log_index`.
unfoldable pub accept_entries : Json → RaftNode → AppendEntriesRequest → RaftNode × List Action
accept_entries json n r =
    let m = take_entries json n r r.entries in
    let (s, actions) = follow_commit m.state r.leader_commit in
    (record m { state = s }, actions ++ append_reply s r true (some (last_index s.log)) ∷ [])

-- Accepting the sender as leader, before the logs are compared.
unfoldable pub follow_leader : Json → RaftNode → AppendEntriesRequest → RaftNode
follow_leader json n r = persist json (
    reset_election_timeout (record n {
      state = record (become_follower n.state r.term) { leader_id = some r.leader_id };
    }))

unfoldable pub check_entries : Json → RaftNode → AppendEntriesRequest → RaftNode × List Action
check_entries json n r =
    if not (term_at n.state.log r.prev_log_index == r.prev_log_term)
    then (n, append_reply n.state r false (some (last_index n.state.log)) ∷ [])
    else accept_entries json n r

unfoldable pub handle_append_entries :
    Json → RaftNode → AppendEntriesRequest → RaftNode × List Action
handle_append_entries json n r =
    if ltb r.term n.state.current_term
    then (n, append_reply n.state r false none ∷ [])
    else check_entries json (follow_leader json n r) r

-- `for (id, x) in &mut v { if *id == from { *x = f(*x); break; } }`
unfoldable pub update_index : ℕ → (ℕ → ℕ) → List (ℕ × ℕ) → List (ℕ × ℕ)
update_index from f [] = []
update_index from f ((id, x) ∷ rest) =
    if id == from then (id, f x) ∷ rest else (id, x) ∷ update_index from f rest

unfoldable pub note_success : RaftState → ℕ → Option ℕ → RaftState
note_success s from none = s
note_success s from (some m) = record s {
  match_index = update_index from (λ _. m) s.match_index;
  next_index = update_index from (λ _. next_word m) s.next_index;
}

unfoldable pub step_back : ℕ → ℕ
step_back next = if ltb 1 next then next - 1 else next

unfoldable pub note_failure : RaftState → ℕ → Option ℕ → RaftState
unfolding step_back
note_failure s from none = record s { next_index = update_index from step_back s.next_index }
note_failure s from (some m) = record s {
  next_index = update_index from (λ _. next_word m) s.next_index;
}

abbrev pub with_state : RaftNode → RaftState × List Action → RaftNode × List Action
with_state n (s, actions) = (record n { state = s }, actions)

unfoldable pub append_response_as :
    NodeRole → Json → RaftNode → ℕ → AppendEntriesResponse → RaftNode × List Action
append_response_as follower json n from r = (n, [])
append_response_as candidate json n from r = (n, [])
append_response_as leader json n from r =
    if ltb n.state.current_term r.term
    then (persist json (record n { state = become_follower n.state r.term }), [])
    else if r.success
    then with_state n (maybe_advance_commit_index (note_success n.state from r.match_index))
    else (record n { state = note_failure n.state from r.match_index }, [])

unfoldable pub handle_append_entries_response :
    Json → RaftNode → ℕ → AppendEntriesResponse → RaftNode × List Action
handle_append_entries_response json n from r = append_response_as n.state.role json n from r

unfoldable pub append_proposal : Json → RaftNode → LogCommand → RaftNode
append_proposal json n command =
    let entry : LogEntry = record { term = n.state.current_term; command = command } in
    persist json (record n { state = record (n.state) { log = append n.state.log entry } })

-- The node and its actions, and whether it proposed (`None` is a node that is no leader).
unfoldable pub propose_as :
    NodeRole → Json → RaftNode → LogCommand → RaftNode × Option (List Action)
propose_as follower json n command = (n, none)
propose_as candidate json n command = (n, none)
propose_as leader json n command =
    let m = append_proposal json n command in
    let sends = replicate_to_all_peers m.state in
    let (s, applied) = maybe_advance_commit_index m.state in
    (record m { state = s }, some (sends ++ applied))

unfoldable pub propose : Json → RaftNode → LogCommand → RaftNode × Option (List Action)
propose json n command = propose_as n.state.role json n command
