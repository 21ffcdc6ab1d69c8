-- ===== src/Raft/Node/Commit.antt =====
-- raft/node.rs: applying committed entries, and the leader's commit rule.
use raft_kv_distributed_kv_s.Prelude.{
  ℕ, zero, suc, ◌+◌, ◌-◌, Bool, ◌&&◌, Option, none, some, List, [], ◌∷◌, ◌++◌, ltb, leb, ◌==◌,
  if◌then◌else◌,
}
use raft_kv_distributed_kv_s.Raft.Log.{
  LogCommand, put, delete, noop, LogEntry, RaftLog, get, last_index, term_at,
}
use raft_kv_distributed_kv_s.Raft.State.{RaftState, majority_count}
use raft_kv_distributed_kv_s.Raft.Node.{Action, apply_entry}

unfoldable pub apply_command : ℕ → LogCommand → List Action
apply_command index noop = []
apply_command index (put k v) = apply_entry index (put k v) ∷ []
apply_command index (delete k) = apply_entry index (delete k) ∷ []

unfoldable pub apply_found : ℕ → Option LogEntry → List Action
apply_found index none = []
apply_found index (some e) = apply_command index e.command

-- The rounds left of `while last_applied < new_commit_index`, and `last_applied`.
unfoldable pub apply_loop : ℕ → RaftLog → ℕ → ℕ × List Action
apply_loop zero log applied = (applied, [])
apply_loop (suc rounds) log applied =
    let (final, actions) = apply_loop rounds log (applied + 1) in
    (final, apply_found (applied + 1) (get log (applied + 1)) ++ actions)

unfoldable pub apply_committed_entries : RaftState → ℕ → RaftState × List Action
apply_committed_entries s new_commit =
    let (final, actions) = apply_loop (new_commit - s.last_applied) s.log s.last_applied in
    (record s { last_applied = final; commit_index = new_commit }, actions)

-- How many followers are known to hold the entry at the index.
unfoldable pub replicas : ℕ → List (ℕ × ℕ) → ℕ
replicas index [] = 0
replicas index ((_, match_idx) ∷ rest) =
    (if leb index match_idx then 1 else 0) + replicas index rest

-- The two conditions on an index: its term is the current one, and a majority has it.
unfoldable pub can_commit : RaftState → ℕ → Bool
can_commit s index =
    term_at s.log index == s.current_term
    && leb (majority_count s) (1 + replicas index s.match_index)

-- The rounds left of the loop over `commit_index + 1 ..= last_index`, and the index.
unfoldable pub advance_loop : ℕ → RaftState → ℕ → RaftState
advance_loop zero s index = s
advance_loop (suc rounds) s index =
    advance_loop rounds
      (record s { commit_index = if can_commit s index then index else s.commit_index }) (index + 1)

unfoldable pub maybe_advance_commit_index : RaftState → RaftState × List Action
maybe_advance_commit_index s =
    let t = advance_loop (last_index s.log - s.commit_index) s (s.commit_index + 1) in
    if ltb s.commit_index t.commit_index then apply_committed_entries t t.commit_index else (t, [])
