-- ===== src/Main/Integration/Log.antt =====
-- main.rs: the tests of the log and of the changes of role.
use raft_kv_distributed_kv_s.Raft.Log
use raft_kv_distributed_kv_s.Raft.State
use raft_kv_distributed_kv_s.Raft.Log.{
  RaftLog, last_index, last_term, len, term_at, entries_from, truncate_from, put, delete,
}
use raft_kv_distributed_kv_s.Raft.State.{
  become_candidate, become_leader, become_follower, majority_count, follower, candidate, leader,
}
use raft_kv_distributed_kv_s.Main.Integration.{
  all_hold, option_eq, is_none, role_eq, Bool, Option, true, ℕ, [], some,
}
use raft_kv_distributed_kv_s.Prelude.{
  Bool, ◌≡◌, Option, codes, true, ℕ, ◌∷◌, ◌==◌, [], refl, length, some,
}

-- `append` returns the last index, which is the test's `idx` after the first entry.
unfoldable test_raft_log_operations : Bool
test_raft_log_operations =
    let l0 = Log.new in
    let l1 = Log.append l0 (record { term = 1; command = put (codes "name") (codes "uday") }) in
    let l2 = Log.append l1 (record { term = 1; command = put (codes "balance") (codes "5000") }) in
    let l3 = Log.append l2 (record { term = 2; command = delete (codes "name") }) in
    let l4 = truncate_from l3 3 in
    all_hold (
      (last_index l0 == 0)
      ∷ (last_term l0 == 0)
      ∷ (len l0 == 0)
      ∷ (last_index l1 == 1)
      ∷ (last_index l1 == 1)
      ∷ (last_term l1 == 1)
      ∷ (len l1 == 1)
      ∷ (last_index l2 == 2)
      ∷ (len l2 == 2)
      ∷ (last_index l3 == 3)
      ∷ (last_term l3 == 2)
      ∷ (term_at l3 0 == 0)
      ∷ (term_at l3 1 == 1)
      ∷ (term_at l3 2 == 1)
      ∷ (term_at l3 3 == 2)
      ∷ (term_at l3 99 == 0)
      ∷ (length (entries_from l3 2) == 2)
      ∷ (last_index l4 == 2)
      ∷ (last_term l4 == 1)
      ∷ (len l4 == 2)
      ∷ [])

log_test : test_raft_log_operations ≡ true
unfolding test_raft_log_operations last_index last_term len Log.append term_at entries_from
    truncate_from
log_test = refl

abbrev is_id : Option ℕ → ℕ → Bool
is_id o id = option_eq (λ a b. a == b) o (some id)

unfoldable test_raft_state_transitions : Bool
test_raft_state_transitions =
    let s0 = State.new 1 (1 ∷ 2 ∷ 3 ∷ []) in
    let s1 = become_candidate s0 in
    let s2 = become_leader s1 in
    let s3 = become_follower s2 5 in
    all_hold (
      role_eq s0.role follower
      ∷ (s0.current_term == 0)
      ∷ is_none s0.voted_for
      ∷ role_eq s1.role candidate
      ∷ (s1.current_term == 1)
      ∷ is_id s1.voted_for 1
      ∷ role_eq s2.role leader
      ∷ is_id s2.leader_id 1
      ∷ (length s2.next_index == 2)
      ∷ (length s2.match_index == 2)
      ∷ role_eq s3.role follower
      ∷ (s3.current_term == 5)
      ∷ is_none s3.voted_for
      ∷ (length s3.next_index == 0)
      ∷ (majority_count s3 == 2)
      ∷ [])

state_test : test_raft_state_transitions ≡ true
unfolding test_raft_state_transitions become_candidate become_leader State.track become_follower
    majority_count
state_test = refl
