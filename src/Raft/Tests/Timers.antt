-- ===== src/Raft/Tests/Timers.antt =====
-- Examples of the timers: a follower with three ticks left.
use raft_kv_distributed_kv_s.Raft.Tests.Encoding.{json_example}
use raft_kv_distributed_kv_s.Raft.Node
use raft_kv_distributed_kv_s.Prelude.{[], ◌∷◌, ℕ, refl}
use raft_kv_distributed_kv_s.Raft.Node.{RaftNode, reset_election_timeout}
use raft_kv_distributed_kv_s.Raft.Timers.{Silent, timeout_starts_election, reset-Waits, Waits}

abbrev waiting : RaftNode
waiting = record (Node.new 1 (1 ∷ 2 ∷ 3 ∷ [])) { election_timeout = 3 }

timeout_starts_election_example : Silent json_example waiting 2
unfolding Node.new reset_election_timeout
timeout_starts_election_example = timeout_starts_election 2 json_example waiting (λ e. cc e) refl

reset-Waits_example : (patience : ℕ) × Waits json_example (reset_election_timeout waiting) patience
unfolding Node.new reset_election_timeout
reset-Waits_example = reset-Waits json_example waiting (λ e. cc e)
