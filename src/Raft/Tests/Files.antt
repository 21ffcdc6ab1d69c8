-- ===== src/Raft/Tests/Files.antt =====
-- Examples of commits, of the state file and of restarts.
use raft_kv_distributed_kv_s.Raft.Tests.Encoding.{json_example, json_example-RoundTrips}
use raft_kv_distributed_kv_s.Raft.Node
use raft_kv_distributed_kv_s.Raft.Node.{
  RaftNode, reset_election_timeout, with_persistence, persistent, persist, apply_entry, save_if_any,
}
use raft_kv_distributed_kv_s.Prelude.{[], ◌∷◌, ◌≡◌, refl, arith, some, none, true}
use raft_kv_distributed_kv_s.Raft.Durable.{untouched, reliable, Durable, persist-Durable}
use raft_kv_distributed_kv_s.Raft.Node.Step.{ticked, received, request_vote, run}
use raft_kv_distributed_kv_s.Raft.State.{RaftState, leader, majority_count}
use raft_kv_distributed_kv_s.Raft.Log.{put, term_at, delete, to_entries, last_index, get}
use raft_kv_distributed_kv_s.Raft.Node.Commit.{
  maybe_advance_commit_index, apply_committed_entries, advance_loop, apply_loop, can_commit,
  apply_found, replicas, apply_command,
}
use raft_kv_distributed_kv_s.Raft.Commits.{Commits, advance-Commits}
use raft_kv_distributed_kv_s.Raft.Durable.Restart.{Restarted, run-Durable, restart_restores}
use raft_kv_distributed_kv_s.Raft.Commits.Apply.{Applies, apply_committed_entries-Applies}
use raft_kv_distributed_kv_s.Raft.Persist.{StatePersister, save}
use raft_kv_distributed_kv_s.Raft.Tests.{cluster, with_log, entry, a, b, follower_3, node_1, ballot}

-- A leader whose two entries are on one follower of two.
abbrev leading : RaftState
leading = record ((with_log 1 1 (entry 1 (put a b) ∷ entry 1 (delete a) ∷ [])).state) {
  role = leader;
  match_index = (2, 2) ∷ (3, 0) ∷ [];
}

moved_to_2 : (maybe_advance_commit_index leading).0.commit_index ≡ 2
unfolding maybe_advance_commit_index advance_loop can_commit replicas majority_count
    apply_committed_entries last_index term_at
moved_to_2 = refl

advance-Commits_example : Commits leading (maybe_advance_commit_index leading).0.commit_index
advance-Commits_example = advance-Commits leading

apply_committed_entries-Applies_example :
    Applies leading 2 (apply_entry 1 (put a b) ∷ apply_entry 2 (delete a) ∷ [])
    × ((apply_committed_entries leading 2).0.last_applied ≡ 2)
    × ((apply_committed_entries leading 2).0.commit_index ≡ 2)
unfolding apply_committed_entries apply_loop apply_found apply_command get
apply_committed_entries-Applies_example = apply_committed_entries-Applies leading 2 (omega arith)

-- A node with a state file that is not there yet, and its first election.
abbrev started : RaftNode
started = record node_1 { persister = some (reliable none) }

started-Durable : Durable json_example started
unfolding Node.new reset_election_timeout to_entries
started-Durable = untouched refl refl

run-Durable_example :
    Durable json_example (run json_example started (received (request_vote 2 ballot) ∷ ticked ∷ []))
run-Durable_example =
    run-Durable json_example started (received (request_vote 2 ballot) ∷ ticked ∷ [])
      json_example-RoundTrips started-Durable

-- A node that has stopped, and its state file.
abbrev stopped : RaftNode
stopped = persist json_example (record follower_3 { persister = some (reliable none) })

abbrev state_file : StatePersister
state_file = (save json_example (reliable none) (persistent follower_3.state)).0

stopped-Durable : Durable json_example stopped
stopped-Durable =
    persist-Durable (record follower_3 { persister = some (reliable none) }) json_example-RoundTrips
      (record { file = none; at = refl })

restart_restores_example :
    Restarted 3 cluster stopped (with_persistence json_example 3 cluster state_file true true)
unfolding persist save_if_any
restart_restores_example =
    restart_restores json_example 3 cluster stopped state_file (omega arith) refl stopped-Durable
