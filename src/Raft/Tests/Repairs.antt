-- ===== src/Raft/Tests/Repairs.antt =====
-- Examples of a follower whose log conflicts with its leader's.
use raft_kv_distributed_kv_s.Raft.Tests.Encoding.{json_example}
use raft_kv_distributed_kv_s.Raft.Node.{RaftNode}
use raft_kv_distributed_kv_s.Prelude.{[], ◌∷◌, ◌≡◌, refl, arith, some}
use raft_kv_distributed_kv_s.Raft.State.{leader}
use raft_kv_distributed_kv_s.Raft.Message.{AppendEntriesRequest}
use raft_kv_distributed_kv_s.Raft.Log.{put, term_at, noop, delete, last_index}
use raft_kv_distributed_kv_s.Raft.Node.Entries.{handle_append_entries}
use raft_kv_distributed_kv_s.Raft.Replication.{rounds, answer}
use raft_kv_distributed_kv_s.Raft.Merge.Accept.{Fits}
use raft_kv_distributed_kv_s.Raft.Replication.Stuck.{never_repaired, IsStuck}
use raft_kv_distributed_kv_s.Raft.Node.Replicate.{find_index}
use raft_kv_distributed_kv_s.Raft.Replication.Counted.{accepted_counts}
use raft_kv_distributed_kv_s.Raft.Tests.{with_log, entry, a, b, follower_3}

-- The old leader of term 1 has an entry that the leader of term 2 has overwritten.
abbrev new_leader : RaftNode
new_leader = record (with_log 1 2 (entry 2 noop ∷ entry 2 (delete b) ∷ [])) {
  state = record ((with_log 1 2 (entry 2 noop ∷ entry 2 (delete b) ∷ [])).state) {
    role = leader;
    next_index = (2, 2) ∷ (3, 3) ∷ [];
    match_index = (2, 0) ∷ (3, 2) ∷ [];
  };
}

abbrev old_leader : RaftNode
old_leader = with_log 2 1 (entry 1 (put a b) ∷ [])

old_leader-IsStuck : IsStuck 2 new_leader old_leader
unfolding term_at last_index find_index
old_leader-IsStuck = record {
  leads = refl;
  in_term = omega arith;
  conflicts = λ e. absurd (omega (arith, e));
  next_is = refl;
  no_wrap = omega arith;
}

never_repaired_example :
    ((rounds 100 json_example 2 (new_leader, old_leader)).0 ≡ new_leader)
    × ((rounds 100 json_example 2 (new_leader, old_leader)).1.state.log ≡ old_leader.state.log)
never_repaired_example = never_repaired 100 json_example 2 new_leader old_leader old_leader-IsStuck

-- A leader of term 2 with an empty log, whose heartbeat meets two entries of term 1.
abbrev short_leader : RaftNode
short_leader = record (with_log 1 2 []) {
  state = record ((with_log 1 2 []).state) {
    role = leader;
    next_index = (2, 1) ∷ (3, 1) ∷ [];
    match_index = (2, 0) ∷ (3, 0) ∷ [];
  };
}

abbrev empty_request : AppendEntriesRequest
empty_request = record {
  term = 2;
  leader_id = 1;
  prev_log_index = 0;
  prev_log_term = 0;
  entries = [];
  leader_commit = 0;
}

empty_request-Fits : Fits follower_3 empty_request
unfolding term_at
empty_request-Fits = record {
  current = omega arith;
  agrees = refl;
  reaches = omega arith;
  no_wrap = omega arith;
}

accepted_counts_example :
    let (f', actions) = handle_append_entries json_example follower_3 empty_request in
    find_index 3 (answer json_example 3 short_leader actions).state.match_index
    ≡ some (last_index f'.state.log)
unfolding find_index
accepted_counts_example =
    accepted_counts json_example 3 0 short_leader follower_3 empty_request empty_request-Fits
      (omega arith) refl refl
