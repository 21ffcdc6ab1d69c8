-- ===== src/Raft/Tests.antt =====
-- Examples of nodes and runs, with a concrete encoding of the saved state.
pub mod Encoding
mod Timers
mod Files
mod Repairs
mod Elections
use raft_kv_distributed_kv_s.Raft.Tests.Encoding.{json_example, json_example-RoundTrips, encode}
use raft_kv_distributed_kv_s.Raft.Node
use raft_kv_distributed_kv_s.Raft.State
use raft_kv_distributed_kv_s.Raft.Node.{
  RaftNode, reset_election_timeout, with_persistence, persistent, persist, apply_entry, save_if_any,
}
use raft_kv_distributed_kv_s.Prelude.{
  ℕ, List, [], ◌∷◌, ◌≡◌, ◌≢◌, refl, arith, some, none, Text, take, ◌++◌, drop, true,
}
use raft_kv_distributed_kv_s.Raft.Votes.{Keeps}
use raft_kv_distributed_kv_s.Raft.Votes.Runs.{here, next, Runs-Keeps, Runs}
use raft_kv_distributed_kv_s.Raft.Durable.{untouched, saved, reliable, Durable, persist-Durable}
use raft_kv_distributed_kv_s.Raft.Node.Step.{
  ticked, received, proposed, request_vote, step, run, Input, dispatch, append_entries,
}
use raft_kv_distributed_kv_s.Raft.State.{RaftState, leader, majority_count, become_follower}
use raft_kv_distributed_kv_s.Raft.Message.{RequestVoteRequest, AppendEntriesRequest}
use raft_kv_distributed_kv_s.Raft.Node.Election.{
  handle_request_vote, adopt_term, decide_vote, grant_vote, may_vote_for, up_to_date, tick, tick_as,
  tick_election,
}
use raft_kv_distributed_kv_s.Raft.Votes.Once.{one_vote_per_term, Granted, Grants-Granted, Grants}
use raft_kv_distributed_kv_s.Raft.Log.{
  LogEntry, LogCommand, put, term_at, noop, sentinel, delete, to_entries, last_index, get,
  last_term,
}
use raft_kv_distributed_kv_s.Raft.Node.Entries.{
  handle_append_entries, check_entries, accept_entries, take_entries, follow_leader, follow_commit,
}
use raft_kv_distributed_kv_s.Raft.Merge.{terms, overlay}
use raft_kv_distributed_kv_s.Raft.Node.Commit.{
  maybe_advance_commit_index, apply_committed_entries, advance_loop, apply_loop, can_commit,
  apply_found, replicas, apply_command,
}
use raft_kv_distributed_kv_s.Raft.Commits.{Commits, advance-Commits}
use raft_kv_distributed_kv_s.Raft.Durable.Restart.{Restarted, run-Durable, restart_restores}
use raft_kv_distributed_kv_s.Raft.Replication.{rounds, answer}
use raft_kv_distributed_kv_s.Raft.Merge.Accept.{Fits, handle-merge}
use raft_kv_distributed_kv_s.Raft.Merge.Agree.{late_request, accepted_agrees}
use raft_kv_distributed_kv_s.Raft.Replication.Stuck.{never_repaired, IsStuck}
use raft_kv_distributed_kv_s.Raft.Node.Replicate.{find_index}
use raft_kv_distributed_kv_s.Raft.Commits.Apply.{Applies, apply_committed_entries-Applies}
use raft_kv_distributed_kv_s.Raft.Persist.{StatePersister, save}
use raft_kv_distributed_kv_s.Raft.Replication.Counted.{accepted_counts}

abbrev cluster : List ℕ
cluster = 1 ∷ 2 ∷ 3 ∷ []

abbrev node_1 : RaftNode
node_1 = Node.new 1 cluster

-- The request of node 2 in its first election, and the same once more.
abbrev ballot : RequestVoteRequest
ballot = record { term = 1; candidate_id = 2; last_log_index = 0; last_log_term = 0 }

ballot_is_granted : Grants json_example node_1 ballot 1
unfolding handle_request_vote adopt_term decide_vote grant_vote may_vote_for up_to_date persist
    save_if_any become_follower reset_election_timeout Node.new last_index last_term
ballot_is_granted = refl

abbrev voted : RaftNode
voted = (handle_request_vote json_example node_1 ballot).0

-- The leader that the vote elected sends a heartbeat.
abbrev heartbeat : Input
heartbeat = received (
    append_entries 2 (record {
      term = 1;
      leader_id = 2;
      prev_log_index = 0;
      prev_log_term = 0;
      entries = [];
      leader_commit = 0;
    }))

abbrev led : RaftNode
led = step json_example voted heartbeat

again_is_granted : Grants json_example led ballot 1
unfolding handle_request_vote adopt_term decide_vote grant_vote may_vote_for up_to_date persist
    save_if_any become_follower reset_election_timeout Node.new last_index last_term step dispatch
    handle_append_entries check_entries accept_entries take_entries follow_leader follow_commit
    term_at
again_is_granted = refl

voted_led : Runs json_example voted led
unfolding handle_request_vote adopt_term decide_vote grant_vote may_vote_for up_to_date persist
    save_if_any become_follower reset_election_timeout Node.new last_index last_term
voted_led = next here (omega arith) heartbeat

one_vote_per_term_example : ballot.candidate_id ≡ 2
one_vote_per_term_example =
    one_vote_per_term json_example node_1 ballot {m = led} ballot 1 ballot_is_granted voted_led
      again_is_granted

Grants-Granted_example : Granted json_example node_1 ballot 1
Grants-Granted_example = Grants-Granted json_example node_1 ballot 1 ballot_is_granted

Runs-Keeps_example : Keeps voted.state led.state
Runs-Keeps_example = Runs-Keeps voted_led

-- Logs with the commands "a := b" and "delete a".
abbrev a : Text
a = b'a' ∷ []

abbrev b : Text
b = b'b' ∷ []

abbrev with_log : ℕ → ℕ → List LogEntry → RaftNode
with_log id term es = record (Node.new id cluster) {
  state = record (State.new id cluster) {
    current_term = term;
    log = record { entries = sentinel ∷ es };
  };
}

abbrev entry : ℕ → LogCommand → LogEntry
entry t c = record { term = t; command = c }

-- A follower with two entries of term 1, the second of which the leader of term 2 does not have.
abbrev follower_3 : RaftNode
follower_3 = with_log 3 1 (entry 1 (put a b) ∷ entry 1 (delete a) ∷ [])

abbrev overwriting : AppendEntriesRequest
overwriting = record {
  term = 2;
  leader_id = 1;
  prev_log_index = 1;
  prev_log_term = 1;
  entries = entry 2 noop ∷ entry 2 (delete b) ∷ [];
  leader_commit = 2;
}

abbrev overwritten : List LogEntry
overwritten = (handle_append_entries json_example follower_3 overwriting).0.state.log.entries

overwriting-Fits : Fits follower_3 overwriting
unfolding term_at
overwriting-Fits = record {
  current = omega arith;
  agrees = refl;
  reaches = omega arith;
  no_wrap = omega arith;
}

handle-merge_example :
    overwritten
    ≡ take 2 follower_3.state.log.entries
      ++ overlay (drop 2 follower_3.state.log.entries) overwriting.entries
handle-merge_example = handle-merge json_example follower_3 overwriting overwriting-Fits

accepted_agrees_example :
    (take 2 overwritten ≡ sentinel ∷ entry 1 (put a b) ∷ [])
    × (take 2 (terms (drop 2 overwritten)) ≡ terms overwriting.entries)
accepted_agrees_example = accepted_agrees json_example follower_3 overwriting overwriting-Fits

-- A request that was sent before the second entry and comes after it.
abbrev late : AppendEntriesRequest
late = record {
  term = 1;
  leader_id = 1;
  prev_log_index = 0;
  prev_log_term = 0;
  entries = entry 1 (put a b) ∷ [];
  leader_commit = 0;
}

late-Fits : Fits follower_3 late
unfolding term_at
late-Fits = record {
  current = omega arith;
  agrees = refl;
  reaches = omega arith;
  no_wrap = omega arith;
}

late_request_example :
    (handle_append_entries json_example follower_3 late).0.state.log.entries
    ≡ sentinel ∷ entry 1 (put a b) ∷ entry 1 (delete a) ∷ []
late_request_example = late_request json_example follower_3 late late-Fits refl
