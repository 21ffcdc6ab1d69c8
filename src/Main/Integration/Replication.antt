-- ===== src/Main/Integration/Replication.antt =====
-- main.rs: the test of log replication, after an election as a step of its own.
use raft_kv_distributed_kv_s.Raft.Persist
use raft_kv_distributed_kv_s.Raft.Log
use raft_kv_distributed_kv_s.Raft.Node.Replicate
use raft_kv_distributed_kv_s.Raft.Node.Commit
use raft_kv_distributed_kv_s.Raft.Node.Entries
use raft_kv_distributed_kv_s.Raft.State
use raft_kv_distributed_kv_s.Raft.Node.Election
use raft_kv_distributed_kv_s.Raft.Node
use raft_kv_distributed_kv_s.Prelude.{if◌then◌else◌}
use raft_kv_distributed_kv_s.Raft.State.{candidate, leader}
use raft_kv_distributed_kv_s.Raft.Log.{LogCommand, put, last_index, last_term}
use raft_kv_distributed_kv_s.Raft.Node.{
  Action, send_request_vote, send_request_vote_response, send_append_entries,
  send_append_entries_response, apply_entry, RaftNode,
}
use raft_kv_distributed_kv_s.Raft.Persist.{Json}
use raft_kv_distributed_kv_s.Main.Integration.{
  all_hold, role_eq, command_eq, is_none, Trio, new_trio, tick_until_acts, vote_at, ℕ, List,
  RaftNode, Bool, false, Option, true, some, text_eq,
}
use raft_kv_distributed_kv_s.Prelude.{
  ℕ, List, Bool, ◌≡◌, map, false, Option, ◌∷◌, true, ◌++◌, [], ◌==◌, some, refl, codes, length,
  ◌&&◌, none,
}
use raft_kv_distributed_kv_s.Raft.Node.Election.{handle_request_vote_response}
use raft_kv_distributed_kv_s.Raft.Message.{AppendEntriesRequest}
use raft_kv_distributed_kv_s.Raft.Node.Entries.{
  handle_append_entries_response, propose, handle_append_entries,
}
use raft_kv_distributed_kv_s.Storage.Lines.{text_eq}

-- Every vote response goes to the first node.
unfoldable take_votes : Json → ℕ → Trio → List Action → Trio
take_votes json from c [] = c
take_votes json from c (send_request_vote_response _ r ∷ rest) =
    take_votes json from (record c { node1 = (handle_request_vote_response json c.node1 from r).0 })
      rest
take_votes json from c (_ ∷ rest) = take_votes json from c rest

unfoldable deliver_votes : Json → Trio → List Action → Trio
deliver_votes json c [] = c
deliver_votes json c (send_request_vote to request ∷ rest) =
    let (d, responses) = vote_at json c to request in
    deliver_votes json (take_votes json to d responses) rest
deliver_votes json c (_ ∷ rest) = deliver_votes json c rest

abbrev append_at : Json → Trio → ℕ → AppendEntriesRequest → Trio × List Action
append_at json c to r =
    if to == 2
    then (let (m, actions) = handle_append_entries json c.node2 r in
        (record c { node2 = m }, actions))
    else (let (m, actions) = handle_append_entries json c.node3 r in
        (record c { node3 = m }, actions))

-- The responses with their senders.
unfoldable deliver_appends : Json → Trio → List Action → Trio × List (ℕ × Action)
deliver_appends json c [] = (c, [])
deliver_appends json c (send_append_entries to request ∷ rest) =
    let (d, responses) = append_at json c to request in
    let (e, later) = deliver_appends json d rest in (e, map (λ a. (to, a)) responses ++ later)
deliver_appends json c (_ ∷ rest) = deliver_appends json c rest

unfoldable applies : List Action → List (ℕ × LogCommand)
applies [] = []
applies (apply_entry index command ∷ rest) = (index, command) ∷ applies rest
applies (_ ∷ rest) = applies rest

-- The leader handles the responses; the commands that it then applies.
unfoldable take_responses : Json → RaftNode → List (ℕ × Action) → RaftNode × List (ℕ × LogCommand)
take_responses json n [] = (n, [])
take_responses json n ((from, send_append_entries_response _ r) ∷ rest) =
    let (m, actions) = handle_append_entries_response json n from r in
    let (k, later) = take_responses json m rest in (k, applies actions ++ later)
take_responses json n (_ ∷ rest) = take_responses json n rest

-- Only the second node is reached.
unfoldable only_second : List Action → List Action
only_second [] = []
only_second (send_append_entries to request ∷ rest) =
    let later = only_second rest in
    if to == 2 then send_append_entries to request ∷ later else later
only_second (_ ∷ rest) = only_second rest

abbrev first_applied : List (ℕ × LogCommand) → Bool
first_applied [] = false
first_applied ((index, command) ∷ rest) =
    (index == 1) && command_eq command (put (codes "name") (codes "uday"))

-- The second write, of which the third node hears nothing.
unfoldable second_write : Json → Trio → RaftNode × Option (List Action) → Bool
second_write json c (leading, none) = false
second_write json c (leading, some actions) =
    let (d, responses) =
      deliver_appends json (record c { node1 = leading }) (only_second actions) in
    let (n, _) = take_responses json d.node1 responses in
    all_hold (
      (n.state.commit_index == 2)
      ∷ (last_index d.node2.state.log == 2)
      ∷ (last_index d.node3.state.log == 1)
      ∷ is_none (propose json d.node2 (put (codes "test") (codes "fail"))).1
      ∷ [])

unfoldable first_write : Json → Trio → RaftNode × Option (List Action) → Bool
first_write json c (leading, none) = false
first_write json c (leading, some actions) =
    let (d, responses) = deliver_appends json (record c { node1 = leading }) actions in
    let (n, applied) = take_responses json d.node1 responses in
    all_hold (
      (length actions == 2)
      ∷ (last_index leading.state.log == 1)
      ∷ (last_term leading.state.log == 1)
      ∷ (leading.state.commit_index == 0)
      ∷ (last_index d.node2.state.log == 1)
      ∷ (last_index d.node3.state.log == 1)
      ∷ (n.state.commit_index == 1)
      ∷ first_applied applied
      ∷ second_write json (record d { node1 = n })
          (propose json n (put (codes "balance") (codes "5000")))
      ∷ [])

unfoldable test_log_replication : Json → Bool
test_log_replication json =
    let (standing, vote_requests) = tick_until_acts 65 json new_trio.node1 in
    let c = deliver_votes json (record new_trio { node1 = standing }) vote_requests in
    all_hold (
      role_eq standing.state.role candidate
      ∷ role_eq c.node1.state.role leader
      ∷ first_write json c (propose json c.node1 (put (codes "name") (codes "uday")))
      ∷ [])

replication_test : (json : Json) → test_log_replication json ≡ true
unfolding Node.new Node.reset_election_timeout tick_until_acts Election.tick Election.tick_as
    Election.tick_election Node.timeout_of Node.next_seed Election.start_election
    Election.has_majority State.majority_count Election.stand Node.persist State.become_candidate
    Election.request_votes Election.handle_request_vote Election.vote_request Election.decide_vote
    Election.may_vote_for Election.adopt_term State.become_follower Election.up_to_date
    Log.last_term Log.last_index handle_request_vote_response Election.vote_response_as
    Election.grant_vote Election.count_vote Node.insert_vote Node.contains Election.win_election
    Log.entries_from Log.term_at Log.to_entries Election.tick_heartbeat Replicate.find_index
    Replicate.replicate_to Replicate.replicate_to_all_peers Replicate.replicate_to_peer
    Replicate.request_from Replicate.send_heartbeats Node.save_if_any Persist.save Persist.write
    State.become_leader State.track take_votes deliver_votes deliver_appends applies take_responses
    only_second second_write first_write test_log_replication handle_append_entries
    Entries.follow_leader Entries.check_entries Entries.accept_entries Entries.take_entries
    Entries.merge_entries Entries.new_entries Entries.scan Entries.store_entries
    Entries.follow_commit Entries.propose_as propose Entries.append_proposal
    handle_append_entries_response Entries.append_response_as Entries.note_success
    Entries.note_failure Entries.step_back Entries.update_index Commit.maybe_advance_commit_index
    Commit.advance_loop Commit.can_commit Commit.replicas Commit.apply_committed_entries
    Commit.apply_loop Commit.apply_found Commit.apply_command Log.append Log.append_entries
    Log.truncate_from Log.get text_eq
replication_test json = refl
