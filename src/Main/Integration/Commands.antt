-- ===== src/Main/Integration/Commands.antt =====
-- main.rs: the test of a cluster of one node.
use raft_kv_distributed_kv_s.OrderedMap.Orders
use raft_kv_distributed_kv_s.OrderedMap
use raft_kv_distributed_kv_s.Storage.Lines
use raft_kv_distributed_kv_s.Storage.Memtable
use raft_kv_distributed_kv_s.Raft.Log
use raft_kv_distributed_kv_s.Raft.Node.Commit
use raft_kv_distributed_kv_s.Raft.Node.Entries
use raft_kv_distributed_kv_s.Raft.Node.Replicate
use raft_kv_distributed_kv_s.Raft.State
use raft_kv_distributed_kv_s.Raft.Node
use raft_kv_distributed_kv_s.Raft.Persist
use raft_kv_distributed_kv_s.Raft.Node.Election
use raft_kv_distributed_kv_s.Storage.Wal
use raft_kv_distributed_kv_s.Cluster
use raft_kv_distributed_kv_s.Storage.Engine
use raft_kv_distributed_kv_s.Cluster.{ClusterNode, handle_client_command}
use raft_kv_distributed_kv_s.Protocol.{Response, set, get, del, ping, integer, null}
use raft_kv_distributed_kv_s.Raft.Node.{with_persistence}
use raft_kv_distributed_kv_s.Raft.Persist.{Json}
use raft_kv_distributed_kv_s.Raft.State.{leader}
use raft_kv_distributed_kv_s.Main.Integration.{
  all_hold, role_eq, is_simple, is_bulk, ticks, no_file, Text, Bool, IoResult, true, false, [], ok,
  tick_until_acts, text_eq,
}
use raft_kv_distributed_kv_s.Prelude.{
  Text, Bool, IoResult, ◌≡◌, codes, ◌==◌, true, false, [], ok, ◌∷◌, refl, io_error,
}
use raft_kv_distributed_kv_s.Storage.Lines.{text_eq}

abbrev name : Text
name = codes "name"

abbrev balance : Text
balance = codes "balance"

abbrev is_one : Response → Bool
is_one (integer n) = n == 1
is_one _ = false

abbrev is_null : Response → Bool
is_null null = true
is_null _ = false

unfoldable commands_hold : Json → IoResult ClusterNode → Bool
commands_hold json io_error = false
commands_hold json (ok n) =
    let n0 = ticks 65 json n in
    let (n1, r1) = handle_client_command json n0 (set name (codes "uday")) in
    let (n2, r2) = handle_client_command json n1 (get name) in
    let (n3, r3) = handle_client_command json n2 (set balance (codes "5000")) in
    let (n4, r4) = handle_client_command json n3 (del name) in
    let (n5, r5) = handle_client_command json n4 (get name) in
    let (n6, r6) = handle_client_command json n5 (get balance) in
    let (n7, r7) = handle_client_command json n6 ping in
    all_hold (
      role_eq n0.raft.state.role leader
      ∷ is_simple r1 (codes "OK")
      ∷ is_bulk r2 (codes "uday")
      ∷ is_one r4
      ∷ is_null r5
      ∷ is_bulk r6 (codes "5000")
      ∷ is_simple r7 (codes "PONG")
      ∷ [])

unfoldable test_cluster_node_single_node : Json → Bool
test_cluster_node_single_node json =
    commands_hold json (
      Cluster.new [] (Engine.new [] true true) (with_persistence json 1 (1 ∷ []) no_file true true))

single_node_test : (json : Json) → test_cluster_node_single_node json ≡ true
unfolding commands_hold test_cluster_node_single_node ticks Cluster.new Cluster.tick
    Cluster.process_actions Cluster.process_action Cluster.apply Cluster.store Cluster.next_sync
    Cluster.handle_client_command Cluster.write Cluster.read Cluster.moved_to Cluster.write_as
    Cluster.after_propose Node.with_persistence Node.restore Persist.load Log.from_entries
    Persist.write Node.new Node.reset_election_timeout tick_until_acts Election.tick
    Election.tick_as Election.tick_election Node.timeout_of Node.next_seed Election.start_election
    Election.has_majority State.majority_count Election.stand Node.persist State.become_candidate
    Election.request_votes Election.handle_request_vote Election.vote_request Election.decide_vote
    Election.may_vote_for Election.adopt_term State.become_follower Election.up_to_date
    Log.last_term Log.last_index Election.handle_request_vote_response Election.vote_response_as
    Election.grant_vote Election.count_vote Node.insert_vote Node.contains Election.win_election
    Log.entries_from Log.term_at Log.to_entries Election.tick_heartbeat Replicate.find_index
    Replicate.replicate_to Replicate.replicate_to_all_peers Replicate.replicate_to_peer
    Replicate.request_from Replicate.send_heartbeats Node.save_if_any Persist.save
    State.become_leader State.track Entries.handle_append_entries Entries.follow_leader
    Entries.check_entries Entries.accept_entries Entries.take_entries Entries.merge_entries
    Entries.new_entries Entries.scan Entries.store_entries Entries.follow_commit Entries.propose_as
    Entries.propose Entries.append_proposal Entries.handle_append_entries_response
    Entries.append_response_as Entries.note_success Entries.note_failure Entries.step_back
    Entries.update_index Commit.maybe_advance_commit_index Commit.advance_loop Commit.can_commit
    Commit.replicas Commit.apply_committed_entries Commit.apply_loop Commit.apply_found
    Commit.apply_command Log.append Log.append_entries Log.truncate_from Log.get text_eq Engine.new
    Engine.put Engine.delete Engine.get Engine.recover Engine.recover_as Wal.append Wal.sync
    Wal.replay Wal.parse_lines Lines.lines Wal.serialize_entry Wal.entry_line Wal.parse_line
    Wal.parse_fields Lines.split Lines.strip_return Memtable.get OrderedMap.get Memtable.put
    OrderedMap.insert Orders.text_lt Memtable.delete
single_node_test json = refl
