-- ===== src/System/Tests/Matching.antt =====
-- A write that is served in a small cluster and reaches a second node.
use raft_kv_distributed_kv_s.Cluster
use raft_kv_distributed_kv_s.Raft.Node.Election
use raft_kv_distributed_kv_s.Transport
use raft_kv_distributed_kv_s.Raft.Node.Election.{
  adopt_term, count_vote, decide_vote, grant_vote, handle_request_vote,
  handle_request_vote_response, has_majority, may_vote_for, request_votes, stand, start_election,
  tick_as, tick_election, up_to_date, vote_response_as, win_election, tick_heartbeat,
}
use raft_kv_distributed_kv_s.Raft.Node.{
  contains, insert_vote, persist, reset_election_timeout, save_if_any,
}
use raft_kv_distributed_kv_s.Raft.State.{
  become_candidate, become_follower, become_leader, majority_count, track, leader,
}
use raft_kv_distributed_kv_s.Transport.{
  add_addresses, drained, find_address, network_message, receive, receive_line, send_message,
  send_messages,
}
use raft_kv_distributed_kv_s.Cluster.{
  dispatch_message, process_action, process_actions, take_outbound_messages, handle_client_command,
  write, moved_to, write_as, after_propose,
}
use raft_kv_distributed_kv_s.System.Tests.Encoding.{
  dec_bool, decode_message, enc_bool, encode_message,
}
use raft_kv_distributed_kv_s.Decimal.{decimal, decimal_from}
use raft_kv_distributed_kv_s.Raft.Log.{
  last_index, last_term, LogEntry, put, term_at, entries_from, truncate_from, sentinel,
}
use raft_kv_distributed_kv_s.Raft.Node.Step.{dispatch}
use raft_kv_distributed_kv_s.Raft.Node.Replicate.{
  send_heartbeats, replicate_to_all_peers, replicate_to, replicate_to_peer, find_index,
  request_from,
}
use raft_kv_distributed_kv_s.Server.{tick_round, serve}
use raft_kv_distributed_kv_s.System.Tests.Encoding.{message_example, message_example-RoundTrips}
use raft_kv_distributed_kv_s.Raft.Tests.Encoding.{
  json_example, json_example-RoundTrips, enc_entries, enc_command, enc_text, dec_entries,
  dec_command, dec_put, dec_text, enc_vote,
}
use raft_kv_distributed_kv_s.Prelude.{
  ℕ, codes, [], ◌∷◌, ◌≡◌, some, refl, inl, inr, arith, ◌+◌, take, get_elem?, List, ◌++◌, ◌≤◌,
}
use raft_kv_distributed_kv_s.System.{
  System, after, transport, next, receives, tick_round, Delivery, Among, Reach, receive_line, Later,
  later, now, Command, HasSpace, serves,
}
use raft_kv_distributed_kv_s.Transport.{Delivery, receive_line}
use raft_kv_distributed_kv_s.Server.{tick_round}
use raft_kv_distributed_kv_s.Raft.Quorum.{Among}
use raft_kv_distributed_kv_s.Raft.Log
use raft_kv_distributed_kv_s.System.Tests.{
  setting, elected, receive_at, elected_is_reached, is_elected,
}
use raft_kv_distributed_kv_s.Protocol.{Command, set}
use raft_kv_distributed_kv_s.System.Matching.{log_matching}
use raft_kv_distributed_kv_s.Raft.Node.Entries.{
  propose, propose_as, append_proposal, handle_append_entries, follow_leader, check_entries,
  accept_entries, take_entries, merge_entries, new_entries, scan, store_entries, follow_commit,
}
use raft_kv_distributed_kv_s.Raft.Node.Commit.{
  maybe_advance_commit_index, advance_loop, can_commit, replicas,
}
use raft_kv_distributed_kv_s.System.Leaders.{leader_appends}
use raft_kv_distributed_kv_s.System.Terms.{terms_ascend}

abbrev serve_at : ℕ → Command → System → System
serve_at i c s =
    let r = serve message_example json_example (transport setting i) (s.node i) c in
    after i s r.node r.sent

abbrev served : System
served = serve_at 1 (set (codes "k") (codes "v")) elected

-- The request of node 1 to node 2 that carries the entry.
abbrev carried : Delivery
carried = record {
  to = 2;
  address = codes "127.0.0.1:7002";
  line = 3 ∷ 1 ∷ 1 ∷ 1 ∷ 0 ∷ 0 ∷ 0 ∷ 1 ∷ 1 ∷ 0 ∷ 1 ∷ 107 ∷ 1 ∷ 118 ∷ [];
}

abbrev copied : System
copied = receive_at carried served

abbrev written : LogEntry
written = record { term = 1; command = put (codes "k") (codes "v") }

record Copies : Type 0 where
  space : HasSpace (elected.node 1)
  still_leads : (served.node 1).raft.state.role ≡ leader
  same_term : (elected.node 1).raft.state.current_term ≡ (served.node 1).raft.state.current_term
  is_sent : Among carried served.in_flight
  at_start : get_elem? (served.node 1).raft.state.log.entries 0 ≡ some sentinel
  leader_has : get_elem? (served.node 1).raft.state.log.entries 1 ≡ some written
  follower_has : get_elem? (copied.node 2).raft.state.log.entries 1 ≡ some written

copies : Copies
unfolding tick_round Cluster.tick Election.tick tick_as tick_election start_election stand
    become_candidate persist save_if_any reset_election_timeout has_majority majority_count
    request_votes process_actions process_action drained take_outbound_messages send_messages
    send_message network_message Transport.new add_addresses find_address decimal decimal_from
    encode_message last_index last_term Election.vote_request receive_line receive dispatch_message
    dispatch decode_message handle_request_vote adopt_term become_follower decide_vote may_vote_for
    up_to_date grant_vote enc_bool dec_bool handle_request_vote_response vote_response_as count_vote
    win_election become_leader insert_vote contains send_heartbeats replicate_to_all_peers
    replicate_to replicate_to_peer find_index track serve handle_client_command write moved_to
    write_as propose propose_as append_proposal Log.append after_propose maybe_advance_commit_index
    advance_loop can_commit replicas term_at request_from entries_from enc_entries enc_command
    enc_text handle_append_entries follow_leader check_entries accept_entries take_entries
    merge_entries new_entries scan store_entries Log.append_entries follow_commit dec_entries
    dec_command dec_put dec_text enc_vote truncate_from
copies = record {
  space = omega arith;
  still_leads = refl;
  same_term = refl;
  is_sent = inr (inr (inr (inr (inr (inl refl)))));
  at_start = refl;
  leader_has = refl;
  follower_has = refl;
}

served_is_reached : Reach setting served
served_is_reached =
    next elected_is_reached (serves 1 (inl refl) copies.space (set (codes "k") (codes "v")))

copied_follows : Later setting served copied
copied_follows = later now (receives carried copies.is_sent (inr (inl refl)) _ _ refl)

abbrev first_index : ℕ
first_index = 1

log_matching_example :
    take (first_index + 1) (served.node 1).raft.state.log.entries
    ≡ take (first_index + 1) (copied.node 2).raft.state.log.entries
log_matching_example =
    log_matching setting served copied 1 2 first_index written written json_example-RoundTrips
      message_example-RoundTrips served_is_reached copied_follows (inl refl) (inr (inl refl))
      copies.leader_has copies.follower_has refl

leader_appends_example :
    (more : List LogEntry) × ((served.node 1).raft.state.log.entries
      ≡ (elected.node 1).raft.state.log.entries ++ more)
leader_appends_example =
    leader_appends setting elected served first_index first_index json_example-RoundTrips
      message_example-RoundTrips elected_is_reached
      (later now (serves 1 (inl refl) copies.space (set (codes "k") (codes "v")))) (inl refl)
      (inl refl) is_elected.0 copies.still_leads copies.same_term

terms_ascend_example :
    (sentinel.term ≤ written.term)
    × (written.term ≤ (served.node first_index).raft.state.current_term)
terms_ascend_example =
    terms_ascend setting served first_index 0 first_index sentinel written json_example-RoundTrips
      message_example-RoundTrips served_is_reached (inl refl) (omega arith) copies.at_start
      copies.leader_has
