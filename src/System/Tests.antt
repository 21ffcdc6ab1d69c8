-- ===== src/System/Tests.antt =====
-- Examples of a cluster of three nodes, with a concrete encoding of the messages.
mod Encoding
mod Matching
use raft_kv_distributed_kv_s.Storage.Memtable
use raft_kv_distributed_kv_s.Cluster
use raft_kv_distributed_kv_s.Raft.Node.Election
use raft_kv_distributed_kv_s.Transport
use raft_kv_distributed_kv_s.Raft.Node.Election.{
  adopt_term, count_vote, decide_vote, grant_vote, handle_request_vote,
  handle_request_vote_response, has_majority, may_vote_for, request_votes, stand, start_election,
  tick_as, tick_election, up_to_date, vote_response_as, win_election, tick_heartbeat,
}
use raft_kv_distributed_kv_s.Raft.Node.{
  contains, insert_vote, persist, reset_election_timeout, save_if_any,
}
use raft_kv_distributed_kv_s.Raft.State.{
  become_candidate, become_follower, become_leader, majority_count, track, leader,
}
use raft_kv_distributed_kv_s.Transport.{
  add_addresses, drained, find_address, network_message, receive, receive_line, send_message,
  send_messages,
}
use raft_kv_distributed_kv_s.Cluster.{
  dispatch_message, process_action, process_actions, take_outbound_messages,
}
use raft_kv_distributed_kv_s.System.Tests.Encoding.{
  dec_bool, decode_message, enc_bool, encode_message,
}
use raft_kv_distributed_kv_s.Decimal.{decimal, decimal_from}
use raft_kv_distributed_kv_s.Raft.Log.{last_index, last_term}
use raft_kv_distributed_kv_s.Raft.Node.Step.{dispatch}
use raft_kv_distributed_kv_s.Raft.Node.Replicate.{
  send_heartbeats, replicate_to_all_peers, replicate_to, replicate_to_peer, find_index,
}
use raft_kv_distributed_kv_s.Server.{tick_round}
use raft_kv_distributed_kv_s.System.Tests.Encoding.{message_example, message_example-RoundTrips}
use raft_kv_distributed_kv_s.Raft.Tests.Encoding.{json_example, json_example-RoundTrips}
use raft_kv_distributed_kv_s.Prelude.{
  ℕ, codes, List, [], ◌∷◌, ◌++◌, ◌≡◌, some, none, refl, inl, inr, arith, ◌+◌, ◌∙◌, sym,
}
use raft_kv_distributed_kv_s.System.{
  System, Setting, after, transport, start, next, ticks, receives, NodeConfig, ClusterNode,
  tick_round, Delivery, Among, Reach, receive_line, members, reliable, HasRoom, Later, later, now,
}
use raft_kv_distributed_kv_s.Transport.{NodeConfig, Delivery, receive_line}
use raft_kv_distributed_kv_s.Cluster.{ClusterNode}
use raft_kv_distributed_kv_s.Server.{tick_round}
use raft_kv_distributed_kv_s.Raft.Quorum.{Among}
use raft_kv_distributed_kv_s.System.Safety.{at_most_one_leader}
use raft_kv_distributed_kv_s.Raft.Node.{fresh}
use raft_kv_distributed_kv_s.Raft.Durable.{reliable}

abbrev config : ℕ → NodeConfig
config i = record { id = i; client_port = 6380 + i; peer_port = 7000 + i }

abbrev setting : Setting
setting = record {
  messages = message_example;
  json = json_example;
  host = λ _. none;
  all_nodes = config 1 ∷ config 2 ∷ config 3 ∷ [];
}

-- A new node whose election timer is about to end.
abbrev new_node : ℕ → ClusterNode
new_node i = record {
  raft = record (fresh i (members setting) (some (reliable none))) { election_timeout = 1 };
  storage = record { wal = record { file = []; buffer = [] }; memtable = Memtable.new };
  outbound_messages = [];
  router = none;
  shard_id = 1;
  pending_commit_index = none;
  syncs = [];
}

abbrev initial : System
initial = record { node = new_node; in_flight = [] }

abbrev tick_at : ℕ → System → System
tick_at i s =
    let (k, sent) = tick_round message_example json_example (transport setting i) (s.node i) in
    after i s k sent

abbrev receive_at : Delivery → System → System
receive_at d s =
    let (k, sent) =
      receive_line message_example json_example (transport setting d.to) (s.node d.to) d.line in
    after d.to s k sent

-- The request of node 1 for the vote of node 2, and the reply.
abbrev request : Delivery
request = record { to = 2; address = codes "127.0.0.1:7002"; line = 0 ∷ 1 ∷ 1 ∷ 1 ∷ 0 ∷ 0 ∷ [] }

abbrev grant : Delivery
grant = record { to = 1; address = codes "127.0.0.1:7001"; line = 1 ∷ 2 ∷ 1 ∷ 1 ∷ [] }

abbrev standing : System
standing = tick_at 1 initial

abbrev voted : System
voted = receive_at request standing

abbrev elected : System
elected = receive_at grant voted

request_is_sent : Among request standing.in_flight
unfolding tick_round Cluster.tick Election.tick tick_as tick_election start_election stand
    become_candidate persist save_if_any reset_election_timeout has_majority majority_count
    request_votes process_actions process_action drained take_outbound_messages send_messages
    send_message network_message Transport.new add_addresses find_address decimal decimal_from
    encode_message last_index last_term Election.vote_request
request_is_sent = inl refl

grant_is_sent : Among grant voted.in_flight
unfolding tick_round Cluster.tick Election.tick tick_as tick_election start_election stand
    become_candidate persist save_if_any reset_election_timeout has_majority majority_count
    request_votes process_actions process_action drained take_outbound_messages send_messages
    send_message network_message Transport.new add_addresses find_address decimal decimal_from
    encode_message last_index last_term Election.vote_request receive_line receive dispatch_message
    dispatch decode_message handle_request_vote adopt_term become_follower decide_vote may_vote_for
    up_to_date grant_vote enc_bool dec_bool
grant_is_sent = inr (inr (inl refl))

is_elected :
    ((elected.node 1).raft.state.role ≡ leader) × ((elected.node 1).raft.state.current_term ≡ 1)
unfolding tick_round Cluster.tick Election.tick tick_as tick_election start_election stand
    become_candidate persist save_if_any reset_election_timeout has_majority majority_count
    request_votes process_actions process_action drained take_outbound_messages send_messages
    send_message network_message Transport.new add_addresses find_address decimal decimal_from
    encode_message last_index last_term Election.vote_request receive_line receive dispatch_message
    dispatch decode_message handle_request_vote adopt_term become_follower decide_vote may_vote_for
    up_to_date grant_vote enc_bool dec_bool handle_request_vote_response vote_response_as count_vote
    win_election become_leader insert_vote contains send_heartbeats replicate_to_all_peers
    replicate_to replicate_to_peer find_index track
is_elected = (refl, refl)

elected_is_reached : Reach setting elected
elected_is_reached =
    let room : HasRoom (new_node 1) = omega arith in
    next
      (next
        (next
          (start {s = initial} (record {
            new_state = λ _ _. refl;
            new_file = λ _ _. refl;
            none_queued = λ _ _. refl;
            none_sent = refl;
          }))
          (ticks 1 (inl refl) room _ _ refl))
        (receives request request_is_sent (inr (inl refl)) _ _ refl))
      (receives grant grant_is_sent (inl refl) _ _ refl)

-- A later round of the new leader.
abbrev beating : System
beating = tick_at 1 elected

still_leads :
    ((beating.node 1).raft.state.role ≡ leader) × ((beating.node 1).raft.state.current_term ≡ 1)
unfolding tick_round Cluster.tick Election.tick tick_as tick_election start_election stand
    become_candidate persist save_if_any reset_election_timeout has_majority majority_count
    request_votes process_actions process_action drained take_outbound_messages send_messages
    send_message network_message Transport.new add_addresses find_address decimal decimal_from
    encode_message last_index last_term Election.vote_request receive_line receive dispatch_message
    dispatch decode_message handle_request_vote adopt_term become_follower decide_vote may_vote_for
    up_to_date grant_vote enc_bool dec_bool handle_request_vote_response vote_response_as count_vote
    win_election become_leader insert_vote contains send_heartbeats replicate_to_all_peers
    replicate_to replicate_to_peer find_index track tick_heartbeat
still_leads = (refl, refl)

beat_follows : Later setting elected beating
beat_follows =
    let room : HasRoom (elected.node 1) = omega (arith, is_elected.1) in
    later now (ticks 1 (inl refl) room _ _ refl)

abbrev first : ℕ
first = 1

at_most_one_leader_example : first ≡ first
at_most_one_leader_example =
    at_most_one_leader setting elected beating first first json_example-RoundTrips
      message_example-RoundTrips elected_is_reached beat_follows (inl refl) (inl refl) is_elected.0
      still_leads.0 (is_elected.1 ∙ sym still_leads.1)
