-- ===== src/Main/Integration/Election.antt =====
-- main.rs: the test of a leader election.
use raft_kv_distributed_kv_s.Raft.Persist
use raft_kv_distributed_kv_s.Raft.Log
use raft_kv_distributed_kv_s.Raft.Node.Replicate
use raft_kv_distributed_kv_s.Raft.Node
use raft_kv_distributed_kv_s.Raft.Node.Election
use raft_kv_distributed_kv_s.Raft.State
use raft_kv_distributed_kv_s.Raft.State.{follower, candidate, leader}
use raft_kv_distributed_kv_s.Raft.Node.{Action, send_request_vote, send_request_vote_response}
use raft_kv_distributed_kv_s.Raft.Persist.{Json}
use raft_kv_distributed_kv_s.Main.Integration.{
  all_hold, option_eq, role_eq, Trio, new_trio, tick_until_acts, vote_at, ℕ, List, Bool, true,
  false, some,
}
use raft_kv_distributed_kv_s.Prelude.{
  ℕ, List, Bool, ◌≡◌, true, ◌∷◌, false, ◌&&◌, ◌==◌, refl, length, [], some,
}
use raft_kv_distributed_kv_s.Raft.Node.Election.{handle_request_vote_response}

-- The one response of a node, which must grant the vote, goes to the first node.
abbrev take_vote : Json → ℕ → Trio × List Action → Trio × Bool
take_vote json from (c, send_request_vote_response _ r ∷ []) =
    (record c { node1 = (handle_request_vote_response json c.node1 from r).0 }, r.vote_granted)
take_vote json from (c, a ∷ []) = (c, true)
take_vote json from (c, _) = (c, false)

unfoldable deliver_requests : Json → Trio → List Action → Trio × Bool
deliver_requests json c [] = (c, true)
deliver_requests json c (send_request_vote to request ∷ rest) =
    let (d, voted) = take_vote json to (vote_at json c to request) in
    let (e, delivered) = deliver_requests json d rest in (e, voted && delivered)
deliver_requests json c (_ ∷ rest) = (c, false)

unfoldable test_leader_election : Json → Bool
test_leader_election json =
    let c0 = new_trio in
    let (standing, election_actions) = tick_until_acts 65 json c0.node1 in
    let (c, delivered) = deliver_requests json (record c0 { node1 = standing }) election_actions in
    all_hold (
      role_eq c0.node1.state.role follower
      ∷ role_eq c0.node2.state.role follower
      ∷ role_eq c0.node3.state.role follower
      ∷ role_eq standing.state.role candidate
      ∷ (standing.state.current_term == 1)
      ∷ (length election_actions == 2)
      ∷ delivered
      ∷ role_eq c.node1.state.role leader
      ∷ (c.node1.state.current_term == 1)
      ∷ option_eq (λ a b. a == b) c.node1.state.leader_id (some 1)
      ∷ role_eq c.node2.state.role follower
      ∷ (c.node2.state.current_term == 1)
      ∷ role_eq c.node3.state.role follower
      ∷ (c.node3.state.current_term == 1)
      ∷ [])

election_test : (json : Json) → test_leader_election json ≡ true
unfolding test_leader_election Node.new Node.reset_election_timeout tick_until_acts Election.tick
    Election.tick_as Election.tick_election Node.timeout_of Node.next_seed Election.start_election
    Election.has_majority State.majority_count Election.stand Node.persist State.become_candidate
    Election.request_votes deliver_requests Election.handle_request_vote Election.vote_request
    Election.decide_vote Election.may_vote_for Election.adopt_term State.become_follower
    Election.up_to_date Log.last_term Log.last_index handle_request_vote_response
    Election.vote_response_as Election.grant_vote Election.count_vote Node.insert_vote Node.contains
    Election.win_election Log.entries_from Log.term_at Log.to_entries Election.tick_heartbeat
    Replicate.find_index Replicate.replicate_to Replicate.replicate_to_all_peers
    Replicate.replicate_to_peer Replicate.request_from Replicate.send_heartbeats Node.save_if_any
    Persist.save Persist.write State.become_leader State.track
election_test json = refl
