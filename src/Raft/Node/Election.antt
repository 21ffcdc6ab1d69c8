-- ===== src/Raft/Node/Election.antt =====
-- raft/node.rs: the timers, and both sides of an election.
use raft_kv_distributed_kv_s.Prelude.{
  ℕ, ◌-◌, Bool, true, false, not, ◌&&◌, ◌||◌, Option, none, some, List, [], ◌∷◌, ltb, leb, ◌==◌,
  if◌then◌else◌, length,
}
use raft_kv_distributed_kv_s.Raft.Log.{RaftLog, last_index, last_term}
use raft_kv_distributed_kv_s.Raft.Message.{RequestVoteRequest, RequestVoteResponse}
use raft_kv_distributed_kv_s.Raft.State.{
  NodeRole, follower, candidate, leader, RaftState, become_follower, become_candidate,
  become_leader, majority_count,
}
use raft_kv_distributed_kv_s.Raft.Persist.{Json}
use raft_kv_distributed_kv_s.Raft.Node.{
  Action, send_request_vote, send_request_vote_response, heartbeat_interval, RaftNode, insert_vote,
  reset_election_timeout, persist,
}
use raft_kv_distributed_kv_s.Raft.Node.Replicate.{send_heartbeats}

unfoldable pub vote_request : RaftState → RequestVoteRequest
vote_request s = record {
  term = s.current_term;
  candidate_id = s.id;
  last_log_index = last_index s.log;
  last_log_term = last_term s.log;
}

unfoldable pub request_votes : RaftState → List ℕ → List Action
request_votes s [] = []
request_votes s (peer ∷ peers) =
    let rest = request_votes s peers in
    if peer == s.id then rest else send_request_vote peer (vote_request s) ∷ rest

-- The body of the test on the majority, in `start_election` and in the handler of a vote.
unfoldable pub win_election : RaftNode → RaftNode × List Action
win_election n =
    let s = become_leader n.state in
    (record n { state = s; heartbeat_timeout = 0 }, send_heartbeats s)

unfoldable pub has_majority : RaftNode → Bool
has_majority n = leb (majority_count n.state) (length n.votes_received)

-- `start_election` up to its test on the majority.
unfoldable pub stand : Json → RaftNode → RaftNode
stand json n =
    let s = become_candidate n.state in
    persist json (reset_election_timeout (record n { state = s; votes_received = s.id ∷ [] }))

unfoldable pub start_election : Json → RaftNode → RaftNode × List Action
start_election json n =
    let c = stand json n in
    if has_majority c then win_election c else (c, request_votes c.state c.state.peers)

unfoldable pub tick_election : Json → RaftNode → RaftNode × List Action
tick_election json n =
    let c = record n {
      election_timeout =
          if ltb 0 n.election_timeout then n.election_timeout - 1 else n.election_timeout;
    } in
    if ltb 0 c.election_timeout then (c, []) else start_election json c

unfoldable pub tick_heartbeat : RaftNode → RaftNode × List Action
tick_heartbeat n =
    let c = record n {
      heartbeat_timeout =
          if ltb 0 n.heartbeat_timeout then n.heartbeat_timeout - 1 else n.heartbeat_timeout;
    } in
    if ltb 0 c.heartbeat_timeout
    then (c, [])
    else (record c { heartbeat_timeout = heartbeat_interval }, send_heartbeats c.state)

unfoldable pub tick_as : NodeRole → Json → RaftNode → RaftNode × List Action
tick_as follower json n = tick_election json n
tick_as candidate json n = tick_election json n
tick_as leader json n = tick_heartbeat n

unfoldable pub tick : Json → RaftNode → RaftNode × List Action
tick json n = tick_as n.state.role json n

unfoldable pub may_vote_for : Option ℕ → ℕ → Bool
may_vote_for none c = true
may_vote_for (some id) c = id == c

-- The election restriction: the candidate's log is at least as up to date as ours.
unfoldable pub up_to_date : RaftLog → RequestVoteRequest → Bool
up_to_date log r =
    ltb (last_term log) r.last_log_term
    || (r.last_log_term == last_term log && leb (last_index log) r.last_log_index)

abbrev pub vote_reply : RaftNode → RequestVoteRequest → Bool → List Action
vote_reply n r granted =
    send_request_vote_response r.candidate_id
      (record { term = n.state.current_term; vote_granted = granted })
    ∷ []

-- Stepping down for a later term, saved at once.
unfoldable pub adopt_term : Json → RaftNode → ℕ → RaftNode
adopt_term json n term =
    if ltb n.state.current_term term
    then persist json (record n { state = become_follower n.state term })
    else n

unfoldable pub grant_vote : Json → RaftNode → ℕ → RaftNode
grant_vote json n c =
    persist json
      (reset_election_timeout (record n { state = record (n.state) { voted_for = some c } }))

unfoldable pub decide_vote : Json → RaftNode → RequestVoteRequest → RaftNode × List Action
decide_vote json n r =
    if may_vote_for n.state.voted_for r.candidate_id && up_to_date n.state.log r
    then (let m = grant_vote json n r.candidate_id in (m, vote_reply m r true))
    else (n, vote_reply n r false)

unfoldable pub handle_request_vote : Json → RaftNode → RequestVoteRequest → RaftNode × List Action
handle_request_vote json n r =
    if ltb r.term n.state.current_term
    then (n, vote_reply n r false)
    else decide_vote json (adopt_term json n r.term) r

unfoldable pub count_vote : RaftNode → ℕ → RequestVoteResponse → RaftNode × List Action
count_vote n from r =
    let m = record n {
      votes_received =
          if r.vote_granted then insert_vote from n.votes_received else n.votes_received;
    } in
    if has_majority m then win_election m else (m, [])

unfoldable pub vote_response_as :
    NodeRole → Json → RaftNode → ℕ → RequestVoteResponse → RaftNode × List Action
vote_response_as follower json n from r = (n, [])
vote_response_as leader json n from r = (n, [])
vote_response_as candidate json n from r =
    if ltb n.state.current_term r.term
    then (persist json (record n { state = become_follower n.state r.term }), [])
    else if not (r.term == n.state.current_term)
    then (n, [])
    else count_vote n from r

unfoldable pub handle_request_vote_response :
    Json → RaftNode → ℕ → RequestVoteResponse → RaftNode × List Action
handle_request_vote_response json n from r = vote_response_as n.state.role json n from r
