-- ===== src/Raft/Writes/Elections.antt =====
-- raft/node.rs: logs, roles and requests through ticks, vote requests and vote responses.
use raft_kv_distributed_kv_s.Raft.Writes.Actions.{All, All-replicate_to, All-request_votes}
use raft_kv_distributed_kv_s.Raft.Node.Replicate.{
  find_index, request_from, send_heartbeats, replicate_to_all_peers, replicate_to,
}
use raft_kv_distributed_kv_s.Raft.State.{
  RaftState, track, become_leader, become_candidate, become_follower, NodeRole, candidate, leader,
  follower,
}
use raft_kv_distributed_kv_s.Raft.Node.Election.{
  win_election, start_election, tick_as, adopt_term, decide_vote, handle_request_vote, count_vote,
  vote_response_as, stand, tick_election, grant_vote, tick_heartbeat, has_majority, may_vote_for,
  up_to_date,
}
use Prim.Native.Nat.{ℕ, suc}
use raft_kv_distributed_kv_s.Prelude.{
  List, ℕ, ◌≡◌, ◌<◌, some, ◌∷◌, ◌+◌, Bool-cases, arith, word, ◌==◌, leb, inl, length, if_elim, ltb,
  [], inr, if◌then◌else◌, not, refl, ap, ◌-◌, drop, suc, ◌&&◌,
}
use raft_kv_distributed_kv_s.Raft.Log.{entries_from, term_at, last_index}
use raft_kv_distributed_kv_s.Raft.Writes.{
  AllPositive, Sends, Lawful, Writes, Unasked, stayed, resigned, Office, kept, stood, elected,
  LogMove, appended, took,
}
use raft_kv_distributed_kv_s.Raft.Node.{persist, RaftNode, reset_election_timeout}
use raft_kv_distributed_kv_s.Raft.Persist.{Json}
use raft_kv_distributed_kv_s.Raft.Message.{RequestVoteRequest, RequestVoteResponse}
use raft_kv_distributed_kv_s.Raft.Votes.{countdown, counted}

-- The requests for the known next indices are lawful.
find-AllPositive :
    (m : List (ℕ × ℕ)) (peer i : ℕ) → AllPositive m → find_index peer m ≡ some i → 0 < i
unfolding find_index
find-AllPositive [] peer i p h = cc
find-AllPositive ((id, index) ∷ m) peer i p h = elim (Bool-cases (id == peer)) [
  | inl here ↦ let e : index ≡ i = cc (rw here at h) in omega (arith, e, p.0)
  | inr there ↦ find-AllPositive m peer i p.1 (rw there at h)
]

request_from-Lawful :
    (s : RaftState) (i : ℕ) → 0 < i → Lawful s.current_term s.log (request_from s i)
unfolding request_from entries_from term_at
request_from-Lawful s i pos = elim (Bool-cases (leb (length s.log.entries) i)) [
  | inl over ↦ inl (rw over refl)
  | inr inside ↦
      let first : (if ltb 0 i then i - 1 else 0) + 1 ≡ i = ground arith in
      inr (
        record {
          has_prev = ground (arith, inside, first);
          prev_term = refl;
          rest = rw inside (
              ap (λ (k : ℕ). drop k s.log.entries) {x = i} {y = suc (if ltb 0 i then i - 1 else 0)}
                (omega (arith, first)));
        },
        refl,
      )
]

pub replicate-Sends :
    (s : RaftState)
    → AllPositive s.next_index
    → (ps : List ℕ) → All (Sends s.current_term s.log) (replicate_to s ps)
replicate-Sends s p ps =
    All-replicate_to (Sends s.current_term s.log) s ps
      (λ peer i h. request_from-Lawful s i (find-AllPositive s.next_index peer i p h))

pub track-AllPositive : (id i : ℕ) (ps : List ℕ) → 0 < i → AllPositive (track id i ps)
unfolding track
track-AllPositive id i [] h = tt
track-AllPositive id i (p ∷ ps) h = elim (Bool-cases (p == id)) [
  | inl self ↦ rw self (track-AllPositive id i ps h)
  | inr other ↦ rw other (h, track-AllPositive id i ps h)
]

-- A node that becomes leader in the state that it stands in.
won-Sends : (n : RaftNode) → All (Sends n.state.current_term n.state.log) (win_election n).1
unfolding win_election send_heartbeats replicate_to_all_peers become_leader
won-Sends n =
    replicate-Sends (become_leader n.state)
      (track-AllPositive n.state.id (last_index n.state.log + 1) n.state.peers (omega arith))
      n.state.peers

won-AllPositive : (n : RaftNode) → AllPositive (win_election n).0.state.next_index
unfolding win_election become_leader
won-AllPositive n =
    track-AllPositive n.state.id (last_index n.state.log + 1) n.state.peers (omega arith)

start_election-Writes :
    (json : Json) (o n : RaftNode)
    → n.state ≡ o.state
    → AllPositive n.state.next_index
    → n.state.current_term + 1 < word
    → Writes Unasked o.state (start_election json n)
unfolding start_election stand become_candidate persist reset_election_timeout win_election
    become_leader
start_election-Writes json o n same p room =
    if_elim (Writes Unasked o.state) (has_majority (stand json n)) _ _
      (λ _. record {
        office = stood (omega (arith, room, ap (λ s. s.current_term) same));
        log = kept (ap (λ s. s.log) same);
        indices = won-AllPositive (stand json n);
        sends = won-Sends (stand json n);
      })
      (λ _. record {
        office = stood (omega (arith, room, ap (λ s. s.current_term) same));
        log = kept (ap (λ s. s.log) same);
        indices = p;
        sends =
            All-request_votes (Sends (stand json n).state.current_term n.state.log)
              (stand json n).state n.state.peers (λ _ _. tt);
      })

pub tick-Writes :
    (json : Json) (n : RaftNode) (role : NodeRole)
    → AllPositive n.state.next_index
    → n.state.current_term + 1 < word
    → Writes Unasked n.state (tick_as role json n)
unfolding tick_as tick_election tick_heartbeat send_heartbeats replicate_to_all_peers
tick-Writes json n leader p room =
    if_elim (Writes Unasked n.state) (ltb 0 (countdown n.heartbeat_timeout)) _ _
      (λ _. record { office = stayed refl refl; log = kept refl; indices = p; sends = tt })
      (λ _. record {
        office = stayed refl refl;
        log = kept refl;
        indices = p;
        sends = replicate-Sends n.state p n.state.peers;
      })
tick-Writes json n _ p room =
    if_elim (Writes Unasked n.state) (ltb 0 (countdown n.election_timeout)) _ _
      (λ _. record { office = stayed refl refl; log = kept refl; indices = p; sends = tt })
      (λ _. start_election-Writes json n _ refl p room)

adopt_term-Writes :
    (json : Json) (n : RaftNode) (term : ℕ)
    → AllPositive n.state.next_index
    → Writes Unasked n.state (adopt_term json n term, [])
unfolding adopt_term persist become_follower
adopt_term-Writes json n term p = elim (Bool-cases (ltb n.state.current_term term)) [
  | inl e ↦ rw e (record { office = resigned refl; log = kept refl; indices = tt; sends = tt })
  | inr e ↦ rw e (record { office = stayed refl refl; log = kept refl; indices = p; sends = tt })
]

-- A decision on a vote after a move that only sends replies.
decided-Writes :
    (json : Json) (s : RaftState) (n : RaftNode) (r : RequestVoteRequest)
    → Writes Unasked s (n, [])
    → Writes Unasked s (decide_vote json n r)
unfolding decide_vote grant_vote persist reset_election_timeout
decided-Writes json s n r w =
    if_elim (Writes Unasked s)
      (may_vote_for n.state.voted_for r.candidate_id && up_to_date n.state.log r) _ _
      (λ _. record {
        office = office_after w.office;
        log = log_after w.log;
        indices = w.indices;
        sends = (tt, tt);
      })
      (λ _. record { office = w.office; log = w.log; indices = w.indices; sends = (tt, tt) })
  where
    office_after :
        Office s n.state → Office s (record (n.state) { voted_for = some r.candidate_id })
    office_after (resigned e) = resigned e
    office_after (stayed e f) = stayed e f
    office_after (elected e f g) = elected e f g
    office_after (stood e) = stood e

    log_after :
        LogMove Unasked s n.state
        → LogMove Unasked s (record (n.state) { voted_for = some r.candidate_id })
    log_after (kept e) = kept e
    log_after (appended x a b c d e f) = appended x a b c d e f
    log_after (took q a b c d e f) = absurd a

pub handle_request_vote-Writes :
    (json : Json) (n : RaftNode) (r : RequestVoteRequest)
    → AllPositive n.state.next_index
    → Writes Unasked n.state (handle_request_vote json n r)
unfolding handle_request_vote
handle_request_vote-Writes json n r p =
    if_elim (Writes Unasked n.state) (ltb r.term n.state.current_term) _ _
      (λ _. record { office = stayed refl refl; log = kept refl; indices = p; sends = (tt, tt) })
      (λ _.
        decided-Writes json n.state (adopt_term json n r.term) r
          (adopt_term-Writes json n r.term p))

count_vote-Writes :
    (n : RaftNode) (from : ℕ) (r : RequestVoteResponse)
    → n.state.role ≡ candidate
    → AllPositive n.state.next_index
    → Writes Unasked n.state (count_vote n from r)
unfolding count_vote win_election become_leader
count_vote-Writes n from r role p =
    if_elim (Writes Unasked n.state) (has_majority (counted n from r)) _ _
      (λ _. record {
        office = elected role refl refl;
        log = kept refl;
        indices = won-AllPositive (counted n from r);
        sends = won-Sends (counted n from r);
      })
      (λ _. record { office = stayed refl refl; log = kept refl; indices = p; sends = tt })

pub vote_response-Writes :
    (json : Json) (n : RaftNode) (from : ℕ) (r : RequestVoteResponse) (role : NodeRole)
    → n.state.role ≡ role
    → AllPositive n.state.next_index
    → Writes Unasked n.state (vote_response_as role json n from r)
unfolding vote_response_as persist become_follower
vote_response-Writes json n from r follower e p = record {
  office = stayed refl refl;
  log = kept refl;
  indices = p;
  sends = tt;
}
vote_response-Writes json n from r leader e p = record {
  office = stayed refl refl;
  log = kept refl;
  indices = p;
  sends = tt;
}
vote_response-Writes json n from r candidate e p =
    if_elim (Writes Unasked n.state) (ltb n.state.current_term r.term) _ _
      (λ _. record { office = resigned refl; log = kept refl; indices = tt; sends = tt })
      λ _.
        if_elim (Writes Unasked n.state) (not (r.term == n.state.current_term)) _ _
          (λ _. record { office = stayed refl refl; log = kept refl; indices = p; sends = tt })
          (λ _. count_vote-Writes n from r e p)
