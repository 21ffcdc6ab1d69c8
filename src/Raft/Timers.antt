-- ===== src/Raft/Timers.antt =====
-- raft/node.rs, tick: when a node that hears nothing stands for election.
use raft_kv_distributed_kv_s.Prelude.{
  ℕ, zero, suc, ◌≡◌, ◌≢◌, ◌≤◌, ◌<◌, refl, some, arith, ap, ◌∙◌, next_word, if_elim, List,
  if◌then◌else◌, ltb, ◌-◌, true,
}
use raft_kv_distributed_kv_s.Raft.Persist.{Json}
use raft_kv_distributed_kv_s.Raft.Node.Election.{
  tick_as, start_election, tick, tick_election, stand, win_election, has_majority,
}
use raft_kv_distributed_kv_s.Raft.Node.{
  RaftNode, reset_election_timeout, timeout_of, persist, Action,
}
use raft_kv_distributed_kv_s.Raft.State.{
  NodeRole, leader, become_candidate, follower, candidate, become_leader,
}

-- The node after some ticks with no message between them.
pub ticks : ℕ → Json → RaftNode → RaftNode
ticks zero json n = n
ticks (suc k) json n = ticks k json (tick json n).0

counted_down : (m : ℕ) → (if ltb 0 (suc (suc m)) then suc (suc m) - 1 else suc (suc m)) ≡ suc m
counted_down m = ground arith

not_yet : (m : ℕ) → ltb 0 (suc m) ≡ true
not_yet m = ground arith

wait :
    (json : Json) (n : RaftNode) (m : ℕ) (role : NodeRole)
    → role ≢ leader
    → n.election_timeout ≡ suc (suc m)
    → (tick_as role json n).0 ≡ record n { election_timeout = suc m }
unfolding tick_as tick_election
wait json n m follower ne h = rw (h, counted_down m, not_yet m) refl
wait json n m candidate ne h = rw (h, counted_down m, not_yet m) refl
wait json n m leader ne h = absurd (ne refl)

stand_up :
    (json : Json) (n : RaftNode) (role : NodeRole)
    → role ≢ leader
    → n.election_timeout ≡ 1
    → (tick_as role json n).0 ≡ (start_election json (record n { election_timeout = 0 })).0
unfolding tick_as tick_election
stand_up json n follower ne h = rw h refl
stand_up json n candidate ne h = rw h refl
stand_up json n leader ne h = absurd (ne refl)

-- The node that stands is in the next term and has voted for itself.
record Stands (n m : RaftNode) : Type 0 where
  next_term : m.state.current_term ≡ next_word n.state.current_term
  own_vote : m.state.voted_for ≡ some n.state.id

start_election-Stands : (json : Json) (n : RaftNode) → Stands n (start_election json n).0
unfolding start_election stand persist reset_election_timeout become_candidate win_election
    become_leader
start_election-Stands json n =
    if_elim (λ (r : RaftNode × List Action). Stands n r.0) (has_majority (stand json n)) _ _
      (λ _. record { next_term = refl; own_vote = refl })
      (λ _. record { next_term = refl; own_vote = refl })

-- What a silent node does in the `k + 1` ticks of its timeout.
pub record Silent (json : Json) (n : RaftNode) (k : ℕ) : Type 0 where
  pub waits : (i : ℕ) → i ≤ k → (ticks i json n).state ≡ n.state
  pub next_term : (ticks (suc k) json n).state.current_term ≡ next_word n.state.current_term
  pub own_vote : (ticks (suc k) json n).state.voted_for ≡ some n.state.id

-- A node that is no leader and hears nothing keeps its state until its election timeout has run
-- down, and on that very tick is in the next term with its vote for itself.
pub timeout_starts_election :
    (k : ℕ) (json : Json) (n : RaftNode)
    → n.state.role ≢ leader
    → n.election_timeout ≡ suc k
    → Silent json n k
unfolding ticks tick
timeout_starts_election zero json n ne h =
    let e = stand_up json n n.state.role ne h in
    let s = start_election-Stands json (record n { election_timeout = 0 }) in
    record {
      waits = λ i le. ap (λ j. (ticks j json n).state) {x = i} {y = 0} (omega (arith, le));
      next_term = ap (λ m. m.state.current_term) e ∙ s.next_term;
      own_vote = ap (λ m. m.state.voted_for) e ∙ s.own_vote;
    }
timeout_starts_election (suc k) json n ne h =
    let e = wait json n k n.state.role ne h in
    let ih = timeout_starts_election k json (record n { election_timeout = suc k }) ne refl in
    record {
      waits = λ i le. waits_at i le e ih;
      next_term = ap (λ m. (ticks (suc k) json m).state.current_term) e ∙ ih.next_term;
      own_vote = ap (λ m. (ticks (suc k) json m).state.voted_for) e ∙ ih.own_vote;
    }
  where
    waits_at :
        (i : ℕ)
        → i ≤ suc k
        → (tick json n).0 ≡ record n { election_timeout = suc k }
        → Silent json (record n { election_timeout = suc k }) k
        → (ticks i json n).state ≡ n.state
    waits_at zero le e ih = refl
    waits_at (suc i) le e ih = ap (λ m. (ticks i json m).state) e ∙ ih.waits i (omega (arith, le))

-- A node that hears nothing waits for `patience` ticks, 30 to 59 of them, and stands on the last.
pub record Waits (json : Json) (n : RaftNode) (patience : ℕ) : Type 0 where
  pub at_least : 30 ≤ patience
  pub below : patience < 60
  pub noted : n.election_timeout_duration ≡ patience
  pub waits : (i : ℕ) → i < patience → (ticks i json n).state ≡ n.state
  pub next_term : (ticks patience json n).state.current_term ≡ next_word n.state.current_term
  pub own_vote : (ticks patience json n).state.voted_for ≡ some n.state.id

Silent-Waits :
    (json : Json) (n : RaftNode) (k : ℕ)
    → 30 ≤ suc k
    → suc k < 60
    → n.election_timeout_duration ≡ suc k
    → Silent json n k
    → Waits json n (suc k)
Silent-Waits json n k low high noted s = record {
  at_least = low;
  below = high;
  noted = noted;
  waits = λ i h. s.waits i (omega (arith, h));
  next_term = s.next_term;
  own_vote = s.own_vote;
}

-- A node that is no leader, resets its election timer and then hears nothing waits for some number
-- of ticks, at least 30 and less than 60, which it notes as the duration: before they are over its
-- state stays as it was, and on the last of them it is in the next term with its vote for itself.
pub reset-Waits :
    (json : Json) (n : RaftNode)
    → n.state.role ≢ leader
    → (patience : ℕ) × Waits json (reset_election_timeout n) patience
unfolding reset_election_timeout timeout_of
reset-Waits json n ne = (
  suc k,
  Silent-Waits json (reset_election_timeout n) k (omega arith) (omega arith) counted
      (timeout_starts_election k json (reset_election_timeout n) ne counted),
)
  where
    k : ℕ
    k = (reset_election_timeout n).election_timeout - 1

    counted : (reset_election_timeout n).election_timeout ≡ suc k
    counted = omega arith
