-- ===== src/System/Winners.antt =====
-- raft/node.rs in the cluster: the votes of a majority of the nodes, by which a term is won.
use raft_kv_distributed_kv_s.System.Voters.{Ballots, Voter, Extends}
use raft_kv_distributed_kv_s.Prelude.{List, ℕ, ◌≡◌, some, ◌≢◌, arith, length, ◌<◌, ap, ◌+◌}
use raft_kv_distributed_kv_s.Raft.State.{majority_count, leader, follower}
use raft_kv_distributed_kv_s.Raft.Quorum.{Distinct, Among, overlap}
use raft_kv_distributed_kv_s.Raft.Node.{RaftNode}

-- A majority of the members has voted for the node in the term.
pub record Won (ms : List ℕ) (cast : Ballots) (t i : ℕ) : Type 0 where
  pub votes : List ℕ
  pub distinct : Distinct votes
  pub counted : (v : ℕ) → Among v votes → Among v ms × (cast v t ≡ some i)
  pub majority : length ms < length votes + length votes

pub leader-Won :
    (ms : List ℕ) (cast : Ballots) (i : ℕ) (n : RaftNode)
    → Voter ms cast i n
    → n.state.role ≡ leader
    → Won ms cast n.state.current_term i
unfolding majority_count
leader-Won ms cast i n w l =
    let won : n.state.role ≢ follower = λ f. cc (f, l) in
    record {
      votes = n.votes_received;
      distinct = w.distinct won;
      counted = w.votes won;
      majority = omega (arith, w.elected l, ap length w.peers_are);
    }

pub Won-Extends :
    (ms : List ℕ) (cast grown : Ballots) (t i : ℕ)
    → Extends cast grown
    → Won ms cast t i
    → Won ms grown t i
Won-Extends ms cast grown t i x w = record {
  votes = w.votes;
  distinct = w.distinct;
  counted = λ v h. let (member, e) = w.counted v h in (member, x v t i e);
  majority = w.majority;
}

-- Two winners of one term share a vote.
pub same_winner :
    (ms : List ℕ) (cast : Ballots) (t i j : ℕ) → Won ms cast t i → Won ms cast t j → i ≡ j
same_winner ms cast t i j w u =
    let (v, in_w, in_u) =
      overlap w.votes u.votes ms w.distinct u.distinct (λ v h. (w.counted v h).0)
        (λ v h. (u.counted v h).0) (omega (arith, w.majority, u.majority)) in
    cc ((w.counted v in_w).1, (u.counted v in_u).1)
