-- ===== src/System/Terms.antt =====
-- raft/node.rs in the cluster: the terms of the entries in a log.
use raft_kv_distributed_kv_s.System.Ledger.Runs.{Reach-Kept}
use raft_kv_distributed_kv_s.System.{Setting, System, ℕ, Reach, Among, members}
use raft_kv_distributed_kv_s.Prelude.{ℕ, ◌≤◌, get_elem?, ◌≡◌, some}
use raft_kv_distributed_kv_s.Raft.Log.{LogEntry}
use raft_kv_distributed_kv_s.Raft.Durable.{RoundTrips}
use raft_kv_distributed_kv_s.System.Lines.{MessageRoundTrips}
use raft_kv_distributed_kv_s.Raft.Quorum.{Among}
use raft_kv_distributed_kv_s.Raft.Matching.Terms.{Traced-ascends}

-- The terms in the log of a node never decrease from one index to a later one, and none of them is above
-- the node's current term, in every state that a cluster reaches from new nodes by ticks, received lines,
-- client commands and restarts, where any line in flight can be late, lost or repeated. The conditions:
-- the JSON library reads back what it wrote, every write of a state file succeeds, and a node ticks only
-- while its term, and serves a client only while the length of its log, can grow within 64 bits.
pub terms_ascend :
    (e : Setting) (s : System) (i j k : ℕ) (x y : LogEntry)
    → RoundTrips e.json
    → MessageRoundTrips e.messages
    → Reach e s
    → Among i (members e)
    → j ≤ k
    → get_elem? (s.node i).raft.state.log.entries j ≡ some x
    → get_elem? (s.node i).raft.state.log.entries k ≡ some y
    → (x.term ≤ y.term) × (y.term ≤ (s.node i).raft.state.current_term)
terms_ascend e s i j k x y rt mrt r at_i le hx hy =
    let l = (Reach-Kept e rt mrt s r).ledger in
    let n = l.keepers i at_i in
    (
      Traced-ascends l.book (s.node i).raft.state.log.entries j k x y n.traced l.tops le hx hy,
      n.below k y hy,
    )
