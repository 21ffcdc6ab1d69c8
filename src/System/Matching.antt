-- ===== src/System/Matching.antt =====
-- raft/node.rs in the cluster: log matching.
use native.Mathlib.Numerals.{add-one}
use raft_kv_distributed_kv_s.System.Ledger.Runs.{Reach-Kept, Later-After}
use raft_kv_distributed_kv_s.System.{Setting, System, ℕ, Reach, Later, Among, members}
use raft_kv_distributed_kv_s.Prelude.{ℕ, get_elem?, ◌≡◌, some, take, ◌+◌}
use raft_kv_distributed_kv_s.Raft.Log.{LogEntry}
use raft_kv_distributed_kv_s.Raft.Durable.{RoundTrips}
use raft_kv_distributed_kv_s.System.Lines.{MessageRoundTrips}
use raft_kv_distributed_kv_s.Raft.Quorum.{Among}
use raft_kv_distributed_kv_s.Raft.Matching.{Traced-same, Traced-Continues}

-- Log matching: if a node has an entry at an index, in a state that a cluster reaches from new nodes by
-- ticks, received lines, client commands and restarts, where any line in flight can be late, lost or
-- repeated, and a node has an entry of the same term at that index then or at any later time, the two
-- logs are the same up to and including that index, commands and all. The conditions: the JSON library
-- reads back what it wrote, every write of a state file succeeds, and a node ticks only while its term,
-- and serves a client only while the length of its log, can grow within 64 bits.
pub log_matching :
    (e : Setting) (s t : System) (i j index : ℕ) (x y : LogEntry)
    → RoundTrips e.json
    → MessageRoundTrips e.messages
    → Reach e s
    → Later e s t
    → Among i (members e)
    → Among j (members e)
    → get_elem? (s.node i).raft.state.log.entries index ≡ some x
    → get_elem? (t.node j).raft.state.log.entries index ≡ some y
    → x.term ≡ y.term
    → take (index + 1) (s.node i).raft.state.log.entries
      ≡ take (index + 1) (t.node j).raft.state.log.entries
log_matching e s t i j index x y rt mrt r run at_i at_j hx hy same =
    let k = Reach-Kept e rt mrt s r in
    let a = Later-After e rt mrt s t k run in
    let es = (s.node i).raft.state.log.entries in
    rw add-one (
      Traced-same a.continued.ledger.book es (t.node j).raft.state.log.entries index x y
        (Traced-Continues k.ledger.book a.continued.ledger.book es a.continued.continues
          (k.ledger.keepers i at_i).traced)
        (a.continued.ledger.keepers j at_j).traced hx hy same)
