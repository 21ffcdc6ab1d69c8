-- ===== src/System/Safety.antt =====
-- raft/node.rs in the cluster: election safety.
use mathlib.Core.Path.{subst}
use raft_kv_distributed_kv_s.Raft.State.{leader}
use raft_kv_distributed_kv_s.System.{Setting, System, ℕ, members, Reach, Among, Later}
use raft_kv_distributed_kv_s.Prelude.{ℕ, ◌≡◌}
use raft_kv_distributed_kv_s.Raft.Durable.{RoundTrips}
use raft_kv_distributed_kv_s.System.Lines.{MessageRoundTrips}
use raft_kv_distributed_kv_s.Raft.Quorum.{Among}
use raft_kv_distributed_kv_s.System.Ledger.Runs.{Reach-Kept, Later-After}
use raft_kv_distributed_kv_s.System.Winners.{same_winner, Won, Won-Extends, leader-Won}

-- Election safety: at most one leader is elected in a term. If a node is leader in a state that a
-- cluster reaches from new nodes by ticks, received lines, client commands and restarts, where any line
-- in flight can be late, lost or repeated, and a node is leader of the same term then or at any later
-- time, they are one node. The conditions: the JSON library reads back what it wrote, every write of a
-- state file succeeds, and a node ticks only while its term, and serves a client only while the length
-- of its log, can grow within 64 bits.
pub at_most_one_leader :
    (e : Setting) (s t : System) (i j : ℕ)
    → RoundTrips e.json
    → MessageRoundTrips e.messages
    → Reach e s
    → Later e s t
    → Among i (members e)
    → Among j (members e)
    → (s.node i).raft.state.role ≡ leader
    → (t.node j).raft.state.role ≡ leader
    → (s.node i).raft.state.current_term ≡ (t.node j).raft.state.current_term
    → i ≡ j
at_most_one_leader e s t i j rt mrt r run at_i at_j li lj same =
    let k = Reach-Kept e rt mrt s r in
    let h = k.sound in
    let g = (Later-After e rt mrt s t k run).grown in
    same_winner (members e) g.sound.cast (t.node j).raft.state.current_term i j
      (subst (λ x. Won (members e) g.sound.cast x i) same
        (Won-Extends (members e) h.cast g.sound.cast _ i g.extends
          (leader-Won (members e) h.cast i (s.node i).raft (h.voters i at_i) li)))
      (leader-Won (members e) g.sound.cast j (t.node j).raft (g.sound.voters j at_j) lj)
