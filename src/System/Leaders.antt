-- ===== src/System/Leaders.antt =====
-- raft/node.rs in the cluster: what a leader does with its own log.
use raft_kv_distributed_kv_s.System.Ledger.Runs.{Reach-Kept, Later-After}
use raft_kv_distributed_kv_s.System.{Setting, System, ℕ, Reach, Later, Among, members}
use raft_kv_distributed_kv_s.Prelude.{ℕ, ◌≡◌, List, ◌++◌, ◌∙◌, ap, sym}
use raft_kv_distributed_kv_s.Raft.Durable.{RoundTrips}
use raft_kv_distributed_kv_s.System.Lines.{MessageRoundTrips}
use raft_kv_distributed_kv_s.Raft.Quorum.{Among}
use raft_kv_distributed_kv_s.Raft.State.{leader}
use raft_kv_distributed_kv_s.Raft.Log.{LogEntry}

-- A leader only appends: if a node is leader in a state that a cluster reaches from new nodes by ticks,
-- received lines, client commands and restarts, where any line in flight can be late, lost or repeated,
-- and a node is leader of the same term then or at any later time, then the log of the second is that of
-- the first with some entries behind it: none of its entries is changed, moved or removed. The
-- conditions: the JSON library reads back what it wrote, every write of a state file succeeds, and a node
-- ticks only while its term, and serves a client only while the length of its log, can grow within 64
-- bits.
pub leader_appends :
    (e : Setting) (s t : System) (i j : ℕ)
    → RoundTrips e.json
    → MessageRoundTrips e.messages
    → Reach e s
    → Later e s t
    → Among i (members e)
    → Among j (members e)
    → (s.node i).raft.state.role ≡ leader
    → (t.node j).raft.state.role ≡ leader
    → (s.node i).raft.state.current_term ≡ (t.node j).raft.state.current_term
    → (more : List LogEntry) × ((t.node j).raft.state.log.entries
        ≡ (s.node i).raft.state.log.entries ++ more)
leader_appends e s t i j rt mrt r run at_i at_j li lj same =
    let k = Reach-Kept e rt mrt s r in
    let a = Later-After e rt mrt s t k run in
    let (_, first) = (k.ledger.keepers i at_i).leads li in
    let (_, second) = (a.continued.ledger.keepers j at_j).leads lj in
    let (more, grown) = a.continued.continues (s.node i).raft.state.current_term in
    (more, second ∙ ap a.continued.ledger.book (sym same) ∙ grown ∙ ap (λ z. z ++ more) (sym first))
