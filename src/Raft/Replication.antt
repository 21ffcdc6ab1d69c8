-- ===== src/Raft/Replication.antt =====
-- raft/node.rs: one round of AppendEntries between a leader and a follower, both sides together.
pub mod Stuck
pub mod Counted
use Prim.Native.Nat.{ℕ, suc}
use raft_kv_distributed_kv_s.Raft.Persist.{Json}
use raft_kv_distributed_kv_s.Prelude.{
  ℕ, List, Option, suc, ◌≡◌, zero, ◌∷◌, some, ◌≢◌, arith, [], false, le→not_ltb, ne→not_ne,
}
use raft_kv_distributed_kv_s.Raft.Node.Entries.{
  handle_append_entries, check_entries, update_index, handle_append_entries_response, follow_leader,
  append_reply,
}
use raft_kv_distributed_kv_s.Raft.Node.Replicate.{find_index, replicate_to_peer}
use raft_kv_distributed_kv_s.Raft.Node.{
  RaftNode, Action, send_append_entries_response, send_append_entries,
}
use raft_kv_distributed_kv_s.Raft.Message.{AppendEntriesRequest}
use raft_kv_distributed_kv_s.Raft.Merge.Accept.{IsCurrent, log-follow_leader}
use raft_kv_distributed_kv_s.Raft.Log.{term_at, last_index}

-- The leader's request to the follower `j`, the follower's answer, and the leader's handling of it.
abbrev pub answer : Json → ℕ → RaftNode → List Action → RaftNode
answer json j l [] = l
answer json j l (send_append_entries_response to r ∷ rest) =
    (handle_append_entries_response json l j r).0
answer json j l (_ ∷ rest) = answer json j l rest

abbrev pub delivered : Json → ℕ → RaftNode → RaftNode → Option Action → RaftNode × RaftNode
delivered json j l f (some (send_append_entries to r)) =
    let (f', actions) = handle_append_entries json f r in (answer json j l actions, f')
delivered json j l f _ = (l, f)

pub round : Json → ℕ → RaftNode × RaftNode → RaftNode × RaftNode
round json j (l, f) = delivered json j l f (replicate_to_peer l.state j)

pub rounds : ℕ → Json → ℕ → RaftNode × RaftNode → RaftNode × RaftNode
rounds zero json j pair = pair
rounds (suc n) json j pair = rounds n json j (round json j pair)

-- The handler on the branch where the logs disagree at `prev_log_index`.
pub handle-reject :
    (json : Json) (f : RaftNode) (r : AppendEntriesRequest)
    → IsCurrent f r
    → term_at f.state.log r.prev_log_index ≢ r.prev_log_term
    → handle_append_entries json f r ≡ (
      follow_leader json f r,
      append_reply (follow_leader json f r).state r false (some (last_index f.state.log)) ∷ [],
    )
unfolding handle_append_entries check_entries
handle-reject json f r c ne = rw (le→not_ltb _ _ c, log-follow_leader, ne→not_ne _ _ ne)

pub find-update_index :
    (j x : ℕ) (m : List (ℕ × ℕ)) → find_index j m ≡ some x → update_index j (λ _. x) m ≡ m
unfolding find_index update_index
find-update_index j x [] h = cc
find-update_index j x ((i, y) ∷ m) h = ground (arith, find-update_index j x m)
