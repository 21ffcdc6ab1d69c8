-- ===== src/Raft/Merge/Accept.antt =====
-- raft/node.rs, handle_append_entries: the log and the reply, on each of its three branches.
use raft_kv_distributed_kv_s.Raft.Node.Entries.{
  follow_commit, store_entries, take_entries, handle_append_entries, merge_entries, check_entries,
  new_entries, accept_entries, follow_leader, scan,
}
use raft_kv_distributed_kv_s.Raft.Node.{RaftNode, persist, reset_election_timeout}
use raft_kv_distributed_kv_s.Raft.Node.Commit.{apply_committed_entries}
use raft_kv_distributed_kv_s.Raft.Message.{AppendEntriesRequest}
use raft_kv_distributed_kv_s.Raft.State.{RaftState, become_follower}
use raft_kv_distributed_kv_s.Raft.Persist.{Json}
use Prim.Native.Nat.{ℕ}
use raft_kv_distributed_kv_s.Prelude.{
  ℕ, List, ◌≡◌, arith, ◌++◌, append-nil, next_word, ◌∷◌, drop-nil, [], refl, le→not_ltb, take, ◌≤◌,
  ◌∙◌, ◌<◌, eq→not_ne, length, ◌+◌, word, drop,
}
use raft_kv_distributed_kv_s.Raft.Log.{term_at, append_entries, LogEntry}
use raft_kv_distributed_kv_s.Raft.Merge.{merged, scan, overlay, merged-eq-overlay}

pub log-follow_commit : (s : RaftState) (c : ℕ) → (follow_commit s c).0.log ≡ s.log
unfolding follow_commit apply_committed_entries
log-follow_commit s c = ground arith

log-store_entries :
    (json : Json) (m : RaftNode) (es : List LogEntry)
    → (store_entries json m es).state.log.entries ≡ m.state.log.entries ++ es
unfolding store_entries persist append_entries
log-store_entries json m [] = rw append-nil
log-store_entries json m (e ∷ es) = refl

pub log-take_entries :
    (json : Json) (m : RaftNode) (r : AppendEntriesRequest) (es : List LogEntry)
    → r.entries ≡ es
    → (take_entries json m r es).state.log.entries
      ≡ merged m.state.log (next_word r.prev_log_index) r.entries
unfolding take_entries merge_entries new_entries
log-take_entries json m r [] h = rw h (unfold scan in rw (drop-nil, append-nil))
log-take_entries json m r (e ∷ es) h = rw log-store_entries

-- A request of the current leader: its term is not behind.
abbrev pub IsCurrent : RaftNode → AppendEntriesRequest → Type 0
IsCurrent n r = n.state.current_term ≤ r.term

handle-check :
    (json : Json) (n : RaftNode) (r : AppendEntriesRequest)
    → IsCurrent n r
    → handle_append_entries json n r ≡ check_entries json (follow_leader json n r) r
unfolding handle_append_entries
handle-check json n r c = rw (le→not_ltb _ _ c)

pub log-follow_leader :
    (json : Json) (n : RaftNode) (r : AppendEntriesRequest)
    → (follow_leader json n r).state.log ≡ n.state.log
unfolding follow_leader persist reset_election_timeout become_follower
log-follow_leader json n r = refl

pub handle-accept :
    (json : Json) (n : RaftNode) (r : AppendEntriesRequest)
    → IsCurrent n r
    → term_at n.state.log r.prev_log_index ≡ r.prev_log_term
    → handle_append_entries json n r ≡ accept_entries json (follow_leader json n r) r
handle-accept json n r c h =
    handle-check json n r c ∙ unfold check_entries in rw (log-follow_leader, eq→not_ne _ _ h)

-- The log of a node that has at least the sentinel and reaches up to `prev_log_index`, where it has
-- the request's term.
pub record Fits (n : RaftNode) (r : AppendEntriesRequest) : Type 0 where
  pub current : IsCurrent n r
  pub agrees : term_at n.state.log r.prev_log_index ≡ r.prev_log_term
  pub reaches : r.prev_log_index < length n.state.log.entries
  pub no_wrap : r.prev_log_index + 1 < word

-- When the request fits, the entries up to `prev_log_index` stay, and the rest is merged with the
-- request: entries of equal term stay, the first conflict and all after it give way.
pub handle-merge :
    (json : Json) (n : RaftNode) (r : AppendEntriesRequest)
    → Fits n r
    → (handle_append_entries json n r).0.state.log.entries
      ≡ take (r.prev_log_index + 1) n.state.log.entries
        ++ overlay (drop (r.prev_log_index + 1) n.state.log.entries) r.entries
unfolding accept_entries
handle-merge json n r f =
    let first : next_word r.prev_log_index ≡ r.prev_log_index + 1 = omega (arith, f.no_wrap) in
    rw
      (
        handle-accept json n r f.current f.agrees,
        log-follow_commit,
        log-take_entries json (follow_leader json n r) r r.entries refl,
        first,
        log-follow_leader,
      )
      (merged-eq-overlay n.state.log (r.prev_log_index + 1) r.entries (omega (arith, f.reaches))
        (omega (arith, f.reaches)))
