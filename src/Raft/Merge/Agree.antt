-- ===== src/Raft/Merge/Agree.antt =====
-- raft/node.rs, handle_append_entries: after an accepted request the follower's log agrees with the
-- leader's, and a request that comes again, or late, does no harm.
use raft_kv_distributed_kv_s.Raft.Node.Entries.{
  store_entries, take_entries, follow_commit, follow_leader, accept_entries, merge_entries,
  handle_append_entries,
}
use raft_kv_distributed_kv_s.Raft.Persist.{Json}
use raft_kv_distributed_kv_s.Raft.Node.{persist, RaftNode, reset_election_timeout}
use raft_kv_distributed_kv_s.Raft.Node.Commit.{apply_committed_entries}
use raft_kv_distributed_kv_s.Prelude.{
  List, ℕ, ◌≡◌, ◌+◌, take, ◌≤◌, ◌<◌, ◌∷◌, arith, length, get_elem?, sym, get_elem?-some, ap, [],
  drop, get_elem?-take, get_elem?-lt, refl, ◌∙◌, take-take-append, drop-take-append,
  take-append-drop,
}
use raft_kv_distributed_kv_s.Raft.Message.{AppendEntriesRequest}
use raft_kv_distributed_kv_s.Raft.State.{RaftState, become_follower}
use raft_kv_distributed_kv_s.Raft.Log.{LogEntry, term_at, term_or_zero}
use raft_kv_distributed_kv_s.Raft.Merge.Accept.{IsCurrent, Fits, handle-accept, handle-merge}
use raft_kv_distributed_kv_s.Raft.Merge.{terms, overlay_known, terms-overlay}

term-store_entries :
    (json : Json) (m : RaftNode) (es : List LogEntry)
    → (store_entries json m es).state.current_term ≡ m.state.current_term
unfolding store_entries persist
term-store_entries json m [] = refl
term-store_entries json m (e ∷ es) = refl

term-take_entries :
    (json : Json) (m : RaftNode) (r : AppendEntriesRequest) (es : List LogEntry)
    → (take_entries json m r es).state.current_term ≡ m.state.current_term
unfolding take_entries merge_entries
term-take_entries json m r [] = refl
term-take_entries json m r (e ∷ es) = term-store_entries json _ _

term-follow_commit : (s : RaftState) (c : ℕ) → (follow_commit s c).0.current_term ≡ s.current_term
unfolding follow_commit apply_committed_entries
term-follow_commit s c = ground arith

pub term-follow_leader :
    (json : Json) (n : RaftNode) (r : AppendEntriesRequest)
    → IsCurrent n r
    → (follow_leader json n r).state.current_term ≡ r.term
unfolding follow_leader persist reset_election_timeout become_follower
term-follow_leader json n r c = ground arith

-- An accepted request leaves the node in the request's term.
pub term-accepted :
    (json : Json) (n : RaftNode) (r : AppendEntriesRequest)
    → IsCurrent n r
    → term_at n.state.log r.prev_log_index ≡ r.prev_log_term
    → (handle_append_entries json n r).0.state.current_term ≡ r.term
unfolding accept_entries
term-accepted json n r c h =
    rw (handle-accept json n r c h, term-follow_commit, term-take_entries)
      (term-follow_leader json n r c)

module _ (json : Json) (n : RaftNode) (r : AppendEntriesRequest) (f : Fits n r) where
  abbrev before : List LogEntry
  before = n.state.log.entries

  abbrev after : List LogEntry
  after = (handle_append_entries json n r).0.state.log.entries

  first_le : r.prev_log_index + 1 ≤ length n.state.log.entries
  first_le = omega (arith, f.reaches)

  -- When the request fits, nothing up to `prev_log_index` has changed, and then the follower's log
  -- has the terms of the request's entries, in their order.
  pub accepted_agrees :
      (take (r.prev_log_index + 1) after ≡ take (r.prev_log_index + 1) before)
      × (take (length r.entries) (terms (drop (r.prev_log_index + 1) after)) ≡ terms r.entries)
  accepted_agrees = (
    rw (handle-merge json n r f) (take-take-append _ _ before _ (omega arith) first_le),
    rw (handle-merge json n r f, drop-take-append _ before _ first_le) (terms-overlay _ r.entries),
  )

  -- A request that fits and whose terms are all in the log already leaves the log as it is: entries
  -- behind them, from a later request that came first, are not cut.
  pub late_request :
      take (length r.entries) (terms (drop (r.prev_log_index + 1) before)) ≡ terms r.entries
      → after ≡ before
  late_request known =
      handle-merge json n r f ∙ rw (overlay_known _ r.entries known) (take-append-drop _ before)

  same_front : (i : ℕ) → i ≤ r.prev_log_index → get_elem? after i ≡ get_elem? before i
  same_front i h =
      sym (get_elem?-take (r.prev_log_index + 1) after i (omega arith))
      ∙ ap (λ xs. get_elem? xs i) accepted_agrees.0
      ∙ get_elem?-take (r.prev_log_index + 1) before i (omega arith)

  reaches_after : r.prev_log_index < length after
  reaches_after =
      let (x, here) = get_elem?-some before r.prev_log_index f.reaches in
      get_elem?-lt after r.prev_log_index x (same_front r.prev_log_index (omega arith) ∙ here)

  -- The request fits the node still, once it is handled.
  pub Fits-again : Fits (handle_append_entries json n r).0 r
  unfolding term_at
  Fits-again = record {
    current = omega (arith, term-accepted json n r f.current f.agrees);
    agrees = ap term_or_zero (same_front r.prev_log_index (omega arith)) ∙ f.agrees;
    reaches = reaches_after;
    no_wrap = f.no_wrap;
  }

-- A request that fits, handled a second time, changes nothing more in the log.
same_request_twice :
    (json : Json) (n : RaftNode) (r : AppendEntriesRequest)
    → Fits n r
    → (handle_append_entries json (handle_append_entries json n r).0 r).0.state.log.entries
      ≡ (handle_append_entries json n r).0.state.log.entries
same_request_twice json n r f =
    late_request json (handle_append_entries json n r).0 r (Fits-again json n r f)
      (accepted_agrees json n r f).1
