-- ===== src/Raft/Writes/Follower.antt =====
-- raft/node.rs, handle_append_entries: the follower's log, role and reply.
use mathlib.Core.Path.{subst, sym}
use raft_kv_distributed_kv_s.Raft.Writes.Actions.{All-append, All-follow_commit}
use raft_kv_distributed_kv_s.Raft.Node.Entries.{
  follow_commit, take_entries, merge_entries, store_entries, check_entries, follow_leader,
  handle_append_entries, accept_entries,
}
use raft_kv_distributed_kv_s.Prelude.{
  ℕ, ◌≡◌, List, some, arith, ◌∷◌, refl, ◌==◌, ap, [], ◌∙◌, if_elim, ltb, next_word, sym, Bool, not,
  false, true, ◌≤◌,
}
use raft_kv_distributed_kv_s.Raft.Node.Commit.{apply_committed_entries}
use raft_kv_distributed_kv_s.Raft.State.{RaftState, become_follower, follower}
use raft_kv_distributed_kv_s.Raft.Message.{AppendEntriesRequest}
use raft_kv_distributed_kv_s.Raft.Node.{persist, RaftNode, reset_election_timeout}
use raft_kv_distributed_kv_s.Raft.Persist.{Json}
use raft_kv_distributed_kv_s.Raft.Writes.{
  AllPositive, Sends, Writes, stayed, LogMove, kept, took, merged, resigned, Inside,
}
use raft_kv_distributed_kv_s.Raft.Log.{last_index, LogEntry, term_at, RaftLog}
use raft_kv_distributed_kv_s.Raft.Votes.Candidacy.Requests.{
  role-follow_leader, role-follow_commit, role-take_entries,
}
use raft_kv_distributed_kv_s.Raft.Merge.Accept.{
  log-take_entries, log-follow_leader, log-follow_commit,
}
use raft_kv_distributed_kv_s.Raft.Merge.{merged, last_index-eq}

module _ (Asked : AppendEntriesRequest → Type 0) (json : Json) (n : RaftNode)
    (r : AppendEntriesRequest) (asked : Asked r) where
  next_index-follow_commit :
      (s : RaftState) (c : ℕ) → (follow_commit s c).0.next_index ≡ s.next_index
  unfolding follow_commit apply_committed_entries
  next_index-follow_commit s c = ground arith

  next_index-take_entries :
      (es : List LogEntry) (m : RaftNode)
      → (take_entries json m r es).state.next_index ≡ m.state.next_index
  unfolding take_entries merge_entries store_entries persist
  next_index-take_entries [] m = refl
  next_index-take_entries (e ∷ es) m = next_index-store_entries _ _
    where
      next_index-store_entries :
          (m : RaftNode) (es : List LogEntry)
          → (store_entries json m es).state.next_index ≡ m.state.next_index
      next_index-store_entries m [] = refl
      next_index-store_entries m (e ∷ es) = refl

  current_term-follow_commit :
      (s : RaftState) (c : ℕ) → (follow_commit s c).0.current_term ≡ s.current_term
  unfolding follow_commit apply_committed_entries
  current_term-follow_commit s c = ground arith

  current_term-take_entries :
      (es : List LogEntry) (m : RaftNode)
      → (take_entries json m r es).state.current_term ≡ m.state.current_term
  unfolding take_entries merge_entries store_entries persist
  current_term-take_entries [] m = refl
  current_term-take_entries (e ∷ es) m = current_term-store_entries _ _
    where
      current_term-store_entries :
          (m : RaftNode) (es : List LogEntry)
          → (store_entries json m es).state.current_term ≡ m.state.current_term
      current_term-store_entries m [] = refl
      current_term-store_entries m (e ∷ es) = refl

  log_taken :
      (es : List LogEntry) (m : RaftNode) (t : RaftState)
      → r.entries ≡ es
      → m.state.log ≡ n.state.log
      → term_at n.state.log r.prev_log_index ≡ r.prev_log_term
      → t.role ≡ follower
      → r.term ≤ t.current_term
      → t.log ≡ (take_entries json m r es).state.log
      → LogMove Asked n.state t
  unfolding take_entries
  log_taken [] m t e same agrees role reach log = kept (log ∙ same)
  log_taken (x ∷ es) m t e same agrees role reach log =
      took r asked (λ none_sent. cc (e, none_sent)) agrees role reach
        (ap (λ l. l.entries) log
          ∙ log-take_entries json m r (x ∷ es) e
          ∙ ap (λ l. merged l (next_word r.prev_log_index) r.entries) same)

  last_index-Inside :
      (log : RaftLog) (term : ℕ) (success : Bool)
      → Inside log (record { term = term; success = success; match_index = some (last_index log) })
  last_index-Inside log term success m e nonempty =
      let is_last : last_index log ≡ m = cc e in
      omega (arith, is_last, nonempty, last_index-eq log nonempty)

  check_entries-Writes :
      (m : RaftNode)
      → m.state.role ≡ follower
      → m.state.log ≡ n.state.log
      → m.state.next_index ≡ []
      → r.term ≤ m.state.current_term
      → Writes Asked n.state (check_entries json m r)
  unfolding check_entries accept_entries
  check_entries-Writes m role same none_known reach =
      if_elim (Writes Asked n.state) (not (term_at m.state.log r.prev_log_index == r.prev_log_term))
        _ _
        (λ _. record {
          office = resigned role;
          log = kept same;
          indices = subst AllPositive (sym none_known) tt;
          sends = (last_index-Inside m.state.log m.state.current_term false, tt);
        })
        (λ agrees. record {
          office = resigned new_role;
          log =
              log_taken r.entries m t refl same
                (ap (λ l. term_at l r.prev_log_index) (sym same) ∙ ground (arith, agrees)) new_role
                new_term (log-follow_commit taken.state r.leader_commit);
          indices =
              subst AllPositive
                (sym (
                  next_index-follow_commit taken.state r.leader_commit
                  ∙ next_index-take_entries r.entries m
                  ∙ none_known))
                tt;
          sends =
              All-append (Sends t.current_term t.log) (follow_commit taken.state r.leader_commit).1
                _
                (All-follow_commit (Sends t.current_term t.log) taken.state r.leader_commit
                  (λ _ _. tt))
                (last_index-Inside t.log t.current_term true, tt);
        })
    where
      taken : RaftNode
      taken = take_entries json m r r.entries

      t : RaftState
      t = (follow_commit taken.state r.leader_commit).0

      new_term : r.term ≤ t.current_term
      new_term = omega (
        arith,
        reach,
        current_term-follow_commit taken.state r.leader_commit,
        current_term-take_entries r.entries m,
      )

      new_role : t.role ≡ follower
      new_role =
          role-follow_commit taken.state r.leader_commit
          ∙ role-take_entries json m r r.entries
          ∙ role

  next_index-follow_leader : (follow_leader json n r).state.next_index ≡ []
  unfolding follow_leader persist reset_election_timeout become_follower
  next_index-follow_leader = refl

  current_term-follow_leader : r.term ≤ (follow_leader json n r).state.current_term
  unfolding follow_leader persist reset_election_timeout become_follower
  current_term-follow_leader = ground arith

  pub handle_append_entries-Writes :
      AllPositive n.state.next_index → Writes Asked n.state (handle_append_entries json n r)
  unfolding handle_append_entries
  handle_append_entries-Writes p =
      if_elim (Writes Asked n.state) (ltb r.term n.state.current_term) _ _
        (λ _. record {
          office = stayed refl refl;
          log = kept refl;
          indices = p;
          sends = ((λ m e. cc e), tt);
        })
        (λ _.
          check_entries-Writes (follow_leader json n r) (role-follow_leader json n r)
            (log-follow_leader json n r) next_index-follow_leader current_term-follow_leader)
