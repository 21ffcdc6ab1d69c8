-- ===== src/Raft/Durable/Entries.antt =====
-- raft/node.rs: AppendEntries and proposals leave the file with the state that they leave in memory.
-- The loop over the request's entries cuts the log only where something is left to append.
use raft_kv_distributed_kv_s.Raft.Node.Entries.{
  scan, follow_commit, store_entries, take_entries, check_entries, handle_append_entries,
  note_success, note_failure, append_response_as, propose_as, merge_entries, accept_entries,
  follow_leader, append_proposal, new_entries,
}
use raft_kv_distributed_kv_s.Raft.Node.Commit.{
  apply_committed_entries, maybe_advance_commit_index, advance_loop,
}
use raft_kv_distributed_kv_s.Raft.Persist.{Json}
use raft_kv_distributed_kv_s.Raft.Log.{
  RaftLog, LogEntry, LogCommand, term_at, last_index, truncate_from,
}
use raft_kv_distributed_kv_s.Raft.State.{RaftState, NodeRole, follower, candidate, leader}
use raft_kv_distributed_kv_s.Raft.Durable.{
  RoundTrips, List, persistent, RaftNode, Durable, quiet, Lasts, persist_after, persisted,
}
use Prim.Native.Nat.{ℕ}
use raft_kv_distributed_kv_s.Prelude.{
  List, ℕ, Option, ◌≡◌, drop, Bool-cases, [], some, refl, ltb, ◌-◌, none, ◌∷◌, inl, inr, if_elim,
  not, ◌∙◌, ◌==◌, ◌&&◌, ap, next_word, if◌then◌else◌, ◌+◌, sym,
}
use raft_kv_distributed_kv_s.Raft.Node.{persistent, RaftNode, reset_election_timeout}
use raft_kv_distributed_kv_s.Raft.Message.{AppendEntriesRequest, AppendEntriesResponse}
use raft_kv_distributed_kv_s.Raft.Votes.{advance_loop-frame}
use raft_kv_distributed_kv_s.Raft.Merge.{drop_self, drop_past, scan_ge}

scan_cut :
    (log : RaftLog) (es : List LogEntry) (i : ℕ)
    → drop ((scan log es i).1 - i) es ≡ []
    → (scan log es i).0 ≡ log
unfolding scan
scan_cut log [] i = λ _. refl
scan_cut log (e ∷ es) i =
    if_elim (λ (r : RaftLog × ℕ). drop (r.1 - i) (e ∷ es) ≡ [] → r.0 ≡ log)
      (term_at log i == 0 && ltb (last_index log) i) (log, i)
      (if not (term_at log i == e.term) then (truncate_from log i, i) else scan log es (i + 1))
      (λ _ _. refl)
      (λ _.
        if_elim (λ (r : RaftLog × ℕ). drop (r.1 - i) (e ∷ es) ≡ [] → r.0 ≡ log)
          (not (term_at log i == e.term)) (truncate_from log i, i) (scan log es (i + 1))
          (λ _ h. cc (drop_self i (e ∷ es)))
          (λ _ h.
            scan_cut log es (i + 1)
              (sym (drop_past i (scan log es (i + 1)).1 e es (scan_ge log es (i + 1))) ∙ h)))

persistent-apply :
    (s : RaftState) (c : ℕ) → persistent (apply_committed_entries s c).0 ≡ persistent s
unfolding apply_committed_entries
persistent-apply s c = refl

persistent-advance : (s : RaftState) → persistent (maybe_advance_commit_index s).0 ≡ persistent s
unfolding maybe_advance_commit_index
persistent-advance s = elim (Bool-cases (ltb s.commit_index t.commit_index)) [
  | inl e ↦ rw e (persistent-apply t t.commit_index ∙ same)
  | inr e ↦ rw e same
]
  where
    t : RaftState
    t = advance_loop (last_index s.log - s.commit_index) s (s.commit_index + 1)

    same : persistent t ≡ persistent s
    same =
        ap persistent
          (advance_loop-frame (last_index s.log - s.commit_index) s (s.commit_index + 1))

persistent-follow : (s : RaftState) (c : ℕ) → persistent (follow_commit s c).0 ≡ persistent s
unfolding follow_commit
persistent-follow s c = elim (Bool-cases (ltb s.commit_index c)) [
  | inl e ↦ rw e (persistent-apply s _)
  | inr e ↦ rw e refl
]

module _ (json : Json) (rt : RoundTrips json) where
  store_entries-Durable :
      (n m : RaftNode) (es : List LogEntry)
      → m.persister ≡ n.persister
      → (es ≡ [] → persistent m.state ≡ persistent n.state)
      → Durable json n
      → Durable json (store_entries json m es)
  unfolding store_entries
  store_entries-Durable n m [] f s d = (quiet n m [] f (s refl) d).kept
  store_entries-Durable n m (e ∷ es) f s d = persist_after n _ rt f d

  take_entries-Durable :
      (n : RaftNode) (r : AppendEntriesRequest) (es : List LogEntry)
      → Durable json n
      → Durable json (take_entries json n r es)
  unfolding take_entries merge_entries new_entries
  take_entries-Durable n r [] d = d
  take_entries-Durable n r (e ∷ es) d =
      store_entries-Durable n _ _ refl
        (λ h.
          ap (λ (l : RaftLog). persistent (record (n.state) { log = l }))
            (scan_cut n.state.log r.entries (next_word r.prev_log_index) h))
        d

  check_entries-Lasts :
      (n : RaftNode) (r : AppendEntriesRequest)
      → Durable json n
      → Lasts json (check_entries json n r)
  unfolding check_entries accept_entries
  check_entries-Lasts n r d =
      if_elim (Lasts json) (not (term_at n.state.log r.prev_log_index == r.prev_log_term)) _ _
        (λ _. quiet n _ _ refl refl d)
        (λ _.
          quiet (take_entries json n r r.entries) _ _ refl (persistent-follow _ _)
            (take_entries-Durable n r r.entries d))

  pub handle_append_entries-Lasts :
      (n : RaftNode) (r : AppendEntriesRequest)
      → Durable json n
      → Lasts json (handle_append_entries json n r)
  unfolding handle_append_entries follow_leader reset_election_timeout
  handle_append_entries-Lasts n r d =
      if_elim (Lasts json) (ltb r.term n.state.current_term) _ _ (λ _. quiet n _ _ refl refl d)
        (λ _. check_entries-Lasts _ r (persist_after n _ rt refl d))

  persistent-note_success :
      (s : RaftState) (from : ℕ) (m : Option ℕ) → persistent (note_success s from m) ≡ persistent s
  unfolding note_success
  persistent-note_success s from none = refl
  persistent-note_success s from (some m) = refl

  persistent-note_failure :
      (s : RaftState) (from : ℕ) (m : Option ℕ) → persistent (note_failure s from m) ≡ persistent s
  unfolding note_failure
  persistent-note_failure s from none = refl
  persistent-note_failure s from (some m) = refl

  pub append_response-Lasts :
      (n : RaftNode) (from : ℕ) (r : AppendEntriesResponse) (role : NodeRole)
      → Durable json n
      → Lasts json (append_response_as role json n from r)
  unfolding append_response_as
  append_response-Lasts n from r follower d = quiet n _ _ refl refl d
  append_response-Lasts n from r candidate d = quiet n _ _ refl refl d
  append_response-Lasts n from r leader d =
      if_elim (Lasts json) (ltb n.state.current_term r.term) _ _ (λ _. persisted n _ _ rt refl d)
        λ _.
          if_elim (Lasts json) r.success _ _
            (λ _.
              quiet n _ _ refl
                (persistent-advance _ ∙ persistent-note_success n.state from r.match_index) d)
            (λ _. quiet n _ _ refl (persistent-note_failure n.state from r.match_index) d)

  pub propose-Durable :
      (n : RaftNode) (c : LogCommand) (role : NodeRole)
      → Durable json n
      → Durable json (propose_as role json n c).0
  unfolding propose_as append_proposal
  propose-Durable n c follower d = d
  propose-Durable n c candidate d = d
  propose-Durable n c leader d =
      (quiet _ _ [] refl (persistent-advance _) (persist_after n _ rt refl d)).kept
