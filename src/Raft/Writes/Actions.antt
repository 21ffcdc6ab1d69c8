-- ===== src/Raft/Writes/Actions.antt =====
-- raft/node.rs: a property of all actions in the lists that the handlers make.
use raft_kv_distributed_kv_s.Prelude.{
  List, ◌∷◌, ◌++◌, ℕ, [], Option, ◌≡◌, some, suc, ◌-◌, if_elim, Bool-cases, ◌+◌, ltb, ◌==◌, min,
  inl, inr, none, zero, refl,
}
use raft_kv_distributed_kv_s.Raft.Node.{Action, apply_entry, send_request_vote, send_append_entries}
use raft_kv_distributed_kv_s.Raft.Node.Commit.{
  apply_found, apply_loop, apply_committed_entries, maybe_advance_commit_index, apply_command,
  advance_loop,
}
use raft_kv_distributed_kv_s.Raft.Node.Entries.{follow_commit}
use raft_kv_distributed_kv_s.Raft.State.{RaftState}
use raft_kv_distributed_kv_s.Raft.Node.Replicate.{
  replicate_to, replicate_to_peer, find_index, request_from, push_some,
}
use raft_kv_distributed_kv_s.Raft.Node.Election.{request_votes, vote_request}
use raft_kv_distributed_kv_s.Raft.Log.{
  RaftLog, LogCommand, LogEntry, put, last_index, delete, get, noop,
}
use raft_kv_distributed_kv_s.Raft.Message.{RequestVoteRequest}

-- A property of every element.
abbrev pub All : {A : Type 0} → (A → Type 0) → List A → Type 0
All P [] = Unit
All P (x ∷ xs) = P x × All P xs

pub All-append :
    {A : Type 0} → (P : A → Type 0) (xs ys : List A) → All P xs → All P ys → All P (xs ++ ys)
All-append P [] ys h k = k
All-append P (x ∷ xs) ys h k = (h.0, All-append P xs ys h.1 k)

module _ (P : Action → Type 0) where
  All-apply_found :
      (i : ℕ) (o : Option LogEntry) (rest : List Action)
      → ((i : ℕ) (c : LogCommand) → P (apply_entry i c))
      → All P rest
      → All P (apply_found i o ++ rest)
  unfolding apply_found apply_command
  All-apply_found i none rest p h = h
  All-apply_found i (some e) rest p h = of e.command
    where
      of : (c : LogCommand) → All P (apply_command i c ++ rest)
      of noop = h
      of (put k v) = (p i (put k v), h)
      of (delete k) = (p i (delete k), h)

  pub All-apply_loop :
      (k : ℕ) (log : RaftLog) (a : ℕ)
      → ((i : ℕ) (c : LogCommand) → P (apply_entry i c))
      → All P (apply_loop k log a).1
  unfolding apply_loop
  All-apply_loop zero log a p = tt
  All-apply_loop (suc k) log a p =
      All-apply_found (a + 1) (get log (a + 1)) _ p (All-apply_loop k log (a + 1) p)

  pub All-apply_committed_entries :
      (s : RaftState) (c : ℕ)
      → ((i : ℕ) (c : LogCommand) → P (apply_entry i c))
      → All P (apply_committed_entries s c).1
  unfolding apply_committed_entries
  All-apply_committed_entries s c p = All-apply_loop (c - s.last_applied) s.log s.last_applied p

  pub All-advance :
      (s : RaftState)
      → ((i : ℕ) (c : LogCommand) → P (apply_entry i c))
      → All P (maybe_advance_commit_index s).1
  unfolding maybe_advance_commit_index
  All-advance s p =
      if_elim (λ (r : RaftState × List Action). All P r.1) (ltb s.commit_index t.commit_index) _ _
        (λ _. All-apply_committed_entries t t.commit_index p) (λ _. tt)
    where
      t : RaftState
      t = advance_loop (last_index s.log - s.commit_index) s (s.commit_index + 1)

  pub All-follow_commit :
      (s : RaftState) (c : ℕ)
      → ((i : ℕ) (c : LogCommand) → P (apply_entry i c))
      → All P (follow_commit s c).1
  unfolding follow_commit
  All-follow_commit s c p =
      if_elim (λ (r : RaftState × List Action). All P r.1) (ltb s.commit_index c) _ _
        (λ _. All-apply_committed_entries s (min c (last_index s.log)) p) (λ _. tt)

  All-push_some :
      (t : RaftState) (peer : ℕ) (o : Option ℕ) (rest : List Action)
      → ((i : ℕ) → o ≡ some i → P (send_append_entries peer (request_from t i)))
      → All P rest
      → All P (
          push_some
            (elim o [ none ↦ none | some i ↦ some (send_append_entries peer (request_from t i)) ])
            rest)
  All-push_some t peer none rest p h = h
  All-push_some t peer (some i) rest p h = (p i refl, h)

  pub All-replicate_to :
      (t : RaftState) (ps : List ℕ)
      → ((peer i : ℕ)
          → find_index peer t.next_index ≡ some i
          → P (send_append_entries peer (request_from t i)))
      → All P (replicate_to t ps)
  unfolding replicate_to replicate_to_peer
  All-replicate_to t [] p = tt
  All-replicate_to t (peer ∷ ps) p = elim (Bool-cases (peer == t.id)) [
    | inl self ↦ rw self (All-replicate_to t ps p)
    | inr other ↦ rw other (
        All-push_some t peer (find_index peer t.next_index) (replicate_to t ps) (λ i. p peer i)
          (All-replicate_to t ps p))
  ]

  pub All-request_votes :
      (t : RaftState) (ps : List ℕ)
      → ((peer : ℕ) (r : RequestVoteRequest) → P (send_request_vote peer r))
      → All P (request_votes t ps)
  unfolding request_votes
  All-request_votes t [] p = tt
  All-request_votes t (peer ∷ ps) p = elim (Bool-cases (peer == t.id)) [
    | inl self ↦ rw self (All-request_votes t ps p)
    | inr other ↦ rw other (p peer (vote_request t), All-request_votes t ps p)
  ]
