-- ===== src/Raft/Replication/Counted.antt =====
-- raft/node.rs: what a leader notes of a follower that has accepted a request.
use mathlib.Core.Path.{subst, sym}
use raft_kv_distributed_kv_s.Prelude.{
  ℕ, ◌≡◌, ◌≤◌, zero, suc, none, some, [], List, Option, ◌∷◌, arith, ◌++◌, ◌-◌, true, ap, Bool-cases,
  ◌+◌, le→not_ltb, refl, append_assoc, ltb, inl, ◌∙◌, inr, sym,
}
use raft_kv_distributed_kv_s.Raft.Node.Commit.{
  apply_command, apply_found, apply_loop, maybe_advance_commit_index, apply_committed_entries,
  advance_loop,
}
use raft_kv_distributed_kv_s.Raft.Node.Entries.{
  follow_commit, handle_append_entries_response, accept_entries, update_index, append_response_as,
  note_success, handle_append_entries, take_entries, follow_leader,
}
use raft_kv_distributed_kv_s.Raft.Node.Replicate.{find_index}
use raft_kv_distributed_kv_s.Raft.Persist.{Json}
use raft_kv_distributed_kv_s.Raft.Node.{RaftNode, Action}
use raft_kv_distributed_kv_s.Raft.State.{RaftState, leader}
use raft_kv_distributed_kv_s.Raft.Log.{
  LogCommand, RaftLog, LogEntry, last_index, put, delete, get, noop,
}
use raft_kv_distributed_kv_s.Raft.Message.{AppendEntriesResponse, AppendEntriesRequest}
use raft_kv_distributed_kv_s.Raft.Replication.{answer}
use raft_kv_distributed_kv_s.Raft.Merge.Accept.{Fits, handle-accept}
use raft_kv_distributed_kv_s.Raft.Votes.{advance_loop-frame}
use raft_kv_distributed_kv_s.Raft.Merge.Agree.{term-accepted}

-- The answer is behind the commands that the follower applies.
answer-command :
    (json : Json) (j : ℕ) (l : RaftNode) (i : ℕ) (c : LogCommand) (rest : List Action)
    → answer json j l (apply_command i c ++ rest) ≡ answer json j l rest
unfolding apply_command
answer-command json j l i noop rest = refl
answer-command json j l i (put k v) rest = refl
answer-command json j l i (delete k) rest = refl

answer-found :
    (json : Json) (j : ℕ) (l : RaftNode) (i : ℕ) (o : Option LogEntry) (rest : List Action)
    → answer json j l (apply_found i o ++ rest) ≡ answer json j l rest
unfolding apply_found
answer-found json j l i none rest = refl
answer-found json j l i (some e) rest = answer-command json j l i e.command rest

answer-apply_loop :
    (json : Json) (j : ℕ) (l : RaftNode) (k : ℕ) (log : RaftLog) (a : ℕ) (rest : List Action)
    → answer json j l ((apply_loop k log a).1 ++ rest) ≡ answer json j l rest
unfolding apply_loop
answer-apply_loop json j l zero log a rest = refl
answer-apply_loop json j l (suc k) log a rest =
    ap (answer json j l) (append_assoc (apply_found (a + 1) (get log (a + 1))) _ rest)
    ∙ answer-found json j l (a + 1) (get log (a + 1)) _
    ∙ answer-apply_loop json j l k log (a + 1) rest

answer-follow_commit :
    (json : Json) (j : ℕ) (l : RaftNode) (s : RaftState) (c : ℕ) (rest : List Action)
    → answer json j l ((follow_commit s c).1 ++ rest) ≡ answer json j l rest
unfolding follow_commit apply_committed_entries
answer-follow_commit json j l s c rest = elim (Bool-cases (ltb s.commit_index c)) [
  | inl behind ↦ rw (behind) (answer-apply_loop json j l _ s.log s.last_applied rest)
  | inr not_behind ↦ rw (not_behind) refl
]

find-update_index_new :
    (j x y : ℕ) (m : List (ℕ × ℕ))
    → find_index j m ≡ some y
    → find_index j (update_index j (λ _. x) m) ≡ some x
unfolding find_index update_index
find-update_index_new j x y [] h = cc
find-update_index_new j x y ((i, z) ∷ m) h = ground (arith, find-update_index_new j x y m)

match_index-advance : (s : RaftState) → (maybe_advance_commit_index s).0.match_index ≡ s.match_index
unfolding maybe_advance_commit_index apply_committed_entries
match_index-advance s = ground (arith, loop)
  where
    loop :
        (advance_loop (last_index s.log - s.commit_index) s (s.commit_index + 1)).match_index
        ≡ s.match_index
    loop =
        ap (λ t. t.match_index)
          (advance_loop-frame (last_index s.log - s.commit_index) s (s.commit_index + 1))

noted :
    (json : Json) (j x y : ℕ) (l : RaftNode) (r : AppendEntriesResponse)
    → l.state.role ≡ leader
    → r.term ≤ l.state.current_term
    → r.success ≡ true
    → r.match_index ≡ some x
    → find_index j l.state.match_index ≡ some y
    → find_index j (handle_append_entries_response json l j r).0.state.match_index ≡ some x
unfolding handle_append_entries_response append_response_as note_success
noted json j x y l r led t won hint h =
    rw (led, le→not_ltb _ _ t, won, hint, match_index-advance) (find-update_index_new j x y _ h)

-- The reply of a node that accepts, as the leader gets it.
reply_of : RaftNode → AppendEntriesResponse
reply_of n = record {
  term = n.state.current_term;
  success = true;
  match_index = some (last_index n.state.log);
}

answer-accept :
    (json : Json) (j : ℕ) (l g : RaftNode) (r : AppendEntriesRequest)
    → answer json j l (accept_entries json g r).1
      ≡ (handle_append_entries_response json l j (reply_of (accept_entries json g r).0)).0
unfolding accept_entries reply_of
answer-accept json j l g r =
    answer-follow_commit json j l (take_entries json g r r.entries).state r.leader_commit _

-- When a follower has accepted a request that fits its log, and a leader of no earlier term, which
-- tracks the follower, has handled the reply, the leader takes the follower to hold all of the
-- entries that the follower's log then has, those behind the request's last entry included.
pub accepted_counts :
    (json : Json) (j y : ℕ) (l f : RaftNode) (r : AppendEntriesRequest)
    → Fits f r
    → r.term ≤ l.state.current_term
    → l.state.role ≡ leader
    → find_index j l.state.match_index ≡ some y
    → let (f', actions) = handle_append_entries json f r in
      find_index j (answer json j l actions).state.match_index ≡ some (last_index f'.state.log)
unfolding reply_of
accepted_counts json j y l f r fits t led h =
    subst
      (λ (x : RaftNode × List Action).
        find_index j (answer json j l x.1).state.match_index ≡ some (last_index x.0.state.log))
      (sym e)
      (ap (λ n. find_index j n.state.match_index) (answer-accept json j l g r)
        ∙ noted json j _ y l (reply_of (accept_entries json g r).0) led (omega (arith, in_term, t))
            refl refl h)
  where
    g : RaftNode
    g = follow_leader json f r

    e : handle_append_entries json f r ≡ accept_entries json g r
    e = handle-accept json f r fits.current fits.agrees

    in_term : (accept_entries json g r).0.state.current_term ≡ r.term
    in_term =
        ap (λ x. x.0.state.current_term) (sym e) ∙ term-accepted json f r fits.current fits.agrees
