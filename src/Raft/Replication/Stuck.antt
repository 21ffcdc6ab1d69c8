-- ===== src/Raft/Replication/Stuck.antt =====
-- raft/node.rs: a follower whose last entry conflicts with the leader's log is never repaired.
use raft_kv_distributed_kv_s.Raft.Persist.{Json}
use Prim.Native.Nat.{ℕ, suc}
use raft_kv_distributed_kv_s.Prelude.{
  ℕ, ◌≡◌, ◌≤◌, ◌≢◌, some, ◌+◌, ◌<◌, word, suc, arith, ap, ◌∙◌, refl, false, zero, ◌∷◌, [],
  next_word, le→not_ltb,
}
use raft_kv_distributed_kv_s.Raft.Node.{RaftNode, send_append_entries}
use raft_kv_distributed_kv_s.Raft.Log.{last_index, term_at}
use raft_kv_distributed_kv_s.Raft.State.{leader}
use raft_kv_distributed_kv_s.Raft.Node.Replicate.{find_index, request_from, replicate_to_peer}
use raft_kv_distributed_kv_s.Raft.Replication.{
  rounds, round, delivered, answer, handle-reject, find-update_index, AppendEntriesRequest,
  handle_append_entries, handle_append_entries_response, follow_leader,
}
use raft_kv_distributed_kv_s.Raft.Merge.Accept.{log-follow_leader}
use raft_kv_distributed_kv_s.Raft.Merge.Agree.{term-follow_leader}
use raft_kv_distributed_kv_s.Raft.Message.{AppendEntriesRequest, AppendEntriesResponse}
use raft_kv_distributed_kv_s.Raft.Node.Entries.{
  handle_append_entries, handle_append_entries_response, follow_leader, append_reply,
  append_response_as, note_failure,
}

-- The follower's log ends in an entry whose term the leader does not have at that index, and the
-- leader's next index for it is the one behind, as it is after a first rejection.
pub record IsStuck (j : ℕ) (l f : RaftNode) : Type 0 where
  pub leads : l.state.role ≡ leader
  pub in_term : f.state.current_term ≤ l.state.current_term
  pub conflicts :
      term_at f.state.log (last_index f.state.log) ≢ term_at l.state.log (last_index f.state.log)
  pub next_is : find_index j l.state.next_index ≡ some (last_index f.state.log + 1)
  pub no_wrap : last_index f.state.log + 1 < word

-- The request that the leader sends.
abbrev sent : RaftNode → RaftNode → AppendEntriesRequest
sent l f = request_from l.state (last_index f.state.log + 1)

prev-sent : (l f : RaftNode) → (sent l f).prev_log_index ≡ last_index f.state.log
unfolding request_from
prev-sent l f = ground arith

prev_term-sent :
    (l f : RaftNode) → (sent l f).prev_log_term ≡ term_at l.state.log (last_index f.state.log)
unfolding request_from
prev_term-sent l f = ap (term_at l.state.log) (prev-sent l f)

term-sent : (l f : RaftNode) → (sent l f).term ≡ l.state.current_term
unfolding request_from
term-sent l f = refl

rejected :
    (json : Json) (j : ℕ) (l f : RaftNode)
    → IsStuck j l f
    → handle_append_entries json f (sent l f) ≡ (
      follow_leader json f (sent l f),
      append_reply
            (follow_leader json f (sent l f)).state
            (sent l f)
            false
            (some (last_index f.state.log))
          ∷ [],
    )
rejected json j l f s =
    handle-reject json f (sent l f) (rw term-sent s.in_term)
      (rw (prev-sent, prev_term-sent) s.conflicts)

-- The leader's next index for the follower is what it was.
unchanged :
    (json : Json) (j : ℕ) (l f : RaftNode) (r : AppendEntriesResponse)
    → IsStuck j l f
    → r.term ≤ l.state.current_term
    → r.success ≡ false
    → r.match_index ≡ some (last_index f.state.log)
    → (handle_append_entries_response json l j r).0 ≡ l
unfolding handle_append_entries_response append_response_as note_failure
unchanged json j l f r s t refused hint =
    let first : next_word (last_index f.state.log) ≡ last_index f.state.log + 1 =
      omega (arith, s.no_wrap) in
    rw (s.leads, le→not_ltb _ _ t, refused, hint, first, find-update_index _ _ _ s.next_is)

sends :
    (j : ℕ) (l f : RaftNode)
    → IsStuck j l f
    → replicate_to_peer l.state j ≡ some (send_append_entries j (sent l f))
unfolding replicate_to_peer
sends j l f s = rw (s.next_is, replicate_to_peer) refl

in_term_of_leader :
    (json : Json) (j : ℕ) (l f : RaftNode)
    → IsStuck j l f
    → (follow_leader json f (sent l f)).state.current_term ≡ l.state.current_term
in_term_of_leader json j l f s =
    term-follow_leader json f (sent l f) (rw term-sent s.in_term) ∙ term-sent l f

round-stuck :
    (json : Json) (j : ℕ) (l f : RaftNode)
    → IsStuck j l f
    → round json j (l, f) ≡ (l, follow_leader json f (sent l f))
unfolding round
round-stuck json j l f s =
    ap (delivered json j l f) (sends j l f s)
    ∙ ap (λ x. (answer json j l x.1, x.0)) (rejected json j l f s)
    ∙ ap (λ x. (x, follow_leader json f (sent l f)))
        (unchanged json j l f _ s (omega (arith, in_term_of_leader json j l f s)) refl refl)

IsStuck-again :
    (json : Json) (j : ℕ) (l f : RaftNode)
    → IsStuck j l f
    → IsStuck j l (follow_leader json f (sent l f))
IsStuck-again json j l f s = record {
  leads = s.leads;
  in_term = omega (arith, in_term_of_leader json j l f s);
  conflicts = rw log-follow_leader s.conflicts;
  next_is = rw log-follow_leader s.next_is;
  no_wrap = rw log-follow_leader s.no_wrap;
}

-- However many rounds the two exchange when the follower is stuck, the leader stays as it is and the follower's log too: the
-- rejection names the follower's last index, which is where the leader tried before.
pub never_repaired :
    (n : ℕ) (json : Json) (j : ℕ) (l f : RaftNode)
    → IsStuck j l f
    → ((rounds n json j (l, f)).0 ≡ l) × ((rounds n json j (l, f)).1.state.log ≡ f.state.log)
unfolding rounds
never_repaired zero json j l f s = (refl, refl)
never_repaired (suc n) json j l f s =
    let (a, b) =
      never_repaired n json j l (follow_leader json f (sent l f)) (IsStuck-again json j l f s) in
    let e = ap (rounds n json j) (round-stuck json j l f s) in
    (ap (λ x. x.0) e ∙ a, ap (λ x. x.1.state.log) e ∙ b ∙ log-follow_leader json f (sent l f))
