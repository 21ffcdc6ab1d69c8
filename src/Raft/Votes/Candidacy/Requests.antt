-- ===== src/Raft/Votes/Candidacy/Requests.antt =====
-- raft/node.rs: the candidacy of a node through AppendEntries and proposals.
use raft_kv_distributed_kv_s.Prelude.{
  ℕ, ◌≡◌, ◌∙◌, ap, refl, List, [], ◌∷◌, ◌-◌, ◌+◌, none, some, arith, if_elim, Option, ltb, not,
  ◌==◌,
}
use raft_kv_distributed_kv_s.Raft.State.{
  RaftState, become_follower, follower, NodeRole, candidate, leader,
}
use raft_kv_distributed_kv_s.Raft.Node.Commit.{
  maybe_advance_commit_index, apply_committed_entries, advance_loop,
}
use raft_kv_distributed_kv_s.Raft.Node.Entries.{
  follow_commit, take_entries, check_entries, follow_leader, handle_append_entries, note_success,
  note_failure, append_response_as, propose_as, merge_entries, accept_entries, append_proposal,
  store_entries,
}
use raft_kv_distributed_kv_s.Raft.Node.{persist, Action, RaftNode, reset_election_timeout}
use raft_kv_distributed_kv_s.Raft.Persist.{Json}
use raft_kv_distributed_kv_s.Raft.Log.{last_index, LogCommand, LogEntry, term_at}
use raft_kv_distributed_kv_s.Raft.Votes.Candidacy.{
  Replies, Replies-apply_loop, Fair, Nothing, same_candidacy, resigned, Replies-append,
  Replies-replicate_to,
}
use raft_kv_distributed_kv_s.Raft.Node.Replicate.{replicate_to_all_peers, replicate_to}
use raft_kv_distributed_kv_s.Raft.Message.{AppendEntriesRequest, AppendEntriesResponse}
use raft_kv_distributed_kv_s.Raft.Votes.{advance_loop-frame}

-- What the commit rule and the apply loop leave alone.
pub record Steady (s t : RaftState) : Type 0 where
  pub role : t.role ≡ s.role
  pub term : t.current_term ≡ s.current_term

pub Steady-advance : (s : RaftState) → Steady s (maybe_advance_commit_index s).0
unfolding maybe_advance_commit_index apply_committed_entries
Steady-advance s = record {
  role = ground (arith, ap (λ t. t.role) loop);
  term = ground (arith, ap (λ t. t.current_term) loop);
}
  where
    k : ℕ
    k = last_index s.log - s.commit_index

    loop :
        advance_loop k s (s.commit_index + 1)
        ≡ record s { commit_index = (advance_loop k s (s.commit_index + 1)).commit_index }
    loop = advance_loop-frame k s (s.commit_index + 1)

pub Replies-advance : (s t : RaftState) → Replies s (maybe_advance_commit_index t).1
unfolding maybe_advance_commit_index apply_committed_entries
Replies-advance s t =
    if_elim (λ (r : RaftState × List Action). Replies s r.1) (ltb t.commit_index u.commit_index) _ _
      (λ _. Replies-apply_loop s (u.commit_index - u.last_applied) u.log u.last_applied) (λ _. tt)
  where
    u : RaftState
    u = advance_loop (last_index t.log - t.commit_index) t (t.commit_index + 1)

Replies-follow_commit : (s t : RaftState) (c : ℕ) → Replies s (follow_commit t c).1
unfolding follow_commit apply_committed_entries
Replies-follow_commit s t c =
    if_elim (λ (r : RaftState × List Action). Replies s r.1) (ltb t.commit_index c) _ _
      (λ _. Replies-apply_loop s _ t.log t.last_applied) (λ _. tt)

pub role-follow_commit : (s : RaftState) (c : ℕ) → (follow_commit s c).0.role ≡ s.role
unfolding follow_commit apply_committed_entries
role-follow_commit s c = ground arith

pub role-take_entries :
    (json : Json) (n : RaftNode) (r : AppendEntriesRequest) (es : List LogEntry)
    → (take_entries json n r es).state.role ≡ n.state.role
unfolding take_entries merge_entries store_entries persist
role-take_entries json n r [] = refl
role-take_entries json n r (e ∷ es) = role-store_entries _ _
  where
    role-store_entries :
        (m : RaftNode) (es : List LogEntry) → (store_entries json m es).state.role ≡ m.state.role
    role-store_entries m [] = refl
    role-store_entries m (e ∷ es) = refl

-- A node that has accepted a leader is a follower when the handler ends.
check_entries-Fair :
    (json : Json) (o n : RaftNode) (r : AppendEntriesRequest)
    → n.state.role ≡ follower
    → Fair Nothing o (check_entries json n r)
unfolding check_entries accept_entries
check_entries-Fair json o n r f =
    if_elim (Fair Nothing o) (not (term_at n.state.log r.prev_log_index == r.prev_log_term)) _ _
      (λ _. record { replies = tt; candidacy = resigned f })
      (λ _. record {
        replies =
            Replies-append t (follow_commit m.state r.leader_commit).1 _
              (Replies-follow_commit t m.state r.leader_commit) tt;
        candidacy =
            resigned (
              role-follow_commit m.state r.leader_commit
              ∙ role-take_entries json n r r.entries
              ∙ f);
      })
  where
    m : RaftNode
    m = take_entries json n r r.entries

    t : RaftState
    t = (follow_commit m.state r.leader_commit).0

pub role-follow_leader :
    (json : Json) (n : RaftNode) (r : AppendEntriesRequest)
    → (follow_leader json n r).state.role ≡ follower
unfolding follow_leader persist reset_election_timeout become_follower
role-follow_leader json n r = refl

pub handle_append_entries-Fair :
    (json : Json) (n : RaftNode) (r : AppendEntriesRequest)
    → Fair Nothing n (handle_append_entries json n r)
unfolding handle_append_entries
handle_append_entries-Fair json n r =
    if_elim (Fair Nothing n) (ltb r.term n.state.current_term) _ _
      (λ _. record { replies = tt; candidacy = same_candidacy Nothing n n refl refl refl })
      (λ _. check_entries-Fair json n (follow_leader json n r) r (role-follow_leader json n r))

pub Steady-note_success :
    (s : RaftState) (from : ℕ) (m : Option ℕ) → Steady s (note_success s from m)
unfolding note_success
Steady-note_success s from none = record { role = refl; term = refl }
Steady-note_success s from (some m) = record { role = refl; term = refl }

pub Steady-note_failure :
    (s : RaftState) (from : ℕ) (m : Option ℕ) → Steady s (note_failure s from m)
unfolding note_failure
Steady-note_failure s from none = record { role = refl; term = refl }
Steady-note_failure s from (some m) = record { role = refl; term = refl }

pub append_response-Fair :
    (json : Json) (n : RaftNode) (from : ℕ) (r : AppendEntriesResponse) (role : NodeRole)
    → Fair Nothing n (append_response_as role json n from r)
unfolding append_response_as persist become_follower
append_response-Fair json n from r follower = record {
  replies = tt;
  candidacy = same_candidacy Nothing n n refl refl refl;
}
append_response-Fair json n from r candidate = record {
  replies = tt;
  candidacy = same_candidacy Nothing n n refl refl refl;
}
append_response-Fair json n from r leader =
    if_elim (Fair Nothing n) (ltb n.state.current_term r.term) _ _
      (λ _. record { replies = tt; candidacy = resigned refl })
      λ _.
        if_elim (Fair Nothing n) r.success _ _
          (λ _. record {
            replies = Replies-advance (maybe_advance_commit_index noted).0 noted;
            candidacy =
                same_candidacy Nothing n _ ((Steady-advance noted).role ∙ success.role)
                  ((Steady-advance noted).term ∙ success.term) refl;
          })
          (λ _. record {
            replies = tt;
            candidacy = same_candidacy Nothing n _ failure.role failure.term refl;
          })
  where
    noted : RaftState
    noted = note_success n.state from r.match_index

    success : Steady n.state noted
    success = Steady-note_success n.state from r.match_index

    failure : Steady n.state (note_failure n.state from r.match_index)
    failure = Steady-note_failure n.state from r.match_index

-- The actions of a proposal, none if it was refused.
abbrev pub actions_of : Option (List Action) → List Action
actions_of none = []
actions_of (some actions) = actions

pub propose-Fair :
    (json : Json) (n : RaftNode) (c : LogCommand) (role : NodeRole)
    → let (m, actions) = propose_as role json n c in Fair Nothing n (m, actions_of actions)
unfolding propose_as append_proposal persist replicate_to_all_peers
propose-Fair json n c follower = record {
  replies = tt;
  candidacy = same_candidacy Nothing n n refl refl refl;
}
propose-Fair json n c candidate = record {
  replies = tt;
  candidacy = same_candidacy Nothing n n refl refl refl;
}
propose-Fair json n c leader = record {
  replies =
      Replies-append t (replicate_to s s.peers) _ (Replies-replicate_to t s s.peers)
        (Replies-advance t s);
  candidacy = same_candidacy Nothing n _ (Steady-advance s).role (Steady-advance s).term refl;
}
  where
    s : RaftState
    s = (append_proposal json n c).state

    t : RaftState
    t = (maybe_advance_commit_index s).0
