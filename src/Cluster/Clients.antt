-- ===== src/Cluster/Clients.antt =====
-- cluster.rs, handle_client_command: which replies a client gets, and what they mean.
use mathlib.Core.Path.{subst, sym}
use raft_kv_distributed_kv_s.Sharding.Ring
use raft_kv_distributed_kv_s.Sharding.Router.{Router, get_shard_id, key_belongs_to_shard, is_owner}
use raft_kv_distributed_kv_s.Prelude.{
  ℕ, ◌≡◌, ◌≢◌, length, ◌++◌, ◌∷◌, [], Text, List, some, ◌-◌, length-append, none, ◌+◌, ap, arith,
  refl, Option-cases, sym, inr, ◌∙◌, inl, Option, ◌⊎◌,
}
use raft_kv_distributed_kv_s.Cluster.{
  ClusterNode, write_as, LogCommand, Text, Json, leader, Response, List, some, moved_to, NodeRole,
  cleared, RaftNode, none, error, moved, not_leader, after_propose, propose, write,
  handle_client_command, put, ok_string, set, delete, integer, del, Option,
}
use raft_kv_distributed_kv_s.Raft.Node.Commit.{
  maybe_advance_commit_index, apply_committed_entries, advance_loop,
}
use raft_kv_distributed_kv_s.Raft.Node.Entries.{propose_as, append_proposal, propose}
use raft_kv_distributed_kv_s.Raft.Log.{
  last_index, RaftLog, LogCommand, append, LogEntry, put, delete,
}
use raft_kv_distributed_kv_s.Raft.Persist.{Json}
use raft_kv_distributed_kv_s.Raft.State.{leader, RaftState, NodeRole, follower, candidate}
use raft_kv_distributed_kv_s.Raft.Node.{persist, RaftNode}
use raft_kv_distributed_kv_s.Raft.Votes.{advance_loop-frame}
use raft_kv_distributed_kv_s.Cluster.Actions.{process_actions-Processed}

-- A write that was accepted: a leader appended the command to its log, in its own term, and the
-- reply waits for the index of just that entry.
pub record Accepted (n m : ClusterNode) (c : LogCommand) : Type 0 where
  pub led : n.raft.state.role ≡ leader
  pub logged :
      m.raft.state.log.entries
      ≡ n.raft.state.log.entries ++ record { term = n.raft.state.current_term; command = c } ∷ []
  pub waits : m.pending_commit_index ≡ some (length n.raft.state.log.entries)

-- The key is of this node's shard: there is no router, or its ring gives the key to the shard.
abbrev pub IsOurs : Option Router → ℕ → Text → Type 0
IsOurs none shard key = Unit
IsOurs (some r) shard key = Ring.get_shard r.ring key ≡ some shard

-- The client is told to ask the shard `told`: the ring gives the key to that one, not to the node's;
-- a ring that gives it to none has the client told 0.
abbrev pub IsElsewhere : Option Router → ℕ → Text → ℕ → Type 0
IsElsewhere none shard key told = ⊥
IsElsewhere (some r) shard key told =
    ((Ring.get_shard r.ring key ≡ some told) × (told ≢ shard))
    ⊎ ((Ring.get_shard r.ring key ≡ none) × (told ≡ 0))

pub moved_to-IsOurs :
    (router : Option Router) (shard : ℕ) (key : Text)
    → moved_to router shard key ≡ none
    → IsOurs router shard key
unfolding moved_to key_belongs_to_shard is_owner
moved_to-IsOurs none shard key h = tt
moved_to-IsOurs (some r) shard key h = elim (Option-cases (Ring.get_shard r.ring key)) [
  | inl e ↦ absurd (ground (arith, rw e at h))
  | inr (id, e) ↦ e ∙ ap (λ i. some i) (ground (arith, rw e at h))
]

pub moved_to-IsElsewhere :
    (router : Option Router) (shard : ℕ) (key : Text) (told : ℕ)
    → moved_to router shard key ≡ some told
    → IsElsewhere router shard key told
unfolding moved_to key_belongs_to_shard is_owner get_shard_id
moved_to-IsElsewhere none shard key told h = absurd (ground arith)
moved_to-IsElsewhere (some r) shard key told h = elim (Option-cases (Ring.get_shard r.ring key)) [
  | inl e ↦ inr (e, ground (arith, rw e at h))
  | inr (id, e) ↦
      let same : id ≡ told = ground (arith, rw e at h) in
      inl (e ∙ ap (λ i. some i) same, λ own. ground (arith, rw e at h))
]

-- The ends of a write.
pub data Written (n : ClusterNode) (key : Text) (c : LogCommand) (reply : Response)
    (r : ClusterNode × Response) : Type 0 where
  elsewhere :
      (shard : ℕ)
      → IsElsewhere n.router n.shard_id key shard
      → r ≡ (cleared n, error (moved shard))
      → Written n key c reply r
  refused :
      IsOurs n.router n.shard_id key
      → n.raft.state.role ≢ leader
      → r ≡ (cleared n, error not_leader)
      → Written n key c reply r
  accepted :
      IsOurs n.router n.shard_id key → Accepted n r.0 c → r.1 ≡ reply → Written n key c reply r

pub log-advance : (s : RaftState) → (maybe_advance_commit_index s).0.log ≡ s.log
unfolding maybe_advance_commit_index apply_committed_entries
log-advance s = ground (arith, loop-log)
  where
    loop-log : (advance_loop (last_index s.log - s.commit_index) s (s.commit_index + 1)).log ≡ s.log
    loop-log =
        ap (λ t. t.log)
          (advance_loop-frame (last_index s.log - s.commit_index) s (s.commit_index + 1))

-- What a leader proposes it has at the end of its log.
log-propose :
    (json : Json) (n : RaftNode) (c : LogCommand)
    → (propose_as leader json n c).0.state.log.entries
      ≡ n.state.log.entries ++ record { term = n.state.current_term; command = c } ∷ []
unfolding propose_as append_proposal persist append
log-propose json n c = ap (λ l. l.entries) (log-advance _)

last_index-append :
    (log : RaftLog) (es : List LogEntry) (e : LogEntry)
    → log.entries ≡ es ++ e ∷ []
    → last_index log ≡ length es
unfolding last_index
last_index-append log es e h = rw (h, length-append) (ground arith)

proposed :
    (json : Json) (n : ClusterNode) (c : LogCommand) (reply : Response)
    → n.raft.state.role ≡ leader
    → let r = after_propose (cleared n) (propose_as leader json n.raft c) reply in
      Accepted n r.0 c × (r.1 ≡ reply)
unfolding after_propose propose_as
proposed json n c reply h = (
  record {
    led = h;
    logged = logged;
    waits = ap (λ i. some i) (last_index-append _ n.raft.state.log.entries _ logged);
  },
  refl,
)
  where
    logged :
        (after_propose (cleared n) (propose_as leader json n.raft c) reply).0.raft.state.log.entries
        ≡ n.raft.state.log.entries ++ record { term = n.raft.state.current_term; command = c } ∷ []
    logged =
        ap (λ r. r.state.log.entries) ((process_actions-Processed _ _).same_raft)
        ∙ log-propose json n.raft c

write_as-Written :
    (json : Json) (n : ClusterNode) (key : Text) (c : LogCommand) (reply : Response)
    (role : NodeRole)
    → n.raft.state.role ≡ role
    → IsOurs n.router n.shard_id key
    → Written n key c reply (write_as role json (cleared n) c reply)
unfolding write_as propose
write_as-Written json n key c reply follower h here = refused here (λ e. cc (h, e)) refl
write_as-Written json n key c reply candidate h here = refused here (λ e. cc (h, e)) refl
write_as-Written json n key c reply leader h here =
    let e = ap (λ role. propose_as role json n.raft c) h in
    let (a, b) = proposed json n c reply h in
    subst (λ x. Written n key c reply (after_propose (cleared n) x reply)) (sym e)
      (accepted here a b)

write-Written :
    (json : Json) (n : ClusterNode) (key : Text) (c : LogCommand) (reply : Response)
    → Written n key c reply (write json (cleared n) key c reply)
unfolding write
write-Written json n key c reply = elim (Option-cases (moved_to n.router n.shard_id key)) [
  | inr (shard, away) ↦
      rw (away, write)
        (elsewhere shard (moved_to-IsElsewhere n.router n.shard_id key shard away) refl)
  | inl here ↦
      rw (here, write)
        (write_as-Written json n key c reply n.raft.state.role refl
          (moved_to-IsOurs n.router n.shard_id key here))
]

-- A SET and a DEL end in one of three ways: with the shard to ask, when the node has a router whose
-- ring gives the key to that shard, which is not the node's, or to none, in which case the client is
-- told shard 0; or, when there is no router or its ring gives the key to the node's shard, with
-- NOTLEADER at a node that does not lead, or accepted by a leader, whose log then ends in the command,
-- in its own term, the reply waiting for that entry's index. In the first two the node only forgets
-- the index that an earlier reply waited for.
pub client_writes :
    (json : Json) (n : ClusterNode) (key value : Text)
    → Written n key (put key value) ok_string (handle_client_command json n (set key value))
      × Written n key (delete key) (integer 1) (handle_client_command json n (del key))
unfolding handle_client_command
client_writes json n key value = (
  write-Written json n key (put key value) ok_string,
  write-Written json n key (delete key) (integer 1),
)
