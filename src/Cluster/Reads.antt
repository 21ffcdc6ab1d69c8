-- ===== src/Cluster/Reads.antt =====
-- cluster.rs: what a GET answers once committed entries of the log have been applied.
use mathlib.Core.Path.{subst}
use raft_kv_distributed_kv_s.Storage.Engine
use raft_kv_distributed_kv_s.Raft.Log
use raft_kv_distributed_kv_s.Prelude.{
  ℕ, zero, suc, Text, Option, none, some, List, [], ◌∷◌, ◌++◌, ◌+◌, ◌-◌, ◌≡◌, refl, sym, ap, ◌∙◌,
  map, take, drop, drop-eq-cons, drop-all, get_elem?, get_elem?-ge, get_elem?-none, Option-cases,
  inl, inr, arith,
}
use raft_kv_distributed_kv_s.Raft.Log.{RaftLog, LogEntry, LogCommand, noop, put, delete}
use raft_kv_distributed_kv_s.Raft.Node.Commit.{
  apply_loop, apply_found, apply_command, apply_committed_entries,
}
use raft_kv_distributed_kv_s.Raft.Node.{Action}
use raft_kv_distributed_kv_s.Raft.State.{RaftState}
use raft_kv_distributed_kv_s.Raft.Persist.{Json}
use raft_kv_distributed_kv_s.Storage.Wal.{SyncResult}
use raft_kv_distributed_kv_s.Protocol.{Response, null, bulk_string, error, get}
use raft_kv_distributed_kv_s.Cluster.{
  ClusterNode, handle_client_command, moved, moved_to, process_actions, read,
}
use raft_kv_distributed_kv_s.Cluster.Actions.{commands, process_actions-Processed, values_after}
use raft_kv_distributed_kv_s.Cluster.Clients.{
  IsElsewhere, IsOurs, moved_to-IsElsewhere, moved_to-IsOurs,
}

-- The commands of the entries at the `k` indices behind `a`.
abbrev pub commands_behind : RaftLog → ℕ → ℕ → List LogCommand
commands_behind log a k = map (λ (e : LogEntry). e.command) (take k (drop (a + 1) log.entries))

commands-apply_command :
    (value : Text → Option Text) (rs : List SyncResult) (i : ℕ) (c : LogCommand)
    (acts : List Action) (cs : List LogCommand)
    → ((v : Text → Option Text) (rs : List SyncResult)
        → values_after v rs (commands acts) ≡ values_after v rs cs)
    → values_after value rs (commands (apply_command i c ++ acts)) ≡ values_after value rs (c ∷ cs)
unfolding commands apply_command
commands-apply_command value rs i noop acts cs h = h value rs
commands-apply_command value rs i (put k v) acts cs h = h _ _
commands-apply_command value rs i (delete k) acts cs h = h _ _

-- Past the end of the log there is nothing to apply.
commands_behind-none :
    (log : RaftLog) (a k : ℕ) → get_elem? log.entries (a + 1) ≡ none → commands_behind log a k ≡ []
commands_behind-none log a k h =
    ap (λ es. map (λ (e : LogEntry). e.command) (take k es))
      (drop-all log.entries (a + 1) (get_elem?-ge log.entries (a + 1) h))
    ∙ nothing k
  where
    nothing : (k : ℕ) → map (λ (e : LogEntry). e.command) (take k []) ≡ []
    nothing zero = refl
    nothing (suc k) = refl

commands_behind-some :
    (log : RaftLog) (a k : ℕ) (e : LogEntry)
    → get_elem? log.entries (a + 1) ≡ some e
    → commands_behind log a (suc k) ≡ e.command ∷ commands_behind log (a + 1) k
commands_behind-some log a k e h =
    ap (λ es. map (λ (e : LogEntry). e.command) (take (suc k) es))
      (drop-eq-cons log.entries (a + 1) e h)
    ∙ ap (λ i. e.command ∷ map (λ (e : LogEntry). e.command) (take k (drop i log.entries)))
        {x = suc (a + 1)} {y = a + 1 + 1} (omega arith)

-- Applying leaves the values that the entries of the log make.
values_after-apply_loop :
    (k : ℕ) (log : RaftLog) (a : ℕ) (value : Text → Option Text) (rs : List SyncResult)
    → values_after value rs (commands (apply_loop k log a).1)
      ≡ values_after value rs (commands_behind log a k)
unfolding apply_loop apply_found commands Log.get
values_after-apply_loop zero log a value rs = refl
values_after-apply_loop (suc k) log a value rs =
    elim (Option-cases (get_elem? log.entries (a + 1))) [
      | inl over ↦ rw over (
          values_after-apply_loop k log (a + 1) value rs
          ∙ ap (values_after value rs) (
              commands_behind-none log (a + 1) k (over_again over)
              ∙ sym (commands_behind-none log a (suc k) over)))
      | inr (e, at) ↦ rw at (
          commands-apply_command value rs (a + 1) e.command _ _
            (λ v rs. values_after-apply_loop k log (a + 1) v rs)
          ∙ ap (values_after value rs) (sym (commands_behind-some log a k e at)))
    ]
  where
    over_again : get_elem? log.entries (a + 1) ≡ none → get_elem? log.entries (a + 1 + 1) ≡ none
    over_again h =
        get_elem?-none log.entries (a + 1 + 1) (omega (arith, get_elem?-ge log.entries (a + 1) h))

-- The answer to a GET of a key that the node's storage should give the value.
pub data Got (n : ClusterNode) (key : Text) (value : Option Text) (reply : Response) : Type 0 where
  missing : IsOurs n.router n.shard_id key → value ≡ none → reply ≡ null → Got n key value reply
  holds :
      (v : Text)
      → IsOurs n.router n.shard_id key
      → value ≡ some v
      → reply ≡ bulk_string v
      → Got n key value reply
  away :
      (shard : ℕ)
      → IsElsewhere n.router n.shard_id key shard
      → reply ≡ error (moved shard)
      → Got n key value reply

get-Got :
    (json : Json) (n : ClusterNode) (key : Text)
    → Got n key (Engine.get n.storage key) (handle_client_command json n (get key)).1
unfolding handle_client_command read
get-Got json n key = elim (Option-cases (moved_to n.router n.shard_id key)) [
  | inr (shard, e) ↦
      rw (e, handle_client_command, read)
        (away shard (moved_to-IsElsewhere n.router n.shard_id key shard e) refl)
  | inl e ↦
      let ours = moved_to-IsOurs n.router n.shard_id key e in
      elim (Option-cases (Engine.get n.storage key)) [
        | inl f ↦ missing ours f (rw (e, f, handle_client_command, read) refl)
        | inr (v, f) ↦ holds v ours f (rw (e, f, handle_client_command, read) refl)
      ]
]

-- The node when its commit index has moved to `c` and the actions of that are done.
abbrev pub committed : ClusterNode → ℕ → ClusterNode
committed n c =
    let (t, actions) = apply_committed_entries n.raft.state c in
    process_actions (record n { raft = record (n.raft) { state = t } }) actions

read-committed :
    (n : ClusterNode) (c : ℕ)
    → Engine.get (committed n c).storage
      ≡ values_after (Engine.get n.storage) n.syncs (
          commands_behind n.raft.state.log n.raft.state.last_applied
            (c - n.raft.state.last_applied))
unfolding apply_committed_entries
read-committed n c =
    (process_actions-Processed _ _).read
    ∙ values_after-apply_loop (c - n.raft.state.last_applied) n.raft.state.log
        n.raft.state.last_applied (Engine.get n.storage) n.syncs

committed-same :
    (n : ClusterNode) (c : ℕ)
    → ((committed n c).shard_id ≡ n.shard_id) × ((committed n c).router ≡ n.router)
committed-same n c =
    let p = process_actions-Processed (record n { raft = record (n.raft) { state = t } }) actions in
    (p.same_shard, p.same_router)
  where
    t : RaftState
    t = (apply_committed_entries n.raft.state c).0

    actions : List Action
    actions = (apply_committed_entries n.raft.state c).1

-- When a node's commit index has moved to `c` and the actions of that have been processed, a GET of
-- a key answers what the log says: with the value that the key had before or that the last write to it
-- gives, of the entries behind the last applied one up to `c`, those whose sync fails left out, and
-- with null when that is none; and with the shard to ask when the key is not of the node's shard.
pub get_after_commit :
    (json : Json) (n : ClusterNode) (c : ℕ) (key : Text)
    → Got n key
        (values_after
          (Engine.get n.storage)
          n.syncs
          (commands_behind n.raft.state.log n.raft.state.last_applied
            (c - n.raft.state.last_applied))
          key)
        (handle_client_command json (committed n c) (get key)).1
get_after_commit json n c key = moved_back (
    subst
      (λ f.
        Got (committed n c) key (f key) (handle_client_command json (committed n c) (get key)).1)
      (read-committed n c) (get-Got json (committed n c) key))
  where
    same : ((committed n c).shard_id ≡ n.shard_id) × ((committed n c).router ≡ n.router)
    same = committed-same n c

    here :
        IsOurs (committed n c).router (committed n c).shard_id key → IsOurs n.router n.shard_id key
    here ours =
        subst (λ i. IsOurs n.router i key) same.0
          (subst (λ r. IsOurs r (committed n c).shard_id key) same.1 ours)

    moved_back :
        {value : Option Text} {reply : Response}
        → Got (committed n c) key value reply
        → Got n key value reply
    moved_back (missing ours f e) = missing (here ours) f e
    moved_back (holds v ours f e) = holds v (here ours) f e
    moved_back (away shard told e) =
        away shard
          (subst (λ i. IsElsewhere n.router i key shard) same.0
            (subst (λ r. IsElsewhere r (committed n c).shard_id key shard) same.1 told))
          e
