-- ===== src/Cluster/Actions.antt =====
-- cluster.rs, process_actions: what the actions of the Raft node do to the storage and the messages.
use mathlib.Core.Path.{ap₂, fun_ext}
use raft_kv_distributed_kv_s.Storage.Engine
use raft_kv_distributed_kv_s.Storage.Engine.Reads.{is_synced, read_after_put, read_after_delete}
use raft_kv_distributed_kv_s.Storage.Engine.Refines.{changed}
use raft_kv_distributed_kv_s.Prelude.{
  ℕ, List, ◌≡◌, sym, ◌∷◌, append-nil, [], ◌++◌, ◌∙◌, ap, append_assoc, refl, Bool, Text, some, true,
  Option, none,
}
use raft_kv_distributed_kv_s.Cluster.{
  ClusterNode, apply, process_actions, store, Action, SyncResult, MessagePayload, LogCommand,
  process_action, next_sync, ◌∷◌, PeerMessage, apply_entry, put, send_request_vote, delete, queue,
  [], request_vote, send_request_vote_response, request_vote_response, send_append_entries,
  append_entries, send_append_entries_response, append_entries_response, Bool, Text, some, true,
  Option, none,
}
use raft_kv_distributed_kv_s.Raft.Node.{
  Action, apply_entry, send_request_vote, send_request_vote_response, send_append_entries,
  send_append_entries_response,
}
use raft_kv_distributed_kv_s.Storage.Wal.{SyncResult}
use raft_kv_distributed_kv_s.Raft.Log.{LogCommand, put, delete, noop}

-- The commands and the messages in a list of actions.
unfoldable pub commands : List Action → List LogCommand
commands [] = []
commands (apply_entry index c ∷ rest) = c ∷ commands rest
commands (_ ∷ rest) = commands rest

unfoldable pub messages : List Action → List PeerMessage
messages [] = []
messages (send_request_vote to r ∷ rest) =
    record { to = to; payload = request_vote r } ∷ messages rest
messages (send_request_vote_response to r ∷ rest) =
    record { to = to; payload = request_vote_response r } ∷ messages rest
messages (send_append_entries to r ∷ rest) =
    record { to = to; payload = append_entries r } ∷ messages rest
messages (send_append_entries_response to r ∷ rest) =
    record { to = to; payload = append_entries_response r } ∷ messages rest
messages (apply_entry _ _ ∷ rest) = messages rest

-- Whether the next write is synced, and what is left of the outcomes; with none left it is.
abbrev synced_next : List SyncResult → Bool
synced_next [] = true
synced_next (r ∷ rs) = is_synced r

abbrev later_syncs : List SyncResult → List SyncResult
later_syncs [] = []
later_syncs (r ∷ rs) = rs

-- The values of all keys after some commands, in order: a put sets its key, a delete takes the key's
-- value away, and neither does anything if its sync fails.
abbrev pub values_after :
    (Text → Option Text) → List SyncResult → List LogCommand → Text → Option Text
values_after value rs [] = value
values_after value rs (noop ∷ cs) = values_after value rs cs
values_after value rs (put k v ∷ cs) =
    values_after (changed value k (some v) (synced_next rs)) (later_syncs rs) cs
values_after value rs (delete k ∷ cs) =
    values_after (changed value k none (synced_next rs)) (later_syncs rs) cs

-- A node after its actions: a read finds what the commands leave, the messages are behind those that wait
-- already, and the rest is as it was.
pub record Processed (n : ClusterNode) (actions : List Action) (m : ClusterNode) : Type 0 where
  pub read : Engine.get m.storage ≡ values_after (Engine.get n.storage) n.syncs (commands actions)
  pub queued : m.outbound_messages ≡ n.outbound_messages ++ messages actions
  pub same_raft : m.raft ≡ n.raft
  pub same_router : m.router ≡ n.router
  pub same_shard : m.shard_id ≡ n.shard_id
  pub same_pending : m.pending_commit_index ≡ n.pending_commit_index

queued_one :
    (n m : ClusterNode) (to : ℕ) (payload : MessagePayload) (a : Action) (actions : List Action)
    → messages (a ∷ actions) ≡ record { to = to; payload = payload } ∷ messages actions
    → commands (a ∷ actions) ≡ commands actions
    → Processed (queue n to payload) actions m
    → Processed n (a ∷ actions) m
queued_one n m to payload a actions e f p = record {
  read = p.read ∙ ap (values_after (Engine.get n.storage) n.syncs) (sym f);
  queued =
      p.queued ∙ append_assoc n.outbound_messages _ _ ∙ ap (λ z. n.outbound_messages ++ z) (sym e);
  same_raft = p.same_raft;
  same_router = p.same_router;
  same_shard = p.same_shard;
  same_pending = p.same_pending;
}

next_sync-synced_next :
    (rs : List SyncResult)
    → (is_synced (next_sync rs).0 ≡ synced_next rs) × ((next_sync rs).1 ≡ later_syncs rs)
unfolding next_sync
next_sync-synced_next [] = (refl, refl)
next_sync-synced_next (r ∷ rs) = (refl, refl)

-- One command, on what a read finds.
read-apply :
    (n : ClusterNode) (c : LogCommand) (cs : List LogCommand)
    → values_after (Engine.get (apply n c).storage) (apply n c).syncs cs
      ≡ values_after (Engine.get n.storage) n.syncs (c ∷ cs)
unfolding apply store
read-apply n noop cs = refl
read-apply n (put k v) cs =
    let (done, rest) = next_sync-synced_next n.syncs in
    ap₂ (λ value rs. values_after value rs cs)
      (fun_ext (λ j.
        (read_after_put n.storage k v (next_sync n.syncs).0 j).0
        ∙ ap (λ d. changed (Engine.get n.storage) k (some v) d j) done))
      rest
read-apply n (delete k) cs =
    let (done, rest) = next_sync-synced_next n.syncs in
    ap₂ (λ value rs. values_after value rs cs)
      (fun_ext (λ j.
        (read_after_delete n.storage k (next_sync n.syncs).0 j).0
        ∙ ap (λ d. changed (Engine.get n.storage) k none d j) done))
      rest

-- What one command leaves alone.
record Applied (n m : ClusterNode) : Type 0 where
  queue : m.outbound_messages ≡ n.outbound_messages
  raft : m.raft ≡ n.raft
  router : m.router ≡ n.router
  shard : m.shard_id ≡ n.shard_id
  pending : m.pending_commit_index ≡ n.pending_commit_index

apply-Applied : (n : ClusterNode) (c : LogCommand) → Applied n (apply n c)
unfolding apply
apply-Applied n noop = record {
  queue = refl;
  raft = refl;
  router = refl;
  shard = refl;
  pending = refl;
}
apply-Applied n (put k v) = record {
  queue = refl;
  raft = refl;
  router = refl;
  shard = refl;
  pending = refl;
}
apply-Applied n (delete k) = record {
  queue = refl;
  raft = refl;
  router = refl;
  shard = refl;
  pending = refl;
}

applied_one :
    (n m : ClusterNode) (index : ℕ) (c : LogCommand) (actions : List Action)
    → Processed (apply n c) actions m
    → Processed n (apply_entry index c ∷ actions) m
unfolding commands messages
applied_one n m index c actions p =
    let a = apply-Applied n c in
    record {
      read = p.read ∙ read-apply n c (commands actions);
      queued = p.queued ∙ ap (λ q. q ++ messages actions) a.queue;
      same_raft = p.same_raft ∙ a.raft;
      same_router = p.same_router ∙ a.router;
      same_shard = p.same_shard ∙ a.shard;
      same_pending = p.same_pending ∙ a.pending;
    }

-- After any actions, processed in turn, a read of the storage finds at every key what a map holds
-- there that takes the commands in order, a put setting its key and a delete removing it, those whose
-- sync fails left out; all of the messages are queued in order behind those that wait already, and the
-- Raft node, the router, the shard and the pending index are as they were.
pub process_actions-Processed :
    (n : ClusterNode) (actions : List Action) → Processed n actions (process_actions n actions)
unfolding process_actions process_action commands messages
process_actions-Processed n [] = record {
  read = refl;
  queued = sym (append-nil n.outbound_messages);
  same_raft = refl;
  same_router = refl;
  same_shard = refl;
  same_pending = refl;
}
process_actions-Processed n (apply_entry i c ∷ rest) =
    applied_one n _ i c rest (process_actions-Processed (apply n c) rest)
process_actions-Processed n (send_request_vote to r ∷ rest) =
    queued_one n _ to (request_vote r) _ rest refl refl
      (process_actions-Processed (queue n to (request_vote r)) rest)
process_actions-Processed n (send_request_vote_response to r ∷ rest) =
    queued_one n _ to (request_vote_response r) _ rest refl refl
      (process_actions-Processed (queue n to (request_vote_response r)) rest)
process_actions-Processed n (send_append_entries to r ∷ rest) =
    queued_one n _ to (append_entries r) _ rest refl refl
      (process_actions-Processed (queue n to (append_entries r)) rest)
process_actions-Processed n (send_append_entries_response to r ∷ rest) =
    queued_one n _ to (append_entries_response r) _ rest refl refl
      (process_actions-Processed (queue n to (append_entries_response r)) rest)
