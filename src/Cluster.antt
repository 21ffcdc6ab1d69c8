-- ===== src/Cluster.antt =====
-- cluster.rs: a node of the cluster, which connects clients and Raft to the storage.
pub mod Actions
pub mod Clients
pub mod Reads
mod Tests
use raft_kv_distributed_kv_s.Prelude.{
  codes, ℕ, Text, Bool, true, false, Option, none, some, List, [], ◌∷◌, ◌++◌, if◌then◌else◌,
  IoResult, ok, io_error,
}
use raft_kv_distributed_kv_s.Raft.Log.{LogCommand, put, delete, last_index, noop}
use raft_kv_distributed_kv_s.Raft.State.{NodeRole, follower, candidate, leader}
use raft_kv_distributed_kv_s.Raft.Node
use raft_kv_distributed_kv_s.Raft.Node.Election
use raft_kv_distributed_kv_s.Storage.Engine
use raft_kv_distributed_kv_s.Sharding.Router
use raft_kv_distributed_kv_s.Raft.Message.{
  RequestVoteRequest, RequestVoteResponse, AppendEntriesRequest, AppendEntriesResponse,
}
use raft_kv_distributed_kv_s.Raft.Node.{
  RaftNode, Action, apply_entry, send_request_vote, send_request_vote_response, send_append_entries,
  send_append_entries_response,
}
use raft_kv_distributed_kv_s.Sharding.Router.{
  Router, ShardConfig, key_belongs_to_shard, get_shard_id,
}
use raft_kv_distributed_kv_s.Storage.Engine.{StorageEngine}
use raft_kv_distributed_kv_s.Storage.Wal.{SyncResult, synced}
use raft_kv_distributed_kv_s.Raft.Persist.{Json}
use raft_kv_distributed_kv_s.Raft.Node.Step.{NetworkMessage, dispatch}
use raft_kv_distributed_kv_s.Raft.Node.Entries.{propose}
use raft_kv_distributed_kv_s.Protocol.{
  Response, Command, simple_string, null, error, get, bulk_string, set, del, integer, unknown, ping,
}
use raft_kv_distributed_kv_s.Decimal.{decimal}

-- The texts of the replies.
abbrev pub ok_string : Response
ok_string = simple_string (codes "OK")

abbrev pub pong_string : Response
pong_string = simple_string (codes "PONG")

abbrev pub moved : ℕ → Text
moved shard = codes "MOVED - key belongs to shard " ++ decimal shard

abbrev pub not_leader : Text
not_leader = codes "NOTLEADER - this node is not the leader"

abbrev pub failed_to_propose : Text
failed_to_propose = codes "failed to propose"

abbrev pub unknown_command : Text → Text
unknown_command name = codes "unknown command '" ++ (name ++ codes "'")

pub data MessagePayload : Type 0 where
  request_vote : RequestVoteRequest → MessagePayload
  request_vote_response : RequestVoteResponse → MessagePayload
  append_entries : AppendEntriesRequest → MessagePayload
  append_entries_response : AppendEntriesResponse → MessagePayload

pub record PeerMessage : Type 0 where
  pub to : ℕ
  pub payload : MessagePayload

-- `syncs` are the results of the log's syncs to come (done, at the end of the list).
pub record ClusterNode : Type 0 where
  pub raft : RaftNode
  pub storage : StorageEngine
  pub outbound_messages : List PeerMessage
  pub router : Option Router
  pub shard_id : ℕ
  pub pending_commit_index : Option ℕ
  pub syncs : List SyncResult

-- The engine is opened first; then the Raft node is restored.
abbrev joined :
    Option Router
    → ℕ
    → List SyncResult
    → IoResult StorageEngine
    → IoResult RaftNode
    → IoResult ClusterNode
joined router shard syncs io_error raft = io_error
joined router shard syncs (ok storage) io_error = io_error
joined router shard syncs (ok storage) (ok raft) = ok (record {
  raft = raft;
  storage = storage;
  outbound_messages = [];
  router = router;
  shard_id = shard;
  pending_commit_index = none;
  syncs = syncs;
})

unfoldable pub new :
    List SyncResult → IoResult StorageEngine → IoResult RaftNode → IoResult ClusterNode
new syncs storage raft = joined none 1 syncs storage raft

unfoldable pub with_sharding :
    ℕ
    → List ShardConfig
    → List SyncResult
    → IoResult StorageEngine
    → IoResult RaftNode
    → IoResult ClusterNode
with_sharding shard_id shard_configs syncs storage raft =
    joined (some (Router.new shard_configs 64)) shard_id syncs storage raft

unfoldable pub next_sync : List SyncResult → SyncResult × List SyncResult
next_sync [] = (synced, [])
next_sync (r ∷ rs) = (r, rs)

-- A command on the storage; an error is printed and dropped.
unfoldable pub store : StorageEngine → LogCommand → SyncResult → StorageEngine
store e (put k v) r = (Engine.put e k v r).0
store e (delete k) r = (Engine.delete e k r).0
store e noop r = e

unfoldable pub apply : ClusterNode → LogCommand → ClusterNode
apply n noop = n
apply n (put k v) =
    let (r, rs) = next_sync n.syncs in
    record n { storage = store n.storage (put k v) r; syncs = rs }
apply n (delete k) =
    let (r, rs) = next_sync n.syncs in
    record n { storage = store n.storage (delete k) r; syncs = rs }

abbrev pub queue : ClusterNode → ℕ → MessagePayload → ClusterNode
queue n to payload = record n {
  outbound_messages = n.outbound_messages ++ record { to = to; payload = payload } ∷ [];
}

unfoldable pub process_action : ClusterNode → Action → ClusterNode
process_action n (apply_entry index command) = apply n command
process_action n (send_request_vote to r) = queue n to (request_vote r)
process_action n (send_request_vote_response to r) = queue n to (request_vote_response r)
process_action n (send_append_entries to r) = queue n to (append_entries r)
process_action n (send_append_entries_response to r) = queue n to (append_entries_response r)

unfoldable pub process_actions : ClusterNode → List Action → ClusterNode
process_actions n [] = n
process_actions n (a ∷ actions) = process_actions (process_action n a) actions

unfoldable pub tick : Json → ClusterNode → ClusterNode
tick json n =
    let (m, actions) = Election.tick json n.raft in process_actions (record n { raft = m }) actions

-- `dispatch_message` of transport.rs.
unfoldable pub dispatch_message : Json → ClusterNode → NetworkMessage → ClusterNode
dispatch_message json n message =
    let (m, actions) = dispatch json n.raft message in
    process_actions (record n { raft = m }) actions

unfoldable pub take_outbound_messages : ClusterNode → ClusterNode × List PeerMessage
take_outbound_messages n = (record n { outbound_messages = [] }, n.outbound_messages)

abbrev pub or_zero : Option ℕ → ℕ
or_zero none = 0
or_zero (some id) = id

-- The shard that a client is sent to, when the key is not this node's.
unfoldable pub moved_to : Option Router → ℕ → Text → Option ℕ
moved_to none shard key = none
moved_to (some r) shard key =
    if key_belongs_to_shard r key shard then none else some (or_zero (get_shard_id r key))

abbrev pub found : Option Text → Response
found none = null
found (some value) = bulk_string value

unfoldable pub read : ClusterNode → Text → Response
read n key = elim (moved_to n.router n.shard_id key) [
  | some shard ↦ error (moved shard)
  | none ↦ found (Engine.get n.storage key)
]

-- What follows a proposal: its actions, and then the index that the reply waits for.
unfoldable pub after_propose :
    ClusterNode → RaftNode × Option (List Action) → Response → ClusterNode × Response
after_propose n (m, none) reply = (record n { raft = m }, error failed_to_propose)
after_propose n (m, some actions) reply =
    let done = process_actions (record n { raft = m }) actions in
    (record done { pending_commit_index = some (last_index done.raft.state.log) }, reply)

unfoldable pub write_as :
    NodeRole → Json → ClusterNode → LogCommand → Response → ClusterNode × Response
write_as follower json n command reply = (n, error not_leader)
write_as candidate json n command reply = (n, error not_leader)
write_as leader json n command reply = after_propose n (propose json n.raft command) reply

unfoldable pub write : Json → ClusterNode → Text → LogCommand → Response → ClusterNode × Response
write json n key command reply = elim (moved_to n.router n.shard_id key) [
  | some shard ↦ (n, error (moved shard))
  | none ↦ write_as n.raft.state.role json n command reply
]

abbrev pub cleared : ClusterNode → ClusterNode
cleared n = record n { pending_commit_index = none }

unfoldable pub handle_client_command : Json → ClusterNode → Command → ClusterNode × Response
handle_client_command json n (get key) = (cleared n, read (cleared n) key)
handle_client_command json n (set key value) = write json (cleared n) key (put key value) ok_string
handle_client_command json n (del key) = write json (cleared n) key (delete key) (integer 1)
handle_client_command json n ping = (cleared n, pong_string)
handle_client_command json n (unknown name) = (cleared n, error (unknown_command name))
