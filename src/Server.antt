-- ===== src/Server.antt =====
-- network/server.rs: what the threads of the server do with the node, each under its lock. Sockets,
-- threads and sleeping are not modelled: what they deliver are arguments.
pub mod Requests
pub mod Commit
pub mod Connection
pub mod Start
mod Tests
use raft_kv_distributed_kv_s.Cluster
use raft_kv_distributed_kv_s.Prelude.{ℕ, Option, List}
use raft_kv_distributed_kv_s.Cluster.{ClusterNode, handle_client_command}
use raft_kv_distributed_kv_s.Transport.{MessageJson, Delivery, PeerTransport, drained}
use raft_kv_distributed_kv_s.Raft.Persist.{Json}
use raft_kv_distributed_kv_s.Protocol.{Response, Command}

-- One round of the tick thread.
unfoldable pub tick_round :
    MessageJson → Json → PeerTransport → ClusterNode → ClusterNode × List Delivery
tick_round mj json t n = drained mj t (Cluster.tick json n)

-- A command under the lock: the node, the messages that are sent, the reply and the index it is to
-- wait for.
pub record Served : Type 0 where
  pub node : ClusterNode
  pub sent : List Delivery
  pub reply : Response
  pub pending : Option ℕ

unfoldable pub serve : MessageJson → Json → PeerTransport → ClusterNode → Command → Served
serve mj json t n c =
    let (m, reply) = handle_client_command json n c in
    let (k, sent) = drained mj t m in
    record { node = k; sent = sent; reply = reply; pending = m.pending_commit_index }
