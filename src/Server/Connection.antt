-- ===== src/Server/Connection.antt =====
-- network/server.rs, handle_client: a connection, from its first line to its end.
pub mod Conversation
use raft_kv_distributed_kv_s.Server.{Served, serve, ℕ, List, MessageJson, Json, PeerTransport}
use raft_kv_distributed_kv_s.Server.Commit.{Poll, answer}
use raft_kv_distributed_kv_s.Server.Requests.{
  Request, Line, closed, rejected, accepted, read_request,
}
use raft_kv_distributed_kv_s.Protocol.Replies.{serialize}
use raft_kv_distributed_kv_s.Protocol.{Response, error}
use raft_kv_distributed_kv_s.Cluster.{ClusterNode}
use raft_kv_distributed_kv_s.Prelude.{
  ℕ, Text, List, Bool, Option, [], some, ◌∷◌, suc, if◌then◌else◌, zero, none,
}
use raft_kv_distributed_kv_s.Transport.{MessageJson, PeerTransport}
use raft_kv_distributed_kv_s.Raft.Persist.{Json}

-- What a command meets: the node when its lock is taken, the clock then, the passes of the wait for the
-- commit, and whether the write of the reply succeeds. Other threads have the node in between.
pub record Turn : Type 0 where
  pub node : ClusterNode
  pub start : ℕ
  pub polls : List Poll
  pub delivered : Bool

-- What the connection does: it writes an error, or serves a command and writes the reply.
pub data Event : Type 0 where
  refused : Text → Event
  replied : Served → Text → Event

-- The reply, `none` while the wait goes on; a write that fails ends the loop.
unfoldable pub respond :
    (List Turn → List Event) → Turn → List Turn → Served → Option Response → List Event
respond go u turns s none = []
respond go u turns s (some reply) =
    let later = go turns in replied s (serialize reply) ∷ (if u.delivered then later else [])

-- One pass of the loop behind the reading. The write of an error may fail: its result is dropped.
unfoldable pub pass :
    MessageJson → Json → PeerTransport → (List Turn → List Event) → Request → List Turn → List Event
pass mj json t go closed turns = []
pass mj json t go (rejected message) turns = refused (serialize (error message)) ∷ go turns
pass mj json t go (accepted c) [] = []
pass mj json t go (accepted c) (u ∷ turns) =
    let s = serve mj json t u.node c in respond go u turns s (answer u.start u.polls s)

-- The loop, by the passes left, over the lines of the connection.
unfoldable pub handle_client :
    MessageJson → Json → PeerTransport → (Text → Text) → ℕ → List Line → List Turn → List Event
handle_client mj json t upper zero ls turns = []
handle_client mj json t upper (suc passes) ls turns =
    let (r, rest) = read_request upper ls in
    pass mj json t (handle_client mj json t upper passes rest) r turns
