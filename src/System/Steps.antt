-- ===== src/System/Steps.antt =====
-- transport.rs, server.rs and cluster.rs: the work of a thread on a node is one call of the Raft node,
-- whose messages go out.
use mathlib.Core.Path.{subst}
use raft_kv_distributed_kv_s.Prelude.{
  List, [], ◌∷◌, ◌≡◌, ◌∙◌, ap, refl, sym, some, none, inl, inr, Text, Option, ◌++◌, Option-cases,
}
use raft_kv_distributed_kv_s.Raft.Node.Election
use raft_kv_distributed_kv_s.Cluster
use raft_kv_distributed_kv_s.Cluster.{
  after_propose, write_as, write, take_outbound_messages, dispatch_message, handle_client_command,
  ClusterNode, process_actions, cleared, moved_to,
}
use raft_kv_distributed_kv_s.Transport.{
  MessageJson, drained, receive, receive_line, PeerTransport, Delivery, send_messages,
}
use raft_kv_distributed_kv_s.Server.{tick_round, serve}
use raft_kv_distributed_kv_s.Raft.Persist.{Json}
use raft_kv_distributed_kv_s.Raft.Node.Entries.{propose_as, propose}
use raft_kv_distributed_kv_s.Raft.Node.{RaftNode, Action}
use raft_kv_distributed_kv_s.Raft.Log.{LogCommand, put, delete}
use raft_kv_distributed_kv_s.Protocol.{Command, Response, get, set, del, unknown, ping}
use raft_kv_distributed_kv_s.Raft.Node.Step.{NetworkMessage, dispatch}
use raft_kv_distributed_kv_s.Raft.State.{leader, NodeRole, follower, candidate}
use raft_kv_distributed_kv_s.Cluster.Actions.{messages, process_actions-Processed}
use raft_kv_distributed_kv_s.Raft.Votes.Candidacy.Requests.{actions_of}

-- The Raft node of `n` has become that of the result, whose messages were sent, and none wait.
pub record Acts (mj : MessageJson) (t : PeerTransport) (r : RaftNode × List Action)
    (k : ClusterNode) (sent : List Delivery) : Type 0 where
  pub raft_is : k.raft ≡ r.0
  pub sent_is : sent ≡ send_messages mj t (messages r.1)
  pub none_queued : k.outbound_messages ≡ []

-- Actions on a node with no message waiting, and then the sending.
drained-Acts :
    (mj : MessageJson) (t : PeerTransport) (n : ClusterNode) (r : RaftNode × List Action)
    → n.outbound_messages ≡ []
    → let m = process_actions (record n { raft = r.0 }) r.1 in
      Acts mj t r (drained mj t m).0 (drained mj t m).1
unfolding drained take_outbound_messages
drained-Acts mj t n r none_yet =
    let p = process_actions-Processed (record n { raft = r.0 }) r.1 in
    record {
      raft_is = p.same_raft;
      sent_is = ap (send_messages mj t) (p.queued ∙ ap (λ ms. ms ++ messages r.1) none_yet);
      none_queued = refl;
    }

-- A node whose Raft node has done nothing.
idle-Acts :
    (mj : MessageJson) (t : PeerTransport) (n k : ClusterNode)
    → k.raft ≡ n.raft
    → k.outbound_messages ≡ []
    → Acts mj t (n.raft, []) k []
unfolding messages send_messages
idle-Acts mj t n k same none_yet = record { raft_is = same; sent_is = refl; none_queued = none_yet }

pub tick_round-Acts :
    (mj : MessageJson) (json : Json) (t : PeerTransport) (n : ClusterNode)
    → n.outbound_messages ≡ []
    → Acts mj t (Election.tick json n.raft) (tick_round mj json t n).0 (tick_round mj json t n).1
unfolding tick_round Cluster.tick
tick_round-Acts mj json t n none_yet = drained-Acts mj t n (Election.tick json n.raft) none_yet

-- A line is no message, or the dispatch of one.
pub data Received (mj : MessageJson) (json : Json) (t : PeerTransport) (n : ClusterNode)
    (line : Text) (r : ClusterNode × List Delivery) : Type 0 where
  ignored : Acts mj t (n.raft, []) r.0 r.1 → Received mj json t n line r
  handled :
      (m : NetworkMessage)
      → mj.from_str line ≡ some m
      → Acts mj t (dispatch json n.raft m) r.0 r.1
      → Received mj json t n line r

receive-Received :
    (mj : MessageJson) (json : Json) (t : PeerTransport) (n : ClusterNode) (line : Text)
    (o : Option NetworkMessage)
    → n.outbound_messages ≡ []
    → mj.from_str line ≡ o
    → Received mj json t n line (receive mj json t n o)
unfolding receive dispatch_message
receive-Received mj json t n line none none_yet e = ignored (idle-Acts mj t n n refl none_yet)
receive-Received mj json t n line (some m) none_yet e =
    handled m e (drained-Acts mj t n (dispatch json n.raft m) none_yet)

pub receive_line-Received :
    (mj : MessageJson) (json : Json) (t : PeerTransport) (n : ClusterNode) (line : Text)
    → n.outbound_messages ≡ []
    → Received mj json t n line (receive_line mj json t n line)
unfolding receive_line
receive_line-Received mj json t n [] none_yet = ignored (idle-Acts mj t n n refl none_yet)
receive_line-Received mj json t n (c ∷ line) none_yet =
    receive-Received mj json t n (c ∷ line) (mj.from_str (c ∷ line)) none_yet refl

-- A command is a proposal, or leaves the Raft node alone.
pub data Proposed (mj : MessageJson) (json : Json) (t : PeerTransport) (n : ClusterNode)
    (k : ClusterNode) (sent : List Delivery) : Type 0 where
  refused : Acts mj t (n.raft, []) k sent → Proposed mj json t n k sent
  proposed :
      (c : LogCommand)
      → n.raft.state.role ≡ leader
      → (let (m, actions) = propose_as leader json n.raft c in
          Acts mj t (m, actions_of actions) k sent)
      → Proposed mj json t n k sent

-- The same for a node before the sending.
abbrev Sends : MessageJson → Json → PeerTransport → ClusterNode → ClusterNode → Type 0
Sends mj json t n m = Proposed mj json t n (drained mj t m).0 (drained mj t m).1

quiet-Sends :
    (mj : MessageJson) (json : Json) (t : PeerTransport) (n m : ClusterNode)
    → m.raft ≡ n.raft
    → m.outbound_messages ≡ []
    → Sends mj json t n m
unfolding drained take_outbound_messages messages send_messages
quiet-Sends mj json t n m same none_yet =
    refused
      (record { raft_is = same; sent_is = ap (send_messages mj t) none_yet; none_queued = refl })

proposed-Sends :
    (mj : MessageJson) (json : Json) (t : PeerTransport) (n : ClusterNode) (c : LogCommand)
    (reply : Response)
    → n.outbound_messages ≡ []
    → n.raft.state.role ≡ leader
    → Sends mj json t n (after_propose (cleared n) (propose_as leader json n.raft c) reply).0
unfolding after_propose propose_as drained take_outbound_messages
proposed-Sends mj json t n c reply q e =
    let (m, actions) = propose_as leader json n.raft c in
    let a = drained-Acts mj t (cleared n) (m, actions_of actions) q in
    proposed c e (record { raft_is = a.raft_is; sent_is = a.sent_is; none_queued = refl })

write_as-Sends :
    (mj : MessageJson) (json : Json) (t : PeerTransport) (n : ClusterNode) (c : LogCommand)
    (reply : Response) (role : NodeRole)
    → n.outbound_messages ≡ []
    → n.raft.state.role ≡ role
    → Sends mj json t n (write_as role json (cleared n) c reply).0
unfolding write_as propose
write_as-Sends mj json t n c reply follower q e = quiet-Sends mj json t n (cleared n) refl q
write_as-Sends mj json t n c reply candidate q e = quiet-Sends mj json t n (cleared n) refl q
write_as-Sends mj json t n c reply leader q e =
    subst (λ x. Sends mj json t n (after_propose (cleared n) x reply).0)
      (ap (λ role. propose_as role json n.raft c) (sym e)) (proposed-Sends mj json t n c reply q e)

write-Sends :
    (mj : MessageJson) (json : Json) (t : PeerTransport) (n : ClusterNode) (key : Text)
    (c : LogCommand) (reply : Response)
    → n.outbound_messages ≡ []
    → Sends mj json t n (write json (cleared n) key c reply).0
unfolding write
write-Sends mj json t n key c reply q = elim (Option-cases (moved_to n.router n.shard_id key)) [
  | inr (shard, away) ↦ rw (away, write) (quiet-Sends mj json t n (cleared n) refl q)
  | inl here ↦ rw (here, write) (write_as-Sends mj json t n c reply n.raft.state.role q refl)
]

pub serve-Proposed :
    (mj : MessageJson) (json : Json) (t : PeerTransport) (n : ClusterNode) (c : Command)
    → n.outbound_messages ≡ []
    → Proposed mj json t n (serve mj json t n c).node (serve mj json t n c).sent
unfolding serve handle_client_command
serve-Proposed mj json t n (get key) q = quiet-Sends mj json t n (cleared n) refl q
serve-Proposed mj json t n (set key value) q = write-Sends mj json t n key (put key value) _ q
serve-Proposed mj json t n (del key) q = write-Sends mj json t n key (delete key) _ q
serve-Proposed mj json t n ping q = quiet-Sends mj json t n (cleared n) refl q
serve-Proposed mj json t n (unknown name) q = quiet-Sends mj json t n (cleared n) refl q
