-- ===== src/Transport.antt =====
-- transport.rs: messages between the nodes, as lines of JSON to an address. Sockets and threads are
-- not modelled: a delivery is a line on its way, which may be lost, late or come more than once.
use raft_kv_distributed_kv_s.Prelude.{
  ℕ, Text, codes, Option, none, some, List, [], ◌∷◌, ◌++◌, ◌==◌, if◌then◌else◌,
}
use raft_kv_distributed_kv_s.Decimal.{decimal}
use raft_kv_distributed_kv_s.Raft.Node.Step.{NetworkMessage}
use raft_kv_distributed_kv_s.Cluster.{
  MessagePayload, PeerMessage, ClusterNode, request_vote, take_outbound_messages, dispatch_message,
  request_vote_response, append_entries, append_entries_response,
}
use raft_kv_distributed_kv_s.Raft.Persist.{Json}

pub record NodeConfig : Type 0 where
  pub id : ℕ
  pub client_port : ℕ
  pub peer_port : ℕ

-- The map from node ids to addresses.
pub record PeerTransport : Type 0 where
  pub node_id : ℕ
  pub peer_addresses : List (ℕ × Text)

-- `HashMap::get` and `HashMap::insert`.
unfoldable pub find_address : ℕ → List (ℕ × Text) → Option Text
find_address id [] = none
find_address id ((j, address) ∷ rest) = if j == id then some address else find_address id rest

abbrev put_address : ℕ → Text → List (ℕ × Text) → List (ℕ × Text)
put_address id address rest = (id, address) ∷ rest

abbrev pub localhost : Text
localhost = codes "127.0.0.1"

abbrev pub or_localhost : Option Text → Text
or_localhost none = localhost
or_localhost (some host) = host

-- The loop of `new`, on the addresses so far. `host` is the environment variable PEER_HOST_<id>.
unfoldable pub add_addresses :
    (ℕ → Option Text) → ℕ → List NodeConfig → List (ℕ × Text) → List (ℕ × Text)
unfolding decimal
add_addresses host node_id [] m = m
add_addresses host node_id (c ∷ cs) m = add_addresses host node_id cs (
    if c.id == node_id
    then m
    else put_address c.id (or_localhost (host c.id) ++ b':' ∷ decimal c.peer_port) m)

unfoldable pub new : (ℕ → Option Text) → ℕ → List NodeConfig → PeerTransport
new host node_id all_nodes = record {
  node_id = node_id;
  peer_addresses = add_addresses host node_id all_nodes [];
}

abbrev pub from_addresses : ℕ → List (ℕ × Text) → PeerTransport
from_addresses node_id peer_addresses = record {
  node_id = node_id;
  peer_addresses = peer_addresses;
}

-- `serde_json` on messages: `none` stands for an error.
pub record MessageJson : Type 0 where
  pub to_string : NetworkMessage → Option Text
  pub from_str : Text → Option NetworkMessage

-- A line for a node, at its address.
pub record Delivery : Type 0 where
  pub to : ℕ
  pub address : Text
  pub line : Text

unfoldable pub network_message : ℕ → MessagePayload → NetworkMessage
network_message from (request_vote r) = NetworkMessage.request_vote from r
network_message from (request_vote_response r) = NetworkMessage.request_vote_response from r
network_message from (append_entries r) = NetworkMessage.append_entries from r
network_message from (append_entries_response r) = NetworkMessage.append_entries_response from r

-- The body of the loop of `send_messages`: nothing is sent without an address, or if the message
-- cannot be written as JSON.
abbrev pub send_written : ℕ → Text → Option Text → Option Delivery
send_written to address none = none
send_written to address (some line) = some (record { to = to; address = address; line = line })

abbrev pub send_to : MessageJson → PeerTransport → PeerMessage → Option Text → Option Delivery
send_to mj t m none = none
send_to mj t m (some address) =
    send_written m.to address (mj.to_string (network_message t.node_id m.payload))

unfoldable pub send_message : MessageJson → PeerTransport → PeerMessage → Option Delivery
send_message mj t m = send_to mj t m (find_address m.to t.peer_addresses)

abbrev pub push_sent : Option Delivery → List Delivery → List Delivery
push_sent none ds = ds
push_sent (some d) ds = d ∷ ds

unfoldable pub send_messages : MessageJson → PeerTransport → List PeerMessage → List Delivery
send_messages mj t [] = []
send_messages mj t (m ∷ ms) = push_sent (send_message mj t m) (send_messages mj t ms)

-- A node after some work under its lock, and the messages it then sends.
unfoldable pub drained : MessageJson → PeerTransport → ClusterNode → ClusterNode × List Delivery
drained mj t n = let (m, messages) = take_outbound_messages n in (m, send_messages mj t messages)

-- One line at the listener, `none` if it could not be parsed.
unfoldable pub receive :
    MessageJson
    → Json
    → PeerTransport
    → ClusterNode
    → Option NetworkMessage
    → ClusterNode × List Delivery
receive mj json t n none = (n, [])
receive mj json t n (some m) = drained mj t (dispatch_message json n m)

unfoldable pub receive_line :
    MessageJson → Json → PeerTransport → ClusterNode → Text → ClusterNode × List Delivery
receive_line mj json t n [] = (n, [])
receive_line mj json t n (c ∷ rest) = receive mj json t n (mj.from_str (c ∷ rest))

-- The lines of a connection, up to one that cannot be read.
unfoldable pub receive_lines :
    MessageJson
    → Json
    → PeerTransport
    → ClusterNode
    → List (Option Text)
    → ClusterNode × List Delivery
receive_lines mj json t n [] = (n, [])
receive_lines mj json t n (none ∷ rest) = (n, [])
receive_lines mj json t n (some line ∷ rest) =
    let (m, sent) = receive_line mj json t n line in
    let (k, later) = receive_lines mj json t m rest in (k, sent ++ later)
