-- ===== src/Server/Tests.antt =====
-- Examples of connections and replies.
use raft_kv_distributed_kv_s.Raft.Log
use raft_kv_distributed_kv_s.Raft.Node.Commit.{
  apply_command, advance_loop, apply_committed_entries, apply_found, apply_loop, can_commit,
  maybe_advance_commit_index, replicas,
}
use raft_kv_distributed_kv_s.Raft.Log.{append, last_index, term_at}
use raft_kv_distributed_kv_s.Server.Commit.{await_commit}
use raft_kv_distributed_kv_s.Raft.Node.{persist, save_if_any}
use raft_kv_distributed_kv_s.Raft.Node.Replicate.{replicate_to, replicate_to_all_peers}
use raft_kv_distributed_kv_s.Cluster.{
  after_propose, process_action, process_actions, write_as, pong_string,
}
use raft_kv_distributed_kv_s.Raft.Node.Entries.{append_proposal, propose, propose_as}
use raft_kv_distributed_kv_s.Raft.State.{majority_count}
use raft_kv_distributed_kv_s.Storage.Memtable
use raft_kv_distributed_kv_s.Cluster
use raft_kv_distributed_kv_s.Server.Requests.Wire.{
  read_request-resp_array, requests-pipeline, read_request-line_feed, resp_array, stream, pipeline,
  incoming, TakesAscii, AreRequests,
}
use raft_kv_distributed_kv_s.Server.Requests.Asks.{asks_set, asks_del, asks_ping, without_key}
use raft_kv_distributed_kv_s.Server.Requests.{read_request, requests, accepted}
use raft_kv_distributed_kv_s.Protocol.{set, del, ping, Response, bulk_string, unknown}
use Prim.Native.Nat.{ℕ}
use raft_kv_distributed_kv_s.Prelude.{
  ℕ, Text, List, if◌then◌else◌, map, codes, none, [], ◌∷◌, leb, ◌≡◌, ◌++◌, ◌&&◌, arith, some, ◌-◌,
  refl, inl, true, Bool, ltb,
}
use raft_kv_distributed_kv_s.Storage.Lines.{strip_return}
use raft_kv_distributed_kv_s.Server.Requests.Parse.{Agrees, read_request-parse}
use raft_kv_distributed_kv_s.Protocol.Replies.RoundTrip.{read_reply, read_reply-serialize}
use raft_kv_distributed_kv_s.Raft.Persist.{Json}
use raft_kv_distributed_kv_s.Transport.{MessageJson, PeerTransport}
use raft_kv_distributed_kv_s.Raft.Node.{RaftNode, fresh}
use raft_kv_distributed_kv_s.Cluster.{ClusterNode, handle_client_command, ok_string}
use raft_kv_distributed_kv_s.Server.Commit.{answer, Poll}
use raft_kv_distributed_kv_s.Server.Commit.Acknowledged.{
  Acknowledged, set-Acknowledged, answer-returns,
}
use raft_kv_distributed_kv_s.Protocol.Parse.{parse}
use raft_kv_distributed_kv_s.Protocol.Replies.{serialize}
use raft_kv_distributed_kv_s.Server.{serve}
use raft_kv_distributed_kv_s.Raft.State.{leader}
use raft_kv_distributed_kv_s.Raft.Log.{put}
use raft_kv_distributed_kv_s.Server.Connection.{Turn, handle_client}
use raft_kv_distributed_kv_s.Server.Connection.Conversation.{
  Answered, read_replies, text_of, conversation,
}

-- ASCII letters in upper case.
abbrev upper_byte : ℕ → ℕ
upper_byte c = if leb b'a' c && leb c b'z' then c - 32 else c

abbrev upper : Text → Text
upper = map upper_byte

-- Bytes below 128.
abbrev is_ascii : Text → Bool
is_ascii [] = true
is_ascii (c ∷ t) = ltb c 128 && is_ascii t

is_ascii-TakesAscii : TakesAscii is_ascii
is_ascii-TakesAscii [] h = refl
is_ascii-TakesAscii (c ∷ t) h = let rest = is_ascii-TakesAscii t h.1 in ground (arith, h.0)

abbrev k : Text
k = codes "k"

abbrev v : Text
v = codes "v"

read_request-resp_array_example :
    read_request upper (incoming is_ascii (resp_array (codes "set" ∷ k ∷ v ∷ []) (codes "*1")))
    ≡ (accepted (set k v), incoming is_ascii (codes "*1"))
read_request-resp_array_example =
    read_request-resp_array is_ascii upper (codes "set") (k ∷ v ∷ []) (set k v) (codes "*1")
      is_ascii-TakesAscii (ground arith) (omega arith) (asks_set (codes "set") k v refl)

-- A DEL, and a GET without its key.
abbrev del_and_get : List (Text × List Text)
del_and_get = (codes "DEL", k ∷ []) ∷ (codes "get", []) ∷ []

del_and_get-AreRequests :
    AreRequests is_ascii upper del_and_get (del k ∷ unknown (codes "GET") ∷ [])
del_and_get-AreRequests = (
  ground arith,
  omega arith,
  asks_del (codes "DEL") k refl,
  (ground arith, omega arith, without_key (codes "get") [] (inl refl) (λ e. omega (arith, e)), tt),
)

requests-pipeline_example :
    requests 2 upper (incoming is_ascii (pipeline del_and_get))
    ≡ accepted (del k) ∷ accepted (unknown (codes "GET")) ∷ []
requests-pipeline_example =
    requests-pipeline is_ascii upper del_and_get (del k ∷ unknown (codes "GET") ∷ []) 2
      is_ascii-TakesAscii del_and_get-AreRequests (omega arith)

read_request-line_feed_example :
    read_request upper (stream (resp_array (codes "SET" ∷ k ∷ (v ++ 10 ∷ codes "*9") ∷ []) []))
    ≡ (accepted (set k v), stream (codes "*9" ++ 13 ∷ 10 ∷ []))
unfolding strip_return
read_request-line_feed_example =
    read_request-line_feed upper (codes "SET") k v (codes "*9") [] refl (ground arith)
      (ground arith) (ground arith)

read_request-parse_example :
    Agrees (parse upper (codes "*1")) (read_request upper (stream (codes "*1"))).0
read_request-parse_example = read_request-parse upper (codes "*1")

read_reply-serialize_example :
    read_reply (serialize (bulk_string (13 ∷ 10 ∷ k)) ++ v) ≡ some (bulk_string (13 ∷ 10 ∷ k), v)
read_reply-serialize_example = read_reply-serialize (bulk_string (13 ∷ 10 ∷ k)) v (omega arith)

-- A leader that is alone takes up a SET; the loop sees the entry committed in its second pass.
abbrev json : Json
json = record { to_string_pretty = λ _. none; from_str = λ _. none }

abbrev no_messages : MessageJson
no_messages = record { to_string = λ _. none; from_str = λ _. none }

abbrev alone : PeerTransport
alone = record { node_id = 1; peer_addresses = [] }

abbrev raft : RaftNode
raft = record (fresh 1 (1 ∷ []) none) {
  state = record ((fresh 1 (1 ∷ []) none).state) { role = leader; current_term = 1 };
}

abbrev node : ClusterNode
node = record {
  raft = raft;
  storage = record { wal = record { file = []; buffer = [] }; memtable = Memtable.new };
  outbound_messages = [];
  router = none;
  shard_id = 1;
  pending_commit_index = none;
  syncs = [];
}

abbrev polls : List Poll
polls = record { commit_index = 0; now = 500 } ∷ record { commit_index = 1; now = 700 } ∷ []

is_answered : answer 400 polls (serve no_messages json alone node (set k v)) ≡ some ok_string
unfolding answer serve handle_client_command Cluster.write Cluster.moved_to write_as propose
    propose_as after_propose append_proposal replicate_to_all_peers replicate_to process_actions
    process_action persist save_if_any maybe_advance_commit_index advance_loop can_commit
    apply_committed_entries apply_loop apply_found last_index append await_commit majority_count
    term_at replicas Log.get apply_command Cluster.apply
is_answered = refl

set-Acknowledged_example :
    Acknowledged node (handle_client_command json node (set k v)).0 (put k v) polls
set-Acknowledged_example = set-Acknowledged no_messages json alone node k v 400 polls is_answered

abbrev late : Poll
late = record { commit_index = 0; now = 3000400 }

answer-returns_example :
    (r : Response) × (answer 400 (late ∷ []) (serve no_messages json alone node (set k v)) ≡ some r)
answer-returns_example =
    answer-returns 400 (late ∷ []) (serve no_messages json alone node (set k v)) late (inl refl)
      (omega arith)

-- The SET, and then a PING on the same connection.
abbrev turns : List Turn
turns =
    record { node = node; start = 400; polls = polls; delivered = true }
    ∷ record {
      node = (serve no_messages json alone node (set k v)).node;
      start = 800;
      polls = [];
      delivered = true;
    }
    ∷ []

abbrev two_requests : List (Text × List Text)
two_requests = (codes "set", k ∷ v ∷ []) ∷ (codes "ping", []) ∷ []

two_requests-Answered :
    Answered no_messages json alone upper is_ascii
      (set k v ∷ ping ∷ [])
      turns
      (ok_string ∷ pong_string ∷ [])
unfolding answer serve handle_client_command Cluster.write Cluster.moved_to write_as propose
    propose_as after_propose append_proposal replicate_to_all_peers replicate_to process_actions
    process_action persist save_if_any maybe_advance_commit_index advance_loop can_commit
    apply_committed_entries apply_loop apply_found last_index append await_commit majority_count
    term_at replicas Log.get apply_command Cluster.apply
two_requests-Answered = (refl, refl, (refl, refl, tt))

two_requests-AreRequests : AreRequests is_ascii upper two_requests (set k v ∷ ping ∷ [])
two_requests-AreRequests = (
  ground arith,
  omega arith,
  asks_set (codes "set") k v refl,
  (ground arith, omega arith, asks_ping (codes "ping") [] refl, tt),
)

conversation_example :
    read_replies 2 (
      text_of (
        handle_client no_messages json alone upper 2
          (incoming is_ascii (pipeline two_requests))
          turns))
    ≡ some (ok_string ∷ pong_string ∷ [])
conversation_example =
    conversation no_messages json alone upper is_ascii 2 two_requests (set k v ∷ ping ∷ []) turns
      (ok_string ∷ pong_string ∷ []) is_ascii-TakesAscii two_requests-AreRequests
      two_requests-Answered (ground arith) (omega arith)
