-- ===== src/Raft/Durable/Restart.antt =====
-- raft/node.rs, with_persistence: after a restart the node has the term, the vote and the log that it
-- had when it stopped.
use raft_kv_distributed_kv_s.Raft.Node.Step.{
  dispatch, step, run, Input, NetworkMessage, request_vote, received, request_vote_response,
  proposed, append_entries, ticked, append_entries_response,
}
use raft_kv_distributed_kv_s.Raft.Node.{
  RaftNode, with_persistence, reset_election_timeout, restore, persistent, fresh,
}
use mathlib.Core.Option.{Option, none}
use raft_kv_distributed_kv_s.Raft.Log.{from_entries, to_entries, LogEntry}
use raft_kv_distributed_kv_s.Raft.Node.Step.{append_entries}
use raft_kv_distributed_kv_s.Raft.Node.Election.{handle_request_vote_response, tick}
use raft_kv_distributed_kv_s.Raft.Persist.{Json, StatePersister, load, PersistentState}
use raft_kv_distributed_kv_s.Prelude.{
  IoResult, List, ◌≡◌, ok, ◌<◌, ℕ, length, ◌∷◌, some, true, [], Option, none, Text, ap, sym, refl,
  arith, ◌∙◌,
}
use raft_kv_distributed_kv_s.Raft.Node.Entries.{handle_append_entries_response, propose}
use raft_kv_distributed_kv_s.Raft.Durable.{
  RoundTrips, Durable, persistent, StatePersister, untouched, saved, PersistentState, reliable,
}
use raft_kv_distributed_kv_s.Raft.Durable.Steps.{
  tick-Lasts, handle_request_vote-Lasts, vote_response-Lasts,
}
use raft_kv_distributed_kv_s.Raft.State.{follower}
use raft_kv_distributed_kv_s.Raft.Durable.Entries.{
  propose-Durable, handle_append_entries-Lasts, append_response-Lasts,
}

pub dispatch-Durable :
    (json : Json)
    → RoundTrips json
    → (n : RaftNode) (m : NetworkMessage) → Durable json n
    → Durable json (dispatch json n m).0
unfolding dispatch handle_request_vote_response handle_append_entries_response
dispatch-Durable json rt n (request_vote from r) d = (handle_request_vote-Lasts json rt n r d).kept
dispatch-Durable json rt n (request_vote_response from r) d =
    (vote_response-Lasts json rt n from r n.state.role d).kept
dispatch-Durable json rt n (append_entries from r) d =
    (handle_append_entries-Lasts json rt n r d).kept
dispatch-Durable json rt n (append_entries_response from r) d =
    (append_response-Lasts json rt n from r n.state.role d).kept

step-Durable :
    (json : Json)
    → RoundTrips json
    → (n : RaftNode) (i : Input) → Durable json n
    → Durable json (step json n i)
unfolding step tick propose
step-Durable json rt n ticked d = (tick-Lasts json rt n n.state.role d).kept
step-Durable json rt n (received m) d = dispatch-Durable json rt n m d
step-Durable json rt n (proposed c) d = propose-Durable json rt n c n.state.role d

-- If JSON round-trips and every write succeeds, the state file holds the term, the vote and the log after
-- any sequence of inputs, if it does at the start.
pub run-Durable :
    (json : Json) (n : RaftNode) (inputs : List Input)
    → RoundTrips json
    → Durable json n
    → Durable json (run json n inputs)
unfolding run
run-Durable json n [] rt d = d
run-Durable json n (i ∷ is) rt d =
    run-Durable json (step json n i) is rt (step-Durable json rt n i d)

-- What a restart on the file of `n` makes: a follower with the id and the peers it is given, which has
-- applied nothing and tracks no follower, with the file and the persistent state of `n`.
pub record Restarted (id : ℕ) (peers : List ℕ) (n : RaftNode) (r : IoResult RaftNode) : Type 0 where
  pub node : RaftNode
  pub is_ok : r ≡ ok node
  pub same_state : persistent node.state ≡ persistent n.state
  pub same_file : node.persister ≡ n.persister
  pub is_id : node.state.id ≡ id
  pub peers_are : node.state.peers ≡ peers
  pub is_follower : node.state.role ≡ follower
  pub none_tracked : node.state.next_index ≡ []
  pub none_applied : (node.state.commit_index ≡ 0) × (node.state.last_applied ≡ 0)

-- A log that holds at least the sentinel comes back as it was written.
from_entries-to_entries : (es : List LogEntry) → 0 < length es → to_entries (from_entries es) ≡ es
unfolding from_entries to_entries
from_entries-to_entries [] h = absurd (omega arith)
from_entries-to_entries (e ∷ es) h = refl

-- The node that is made of what the file gave.
restored : ℕ → List ℕ → StatePersister → IoResult (Option PersistentState) → RaftNode
restored id peers p loaded =
    let n = fresh id peers (some p) in
    reset_election_timeout (record n { state = restore n.state loaded })

restored-node :
    (json : Json) (id : ℕ) (peers : List ℕ) (p : StatePersister)
    (loaded : IoResult (Option PersistentState))
    → load json p true ≡ loaded
    → with_persistence json id peers p true true ≡ ok (restored id peers p loaded)
unfolding with_persistence restored
restored-node json id peers p loaded h = rw h

restored-saved :
    (id : ℕ) (peers : List ℕ) (p : StatePersister) (n : RaftNode)
    → 0 < length n.state.log.entries
    → persistent (restored id peers p (ok (some (persistent n.state)))).state ≡ persistent n.state
unfolding restored restore reset_election_timeout to_entries
restored-saved id peers p n h =
    ap (λ l. record (persistent n.state) { log = l })
      (from_entries-to_entries n.state.log.entries h)

load-saved :
    (json : Json) (text : Text) (state : PersistentState)
    → json.from_str text ≡ some state
    → load json (reliable (some text)) true ≡ ok (some state)
unfolding load
load-saved json text state h = rw (h, load)

load-untouched : (json : Json) → load json (reliable none) true ≡ ok none
unfolding load
load-untouched json = refl

-- A restart on the state file of a node, whose log holds at least the sentinel and whose file is up
-- to date and can be read, gives back its term, its vote and its log, to a follower that has applied
-- nothing and tracks no other node.
pub restart_restores :
    (json : Json) (id : ℕ) (peers : List ℕ) (n : RaftNode) (p : StatePersister)
    → 0 < length n.state.log.entries
    → n.persister ≡ some p
    → Durable json n
    → Restarted id peers n (with_persistence json id peers p true true)
unfolding restored restore reset_election_timeout to_entries
restart_restores json id peers n p nonempty at (untouched f blank_state) = record {
  node = restored id peers p (ok none);
  is_ok =
      let e : p ≡ reliable none = cc (at, f) in
      restored-node json id peers p _ (ap (λ q. load json q true) e ∙ load-untouched json);
  same_state = sym blank_state;
  same_file = sym at;
  is_id = refl;
  peers_are = refl;
  is_follower = refl;
  none_tracked = refl;
  none_applied = (refl, refl);
}
restart_restores json id peers n p nonempty at (saved text f read) = record {
  node = restored id peers p (ok (some (persistent n.state)));
  is_ok =
      let e : p ≡ reliable (some text) = cc (at, f) in
      restored-node json id peers p _ (ap (λ q. load json q true) e ∙ load-saved json text _ read);
  same_state = restored-saved id peers p n nonempty;
  same_file = sym at;
  is_id = refl;
  peers_are = refl;
  is_follower = refl;
  none_tracked = refl;
  none_applied = (refl, refl);
}
