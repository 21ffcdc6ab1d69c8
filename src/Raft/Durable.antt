-- ===== src/Raft/Durable.antt =====
-- raft/persist.rs and raft/node.rs: the state file holds the term, the vote and the log of the node
-- whenever a handler has ended, that is before its actions are carried out.
pub mod Steps
pub mod Entries
pub mod Restart
use raft_kv_distributed_kv_s.Raft.Persist.{Json, PersistentState, StatePersister, save, write}
use raft_kv_distributed_kv_s.Prelude.{Option, Text, ◌≡◌, none, ◌∙◌, some, ap, [], sym, ◌∷◌, List}
use raft_kv_distributed_kv_s.Raft.Node.{RaftNode, persist, save_if_any, persistent, Action}
use raft_kv_distributed_kv_s.Raft.Log.{sentinel}

-- Documented of the JSON library: what it wrote for a state it reads back as that state.
abbrev pub RoundTrips : Json → Type 0
RoundTrips json =
    (state : PersistentState)
    → (text : Text) × (json.to_string_pretty state ≡ some text) × (json.from_str text ≡ some state)

-- A file to which all writes to come succeed.
abbrev pub reliable : Option Text → StatePersister
reliable file = record { file = file; writes = [] }

pub record IsReliable (n : RaftNode) : Type 0 where
  pub file : Option Text
  pub at : n.persister ≡ some (reliable file)

-- The persistent state of a new node.
abbrev pub blank : PersistentState
blank = record { current_term = 0; voted_for = none; log = sentinel ∷ [] }

-- The file is not there yet and the persistent state is that of a new node, or it holds the state.
pub data Durable (json : Json) (n : RaftNode) : Type 0 where
  untouched : n.persister ≡ some (reliable none) → persistent n.state ≡ blank → Durable json n
  saved :
      (text : Text)
      → n.persister ≡ some (reliable (some text))
      → json.from_str text ≡ some (persistent n.state)
      → Durable json n

pub Durable-IsReliable : {json : Json} {n : RaftNode} → Durable json n → IsReliable n
Durable-IsReliable (untouched at _) = record { file = none; at = at }
Durable-IsReliable (saved text at _) = record { file = some text; at = at }

save-reliable :
    (json : Json) (file : Option Text) (state : PersistentState) (text : Text)
    → json.to_string_pretty state ≡ some text
    → (save json (reliable file) state).0 ≡ reliable (some text)
unfolding save write
save-reliable json file state text h = rw (h, save)

-- A save makes the file hold the state, whatever it held.
pub persist-Durable :
    {json : Json} (n : RaftNode) → RoundTrips json → IsReliable n → Durable json (persist json n)
unfolding persist save_if_any
persist-Durable {json} n rt rel =
    let (text, written, read) = rt (persistent n.state) in
    saved text (rw rel.at (ap some (save-reliable json rel.file (persistent n.state) text written)))
      read

-- What neither the file nor the saved fields of the state show.
pub record Quiet (n m : RaftNode) : Type 0 where
  pub same_file : m.persister ≡ n.persister
  pub same_state : persistent m.state ≡ persistent n.state

pub Quiet-Durable : {json : Json} {n m : RaftNode} → Quiet n m → Durable json n → Durable json m
Quiet-Durable q (untouched at new) = untouched (q.same_file ∙ at) (q.same_state ∙ new)
Quiet-Durable q (saved text at read) =
    saved text (q.same_file ∙ at) (read ∙ ap some (sym q.same_state))

-- The same for a node with its actions.
pub record Lasts (json : Json) (r : RaftNode × List Action) : Type 0 where
  pub kept : Durable json r.0

pub quiet :
    {json : Json} (n m : RaftNode) (actions : List Action)
    → m.persister ≡ n.persister
    → persistent m.state ≡ persistent n.state
    → Durable json n
    → Lasts json (m, actions)
quiet n m actions f s d = record {
  kept = Quiet-Durable (record { same_file = f; same_state = s }) d;
}

-- A change of the state that is saved.
pub persist_after :
    {json : Json} (n m : RaftNode)
    → RoundTrips json
    → m.persister ≡ n.persister
    → Durable json n
    → Durable json (persist json m)
persist_after n m rt e d =
    let rel = Durable-IsReliable d in
    persist-Durable m rt (record { file = rel.file; at = e ∙ rel.at })

pub persisted :
    {json : Json} (n m : RaftNode) (actions : List Action)
    → RoundTrips json
    → m.persister ≡ n.persister
    → Durable json n
    → Lasts json (persist json m, actions)
persisted n m actions rt e d = record { kept = persist_after n m rt e d }
