-- ===== src/System/Ledger.antt =====
-- raft/node.rs in the cluster: a record of which node led each term and of the log that it had, which
-- every node and every line in flight agrees with.
pub mod Sent
pub mod Moved
pub mod Led
pub mod Moves
pub mod Steps
pub mod Runs
use raft_kv_distributed_kv_s.System.Winners.{Won}
use raft_kv_distributed_kv_s.Raft.Writes.Entries.{Near}
use Prim.Native.Nat.{ℕ}
use raft_kv_distributed_kv_s.Prelude.{
  ℕ, Option, ◌≡◌, [], inl, some, ◌<◌, ◌⊎◌, inr, length, List, none, word, ◌≤◌, ◌≢◌,
}
use raft_kv_distributed_kv_s.Raft.Matching.{Book, Continues, Traced, Traced-Continues, Part}
use raft_kv_distributed_kv_s.Raft.Matching.Terms.{Below}
use raft_kv_distributed_kv_s.Transport.{MessageJson, Delivery}
use raft_kv_distributed_kv_s.System.{Setting, Delivery, System, Among, members}
use raft_kv_distributed_kv_s.Raft.Message.{AppendEntriesRequest, AppendEntriesResponse}
use raft_kv_distributed_kv_s.Raft.State.{RaftState, leader, candidate, follower}
use raft_kv_distributed_kv_s.System.Sound.{Sound}
use raft_kv_distributed_kv_s.Raft.Quorum.{Among}
use raft_kv_distributed_kv_s.Raft.Node.Step.{append_entries, append_entries_response}
use raft_kv_distributed_kv_s.Raft.Log.{LogEntry}
use raft_kv_distributed_kv_s.Raft.Writes.{AllPositive}

-- The leader of each term.
abbrev pub Owners : Type 0
Owners = ℕ → Option ℕ

-- A request carries no entries, or the rest of a log that is in the book, with no later term than its
-- own.
abbrev pub Asked : Book → AppendEntriesRequest → Type 0
Asked book r =
    (r.entries ≡ []) ⊎ ((es : List LogEntry) × Traced book es × Part es r × Below r.term es)

pub Asked-Continues :
    (old new : Book) (r : AppendEntriesRequest) → Continues old new → Asked old r → Asked new r
Asked-Continues old new r c (inl none_sent) = inl none_sent
Asked-Continues old new r c (inr (es, t, part, below)) =
    inr (es, Traced-Continues old new es c t, part, below)

-- What the lines in flight say of logs.
pub record Genuine (mj : MessageJson) (book : Book) (d : Delivery) : Type 0 where
  pub requests :
      (from : ℕ) (r : AppendEntriesRequest)
      → mj.from_str d.line ≡ some (append_entries from r)
      → Asked book r
  pub replies :
      (from : ℕ) (r : AppendEntriesResponse)
      → mj.from_str d.line ≡ some (append_entries_response from r)
      → Near r.match_index

-- What a node's state says of its log, and of the terms that it led.
pub record Keeper (book : Book) (owner : Owners) (i : ℕ) (s : RaftState) : Type 0 where
  pub traced : Traced book s.log.entries
  pub nonempty : 0 < length s.log.entries
  pub below : Below s.current_term s.log.entries
  pub leads :
      s.role ≡ leader → (owner s.current_term ≡ some i) × (s.log.entries ≡ book s.current_term)
  pub past : (t : ℕ) → owner t ≡ some i → t ≤ s.current_term
  pub stands : s.role ≡ candidate → owner s.current_term ≢ some i
  pub positive : s.role ≢ follower → 0 < s.current_term
  pub indices : AllPositive s.next_index

-- The record agrees with the votes, with every node and with every line in flight.
pub record Ledger (e : Setting) (s : System) (h : Sound e s) : Type 0 where
  pub book : Book
  pub owner : Owners
  pub keepers : (i : ℕ) → Among i (members e) → Keeper book owner i (s.node i).raft.state
  pub won : (t i : ℕ) → owner t ≡ some i → Won (members e) h.cast t i
  pub unowned : (t : ℕ) → owner t ≡ none → 0 < t → book t ≡ []
  pub sentinel_only : length (book 0) ≡ 1
  pub tops : (t : ℕ) → Below t (book t)
  pub bounded : (t : ℕ) → length (book t) < word
  pub lines : (d : Delivery) → Among d s.in_flight → Genuine e.messages book d

-- The record of a later state, in which the logs of leaders are as they were or longer.
pub record Continued (e : Setting) (old : Book) (t : System) (h : Sound e t) : Type 0 where
  pub ledger : Ledger e t h
  pub continues : Continues old ledger.book
