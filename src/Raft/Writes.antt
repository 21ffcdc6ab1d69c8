-- ===== src/Raft/Writes.antt =====
-- raft/node.rs: what each handler does to the log, to the role and to the indices of the followers, and
-- which requests and replies it sends.
pub mod Actions
pub mod Elections
pub mod Entries
pub mod Follower
use raft_kv_distributed_kv_s.Prelude.{
  List, ℕ, ◌≡◌, Option, [], some, ◌∷◌, ◌<◌, ◌⊎◌, length, ◌+◌, word, ◌++◌, ◌≢◌, next_word, ◌-◌, ◌≤◌,
}
use raft_kv_distributed_kv_s.Raft.Log.{RaftLog, LogEntry, term_at}
use raft_kv_distributed_kv_s.Raft.State.{RaftState, follower, candidate, leader}
use raft_kv_distributed_kv_s.Raft.Message.{AppendEntriesRequest, AppendEntriesResponse}
use raft_kv_distributed_kv_s.Raft.Node.{
  Action, RaftNode, send_append_entries, send_append_entries_response, send_request_vote,
  send_request_vote_response, apply_entry,
}
use raft_kv_distributed_kv_s.Raft.Writes.Actions.{All}
use raft_kv_distributed_kv_s.Raft.Matching.{Part}
use raft_kv_distributed_kv_s.Raft.Merge.{merged}

-- Every known next index is past the sentinel.
abbrev pub AllPositive : List (ℕ × ℕ) → Type 0
AllPositive [] = Unit
AllPositive ((id, index) ∷ rest) = (0 < index) × AllPositive rest

-- A request for a log carries no entries, or the rest of the log, in the term of the sender.
abbrev pub Lawful : ℕ → RaftLog → AppendEntriesRequest → Type 0
Lawful term log r = (r.entries ≡ []) ⊎ (Part log.entries r × (r.term ≡ term))

-- A reply names an index of the log, which is not empty.
abbrev pub Inside : RaftLog → AppendEntriesResponse → Type 0
Inside log r = (m : ℕ) → r.match_index ≡ some m → 0 < length log.entries → m < length log.entries

abbrev pub Sends : ℕ → RaftLog → Action → Type 0
Sends term log (send_append_entries to r) = Lawful term log r
Sends term log (send_append_entries_response to r) = Inside log r
Sends term log (send_request_vote to r) = Unit
Sends term log (send_request_vote_response to r) = Unit
Sends term log (apply_entry index c) = Unit

-- How role and term move.
pub data Office (s t : RaftState) : Type 0 where
  resigned : t.role ≡ follower → Office s t
  stayed : t.role ≡ s.role → t.current_term ≡ s.current_term → Office s t
  elected : s.role ≡ candidate → t.role ≡ leader → t.current_term ≡ s.current_term → Office s t
  stood : s.current_term < t.current_term → Office s t

-- How the log moves, when the requests that arrive are of one kind.
pub data LogMove (Asked : AppendEntriesRequest → Type 0) (s t : RaftState) : Type 0 where
  kept : t.log ≡ s.log → LogMove Asked s t
  appended :
      (x : LogEntry)
      → s.role ≡ leader
      → t.role ≡ leader
      → t.current_term ≡ s.current_term
      → x.term ≡ s.current_term
      → length s.log.entries + 1 < word
      → t.log.entries ≡ s.log.entries ++ x ∷ []
      → LogMove Asked s t
  took :
      (r : AppendEntriesRequest)
      → Asked r
      → r.entries ≢ []
      → term_at s.log r.prev_log_index ≡ r.prev_log_term
      → t.role ≡ follower
      → r.term ≤ t.current_term
      → t.log.entries ≡ merged s.log (next_word r.prev_log_index) r.entries
      → LogMove Asked s t

pub record Writes (Asked : AppendEntriesRequest → Type 0) (s : RaftState)
    (r : RaftNode × List Action) : Type 0 where
  pub office : Office s r.0.state
  pub log : LogMove Asked s r.0.state
  pub indices : AllPositive r.0.state.next_index
  pub sends : All (Sends r.0.state.current_term r.0.state.log) r.1

-- No request arrives.
abbrev pub Unasked : AppendEntriesRequest → Type 0
Unasked r = ⊥

pub Writes-Asked :
    (Asked : AppendEntriesRequest → Type 0) (s : RaftState) (r : RaftNode × List Action)
    → Writes Unasked s r
    → Writes Asked s r
Writes-Asked Asked s r w = record {
  office = w.office;
  log = log_of w.log;
  indices = w.indices;
  sends = w.sends;
}
  where
    log_of : LogMove Unasked s r.0.state → LogMove Asked s r.0.state
    log_of (kept e) = kept e
    log_of (appended x a b c d e f) = appended x a b c d e f
    log_of (took q a b c d e f) = absurd a
