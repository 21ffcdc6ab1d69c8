-- ===== src/Raft/Log.antt =====
-- raft/log.rs: the replicated log, entry 0 being a sentinel of term 0.
use raft_kv_distributed_kv_s.Prelude.{
  ℕ, Text, Option, none, some, List, [], ◌∷◌, ◌++◌, ltb, leb, if◌then◌else◌, length, get_elem?,
  take, drop, prev_word,
}

pub data LogCommand : Type 0 where
  put : Text → Text → LogCommand
  delete : Text → LogCommand
  noop : LogCommand

pub record LogEntry : Type 0 where
  pub term : ℕ
  pub command : LogCommand

pub record RaftLog : Type 0 where
  pub entries : List LogEntry

abbrev pub sentinel : LogEntry
sentinel = record { term = 0; command = noop }

abbrev pub new : RaftLog
new = record { entries = sentinel ∷ [] }

unfoldable pub get : RaftLog → ℕ → Option LogEntry
get log index = get_elem? log.entries index

-- `len() - 1` wraps on an empty vector, which no log of the program is.
unfoldable pub last_index : RaftLog → ℕ
last_index log = prev_word (length log.entries)

abbrev pub term_or_zero : Option LogEntry → ℕ
term_or_zero none = 0
term_or_zero (some e) = e.term

abbrev pub last_entry : List LogEntry → Option LogEntry
last_entry [] = none
last_entry (e ∷ []) = some e
last_entry (e ∷ f ∷ es) = last_entry (f ∷ es)

unfoldable pub last_term : RaftLog → ℕ
last_term log = term_or_zero (last_entry log.entries)

unfoldable pub term_at : RaftLog → ℕ → ℕ
term_at log index = term_or_zero (get_elem? log.entries index)

unfoldable pub append_entries : RaftLog → List LogEntry → RaftLog
append_entries log es = record { entries = log.entries ++ es }

unfoldable pub append : RaftLog → LogEntry → RaftLog
append log e = record { entries = log.entries ++ e ∷ [] }

unfoldable pub truncate_from : RaftLog → ℕ → RaftLog
truncate_from log index =
    if ltb index (length log.entries) then record { entries = take index log.entries } else log

unfoldable pub entries_from : RaftLog → ℕ → List LogEntry
entries_from log start = if leb (length log.entries) start then [] else drop start log.entries

unfoldable pub len : RaftLog → ℕ
len log = prev_word (length log.entries)

unfoldable pub from_entries : List LogEntry → RaftLog
from_entries [] = new
from_entries (e ∷ es) = record { entries = e ∷ es }

unfoldable pub to_entries : RaftLog → List LogEntry
to_entries log = log.entries
