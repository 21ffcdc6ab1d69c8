-- ===== src/Storage/Wal.antt =====
-- storage/wal.rs: the write-ahead log, its text format and its replay.

pub mod RoundTrip
use Prim.Native.Nat.{ℕ}
use raft_kv_distributed_kv_s.Prelude.{
  Text, ℕ, Option, IoResult, List, Bool, ◌∷◌, [], ◌++◌, io_error, some, ok, if◌then◌else◌, take,
  none, drop, false, true,
}
use raft_kv_distributed_kv_s.Storage.Lines.{split, text_eq, lines}

pub data Operation : Type 0 where
  put delete : Operation

pub record WalEntry : Type 0 where
  pub operation : Operation
  pub key : Text
  pub value : Option Text

-- The file, and what `BufWriter` holds back.
pub record Wal : Type 0 where
  pub file : Text
  pub buffer : Text

-- How a `sync` ends: done; the flush stopped after so many bytes; or all was written and the call
-- of `sync_all` failed.
pub data SyncResult : Type 0 where
  synced sync_failed : SyncResult
  flush_stopped : ℕ → SyncResult

abbrev pub bar : ℕ
bar = b'|'

abbrev pub newline : ℕ
newline = 10

abbrev pub carriage_return : ℕ
carriage_return = 13

-- "PUT" and "DELETE".
abbrev pub put_tag : Text
put_tag = b'P' ∷ b'U' ∷ b'T' ∷ []

abbrev pub delete_tag : Text
delete_tag = b'D' ∷ b'E' ∷ b'L' ∷ b'E' ∷ b'T' ∷ b'E' ∷ []

abbrev pub or_empty : Option Text → Text
or_empty none = []
or_empty (some t) = t

-- An entry's line, without its end.
unfoldable pub entry_line : Operation → WalEntry → Text
entry_line put e = put_tag ++ bar ∷ (e.key ++ bar ∷ or_empty e.value)
entry_line delete e = delete_tag ++ bar ∷ e.key

unfoldable pub serialize_entry : WalEntry → Text
serialize_entry e = entry_line e.operation e ++ newline ∷ []

unfoldable pub sync : Wal → SyncResult → Wal × IoResult (Unit {0})
sync w synced = (record { file = w.file ++ w.buffer; buffer = [] }, ok tt)
sync w sync_failed = (record { file = w.file ++ w.buffer; buffer = [] }, io_error)
sync w (flush_stopped n) =
    (record { file = w.file ++ take n w.buffer; buffer = drop n w.buffer }, io_error)

unfoldable pub append : Wal → WalEntry → SyncResult → Wal × IoResult (Unit {0})
append w e result = sync (record w { buffer = w.buffer ++ serialize_entry e }) result

unfoldable pub parse_fields : List Text → Option WalEntry
parse_fields (tag ∷ key ∷ value ∷ []) =
    if text_eq tag put_tag
    then some (record { operation = put; key = key; value = some value })
    else none
parse_fields (tag ∷ key ∷ []) =
    if text_eq tag delete_tag
    then some (record { operation = delete; key = key; value = none })
    else none
parse_fields _ = none

unfoldable pub parse_line : Text → Option WalEntry
parse_line line = parse_fields (split bar line)

-- The loop over the lines, where a malformed line is skipped.
unfoldable pub parse_lines : List Text → List WalEntry
parse_lines [] = []
parse_lines (l ∷ ls) = elim (parse_line l) [ none ↦ parse_lines ls | some e ↦ e ∷ parse_lines ls ]

-- `readable` is whether the file can be opened and read as UTF-8.
unfoldable pub replay : Wal → Bool → IoResult (List WalEntry)
replay w false = io_error
replay w true = ok (parse_lines (lines w.file))

-- The entries that the engine appends.
abbrev pub put_entry : Text → Text → WalEntry
put_entry key value = record { operation = put; key = key; value = some value }

abbrev pub delete_entry : Text → WalEntry
delete_entry key = record { operation = delete; key = key; value = none }
