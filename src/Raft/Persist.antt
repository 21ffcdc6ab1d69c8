-- ===== src/Raft/Persist.antt =====
-- raft/persist.rs: the state file. The JSON library is a parameter; the file system's answers to
-- the writes are a list in the persister's state.
use raft_kv_distributed_kv_s.Prelude.{
  ℕ, Text, IoResult, ok, io_error, Bool, true, false, Option, none, some, List, [], ◌∷◌, take,
}
use raft_kv_distributed_kv_s.Raft.Log.{LogEntry}

pub record PersistentState : Type 0 where
  pub current_term : ℕ
  pub voted_for : Option ℕ
  pub log : List LogEntry

-- `serde_json`: `none` stands for an error.
pub record Json : Type 0 where
  pub to_string_pretty : PersistentState → Option Text
  pub from_str : Text → Option PersistentState

-- How one `fs::write` ends: done; the file could not be opened; or it was truncated and only so
-- many bytes were written.
pub data WriteResult : Type 0 where
  written refused : WriteResult
  torn : ℕ → WriteResult

-- The file at the persister's path, and the results of the writes to come (done, at the end of
-- the list).
pub record StatePersister : Type 0 where
  pub file : Option Text
  pub writes : List WriteResult

write_as : List WriteResult → StatePersister → Text → StatePersister × IoResult (Unit {0})
write_as [] p text = (record { file = some text; writes = [] }, ok tt)
write_as (written ∷ ws) p text = (record { file = some text; writes = ws }, ok tt)
write_as (refused ∷ ws) p text = (record { file = p.file; writes = ws }, io_error)
write_as (torn n ∷ ws) p text = (record { file = some (take n text); writes = ws }, io_error)

-- `fs::write`
unfoldable pub write : StatePersister → Text → StatePersister × IoResult (Unit {0})
unfolding write_as
write p text = write_as p.writes p text

unfoldable pub save : Json → StatePersister → PersistentState → StatePersister × IoResult (Unit {0})
unfolding write
save json p state = elim (json.to_string_pretty state) [
  | none ↦ (p, io_error)
  | some text ↦ write p text
]

-- `readable` is whether `fs::read_to_string` succeeds on an existing file.
unfoldable pub load : Json → StatePersister → Bool → IoResult (Option PersistentState)
load json p readable = elim p.file [
  | none ↦ ok none
  | some text ↦ elim readable [
    | false ↦ io_error
    | true ↦ elim (json.from_str text) [ none ↦ io_error | some state ↦ ok (some state) ]
  ]
]
