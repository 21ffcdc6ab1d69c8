-- ===== src/Storage/Engine.antt =====
-- storage/engine.rs: the write-ahead log and the memory table together.
pub mod Recovery
pub mod Reads
pub mod Refines
pub mod Losses
use raft_kv_distributed_kv_s.Storage.Wal
use raft_kv_distributed_kv_s.Storage.Memtable
use raft_kv_distributed_kv_s.Storage.Wal.{
  Wal, WalEntry, Operation, or_empty, SyncResult, put_entry, delete_entry,
}
use raft_kv_distributed_kv_s.Storage.Memtable.{Memtable}
use raft_kv_distributed_kv_s.Prelude.{
  List, IoResult, Text, Option, ◌∷◌, ok, Bool, some, none, io_error, [], false, true,
}

pub record StorageEngine : Type 0 where
  pub wal : Wal
  pub memtable : Memtable

-- One entry of the replay loop.
unfoldable pub recover_as : Operation → Memtable → WalEntry → Memtable
recover_as Operation.put t e = (Memtable.put t e.key (or_empty e.value)).0
recover_as Operation.delete t e = (Memtable.delete t e.key).0

unfoldable pub recover : Memtable → List WalEntry → Memtable
recover t [] = t
recover t (e ∷ es) = recover (recover_as e.operation t e) es

abbrev pub recovered : Wal → IoResult (List WalEntry) → IoResult StorageEngine
recovered w io_error = io_error
recovered w (ok es) = ok (record { wal = w; memtable = recover Memtable.new es })

-- Opening the engine on a file. `opened` is whether the directory and the file could be made or
-- opened, `readable` whether the file can be read.
unfoldable pub new : Text → Bool → Bool → IoResult StorageEngine
unfolding recover
new file false readable = io_error
new file true readable =
    let w : Wal = record { file = file; buffer = [] } in recovered w (Wal.replay w readable)

-- The memory table changes only after the log was synced.
abbrev pub after_append :
    StorageEngine → Memtable → Wal × IoResult (Unit {0}) → StorageEngine × IoResult (Unit {0})
after_append s t (w, ok _) = (record { wal = w; memtable = t }, ok tt)
after_append s t (w, io_error) = (record s { wal = w }, io_error)

unfoldable pub put : StorageEngine → Text → Text → SyncResult → StorageEngine × IoResult (Unit {0})
put s key value result =
    after_append s (Memtable.put s.memtable key value).0
      (Wal.append s.wal (put_entry key value) result)

unfoldable pub delete : StorageEngine → Text → SyncResult → StorageEngine × IoResult (Unit {0})
delete s key result =
    after_append s (Memtable.delete s.memtable key).0 (Wal.append s.wal (delete_entry key) result)

abbrev pub flatten : Option (Option Text) → Option Text
flatten none = none
flatten (some v) = v

unfoldable pub get : StorageEngine → Text → Option Text
get s key = flatten (Memtable.get s.memtable key)
