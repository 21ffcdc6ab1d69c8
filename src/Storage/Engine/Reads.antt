-- ===== src/Storage/Engine/Reads.antt =====
-- storage/engine.rs: what a read returns after a write, whether or not the log could be synced.
use raft_kv_distributed_kv_s.Storage.Engine
use raft_kv_distributed_kv_s.Storage.Memtable
use raft_kv_distributed_kv_s.Storage.Wal
use raft_kv_distributed_kv_s.Storage.Memtable.Laws
use raft_kv_distributed_kv_s.Storage.Engine.{
  SyncResult, Bool, StorageEngine, Memtable, flatten, after_append, put_entry, delete_entry,
}
use raft_kv_distributed_kv_s.Storage.Wal.{
  SyncResult, flush_stopped, synced, sync_failed, serialize_entry, put_entry, delete_entry,
}
use raft_kv_distributed_kv_s.Prelude.{
  Bool, true, IoResult, Text, false, ok, ◌≡◌, io_error, if◌then◌else◌, ◌&&◌, some, none, refl, ◌++◌,
  ◌∙◌, arith,
}
use raft_kv_distributed_kv_s.Storage.Memtable.{Memtable}
use raft_kv_distributed_kv_s.Storage.Lines.{text_eq}

abbrev pub is_synced : SyncResult → Bool
is_synced synced = true
is_synced sync_failed = false
is_synced (flush_stopped n) = false

abbrev pub outcome : Bool → IoResult (Unit {0})
outcome true = ok tt
outcome false = io_error

get-after_append :
    (s : StorageEngine) (t : Memtable) (w : Wal.Wal) (r : SyncResult) (j : Text)
    → (flatten (Memtable.get (after_append s t (Wal.sync w r)).0.memtable j)
        ≡ (if is_synced r then flatten (Memtable.get t j) else flatten (Memtable.get s.memtable j)))
      × ((after_append s t (Wal.sync w r)).1 ≡ outcome (is_synced r))
unfolding Wal.sync
get-after_append s t w synced j = (refl, refl)
get-after_append s t w sync_failed j = (refl, refl)
get-after_append s t w (flush_stopped n) j = (refl, refl)

-- A put that is synced is read back at its key, and changes no other key. A put that fails reports
-- the error and changes no key.
pub read_after_put :
    (s : StorageEngine) (k v : Text) (r : SyncResult) (j : Text)
    → (Engine.get (Engine.put s k v r).0 j
        ≡ (if is_synced r && text_eq j k then some v else Engine.get s j))
      × ((Engine.put s k v r).1 ≡ outcome (is_synced r))
unfolding Engine.get Engine.put Wal.append
read_after_put s k v r j =
    let (read, result) =
      get-after_append s (Memtable.put s.memtable k v).0
        (record (s.wal) { buffer = s.wal.buffer ++ serialize_entry (put_entry k v) }) r j in
    (read ∙ rw (Laws.get-put s.memtable k v j) (ground arith), result)

-- A delete that is synced leaves its key with no value, and changes no other key. A delete that fails
-- reports the error and changes no key.
pub read_after_delete :
    (s : StorageEngine) (k : Text) (r : SyncResult) (j : Text)
    → (Engine.get (Engine.delete s k r).0 j
        ≡ (if is_synced r && text_eq j k then none else Engine.get s j))
      × ((Engine.delete s k r).1 ≡ outcome (is_synced r))
unfolding Engine.get Engine.delete Wal.append
read_after_delete s k r j =
    let (read, result) =
      get-after_append s (Memtable.delete s.memtable k).0
        (record (s.wal) { buffer = s.wal.buffer ++ serialize_entry (delete_entry k) }) r j in
    (read ∙ rw (Laws.get-delete s.memtable k j) (ground arith), result)
