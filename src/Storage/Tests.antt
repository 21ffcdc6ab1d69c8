-- ===== src/Storage/Tests.antt =====
-- Examples of engines and log files.
use raft_kv_distributed_kv_s.OrderedMap
use raft_kv_distributed_kv_s.Storage.Engine
use raft_kv_distributed_kv_s.Storage.Engine.Recovery
use raft_kv_distributed_kv_s.Storage.Wal.RoundTrip
use raft_kv_distributed_kv_s.Storage.Memtable
use raft_kv_distributed_kv_s.Prelude.{
  List, [], ◌∷◌, ◌++◌, ◌≡◌, refl, arith, some, Text, ok, io_error, true, none,
}
use raft_kv_distributed_kv_s.Storage.Engine.Recovery.{
  Write, AllCleanWrites, performs, Recovers, reopen_after_writes, performs-Recovers, empty-Recovers,
}
use raft_kv_distributed_kv_s.Storage.Engine.{StorageEngine}
use raft_kv_distributed_kv_s.Storage.Wal.{
  sync_failed, synced, flush_stopped, bar, put_entry, delete_entry, SyncResult,
}
use raft_kv_distributed_kv_s.Storage.Lines.{strip_return}
use raft_kv_distributed_kv_s.Storage.Wal.RoundTrip.{IsClean}
use raft_kv_distributed_kv_s.Storage.Engine.Losses.{failed_put_comes_back, bar_value_is_lost}
use raft_kv_distributed_kv_s.Storage.Engine.Refines.{
  Client, KeyValues, Implements, attempt_run, specified_run, attempt_run-Implements,
}

abbrev a : Text
a = b'a' ∷ []

abbrev b : Text
b = b'b' ∷ []

abbrev writes : List Write
writes = Recovery.put a b ∷ Recovery.put b [] ∷ Recovery.delete a ∷ []

put_a-IsClean : IsClean (put_entry a b)
unfolding strip_return
put_a-IsClean = RoundTrip.put a b (ground arith) (ground arith) (ground arith) (ground arith) refl

put_b-IsClean : IsClean (put_entry b [])
unfolding strip_return
put_b-IsClean = RoundTrip.put b [] (ground arith) (ground arith) (ground arith) (ground arith) refl

delete_a-IsClean : IsClean (delete_entry a)
unfolding strip_return
delete_a-IsClean = RoundTrip.delete a (ground arith) (ground arith) refl

writes-AllCleanWrites : AllCleanWrites writes
writes-AllCleanWrites = (put_a-IsClean, (put_b-IsClean, (delete_a-IsClean, tt)))

reopen_after_writes_example :
    Engine.new (performs Recovery.empty writes).wal.file true true
    ≡ ok (performs Recovery.empty writes)
reopen_after_writes_example = reopen_after_writes writes writes-AllCleanWrites

abbrev store : StorageEngine
store = performs Recovery.empty writes

store-Recovers : Recovers store
store-Recovers = performs-Recovers Recovery.empty writes writes-AllCleanWrites empty-Recovers

-- The value "b|a".
bar_value_is_lost_example :
    let (t, result) = Engine.put store a (b ++ bar ∷ a) synced in
    (result ≡ ok tt)
    × (Engine.get t a ≡ some (b ++ bar ∷ a))
    × (Engine.new t.wal.file true true ≡ ok (record t { memtable = store.memtable }))
unfolding strip_return
bar_value_is_lost_example =
    bar_value_is_lost store a b a store-Recovers (ground arith) (ground arith) (ground arith)
      (ground arith) refl

failed_put_comes_back_example :
    let (t, result) = Engine.put store a b sync_failed in
    (result ≡ io_error)
    × (t.memtable ≡ store.memtable)
    × (Engine.new t.wal.file true true
        ≡ ok (record t { memtable = (Memtable.put store.memtable a b).0 }))
failed_put_comes_back_example = failed_put_comes_back store a b store-Recovers put_a-IsClean

-- An engine with no entries and the empty map, and three writes, of which the second fails.
abbrev client : Client
client = record { engine = Recovery.empty; results = [] }

abbrev nothing : KeyValues
nothing = record { value = λ _. none; results = [] }

abbrev attempts : List (Write × SyncResult)
attempts =
    (Recovery.put a b, synced)
    ∷ (Recovery.delete a, sync_failed)
    ∷ (Recovery.put b b, flush_stopped 2)
    ∷ []

client-Implements : Implements client nothing
unfolding Engine.get Memtable.get OrderedMap.get
client-Implements = record { reads = λ k. refl; same_results = refl }

attempt_run-Implements_example :
    Implements (attempt_run client attempts) (specified_run nothing attempts)
attempt_run-Implements_example = attempt_run-Implements client nothing attempts client-Implements
