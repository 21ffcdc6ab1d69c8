-- ===== src/Storage/Engine/Recovery.antt =====
-- storage/engine.rs: opening the engine again, after a crash or a restart.
use raft_kv_distributed_kv_s.Storage.Engine
use raft_kv_distributed_kv_s.Storage.Memtable
use raft_kv_distributed_kv_s.Storage.Wal
use raft_kv_distributed_kv_s.Storage.Engine.{
  Text, WalEntry, StorageEngine, List, recover, recover_as, put_entry, Memtable, delete_entry,
}
use raft_kv_distributed_kv_s.Prelude.{
  Text, List, ◌∷◌, [], true, ◌≡◌, ◌++◌, ok, refl, sym, ap, ◌∙◌, append-nil,
}
use raft_kv_distributed_kv_s.Storage.Wal.{
  WalEntry, synced, put_entry, delete_entry, serialize_entry, parse_lines,
}
use raft_kv_distributed_kv_s.Storage.Wal.RoundTrip.{
  IsClean, AllClean, written, written-append, replay-written,
}
use raft_kv_distributed_kv_s.Storage.Memtable.{Memtable}
use raft_kv_distributed_kv_s.Storage.Lines.{lines}

-- The calls that change the store.
pub data Write : Type 0 where
  put : (key value : Text) → Write
  delete : (key : Text) → Write

abbrev pub entry_of : Write → WalEntry
entry_of (put k v) = put_entry k v
entry_of (delete k) = delete_entry k

unfoldable pub perform : StorageEngine → Write → StorageEngine
perform s (put k v) = (Engine.put s k v synced).0
perform s (delete k) = (Engine.delete s k synced).0

unfoldable pub performs : StorageEngine → List Write → StorageEngine
performs s [] = s
performs s (w ∷ ws) = performs (perform s w) ws

abbrev pub IsCleanWrite : Write → Type 0
IsCleanWrite w = IsClean (entry_of w)

abbrev pub AllCleanWrites : List Write → Type 0
AllCleanWrites [] = Unit
AllCleanWrites (w ∷ ws) = IsCleanWrite w × AllCleanWrites ws

-- The engine on a new directory.
abbrev pub empty : StorageEngine
empty = record { wal = record { file = []; buffer = [] }; memtable = Memtable.new }

-- The log holds clean entries, all of it written out, and the table is what they rebuild.
pub record Recovers (s : StorageEngine) : Type 0 where
  pub entries : List WalEntry
  pub clean : AllClean entries
  pub file_is : s.wal.file ≡ written entries
  pub flushed : s.wal.buffer ≡ []
  pub table_is : s.memtable ≡ recover Memtable.new entries

-- Opening the file gives back the engine.
pub reopen : (s : StorageEngine) → Recovers s → Engine.new s.wal.file true true ≡ ok s
unfolding Engine.new Wal.replay
reopen s r = λ i.
    ok
      (record { wal = record { file = s.wal.file; buffer = empty_buffer i }; memtable = rebuilt i })
  where
    empty_buffer : [] ≡ s.wal.buffer
    empty_buffer = sym r.flushed

    rebuilt : recover Memtable.new (parse_lines (lines s.wal.file)) ≡ s.memtable
    rebuilt =
        ap (λ f. recover Memtable.new (parse_lines (lines f))) r.file_is
        ∙ ap (recover Memtable.new) (replay-written r.entries r.clean)
        ∙ sym r.table_is

AllClean-append :
    (es : List WalEntry) (e : WalEntry) → AllClean es → IsClean e → AllClean (es ++ e ∷ [])
AllClean-append [] e a c = (c, tt)
AllClean-append (f ∷ es) e a c = (a.0, AllClean-append es e a.1 c)

recover-append :
    (t : Memtable) (es : List WalEntry) (e : WalEntry)
    → recover t (es ++ e ∷ []) ≡ recover_as e.operation (recover t es) e
unfolding recover
recover-append t [] e = refl
recover-append t (f ∷ es) e = recover-append (recover_as f.operation t f) es e

-- One more entry in the file and in the table.
pub extend :
    (s : StorageEngine) (e : WalEntry)
    → IsClean e
    → Recovers s
    → Recovers (record {
      wal = record { file = s.wal.file ++ (s.wal.buffer ++ serialize_entry e); buffer = [] };
      memtable = recover_as e.operation s.memtable e;
    })
unfolding written
extend s e c r = record {
  entries = r.entries ++ e ∷ [];
  clean = AllClean-append r.entries e r.clean c;
  file_is =
      rw (r.flushed, r.file_is, written-append r.entries (e ∷ []))
        (ap (λ z. written r.entries ++ z) (sym (append-nil (serialize_entry e))));
  flushed = refl;
  table_is =
      rw (recover-append Memtable.new r.entries e)
        (ap (λ t. recover_as e.operation t e) r.table_is);
}

perform-Recovers :
    (s : StorageEngine) (w : Write) → IsCleanWrite w → Recovers s → Recovers (perform s w)
unfolding perform Engine.put Engine.delete Wal.append Wal.sync recover_as
perform-Recovers s (put k v) c r = extend s (put_entry k v) c r
perform-Recovers s (delete k) c r = extend s (delete_entry k) c r

pub performs-Recovers :
    (s : StorageEngine) (ws : List Write)
    → AllCleanWrites ws
    → Recovers s
    → Recovers (performs s ws)
unfolding performs
performs-Recovers s [] a r = r
performs-Recovers s (w ∷ ws) a r =
    performs-Recovers (perform s w) ws a.1 (perform-Recovers s w a.0 r)

pub empty-Recovers : Recovers empty
unfolding recover written
empty-Recovers = record {
  entries = [];
  clean = tt;
  file_is = refl;
  flushed = refl;
  table_is = refl;
}

-- After any puts and deletes of clean keys and values that were all synced, opening the file again
-- gives the engine back exactly, the memory table with its size included.
pub reopen_after_writes :
    (ws : List Write)
    → AllCleanWrites ws
    → Engine.new (performs empty ws).wal.file true true ≡ ok (performs empty ws)
reopen_after_writes ws a = reopen (performs empty ws) (performs-Recovers empty ws a empty-Recovers)
