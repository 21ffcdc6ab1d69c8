-- ===== src/Storage/Engine/Losses.antt =====
-- storage/engine.rs: where the memory table and the log come apart.
use raft_kv_distributed_kv_s.Storage.Engine
use raft_kv_distributed_kv_s.Storage.Memtable
use raft_kv_distributed_kv_s.Storage.Wal
use raft_kv_distributed_kv_s.Storage.Wal.{
  parse_fields, parse_line, bar, entry_line, newline, put_entry, sync_failed, Operation, synced,
  serialize_entry, parse_lines, WalEntry,
}
use raft_kv_distributed_kv_s.Storage.Engine.{StorageEngine, Text, put_entry, Operation, WalEntry}
use raft_kv_distributed_kv_s.Storage.Lines.{
  split_from, Lacks, strip_return, split_from-field, lines, text_eq_self,
}
use raft_kv_distributed_kv_s.Prelude.{
  Text, ℕ, List, ◌≢◌, [], ◌∷◌, ◌++◌, arith, ◌≡◌, none, io_error, ok, true, refl, some, ap, sym,
  append-nil, ◌∙◌,
}
use raft_kv_distributed_kv_s.Storage.Engine.Recovery.{Recovers, reopen, extend}
use raft_kv_distributed_kv_s.Storage.Wal.RoundTrip.{
  IsClean, split-put, replay-append, skip_line, put_line-Lacks, strip_return-put_line,
}
use raft_kv_distributed_kv_s.Storage.Engine.Reads.{read_after_put}

-- The line of a value with a separator has more than three fields.
split_from-ne : (seen : Text) (sep : ℕ) (t : Text) → split_from seen sep t ≢ []
unfolding split_from
split_from-ne seen sep [] e = cc
split_from-ne seen sep (c ∷ t) e = ground (arith, split_from-ne (seen ++ c ∷ []) sep t)

four_fields : (a b c : Text) (rest : List Text) → rest ≢ [] → parse_fields (a ∷ b ∷ c ∷ rest) ≡ none
unfolding parse_fields
four_fields a b c [] h = absurd (h refl)
four_fields a b c (d ∷ rest) h = refl

parse-bar :
    (key front back : Text)
    → Lacks bar key
    → Lacks bar front
    → parse_line (entry_line Operation.put (put_entry key (front ++ bar ∷ back))) ≡ none
unfolding parse_line
parse-bar key front back h k =
    rw (split-put key (front ++ bar ∷ back) h, split_from-field [] bar front back k)
      (four_fields _ _ _ (split_from [] bar back) (split_from-ne [] bar back))

parse_lines-nil : parse_lines (lines []) ≡ []
unfolding parse_lines lines
parse_lines-nil = refl

skipped_put :
    (key value : Text)
    → Lacks newline key
    → Lacks newline value
    → strip_return value ≡ value
    → parse_line (entry_line Operation.put (put_entry key value)) ≡ none
    → parse_lines (lines (serialize_entry (put_entry key value))) ≡ []
unfolding serialize_entry
skipped_put key value kn vn vr h =
    ap (λ z. parse_lines (lines z)) (sym (append-nil _))
    ∙ skip_line (entry_line Operation.put (put_entry key value)) [] (put_line-Lacks key value kn vn)
        (strip_return-put_line key value vr) h
    ∙ parse_lines-nil

-- Opening a file whose last entry is skipped.
reopen_skipping :
    (s : StorageEngine) (e : WalEntry)
    → Recovers s
    → parse_lines (lines (serialize_entry e)) ≡ []
    → Engine.new (s.wal.file ++ (s.wal.buffer ++ serialize_entry e)) true true
      ≡ ok (record {
        wal = record { file = s.wal.file ++ (s.wal.buffer ++ serialize_entry e); buffer = [] };
        memtable = s.memtable;
      })
unfolding Engine.new Wal.replay
reopen_skipping s e r skipped =
    ap
      (λ t. ok (record {
        wal = record { file = s.wal.file ++ (s.wal.buffer ++ serialize_entry e); buffer = [] };
        memtable = t;
      }))
      (ap (Engine.recover Memtable.new) read ∙ sym r.table_is)
  where
    read : parse_lines (lines (s.wal.file ++ (s.wal.buffer ++ serialize_entry e))) ≡ r.entries
    read =
        rw (r.file_is, r.flushed, replay-append r.entries (serialize_entry e) r.clean, skipped)
          (append-nil r.entries)

-- On an engine that recovers, a put whose value has a separator but no newline and no return at its
-- end, under a key with neither separator nor newline, is acknowledged and read
-- back, and is gone when the engine is opened again: the table is the one from before the put.
pub bar_value_is_lost :
    (s : StorageEngine) (key front back : Text)
    → Recovers s
    → Lacks bar key
    → Lacks newline key
    → Lacks bar front
    → Lacks newline (front ++ bar ∷ back)
    → strip_return (front ++ bar ∷ back) ≡ front ++ bar ∷ back
    → let (t, result) = Engine.put s key (front ++ bar ∷ back) synced in
      (result ≡ ok tt)
      × (Engine.get t key ≡ some (front ++ bar ∷ back))
      × (Engine.new t.wal.file true true ≡ ok (record t { memtable = s.memtable }))
unfolding Engine.put Wal.append Wal.sync
bar_value_is_lost s key front back r kb kn fb vn vr = (
  (read_after_put s key value synced key).1,
  (read_after_put s key value synced key).0 ∙ rw (text_eq_self key),
  reopened,
)
  where
    value : Text
    value = front ++ bar ∷ back

    skipped : parse_lines (lines (serialize_entry (put_entry key value))) ≡ []
    skipped = skipped_put key value kn vn vr (parse-bar key front back kb fb)

    reopened :
        Engine.new (Engine.put s key value synced).0.wal.file true true
        ≡ ok (record ((Engine.put s key value synced).0) { memtable = s.memtable })
    reopened = reopen_skipping s (put_entry key value) r skipped

-- On an engine that recovers, a put of a clean entry whose last system call fails reports an error and leaves the table alone, and yet the value
-- is there when the engine is opened again.
pub failed_put_comes_back :
    (s : StorageEngine) (key value : Text)
    → Recovers s
    → IsClean (put_entry key value)
    → let (t, result) = Engine.put s key value sync_failed in
      (result ≡ io_error)
      × (t.memtable ≡ s.memtable)
      × (Engine.new t.wal.file true true
          ≡ ok (record t { memtable = (Memtable.put s.memtable key value).0 }))
unfolding Engine.put Wal.append Wal.sync Memtable.put Engine.recover_as
failed_put_comes_back s key value r c = (refl, refl, reopen _ (extend s (put_entry key value) c r))
