-- ===== src/Storage/Memtable/Laws.antt =====
-- storage/memtable.rs: reads after writes, and the order of the entries.
use raft_kv_distributed_kv_s.Storage.Memtable
use raft_kv_distributed_kv_s.Storage.Memtable.{Memtable, Text}
use raft_kv_distributed_kv_s.Prelude.{Text, ◌≡◌, if◌then◌else◌, some, Bool-cases, none, inl, inr}
use raft_kv_distributed_kv_s.Storage.Lines.{text_eq, text_eq_iff}
use raft_kv_distributed_kv_s.OrderedMap.Laws.{get-insert_self, get-insert_ne}
use raft_kv_distributed_kv_s.OrderedMap.Orders.{text_order}

-- A key that is written is found with its value, as a tombstone if it was deleted; other keys read as
-- before.
pub get-put :
    (t : Memtable) (k v j : Text)
    → Memtable.get (Memtable.put t k v).0 j
      ≡ (if text_eq j k then some (some v) else Memtable.get t j)
unfolding Memtable.get Memtable.put
get-put t k v j = elim (Bool-cases (text_eq j k)) [
  | inl same ↦
      rw (same, (text_eq_iff j k).0 same) (get-insert_self ⦃o = text_order⦄ k (some v) t.entries)
  | inr other ↦
      rw other
        (get-insert_ne ⦃o = text_order⦄ k j (some v) t.entries (λ e. cc ((text_eq_iff j k).1 e)))
]

pub get-delete :
    (t : Memtable) (k j : Text)
    → Memtable.get (Memtable.delete t k).0 j ≡ (if text_eq j k then some none else Memtable.get t j)
unfolding Memtable.get Memtable.delete
get-delete t k j = elim (Bool-cases (text_eq j k)) [
  | inl same ↦
      rw (same, (text_eq_iff j k).0 same) (get-insert_self ⦃o = text_order⦄ k none t.entries)
  | inr other ↦
      rw other (get-insert_ne ⦃o = text_order⦄ k j none t.entries (λ e. cc ((text_eq_iff j k).1 e)))
]
