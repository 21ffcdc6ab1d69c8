-- ===== src/Storage/Memtable.antt =====
-- storage/memtable.rs: the memory table, where `none` marks a deleted key.
pub mod Laws
use raft_kv_distributed_kv_s.OrderedMap
use raft_kv_distributed_kv_s.OrderedMap.{BTreeMap, insert}
use raft_kv_distributed_kv_s.OrderedMap.Orders.{text_order}
use Prim.Native.String.{[]}
use Prim.Native.Nat.{ℕ}
use raft_kv_distributed_kv_s.Prelude.{
  Text, [], ℕ, Bool, List, Option, length, none, true, ◌+◌, ◌∷◌, some, false, ◌%◌, word,
}

pub record Memtable : Type 0 where
  pub entries : BTreeMap Text (Option Text)
  pub size_bytes : ℕ

abbrev pub new : Memtable
new = record { entries = []; size_bytes = 0 }

-- The table and the size that was added; the total is kept on 64 bits.
unfoldable pub put : Memtable → Text → Text → Memtable × ℕ
put t key value =
    let added = length key + length value in
    (
      record {
        entries = insert key (some value) t.entries;
        size_bytes = (t.size_bytes + added) % word;
      },
      added,
    )

unfoldable pub delete : Memtable → Text → Memtable × ℕ
delete t key = (
  record { entries = insert key none t.entries; size_bytes = (t.size_bytes + length key) % word },
  length key,
)

unfoldable pub get : Memtable → Text → Option (Option Text)
get t key = OrderedMap.get key t.entries

unfoldable pub size : Memtable → ℕ
size t = t.size_bytes

unfoldable pub len : Memtable → ℕ
len t = length t.entries

unfoldable pub is_empty : Memtable → Bool
is_empty t = elim t.entries [ [] ↦ true | _ ∷ _ ↦ false ]

unfoldable pub iter : Memtable → List (Text × Option Text)
iter t = t.entries

unfoldable pub clear : Memtable → Memtable
clear t = record { entries = []; size_bytes = 0 }
