-- ===== src/Main/Integration/Storage.antt =====
-- main.rs: the tests of the write-ahead log, of the memory table and of the engine.
use raft_kv_distributed_kv_s.OrderedMap
use raft_kv_distributed_kv_s.OrderedMap.Orders
use raft_kv_distributed_kv_s.Storage.Lines
use raft_kv_distributed_kv_s.Storage.Wal
use raft_kv_distributed_kv_s.Storage.Memtable
use raft_kv_distributed_kv_s.Storage.Engine
use raft_kv_distributed_kv_s.Storage.Wal.{Wal, WalEntry, Operation, put_entry, delete_entry, synced}
use raft_kv_distributed_kv_s.Storage.Lines.{text_eq}
use raft_kv_distributed_kv_s.Storage.Engine.{StorageEngine}
use raft_kv_distributed_kv_s.Main.Integration.{
  all_hold, option_eq, is_none, operation_eq, is_ok, Option, IoResult, Bool, false, List, [], true,
  some, ok, none,
}
use raft_kv_distributed_kv_s.Prelude.{
  Text, Option, IoResult, Bool, ◌≡◌, codes, false, List, [], true, some, ok, ◌∷◌, refl, length,
  ◌==◌, ◌&&◌, none, get_elem?, ltb, io_error,
}

abbrev name : Text
name = codes "name"

abbrev balance : Text
balance = codes "balance"

abbrev city : Text
city = codes "city"

abbrev uday : Text
uday = codes "uday"

abbrev amount : Text
amount = codes "5000"

abbrev entry_holds : Option WalEntry → Text → Operation → Option Text → Bool
entry_holds none key operation value = false
entry_holds (some e) key operation value =
    text_eq e.key key && operation_eq e.operation operation && option_eq text_eq e.value value

abbrev entries_hold : IoResult (List WalEntry) → Bool
entries_hold io_error = false
entries_hold (ok entries) = all_hold (
    (length entries == 3)
    ∷ entry_holds (get_elem? entries 0) name Operation.put (some uday)
    ∷ entry_holds (get_elem? entries 1) balance Operation.put (some amount)
    ∷ entry_holds (get_elem? entries 2) name Operation.delete none
    ∷ [])

-- The log is opened twice: what the second opening reads is the file of the first.
unfoldable test_wal_append_and_replay : Bool
test_wal_append_and_replay =
    let (w1, r1) = Wal.append (record { file = []; buffer = [] }) (put_entry name uday) synced in
    let (w2, r2) = Wal.append w1 (put_entry balance amount) synced in
    let (w3, r3) = Wal.append w2 (delete_entry name) synced in
    all_hold (
      is_ok r1
      ∷ is_ok r2
      ∷ is_ok r3
      ∷ entries_hold (Wal.replay (record { file = w3.file; buffer = [] }) true)
      ∷ [])

wal_test : test_wal_append_and_replay ≡ true
unfolding test_wal_append_and_replay Wal.append Wal.sync Wal.replay Wal.parse_lines Lines.lines
    Wal.serialize_entry Wal.entry_line Wal.parse_line Wal.parse_fields Lines.split
    Lines.strip_return text_eq
wal_test = refl

abbrev reads : Option (Option Text) → Option (Option Text) → Bool
reads = option_eq (option_eq text_eq)

unfoldable test_memtable_basic_operations : Bool
test_memtable_basic_operations =
    let t0 = Memtable.new in
    let t1 = (Memtable.put t0 name uday).0 in
    let t2 = (Memtable.put t1 name (codes "pranay")).0 in
    let t3 = (Memtable.put t2 balance amount).0 in
    let t4 = (Memtable.delete t3 name).0 in
    let t5 = Memtable.clear t4 in
    all_hold (
      is_none (Memtable.get t0 name)
      ∷ Memtable.is_empty t0
      ∷ reads (Memtable.get t1 name) (some (some uday))
      ∷ (Memtable.len t1 == 1)
      ∷ reads (Memtable.get t2 name) (some (some (codes "pranay")))
      ∷ (Memtable.len t2 == 1)
      ∷ (Memtable.len t3 == 2)
      ∷ reads (Memtable.get t3 balance) (some (some amount))
      ∷ reads (Memtable.get t4 name) (some none)
      ∷ is_none (Memtable.get t4 (codes "nonexistent"))
      ∷ reads (Memtable.get t4 name) (some none)
      ∷ ltb 0 (Memtable.size t4)
      ∷ Memtable.is_empty t5
      ∷ (Memtable.size t5 == 0)
      ∷ is_none (Memtable.get t5 name)
      ∷ [])

memtable_test : test_memtable_basic_operations ≡ true
unfolding test_memtable_basic_operations Memtable.get OrderedMap.get Memtable.is_empty Memtable.put
    OrderedMap.insert Orders.text_lt text_eq Memtable.len Memtable.delete Memtable.size
    Memtable.clear
memtable_test = refl

-- The engine that is opened on the file that the first one left.
abbrev recovered_holds : IoResult StorageEngine → Bool
recovered_holds io_error = false
recovered_holds (ok e) = all_hold (
    option_eq text_eq (Engine.get e name) (some uday)
    ∷ option_eq text_eq (Engine.get e balance) (some amount)
    ∷ option_eq text_eq (Engine.get e city) none
    ∷ option_eq text_eq (Engine.get e (codes "nonexistent")) none
    ∷ [])

abbrev lifetimes : IoResult StorageEngine → Bool
lifetimes io_error = false
lifetimes (ok e0) =
    let (e1, r1) = Engine.put e0 name uday synced in
    let (e2, r2) = Engine.put e1 balance amount synced in
    let (e3, r3) = Engine.put e2 city (codes "kharagpur") synced in
    let (e4, r4) = Engine.delete e3 city synced in
    all_hold (
      is_ok r1
      ∷ is_ok r2
      ∷ is_ok r3
      ∷ is_ok r4
      ∷ option_eq text_eq (Engine.get e4 name) (some uday)
      ∷ option_eq text_eq (Engine.get e4 balance) (some amount)
      ∷ option_eq text_eq (Engine.get e4 city) none
      ∷ recovered_holds (Engine.new e4.wal.file true true)
      ∷ [])

unfoldable test_engine_crash_recovery : Bool
test_engine_crash_recovery = lifetimes (Engine.new [] true true)

engine_test : test_engine_crash_recovery ≡ true
unfolding test_engine_crash_recovery Engine.new Engine.put Engine.delete Engine.get Engine.recover
    Engine.recover_as Wal.append Wal.sync Wal.replay Wal.parse_lines Lines.lines Wal.serialize_entry
    Wal.entry_line Wal.parse_line Wal.parse_fields Lines.split Lines.strip_return text_eq
    Memtable.get OrderedMap.get Memtable.put OrderedMap.insert Orders.text_lt Memtable.delete
engine_test = refl
