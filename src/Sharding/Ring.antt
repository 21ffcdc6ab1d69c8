-- ===== src/Sharding/Ring.antt =====
-- sharding/ring.rs: consistent hashing with virtual nodes.
pub mod Owner
pub mod Clockwise
pub mod Sorted
use Prim.Native.Nat.{bit_xor, ℕ, suc}
use raft_kv_distributed_kv_s.OrderedMap
use raft_kv_distributed_kv_s.OrderedMap.{BTreeMap, first_from, retain}
use raft_kv_distributed_kv_s.OrderedMap.Orders.{nat_order}
use raft_kv_distributed_kv_s.Prelude.{
  ℕ, Text, List, [], ◌∷◌, not, Option, length, ◌*◌, ◌/◌, suc, ◌++◌, ◌==◌, none, some, if◌then◌else◌,
  ◌%◌, ◌^◌, ◌+◌, word, ltb, leb, zero,
}
use raft_kv_distributed_kv_s.Decimal.{decimal}

pub record HashRing : Type 0 where
  pub ring : BTreeMap ℕ ℕ
  pub num_virtual_nodes : ℕ

abbrev pub new : ℕ → HashRing
new num_virtual_nodes = record { ring = []; num_virtual_nodes = num_virtual_nodes }

-- One byte of FNV-1a.
unfoldable pub fnv_step : ℕ → ℕ → ℕ
fnv_step hash byte = (bit_xor hash byte * 0x100000001b3) % word

unfoldable pub fnv : ℕ → Text → ℕ
fnv hash [] = hash
fnv hash (byte ∷ rest) = fnv (fnv_step hash byte) rest

unfoldable pub xor_shift : ℕ → ℕ
xor_shift hash = bit_xor hash (hash / 2 ^ 33)

-- FNV-1a over the bytes, and the finalizer of Murmur3.
unfoldable pub hash : Text → ℕ
unfolding fnv fnv_step xor_shift
hash key =
    let a = xor_shift (fnv 0xcbf29ce484222325 key) in
    let b = xor_shift ((a * 0xff51afd7ed558ccd) % word) in
    xor_shift ((b * 0xc4ceb9fe1a85ec53) % word)

-- "shard-{}-vnode-{}"
unfoldable pub vnode_key : ℕ → ℕ → Text
unfolding decimal
vnode_key shard_id i =
    (b's' ∷ b'h' ∷ b'a' ∷ b'r' ∷ b'd' ∷ b'-' ∷ [])
    ++ (decimal shard_id ++ ((b'-' ∷ b'v' ∷ b'n' ∷ b'o' ∷ b'd' ∷ b'e' ∷ b'-' ∷ []) ++ decimal i))

-- The rounds left of `for i in 0..num_virtual_nodes`, and `i`.
unfoldable pub add_vnodes : ℕ → ℕ → ℕ → BTreeMap ℕ ℕ → BTreeMap ℕ ℕ
add_vnodes zero i shard_id ring = ring
add_vnodes (suc rounds) i shard_id ring =
    add_vnodes rounds (i + 1) shard_id
      (OrderedMap.insert (hash (vnode_key shard_id i)) shard_id ring)

unfoldable pub add_shard : HashRing → ℕ → HashRing
unfolding add_vnodes
add_shard r shard_id = record r { ring = add_vnodes r.num_virtual_nodes 0 shard_id r.ring }

unfoldable pub remove_shard : HashRing → ℕ → HashRing
remove_shard r shard_id = record r { ring = retain (λ id. not (id == shard_id)) r.ring }

abbrev pub first_entry : BTreeMap ℕ ℕ → Option ℕ
first_entry [] = none
first_entry ((_, id) ∷ _) = some id

abbrev pub wrap_around : BTreeMap ℕ ℕ → Option (ℕ × ℕ) → Option ℕ
wrap_around ring (some (_, id)) = some id
wrap_around ring none = first_entry ring

-- The first point clockwise from a position. (The source tests for the empty ring first, where both
-- steps below give `none` as well.)
unfoldable pub shard_at : BTreeMap ℕ ℕ → ℕ → Option ℕ
shard_at [] position = none
shard_at (e ∷ ring) position = wrap_around (e ∷ ring) (first_from position (e ∷ ring))

unfoldable pub get_shard : HashRing → Text → Option ℕ
get_shard r key = shard_at r.ring (hash key)

abbrev pub values : BTreeMap ℕ ℕ → List ℕ
values [] = []
values ((_, id) ∷ m) = id ∷ values m

-- `sort` and `dedup` on numbers.
unfoldable pub insert_sorted : ℕ → List ℕ → List ℕ
insert_sorted a [] = a ∷ []
insert_sorted a (b ∷ bs) =
    let later = b ∷ insert_sorted a bs in if leb a b then a ∷ b ∷ bs else later

unfoldable pub sort : List ℕ → List ℕ
unfolding insert_sorted
sort [] = []
sort (a ∷ rest) = insert_sorted a (sort rest)

unfoldable pub dedup : List ℕ → List ℕ
dedup [] = []
dedup (a ∷ []) = a ∷ []
dedup (a ∷ b ∷ rest) = let tail = dedup (b ∷ rest) in if a == b then tail else a ∷ tail

unfoldable pub shard_ids : HashRing → List ℕ
shard_ids r = dedup (sort (values r.ring))

unfoldable pub shard_count : HashRing → ℕ
shard_count r = length (dedup (sort (values r.ring)))
