-- ===== src/Sharding/Ring/Sorted.antt =====
-- sharding/ring.rs: every ring that the program builds is in order of position.
use raft_kv_distributed_kv_s.OrderedMap.{BTreeMap, retain}
use raft_kv_distributed_kv_s.OrderedMap.Orders.{nat_order}
use raft_kv_distributed_kv_s.OrderedMap.Laws.{Above, IsSorted, insert-IsSorted}
use raft_kv_distributed_kv_s.Prelude.{
  ℕ, zero, suc, ◌+◌, ◌≡◌, ◌∷◌, [], List, Bool, Bool-cases, inl, inr, some, Text, true,
}
use raft_kv_distributed_kv_s.Sharding.Ring
use raft_kv_distributed_kv_s.Sharding.Ring.{HashRing, hash, vnode_key, add_vnodes, get_shard}
use raft_kv_distributed_kv_s.Sharding.Ring.Clockwise.{
  Clockwise, get_shard-Clockwise, Above-IsSorted,
}

-- A shard joins the ring or leaves it.
pub data Change : Type 0 where
  joins : ℕ → Change
  leaves : ℕ → Change

unfoldable pub change : HashRing → Change → HashRing
change r (joins s) = Ring.add_shard r s
change r (leaves s) = Ring.remove_shard r s

unfoldable pub changes : HashRing → List Change → HashRing
unfolding change
changes r [] = r
changes r (c ∷ cs) = changes (change r c) cs

add_vnodes-IsSorted :
    (rounds i s : ℕ) (m : BTreeMap ℕ ℕ) → IsSorted m → IsSorted (add_vnodes rounds i s m)
unfolding add_vnodes
add_vnodes-IsSorted zero i s m h = h
add_vnodes-IsSorted (suc rounds) i s m h =
    add_vnodes-IsSorted rounds (i + 1) s _
      (insert-IsSorted ⦃o = nat_order⦄ (hash (vnode_key s i)) s m h)

Above-lower : (k j : ℕ) (m : BTreeMap ℕ ℕ) → nat_order.lt k j ≡ true → Above j m → Above k m
Above-lower k j [] h a = tt
Above-lower k j ((i, w) ∷ m) h a = (nat_order.trans k j i h a.0, a.1)

Above-retain : (p : ℕ → Bool) (k : ℕ) (m : BTreeMap ℕ ℕ) → Above k m → Above k (retain p m)
unfolding retain
Above-retain p k [] a = tt
Above-retain p k ((j, w) ∷ m) a = elim (Bool-cases (p w)) [
  | inl stays ↦ rw stays (a.0, Above-retain p j m a.1)
  | inr goes ↦ rw goes (Above-lower k j (retain p m) a.0 (Above-retain p j m a.1))
]

retain-IsSorted : (p : ℕ → Bool) (m : BTreeMap ℕ ℕ) → IsSorted m → IsSorted (retain p m)
unfolding retain
retain-IsSorted p [] h = tt
retain-IsSorted p ((j, w) ∷ m) h = elim (Bool-cases (p w)) [
  | inl stays ↦ rw stays (Above-retain p j m h)
  | inr goes ↦ rw goes (Above-IsSorted j (retain p m) (Above-retain p j m h))
]

change-IsSorted : (r : HashRing) (c : Change) → IsSorted r.ring → IsSorted (change r c).ring
unfolding change Ring.add_shard Ring.remove_shard
change-IsSorted r (joins s) h = add_vnodes-IsSorted r.num_virtual_nodes 0 s r.ring h
change-IsSorted r (leaves s) h = retain-IsSorted _ r.ring h

changes-IsSorted :
    (r : HashRing) (cs : List Change) → IsSorted r.ring → IsSorted (changes r cs).ring
unfolding changes
changes-IsSorted r [] h = h
changes-IsSorted r (c ∷ cs) h = changes-IsSorted (change r c) cs (change-IsSorted r c h)

-- However shards have joined and left since the ring was new, a key with an owner belongs to the
-- shard of the first point at its hash or behind it, and past the last point to that of the lowest.
pub owner-Clockwise :
    (vnodes : ℕ) (cs : List Change) (key : Text) (id : ℕ)
    → get_shard (changes (Ring.new vnodes) cs) key ≡ some id
    → Clockwise (changes (Ring.new vnodes) cs).ring (hash key) id
owner-Clockwise vnodes cs key id e =
    get_shard-Clockwise (changes (Ring.new vnodes) cs) key id
      (changes-IsSorted (Ring.new vnodes) cs tt) e
