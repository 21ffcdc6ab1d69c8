-- ===== src/Sharding/Ring/Clockwise.antt =====
-- sharding/ring.rs, get_shard: on a sorted ring the owner is the next point clockwise.
use raft_kv_distributed_kv_s.OrderedMap.{BTreeMap, first_from}
use raft_kv_distributed_kv_s.OrderedMap.Orders.{nat_order}
use raft_kv_distributed_kv_s.OrderedMap.Laws.{Above, IsSorted}
use Prim.Native.Nat.{ℕ}
use raft_kv_distributed_kv_s.Prelude.{
  ℕ, ◌≡◌, ◌≤◌, ◌<◌, ◌∷◌, ◌⊎◌, inl, some, none, Text, [], arith, Bool-cases, Option-cases, inr, ltb,
  ap, ◌∙◌, refl,
}
use raft_kv_distributed_kv_s.Sharding.Ring.{shard_at, get_shard, HashRing, hash, wrap_around}

abbrev pub Point : ℕ → ℕ → BTreeMap ℕ ℕ → Type 0
Point p id [] = ⊥
Point p id ((j, w) ∷ m) = ((j ≡ p) × (w ≡ id)) ⊎ Point p id m

-- The next point from position `h` on, or the lowest point if none is left.
pub data Clockwise (m : BTreeMap ℕ ℕ) (h id : ℕ) : Type 0 where
  next :
      (p : ℕ) → Point p id m → h ≤ p → ((q w : ℕ) → Point q w m → h ≤ q → p ≤ q) → Clockwise m h id
  wrapped :
      (p : ℕ) → Point p id m → ((q w : ℕ) → Point q w m → (q < h) × (p ≤ q)) → Clockwise m h id

Above-Point : (k q w : ℕ) (m : BTreeMap ℕ ℕ) → Above k m → Point q w m → k < q
Above-Point k q w [] a h = absurd h
Above-Point k q w ((j, v) ∷ m) a (inl e) = ground arith
Above-Point k q w ((j, v) ∷ m) a (inr h) = ground (arith, Above-Point j q w m a.1 h)

pub Above-IsSorted : (k : ℕ) (m : BTreeMap ℕ ℕ) → Above k m → IsSorted m
Above-IsSorted k [] a = tt
Above-IsSorted k ((j, v) ∷ m) a = a.1

first_from-Point :
    (h p id : ℕ) (m : BTreeMap ℕ ℕ) → first_from h m ≡ some (p, id) → Point p id m × (h ≤ p)
unfolding first_from
first_from-Point h p id [] e = cc
first_from-Point h p id ((j, w) ∷ m) e = elim (Bool-cases (ltb j h)) [
  | inl before ↦ let (at, above) = first_from-Point h p id m (rw before at e) in (inr at, above)
  | inr after ↦ (inl (ground arith), ground arith)
]

first_from-least :
    (h p id : ℕ) (m : BTreeMap ℕ ℕ)
    → IsSorted m
    → first_from h m ≡ some (p, id)
    → (q w : ℕ) → Point q w m
    → h ≤ q
    → p ≤ q
unfolding first_from
first_from-least h p id [] s e q w at above = absurd at
first_from-least h p id ((j, v) ∷ m) s e q w (inl here) above = ground arith
first_from-least h p id ((j, v) ∷ m) s e q w (inr at) above = elim (Bool-cases (ltb j h)) [
  | inl before ↦ first_from-least h p id m (Above-IsSorted j m s) (rw before at e) q w at above
  | inr after ↦ ground (arith, Above-Point j q w m s at)
]

first_from-past :
    (h : ℕ) (m : BTreeMap ℕ ℕ) → first_from h m ≡ none → (q w : ℕ) → Point q w m → q < h
unfolding first_from
first_from-past h [] e q w at = absurd at
first_from-past h ((j, v) ∷ m) e q w (inl here) = ground arith
first_from-past h ((j, v) ∷ m) e q w (inr at) = first_from-past h m (ground arith) q w at

head_least : (j v : ℕ) (m : BTreeMap ℕ ℕ) → Above j m → (q w : ℕ) → Point q w ((j, v) ∷ m) → j ≤ q
head_least j v m a q w (inl here) = omega (arith, here.0)
head_least j v m a q w (inr at) = omega (arith, Above-Point j q w m a at)

shard_at-Clockwise :
    (h id : ℕ) (m : BTreeMap ℕ ℕ) → IsSorted m → shard_at m h ≡ some id → Clockwise m h id
unfolding shard_at
shard_at-Clockwise h id [] s e = cc
shard_at-Clockwise h id ((j, v) ∷ m) s e = elim (Option-cases (first_from h ((j, v) ∷ m))) [
  | inl past ↦
      let same : v ≡ id = cc (e, ap (wrap_around ((j, v) ∷ m)) past) in
      wrapped j (inl (refl, same))
        (λ q w at. (first_from-past h ((j, v) ∷ m) past q w at, head_least j v m s q w at))
  | inr ((p, v'), found) ↦
      let same : v' ≡ id = cc (e, ap (wrap_around ((j, v) ∷ m)) found) in
      let found' = found ∙ ap (λ (z : ℕ). some (p, z)) same in
      let (at, above) = first_from-Point h p id ((j, v) ∷ m) found' in
      next p at above (first_from-least h p id ((j, v) ∷ m) s found')
]

-- On a ring in order of position, a key belongs to the shard of the first point at its hash or
-- behind it, and past the last point to the shard of the lowest.
pub get_shard-Clockwise :
    (r : HashRing) (key : Text) (id : ℕ)
    → IsSorted r.ring
    → get_shard r key ≡ some id
    → Clockwise r.ring (hash key) id
unfolding get_shard
get_shard-Clockwise r key id s e = shard_at-Clockwise (hash key) id r.ring s e
