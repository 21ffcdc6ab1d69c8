-- ===== src/Sharding/Router/Routes.antt =====
-- sharding/router.rs: every shard on the ring has a configuration, so that a key with an owner has a
-- route.
use mathlib.Core.Path.{subst, sym}
use raft_kv_distributed_kv_s.OrderedMap
use raft_kv_distributed_kv_s.OrderedMap.{BTreeMap, retain}
use raft_kv_distributed_kv_s.OrderedMap.Orders.{nat_order}
use raft_kv_distributed_kv_s.Sharding.Ring
use raft_kv_distributed_kv_s.Sharding.Ring.{HashRing, add_vnodes, hash, vnode_key}
use raft_kv_distributed_kv_s.Sharding.Router
use raft_kv_distributed_kv_s.Sharding.Router.{
  Router, ShardConfig, find_shard, retain_shards, add_all, ℕ, List, Text,
}
use raft_kv_distributed_kv_s.Prelude.{
  ℕ, List, inl, Text, ◌∷◌, inr, ◌⊎◌, ◌≢◌, ℕ_discrete, ◌≡◌, Bool-cases, suc, [], not, some, ◌++◌,
  ltb, ◌+◌, ◌==◌, zero, ==_iff, sym, ◌∙◌, refl,
}
use raft_kv_distributed_kv_s.Sharding.Ring.Owner.{Holds, not-Holds-retain, get_shard-Holds}

-- A configuration for the shard is listed.
abbrev pub Lists : ℕ → List ShardConfig → Type 0
Lists id [] = ⊥
Lists id (s ∷ shards) = (s.shard_id ≡ id) ⊎ Lists id shards

-- Every shard on the ring is listed.
pub record IsCovered (r : Router) : Type 0 where
  pub covers : (id : ℕ) → Holds id r.ring.ring → Lists id r.shards

Holds-insert :
    (p s id : ℕ) (m : BTreeMap ℕ ℕ) → Holds id (OrderedMap.insert p s m) → (s ≡ id) ⊎ Holds id m
unfolding OrderedMap.insert
Holds-insert p s id [] = λ h. h
Holds-insert p s id ((j, w) ∷ m) = elim (Bool-cases (ltb p j)) [
  | inl before ↦ rw before λ h. h
  | inr not_before ↦ elim (Bool-cases (ltb j p)) [
    | inl after ↦
        rw (not_before, after)
          λ h. elim h [
            | inl here ↦ inr (inl here)
            | inr rest ↦ elim (Holds-insert p s id m rest) [
              | inl e ↦ inl e
              | inr old ↦ inr (inr old)
            ]
          ]
    | inr same ↦ rw (not_before, same) λ h. elim h [ inl e ↦ inl e | inr rest ↦ inr (inr rest) ]
  ]
]

Holds-add_vnodes :
    (rounds i s id : ℕ) (m : BTreeMap ℕ ℕ)
    → Holds id (add_vnodes rounds i s m)
    → (s ≡ id) ⊎ Holds id m
unfolding add_vnodes
Holds-add_vnodes zero i s id m h = inr h
Holds-add_vnodes (suc rounds) i s id m h = elim (Holds-add_vnodes rounds (i + 1) s id _ h) [
  | inl e ↦ inl e
  | inr old ↦ Holds-insert (hash (vnode_key s i)) s id m old
]

Holds-add_shard :
    (r : HashRing) (s id : ℕ) → Holds id (Ring.add_shard r s).ring → (s ≡ id) ⊎ Holds id r.ring
unfolding Ring.add_shard
Holds-add_shard r s id h = Holds-add_vnodes r.num_virtual_nodes 0 s id r.ring h

Holds-add_all :
    (r : HashRing) (shards : List ShardConfig) (id : ℕ)
    → Holds id (add_all r shards).ring
    → Lists id shards ⊎ Holds id r.ring
unfolding add_all
Holds-add_all r [] id h = inr h
Holds-add_all r (s ∷ shards) id h = elim (Holds-add_all (Ring.add_shard r s.shard_id) shards id h) [
  | inl listed ↦ inl (inr listed)
  | inr old ↦ elim (Holds-add_shard r s.shard_id id old) [
    | inl e ↦ inl (inl e)
    | inr older ↦ inr older
  ]
]

-- A new router is covered.
pub new-IsCovered : (shards : List ShardConfig) (vnodes : ℕ) → IsCovered (Router.new shards vnodes)
unfolding Router.new
new-IsCovered shards vnodes = record {
  covers = λ id h. elim (Holds-add_all (Ring.new vnodes) shards id h) [
    | inl l ↦ l
    | inr none_yet ↦ absurd none_yet
  ];
}

Lists-append : (id : ℕ) (xs ys : List ShardConfig) → Lists id xs ⊎ Lists id ys → Lists id (xs ++ ys)
Lists-append id [] ys (inl h) = absurd h
Lists-append id [] ys (inr h) = h
Lists-append id (x ∷ xs) ys (inl (inl e)) = inl e
Lists-append id (x ∷ xs) ys (inl (inr h)) = inr (Lists-append id xs ys (inl h))
Lists-append id (x ∷ xs) ys (inr h) = inr (Lists-append id xs ys (inr h))

pub add_shard-IsCovered :
    (r : Router) (c : ShardConfig) → IsCovered r → IsCovered (Router.add_shard r c)
unfolding Router.add_shard
add_shard-IsCovered r c h = record {
  covers = λ id on. elim (Holds-add_shard r.ring c.shard_id id on) [
    | inl e ↦ Lists-append id r.shards (c ∷ []) (inr (inl e))
    | inr old ↦ Lists-append id r.shards (c ∷ []) (inl (h.covers id old))
  ];
}

Holds-retain :
    (s id : ℕ) (m : BTreeMap ℕ ℕ) → Holds id (retain (λ id. not (id == s)) m) → Holds id m
unfolding retain
Holds-retain s id [] = λ h. h
Holds-retain s id ((j, w) ∷ m) = elim (Bool-cases (w == s)) [
  | inl gone ↦ rw gone λ h. inr (Holds-retain s id m h)
  | inr stays ↦ rw stays λ h. elim h [ inl e ↦ inl e | inr rest ↦ inr (Holds-retain s id m rest) ]
]

Lists-retain :
    (s id : ℕ) (shards : List ShardConfig)
    → id ≢ s
    → Lists id shards
    → Lists id (retain_shards s shards)
unfolding retain_shards
Lists-retain s id [] ne h = h
Lists-retain s id (c ∷ shards) ne h = elim (Bool-cases (c.shard_id == s)) [
  | inl gone ↦ rw gone (elim h [
    | inl e ↦ absurd (ne (sym e ∙ (==_iff c.shard_id s).0 gone))
    | inr rest ↦ Lists-retain s id shards ne rest
  ])
  | inr stays ↦
      rw stays (elim h [ inl e ↦ inl e | inr rest ↦ inr (Lists-retain s id shards ne rest) ])
]

pub remove_shard-IsCovered :
    (r : Router) (s : ℕ) → IsCovered r → IsCovered (Router.remove_shard r s)
unfolding Router.remove_shard Ring.remove_shard
remove_shard-IsCovered r s h = record {
  covers = λ id on. elim (ℕ_discrete id s) [
    | yes e ↦ absurd (
        not-Holds-retain s r.ring.ring
          (subst (λ (x : ℕ). Holds x (retain (λ id. not (id == s)) r.ring.ring)) e on))
    | no ne ↦ Lists-retain s id r.shards ne (h.covers id (Holds-retain s id r.ring.ring on))
  ];
}

find_shard-found :
    (id : ℕ) (shards : List ShardConfig)
    → Lists id shards
    → (c : ShardConfig) × (find_shard id shards ≡ some c) × (c.shard_id ≡ id)
unfolding find_shard
find_shard-found id [] h = absurd h
find_shard-found id (c ∷ shards) h = elim (Bool-cases (c.shard_id == id)) [
  | inl here ↦ rw here (c, refl, (==_iff c.shard_id id).0 here)
  | inr other ↦ rw other (
      find_shard-found id shards
        (elim h [ inl e ↦ cc ((==_iff c.shard_id id).1 e) | inr rest ↦ rest ]))
]

-- In a covered router a key whose position has an owner has a route, to a configuration of just that
-- shard, and belongs to that shard alone.
pub route_found :
    (r : Router) (key : Text) (id : ℕ)
    → IsCovered r
    → Router.get_shard_id r key ≡ some id
    → ((c : ShardConfig) × (Router.route r key ≡ some c) × (c.shard_id ≡ id))
      × ((s : ℕ) → Router.key_belongs_to_shard r key s ≡ (id == s))
unfolding Router.route Router.route_to Router.is_owner Router.get_shard_id
    Router.key_belongs_to_shard
route_found r key id h owned = (
  rw owned (find_shard-found id r.shards (h.covers id (get_shard-Holds r.ring key id owned))),
  λ s. rw owned,
)
