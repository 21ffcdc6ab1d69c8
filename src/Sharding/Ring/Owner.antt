-- ===== src/Sharding/Ring/Owner.antt =====
-- sharding/ring.rs: which shard owns a key, and how that changes with the shards.
use raft_kv_distributed_kv_s.OrderedMap.{BTreeMap, first_from, retain, insert}
use raft_kv_distributed_kv_s.OrderedMap.Orders.{nat_order}
use Prim.Native.Nat.{ℕ, suc}
use raft_kv_distributed_kv_s.Prelude.{
  ℕ, ◌≡◌, ◌⊎◌, some, ◌∷◌, Bool-cases, inr, [], ltb, arith, refl, inl, ap, ◌≢◌, none, not,
  Option-cases, suc, ◌==◌, Text, ◌+◌, sym, ◌∙◌, zero, ==_iff,
}
use raft_kv_distributed_kv_s.Sharding.Ring.{
  shard_at, first_entry, wrap_around, add_vnodes, get_shard, add_shard, remove_shard, HashRing,
  hash, vnode_key,
}

-- The owner of a position after one more point: as before, or the point's shard.
abbrev Points : Type 0
Points = BTreeMap ℕ ℕ

first_from-insert :
    (h p s : ℕ) (m : Points)
    → (first_from h (insert p s m) ≡ first_from h m) ⊎ (first_from h (insert p s m) ≡ some (p, s))
unfolding first_from insert
first_from-insert h p s [] = elim (Bool-cases (ltb p h)) [
  | inl before ↦ inl (rw before)
  | inr after ↦ inr (rw after)
]
first_from-insert h p s ((j, w) ∷ m) = elim (first_from-insert h p s m) [
  | inl same ↦ ground arith
  | inr new ↦ ground arith
]

first_entry-insert :
    (p s : ℕ) (m : Points)
    → (first_entry (insert p s m) ≡ first_entry m) ⊎ (first_entry (insert p s m) ≡ some s)
unfolding insert
first_entry-insert p s [] = inr refl
first_entry-insert p s ((j, w) ∷ m) = ground arith

shard_at-eq : (h : ℕ) (m : Points) → shard_at m h ≡ wrap_around m (first_from h m)
unfolding shard_at first_from
shard_at-eq h [] = refl
shard_at-eq h (e ∷ m) = refl

shard_at-insert :
    (h p s : ℕ) (m : Points)
    → (shard_at (insert p s m) h ≡ shard_at m h) ⊎ (shard_at (insert p s m) h ≡ some s)
shard_at-insert h p s m =
    rw (shard_at-eq h (insert p s m), shard_at-eq h m)
      (elim (first_from-insert h p s m) [
        | inr new ↦ inr (ap (wrap_around (insert p s m)) new)
        | inl same ↦ elim (Option-cases (first_from h m)) [
          | inr (e, found) ↦ inl (rw (same, found))
          | inl past ↦ rw (same, past) (first_entry-insert p s m)
        ]
      ])

add_vnodes-shard_at :
    (h rounds i s : ℕ) (m : Points)
    → (shard_at (add_vnodes rounds i s m) h ≡ shard_at m h)
      ⊎ (shard_at (add_vnodes rounds i s m) h ≡ some s)
unfolding add_vnodes
add_vnodes-shard_at h zero i s m = inl refl
add_vnodes-shard_at h (suc rounds) i s m =
    elim (add_vnodes-shard_at h rounds (i + 1) s (insert (hash (vnode_key s i)) s m)) [
      | inr new ↦ inr new
      | inl same ↦ elim (shard_at-insert h (hash (vnode_key s i)) s m) [
        | inl old ↦ inl (same ∙ old)
        | inr new ↦ inr (same ∙ new)
      ]
    ]

-- A new shard takes keys over, and moves no key from one old shard to another: each key has the
-- owner that it had, or the new shard.
pub add_shard_moves :
    (r : HashRing) (s : ℕ) (key : Text)
    → (get_shard (add_shard r s) key ≡ get_shard r key) ⊎ (get_shard (add_shard r s) key ≡ some s)
unfolding get_shard add_shard
add_shard_moves r s key = add_vnodes-shard_at (hash key) r.num_virtual_nodes 0 s r.ring

first_from-retain :
    (h s : ℕ) (m : Points) (p id : ℕ)
    → first_from h m ≡ some (p, id)
    → id ≢ s
    → first_from h (retain (λ id. not (id == s)) m) ≡ some (p, id)
unfolding first_from retain
first_from-retain h s [] p id e ne = cc
first_from-retain h s ((j, w) ∷ m) p id e ne = ground (arith, first_from-retain h s m p id)

first_from-retain_past :
    (h s : ℕ) (m : Points)
    → first_from h m ≡ none
    → first_from h (retain (λ id. not (id == s)) m) ≡ none
unfolding first_from retain
first_from-retain_past h s [] e = refl
first_from-retain_past h s ((j, w) ∷ m) e = ground (arith, first_from-retain_past h s m)

first_entry-retain :
    (s : ℕ) (m : Points) (id : ℕ)
    → first_entry m ≡ some id
    → id ≢ s
    → first_entry (retain (λ id. not (id == s)) m) ≡ some id
unfolding retain
first_entry-retain s [] id e ne = cc
first_entry-retain s ((j, w) ∷ m) id e ne = ground arith

-- Taking a shard away moves no key of another shard.
pub remove_shard_keeps :
    (r : HashRing) (s : ℕ) (key : Text) (id : ℕ)
    → get_shard r key ≡ some id
    → id ≢ s
    → get_shard (remove_shard r s) key ≡ some id
unfolding get_shard remove_shard
remove_shard_keeps r s key id owned ne =
    shard_at-eq (hash key) kept ∙ elim (Option-cases (first_from (hash key) r.ring)) [
      | inr ((p, w), found) ↦
          let e : w ≡ id = cc (owner, ap (wrap_around r.ring) found) in
          ap (wrap_around kept)
            (first_from-retain (hash key) s r.ring p w found (λ x. ne (sym e ∙ x)))
          ∙ ap (λ z. some z) e
      | inl past ↦
          ap (wrap_around kept) (first_from-retain_past (hash key) s r.ring past)
          ∙ first_entry-retain s r.ring id (sym (ap (wrap_around r.ring) past) ∙ owner) ne
    ]
  where
    kept : Points
    kept = retain (λ id. not (id == s)) r.ring

    owner : wrap_around r.ring (first_from (hash key) r.ring) ≡ some id
    owner = sym (shard_at-eq (hash key) r.ring) ∙ owned

-- The owner of a key is a shard on the ring.
abbrev pub Holds : ℕ → Points → Type 0
Holds id [] = ⊥
Holds id ((_, w) ∷ m) = (w ≡ id) ⊎ Holds id m

first_from-Holds : (h p id : ℕ) (m : Points) → first_from h m ≡ some (p, id) → Holds id m
unfolding first_from
first_from-Holds h p id [] e = cc
first_from-Holds h p id ((j, w) ∷ m) e = elim (Bool-cases (ltb j h)) [
  | inl before ↦ inr (first_from-Holds h p id m (rw before at e))
  | inr after ↦ inl (ground arith)
]

shard_at-Holds : (h id : ℕ) (m : Points) → shard_at m h ≡ some id → Holds id m
unfolding shard_at
shard_at-Holds h id [] e = cc
shard_at-Holds h id ((j, w) ∷ m) e = elim (Option-cases (first_from h ((j, w) ∷ m))) [
  | inl past ↦ inl (cc (e, ap (wrap_around ((j, w) ∷ m)) past))
  | inr ((p, v), found) ↦
      let same : v ≡ id = cc (e, ap (wrap_around ((j, w) ∷ m)) found) in
      first_from-Holds h p id ((j, w) ∷ m) (found ∙ ap (λ (z : ℕ). some (p, z)) same)
]

pub get_shard-Holds :
    (r : HashRing) (key : Text) (id : ℕ) → get_shard r key ≡ some id → Holds id r.ring
unfolding get_shard
get_shard-Holds r key id owned = shard_at-Holds (hash key) id r.ring owned

pub not-Holds-retain : (s : ℕ) (m : Points) → ¬ (Holds s (retain (λ id. not (id == s)) m))
unfolding retain
not-Holds-retain s [] = λ h. h
not-Holds-retain s ((j, w) ∷ m) = elim (Bool-cases (w == s)) [
  | inl gone ↦ rw gone (not-Holds-retain s m)
  | inr stays ↦
      rw stays λ h. elim h [ inl e ↦ cc ((==_iff w s).1 e) | inr rest ↦ not-Holds-retain s m rest ]
]

-- A shard that was taken away from a ring owns no key of it.
pub remove_shard_gone :
    (r : HashRing) (s : ℕ) (key : Text) → get_shard (remove_shard r s) key ≢ some s
remove_shard_gone r s key e =
    not-Holds-retain s r.ring (unfold remove_shard in get_shard-Holds (remove_shard r s) key s e)
