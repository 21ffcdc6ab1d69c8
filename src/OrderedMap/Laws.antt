-- ===== src/OrderedMap/Laws.antt =====
-- Lookup after insertion, and the order of the entries.
use raft_kv_distributed_kv_s.OrderedMap.{KeyOrder, get, BTreeMap, insert, some, false, true}
use mathlib.Core.Path.{subst, sym}
use raft_kv_distributed_kv_s.Prelude.{
  ◌≡◌, ◌≢◌, arith, some, false, true, sym, ◌∷◌, Bool-cases, [], inl, inr,
}

module _ {K V : Type 0} ⦃o : KeyOrder K⦄ where
  pub get-insert_self : (k : K) (v : V) (m : BTreeMap K V) → get k (insert k v m) ≡ some v
  unfolding get insert
  get-insert_self k v [] = ground (arith, o.irrefl k)
  get-insert_self k v ((j, w) ∷ m) = ground (arith, o.irrefl k, get-insert_self k v m)

  pub get-insert_ne : (k j : K) (v : V) (m : BTreeMap K V) → j ≢ k → get j (insert k v m) ≡ get j m
  unfolding get insert
  get-insert_ne k j v [] ne = ground (arith, o.connex j k)
  get-insert_ne k j v ((i, w) ∷ m) ne =
      ground
        (arith, o.connex j k, o.connex i k, o.trans j k i, o.trans i k j, get-insert_ne k j v m ne)

  -- The keys rise strictly, all above `k`.
  abbrev pub Above : K → BTreeMap K V → Type 0
  Above k [] = Unit
  Above k ((j, w) ∷ m) = (o.lt k j ≡ true) × Above j m

  abbrev pub IsSorted : BTreeMap K V → Type 0
  IsSorted [] = Unit
  IsSorted ((j, w) ∷ m) = Above j m

  same_key :
      (j k : K) (m : BTreeMap K V) → o.lt k j ≡ false → o.lt j k ≡ false → Above j m → Above k m
  same_key j k m h l a = subst (λ x. Above x m) (sym (o.connex k j h l)) a

  Above-insert :
      (i k : K) (v : V) (m : BTreeMap K V) → o.lt i k ≡ true → Above i m → Above i (insert k v m)
  unfolding insert
  Above-insert i k v [] h a = (h, tt)
  Above-insert i k v ((j, w) ∷ m) h a = elim (Bool-cases (o.lt k j)) [
    | inl before ↦ rw before (h, (before, a.1))
    | inr not_before ↦ elim (Bool-cases (o.lt j k)) [
      | inl after ↦ rw (not_before, after) (a.0, Above-insert j k v m after a.1)
      | inr not_after ↦ rw (not_before, not_after) (h, same_key j k m not_before not_after a.1)
    ]
  ]

  pub insert-IsSorted : (k : K) (v : V) (m : BTreeMap K V) → IsSorted m → IsSorted (insert k v m)
  unfolding insert
  insert-IsSorted k v [] s = tt
  insert-IsSorted k v ((j, w) ∷ m) s = elim (Bool-cases (o.lt k j)) [
    | inl before ↦ rw before (before, s)
    | inr not_before ↦ elim (Bool-cases (o.lt j k)) [
      | inl after ↦ rw (not_before, after) (Above-insert j k v m after s)
      | inr not_after ↦ rw (not_before, not_after) (same_key j k m not_before not_after s)
    ]
  ]
