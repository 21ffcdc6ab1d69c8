-- ===== src/OrderedMap.antt =====
-- The standard library's `BTreeMap`, which the memtable and the hash ring use: a list of entries in
-- the order of their keys.
pub mod Orders
pub mod Laws
use raft_kv_distributed_kv_s.Prelude.{
  Bool, List, ◌∷◌, Option, ◌≡◌, if◌then◌else◌, none, false, some, [], true,
}

-- `Ord` of a key type, by its strict order.
pub record KeyOrder (K : Type 0) : Type 0 where
  pub lt : K → K → Bool
  pub irrefl : (a : K) → lt a a ≡ false
  pub trans : (a b c : K) → lt a b ≡ true → lt b c ≡ true → lt a c ≡ true
  pub connex : (a b : K) → lt a b ≡ false → lt b a ≡ false → a ≡ b

abbrev pub BTreeMap : Type 0 → Type 0 → Type 0
BTreeMap K V = List (K × V)

module _ {K V : Type 0} ⦃o : KeyOrder K⦄ where
  unfoldable pub insert : K → V → BTreeMap K V → BTreeMap K V
  insert k v [] = (k, v) ∷ []
  insert k v ((j, w) ∷ m) =
      let later = (j, w) ∷ insert k v m in
      if o.lt k j then (k, v) ∷ (j, w) ∷ m else if o.lt j k then later else (k, v) ∷ m

  unfoldable pub get : K → BTreeMap K V → Option V
  get k [] = none
  get k ((j, w) ∷ m) = if o.lt k j then none else if o.lt j k then get k m else some w

  -- `range(k..).next()`, the first entry whose key is not below `k`.
  unfoldable pub first_from : K → BTreeMap K V → Option (K × V)
  first_from k [] = none
  first_from k ((j, w) ∷ m) = if o.lt j k then first_from k m else some (j, w)

-- `retain`, on the values.
module _ {K V : Type 0} where
  unfoldable pub retain : (V → Bool) → BTreeMap K V → BTreeMap K V
  retain p [] = []
  retain p ((j, w) ∷ m) = let rest = retain p m in if p w then (j, w) ∷ rest else rest
