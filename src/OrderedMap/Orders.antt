-- ===== src/OrderedMap/Orders.antt =====
-- The orders of the keys: numbers, and texts by their bytes.
use Prim.Native.Nat.{ℕ}
use raft_kv_distributed_kv_s.Prelude.{
  ℕ, Text, ltb, Bool, ◌≡◌, false, true, arith, [], ◌||◌, refl, ◌==◌, ◌&&◌,
}
use raft_kv_distributed_kv_s.OrderedMap.{KeyOrder, Bool, false, true, ◌∷◌}

pub ltb_irrefl : (a : ℕ) → ltb a a ≡ false
ltb_irrefl a = ground arith

pub ltb_trans : (a b c : ℕ) → ltb a b ≡ true → ltb b c ≡ true → ltb a c ≡ true
ltb_trans a b c h k = ground arith

pub ltb_connex : (a b : ℕ) → ltb a b ≡ false → ltb b a ≡ false → a ≡ b
ltb_connex a b h k = ground arith

instance abbrev pub nat_order : KeyOrder ℕ
nat_order = record { lt = ltb; irrefl = ltb_irrefl; trans = ltb_trans; connex = ltb_connex }

unfoldable pub text_lt : Text → Text → Bool
text_lt [] [] = false
text_lt [] (c ∷ t) = true
text_lt (b ∷ s) [] = false
text_lt (b ∷ s) (c ∷ t) = ltb b c || (b == c && text_lt s t)

pub text_lt_irrefl : (s : Text) → text_lt s s ≡ false
unfolding text_lt
text_lt_irrefl [] = refl
text_lt_irrefl (c ∷ s) = ground (arith, text_lt_irrefl s)

pub text_lt_trans : (s t u : Text) → text_lt s t ≡ true → text_lt t u ≡ true → text_lt s u ≡ true
unfolding text_lt
text_lt_trans [] [] u h k = cc
text_lt_trans [] (c ∷ t) [] h k = cc
text_lt_trans [] (c ∷ t) (d ∷ u) h k = refl
text_lt_trans (b ∷ s) [] u h k = cc
text_lt_trans (b ∷ s) (c ∷ t) [] h k = cc
text_lt_trans (b ∷ s) (c ∷ t) (d ∷ u) h k = ground (arith, text_lt_trans s t u)

pub text_lt_connex : (s t : Text) → text_lt s t ≡ false → text_lt t s ≡ false → s ≡ t
unfolding text_lt
text_lt_connex [] [] h k = refl
text_lt_connex [] (c ∷ t) h k = cc
text_lt_connex (b ∷ s) [] h k = cc
text_lt_connex (b ∷ s) (c ∷ t) h k = ground (arith, text_lt_connex s t)

instance abbrev pub text_order : KeyOrder Text
text_order = record {
  lt = text_lt;
  irrefl = text_lt_irrefl;
  trans = text_lt_trans;
  connex = text_lt_connex;
}
