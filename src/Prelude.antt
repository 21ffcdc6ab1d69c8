-- ===== src/Prelude.antt =====
-- The names that the modules share: the libraries', passed on, texts as bytes, and two children
-- with the Boolean tests on numbers and the lists measured by native numbers.
mod Tests
mod Lists
use Prim.Native.Char.{code}
use Prim.Native.String.{String}
pub use Tests.*
pub use Lists.*
pub use Prim.Native.Nat.{ℕ, zero, suc, ◌+◌, ◌-◌, ◌*◌, ◌/◌, ◌%◌, ◌^◌, ◌≤◌, ◌<◌, min, pred}
pub use mathlib.Core.Path.{◌≡◌, refl, sym, ap, ◌∙◌}
pub use mathlib.Core.Logic.{◌≢◌, ◌↔◌, ◌⊎◌, inl, inr}
pub use mathlib.Core.Bool.{Bool, true, false, not, ◌&&◌, ◌||◌}
pub use mathlib.Core.Option.{Option, none, some}
pub use mathlib.Core.List.{List, [], ◌∷◌, ◌++◌, map}
pub use mathlib.Core.List.{append-nil, append_assoc, map-append}
pub use native.Mathlib.Omega.{arith}
unfoldable pub use native.Mathlib.Decide.{dec_lt, ℕ_discrete}

-- A Rust `String` or `&str` as its bytes.
abbrev pub Text : Type 0
Text = List ℕ

-- The bytes of an ASCII literal.
abbrev pub codes : String → Text
codes String.[] = []
codes (String.◌∷◌ c s) = code c ∷ codes s

-- One more than the largest `u64` and `usize` (64-bit target).
abbrev pub word : ℕ
word = 2 ^ 64

-- `x + 1` on a machine word in a release build.
abbrev pub next_word : ℕ → ℕ
next_word x = (x + 1) % word

-- `x - 1` on a machine word in a release build.
abbrev pub prev_word : ℕ → ℕ
prev_word zero = word - 1
prev_word (suc n) = n

-- `io::Result`.
pub data IoResult {ℓ} (A : Type ℓ) : Type ℓ where
  ok : A → IoResult A
  io_error : IoResult A
