-- ===== src/Raft/Matching/Terms.antt =====
-- raft/node.rs: the terms in logs that agree with one record of the leaders' logs.
use raft_kv_distributed_kv_s.Raft.Matching.{Book, Traced, get-append_cons}
use mathlib.Core.Path.{sym, ap}
use Prim.Native.Nat.{ℕ, suc}
use raft_kv_distributed_kv_s.Prelude.{
  ℕ, List, get_elem?, take, ◌≤◌, length, ◌++◌, ◌≡◌, ◌∙◌, suc, some, arith, ◌∷◌, sym, [], ap,
  get_elem?-lt, dec_lt, zero, refl, get_elem?-append_left, length-append, ◌<◌,
}
use raft_kv_distributed_kv_s.Raft.Log.{LogEntry}

-- No entry is of a later term.
abbrev pub Below : ℕ → List LogEntry → Type 0
Below term es = (i : ℕ) (x : LogEntry) → get_elem? es i ≡ some x → x.term ≤ term

pub Below-append :
    (term : ℕ) (es : List LogEntry) (x : LogEntry)
    → Below term es
    → x.term ≤ term
    → Below term (es ++ x ∷ [])
Below-append term es x b top i y h = elim (dec_lt i (length es)) [
  | yes old ↦ b i y (sym (get_elem?-append_left es (x ∷ []) i old) ∙ h)
  | no new ↦
      let is_end : i ≡ length es =
        omega (arith, new, get_elem?-lt (es ++ x ∷ []) i y h, length-append es (x ∷ [])) in
      let at_end : some x ≡ some y =
        sym (get-append_cons es [] x) ∙ ap (get_elem? (es ++ x ∷ [])) (sym is_end) ∙ h in
      let is_x : x ≡ y = cc at_end in omega (arith, top, ap (λ (z : LogEntry). z.term) is_x)
]

get-take : {A : Type 0} → (n i : ℕ) (xs : List A) → i < n → get_elem? (take n xs) i ≡ get_elem? xs i
get-take zero i xs h = absurd (omega (arith, h))
get-take (suc n) i [] h = refl
get-take (suc n) zero (x ∷ xs) h = refl
get-take (suc n) (suc i) (x ∷ xs) h = get-take n i xs (omega (arith, h))

-- The terms in a log never decrease.
pub Traced-ascends :
    (book : Book) (es : List LogEntry) (i j : ℕ) (x y : LogEntry)
    → Traced book es
    → ((t : ℕ) → Below t (book t))
    → i ≤ j
    → get_elem? es i ≡ some x
    → get_elem? es j ≡ some y
    → x.term ≤ y.term
Traced-ascends book es i j x y t tops le hx hy = tops y.term i x (
    sym (get-take (suc j) i (book y.term) (omega (arith, le)))
    ∙ ap (λ z. get_elem? z i) (sym (t j y hy))
    ∙ get-take (suc j) i es (omega (arith, le))
    ∙ hx)
