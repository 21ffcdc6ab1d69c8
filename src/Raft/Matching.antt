-- ===== src/Raft/Matching.antt =====
-- raft/node.rs: logs that agree with one record of what the leader of each term had in its log.
pub mod Terms
use mathlib.Core.Path.{subst, sym, ap}
use Prim.Native.Nat.{ℕ, suc}
use raft_kv_distributed_kv_s.Prelude.{
  ℕ, List, get_elem?, take, ◌≤◌, length, ◌++◌, ◌≡◌, ◌∙◌, suc, some, arith, ◌∷◌, sym, length-take,
  [], ap, get_elem?-lt, dec_lt, zero, refl, get_elem?-append_left, ◌⊎◌, length-append, ◌<◌, inl,
  inr, get_elem?-some, drop, get_elem?-none, Bool-cases, take-append-drop, ◌==◌, ==_iff,
  append_assoc, ◌-◌,
}
use raft_kv_distributed_kv_s.Raft.Merge.{overlay}
use raft_kv_distributed_kv_s.Raft.Log.{LogEntry, term_or_zero}
use raft_kv_distributed_kv_s.Raft.Message.{AppendEntriesRequest}

-- The log of the leader of each term, as long as it became.
abbrev pub Book : Type 0
Book = ℕ → List LogEntry

-- Up to each of its entries a log is as that of the leader of the entry's term.
abbrev pub Traced : Book → List LogEntry → Type 0
Traced book es =
    (i : ℕ) (x : LogEntry) → get_elem? es i ≡ some x → take (suc i) es ≡ take (suc i) (book x.term)

-- Leaders' logs that only become longer.
abbrev pub Continues : Book → Book → Type 0
Continues old new = (t : ℕ) → (more : List LogEntry) × (new t ≡ old t ++ more)

pub Continues-trans : (a b c : Book) → Continues a b → Continues b c → Continues a c
Continues-trans a b c p q t =
    let (more, e) = p t in
    let (yet, f) = q t in (more ++ yet, f ∙ ap (λ z. z ++ yet) e ∙ append_assoc (a t) more yet)

take-append :
    {A : Type 0} → (n : ℕ) (xs ys : List A) → n ≤ length xs → take n (xs ++ ys) ≡ take n xs
take-append zero xs ys h = refl
take-append (suc n) [] ys h = absurd (omega (arith, h))
take-append (suc n) (x ∷ xs) ys h = ap (λ z. x ∷ z) (take-append n xs ys (omega (arith, h)))

-- An entry of a log is in the log of the leader of its term, at the same index.
pub Traced-lt :
    (book : Book) (es : List LogEntry) (i : ℕ) (x : LogEntry)
    → Traced book es
    → get_elem? es i ≡ some x
    → suc i ≤ length (book x.term)
Traced-lt book es i x t h = omega (
  arith,
  length-take (suc i) es,
  length-take (suc i) (book x.term),
  ap length (t i x h),
  get_elem?-lt es i x h,
)

pub Traced-Continues :
    (old new : Book) (es : List LogEntry) → Continues old new → Traced old es → Traced new es
Traced-Continues old new es c t i x h =
    let (more, e) = c x.term in
    t i x h
    ∙ sym (take-append (suc i) (old x.term) more (Traced-lt old es i x t h))
    ∙ ap (take (suc i)) (sym e)

-- Two logs that have entries of one term at one index are the same up to it.
pub Traced-same :
    (book : Book) (es fs : List LogEntry) (i : ℕ) (x y : LogEntry)
    → Traced book es
    → Traced book fs
    → get_elem? es i ≡ some x
    → get_elem? fs i ≡ some y
    → x.term ≡ y.term
    → take (suc i) es ≡ take (suc i) fs
Traced-same book es fs i x y t u h k same =
    t i x h ∙ ap (λ z. take (suc i) (book z)) same ∙ sym (u i y k)

get-append_cons : {A : Type 0} → (p q : List A) (x : A) → get_elem? (p ++ x ∷ q) (length p) ≡ some x
get-append_cons [] q x = refl
get-append_cons (a ∷ p) q x = get-append_cons p q x

take-append_cons :
    {A : Type 0} → (p q : List A) (x : A) → take (suc (length p)) (p ++ x ∷ q) ≡ p ++ x ∷ []
take-append_cons [] q x = refl
take-append_cons (a ∷ p) q x = ap (λ z. a ∷ z) (take-append_cons p q x)

same_last : (p : List LogEntry) (x y : LogEntry) → p ++ x ∷ [] ≡ p ++ y ∷ [] → x ≡ y
same_last p x y h =
    let e : some x ≡ some y =
      sym (get-append_cons p [] x) ∙ ap (λ z. get_elem? z (length p)) h ∙ get-append_cons p [] y in
    cc e

-- What the follower makes of its log and the leader's is one of the two.
overlay-either :
    (book : Book) (p xs es : List LogEntry)
    → Traced book (p ++ xs)
    → Traced book (p ++ es)
    → (p ++ overlay xs es ≡ p ++ xs) ⊎ (p ++ overlay xs es ≡ p ++ es)
unfolding overlay
overlay-either book p xs [] t u = inl refl
overlay-either book p [] (e ∷ es) t u = inr refl
overlay-either book p (x ∷ xs) (e ∷ es) t u = elim (Bool-cases (x.term == e.term)) [
  | inr conflict ↦ rw conflict (inr refl)
  | inl same ↦
      let front =
        sym (take-append_cons p xs x)
        ∙ Traced-same book (p ++ x ∷ xs) (p ++ e ∷ es) (length p) x e t u (get-append_cons p xs x)
            (get-append_cons p es e) ((==_iff x.term e.term).0 same)
        ∙ take-append_cons p es e in
      let is_x : e ≡ x = sym (same_last p x e front) in
      let assoc = λ (q : List LogEntry). append_assoc p (x ∷ []) q in
      let rest : (p ++ x ∷ overlay xs es ≡ p ++ x ∷ xs) ⊎ (p ++ x ∷ overlay xs es ≡ p ++ x ∷ es) =
        elim (overlay-either book (p ++ x ∷ []) xs es (subst (Traced book) (sym (assoc xs)) t)
          (subst (Traced book) (ap (λ z. p ++ z ∷ es) is_x ∙ sym (assoc es)) u)) [
            | inl a ↦ inl (sym (assoc (overlay xs es)) ∙ a ∙ assoc xs)
            | inr b ↦ inr (sym (assoc (overlay xs es)) ∙ b ∙ assoc es)
          ] in
      rw same (
        subst (λ z. (p ++ x ∷ overlay xs es ≡ p ++ x ∷ xs) ⊎ (p ++ x ∷ overlay xs es ≡ p ++ z ∷ es))
          (sym is_x) rest)
]

-- The leader of a term appends an entry to its log.
pub Traced-append :
    (book : Book) (es : List LogEntry) (x : LogEntry)
    → Traced book es
    → book x.term ≡ es ++ x ∷ []
    → Traced book (es ++ x ∷ [])
Traced-append book es x t e i y h = elim (dec_lt i (length es)) [
  | yes old ↦
      take-append (suc i) es (x ∷ []) (omega (arith, old))
      ∙ t i y (sym (get_elem?-append_left es (x ∷ []) i old) ∙ h)
  | no new ↦
      let is_end : i ≡ length es =
        omega (arith, new, get_elem?-lt (es ++ x ∷ []) i y h, length-append es (x ∷ [])) in
      let at_end : some x ≡ some y =
        sym (get-append_cons es [] x) ∙ ap (get_elem? (es ++ x ∷ [])) (sym is_end) ∙ h in
      let is_x : x ≡ y = cc at_end in
      ap (take (suc i)) (sym e) ∙ ap (λ (z : LogEntry). take (suc i) (book z.term)) is_x
]

-- The entry at an index that a log has, and its term.
entry_at :
    (es : List LogEntry) (i : ℕ)
    → i < length es
    → (x : LogEntry) × (get_elem? es i ≡ some x) × (term_or_zero (get_elem? es i) ≡ x.term)
entry_at es i h = let (x, e) = get_elem?-some es i h in (x, e, ap term_or_zero e)

-- Only the sentinel has term 0.
Traced-zero :
    (book : Book) (es : List LogEntry) (i : ℕ) (x : LogEntry)
    → Traced book es
    → length (book 0) ≡ 1
    → get_elem? es i ≡ some x
    → x.term ≡ 0
    → i ≡ 0
Traced-zero book es i x t one h e =
    omega (arith, Traced-lt book es i x t h, ap (λ z. length (book z)) e, one)

-- A request of a leader with the log `es`.
pub record Part (es : List LogEntry) (r : AppendEntriesRequest) : Type 0 where
  pub has_prev : r.prev_log_index < length es
  pub prev_term : r.prev_log_term ≡ term_or_zero (get_elem? es r.prev_log_index)
  pub rest : r.entries ≡ drop (suc r.prev_log_index) es

module _ (book : Book) (fs es : List LogEntry) (r : AppendEntriesRequest) (t : Traced book fs)
    (u : Traced book es) (one : length (book 0) ≡ 1) (nonempty : 0 < length fs) (part : Part es r)
    (agrees : term_or_zero (get_elem? fs r.prev_log_index) ≡ r.prev_log_term) where
  -- The follower's log reaches up to the index that the request names.
  pub reaches : r.prev_log_index < length fs
  reaches = elim (dec_lt r.prev_log_index (length fs)) [
    | yes h ↦ h
    | no h ↦
        let (x, at, term) = entry_at es r.prev_log_index part.has_prev in
        let none_there : term_or_zero (get_elem? fs r.prev_log_index) ≡ 0 =
          ap term_or_zero (get_elem?-none fs r.prev_log_index (omega (arith, h))) in
        let first =
          Traced-zero book es r.prev_log_index x u one at
            (sym term ∙ sym part.prev_term ∙ sym agrees ∙ none_there) in
        absurd (omega (arith, first, h, nonempty))
  ]

  same_front : take (suc r.prev_log_index) fs ≡ take (suc r.prev_log_index) es
  same_front =
      let (x, at, term) = entry_at fs r.prev_log_index reaches in
      let (y, at_y, term_y) = entry_at es r.prev_log_index part.has_prev in
      Traced-same book fs es r.prev_log_index x y t u at at_y
        (sym term ∙ agrees ∙ part.prev_term ∙ term_y)

  -- What the follower makes of its log is that log or the leader's.
  pub overlay-either_log :
      (take (suc r.prev_log_index) fs ++ overlay (drop (suc r.prev_log_index) fs) r.entries ≡ fs)
      ⊎ (take (suc r.prev_log_index) fs ++ overlay (drop (suc r.prev_log_index) fs) r.entries ≡ es)
  overlay-either_log =
      let p = take (suc r.prev_log_index) fs in
      let whole : p ++ drop (suc r.prev_log_index) fs ≡ fs =
        take-append-drop (suc r.prev_log_index) fs in
      let sent : p ++ r.entries ≡ es =
        ap (λ z. z ++ r.entries) same_front
        ∙ ap (λ z. take (suc r.prev_log_index) es ++ z) part.rest
        ∙ take-append-drop (suc r.prev_log_index) es in
      elim (overlay-either book p (drop (suc r.prev_log_index) fs) r.entries
        (subst (Traced book) (sym whole) t) (subst (Traced book) (sym sent) u)) [
          | inl a ↦ inl (a ∙ whole)
          | inr b ↦ inr (b ∙ sent)
        ]

-- A log is no longer than the longest in the book.
pub Traced-bounded :
    (book : Book) (es : List LogEntry) (bound : ℕ)
    → Traced book es
    → 0 < length es
    → ((t : ℕ) → length (book t) < bound)
    → length es < bound
Traced-bounded book es bound t nonempty bounded =
    let (x, at, _) = entry_at es (length es - 1) (omega (arith, nonempty)) in
    omega (arith, Traced-lt book es (length es - 1) x t at, bounded x.term, nonempty)
