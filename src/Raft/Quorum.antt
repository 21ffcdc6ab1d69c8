-- ===== src/Raft/Quorum.antt =====
-- Lists of node ids without repetition, as the votes and the peers are: two majorities of one list
-- share a node.
use mathlib.Core.Path.{subst}
use raft_kv_distributed_kv_s.Prelude.{
  ℕ, suc, ◌+◌, ◌≤◌, ◌<◌, ◌≡◌, ◌≢◌, ◌⊎◌, inl, inr, refl, sym, ◌∙◌, List, [], ◌∷◌, ◌++◌, length,
  length-append, Bool-cases, true, false, arith, ◌==◌, if◌then◌else◌, ℕ_discrete, ne→==_false,
}
use raft_kv_distributed_kv_s.Raft.Node.{contains, insert_vote}

-- The element is in the list.
abbrev pub Among : {A : Type 0} → A → List A → Type 0
Among a [] = ⊥
Among a (b ∷ bs) = (b ≡ a) ⊎ Among a bs

abbrev pub Distinct : List ℕ → Type 0
Distinct [] = Unit
Distinct (a ∷ rest) = ¬ (Among a rest) × Distinct rest

pub Among-append_left : {A : Type 0} → (a : A) (xs ys : List A) → Among a xs → Among a (xs ++ ys)
Among-append_left a (x ∷ xs) ys (inl e) = inl e
Among-append_left a (x ∷ xs) ys (inr h) = inr (Among-append_left a xs ys h)
Among-append_left a [] ys h = absurd h

pub Among-append :
    {A : Type 0} → (a : A) (xs ys : List A) → Among a (xs ++ ys) → Among a xs ⊎ Among a ys
Among-append a [] ys h = inr h
Among-append a (x ∷ xs) ys (inl e) = inl (inl e)
Among-append a (x ∷ xs) ys (inr h) = elim (Among-append a xs ys h) [
  | inl l ↦ inl (inr l)
  | inr r ↦ inr r
]

pub contains-Among : (a : ℕ) (xs : List ℕ) → contains a xs ≡ true → Among a xs
unfolding contains
contains-Among a [] h = cc
contains-Among a (x ∷ xs) h = elim (ℕ_discrete x a) [
  | yes e ↦ inl e
  | no ne ↦ inr (contains-Among a xs (ground arith))
]

pub not-contains : (a : ℕ) (xs : List ℕ) → contains a xs ≡ false → ¬ (Among a xs)
unfolding contains
not-contains a [] h = λ m. m
not-contains a (x ∷ xs) h =
    λ m. elim m [ inl e ↦ ground arith | inr rest ↦ not-contains a xs (ground arith) rest ]

pub Distinct-insert_vote :
    (a : ℕ) (votes : List ℕ) → Distinct votes → Distinct (insert_vote a votes)
unfolding insert_vote
Distinct-insert_vote a votes d = elim (Bool-cases (contains a votes)) [
  | inl had ↦ rw had d
  | inr new ↦ rw new (not-contains a votes new, d)
]

pub Among-insert_vote :
    (v a : ℕ) (votes : List ℕ) → Among v (insert_vote a votes) → (a ≡ v) ⊎ Among v votes
unfolding insert_vote
Among-insert_vote v a votes = elim (Bool-cases (contains a votes)) [
  | inl had ↦ rw had λ h. inr h
  | inr new ↦ rw new λ h. h
]

-- The list without the first of an element.
erase : ℕ → List ℕ → List ℕ
erase a [] = []
erase a (x ∷ xs) = let rest = x ∷ erase a xs in if x == a then xs else rest

length-erase : (a : ℕ) (xs : List ℕ) → Among a xs → length xs ≡ suc (length (erase a xs))
unfolding erase
length-erase a [] h = absurd h
length-erase a (x ∷ xs) (inl e) = ground arith
length-erase a (x ∷ xs) (inr h) = ground (arith, length-erase a xs h)

Among-erase : (a v : ℕ) (xs : List ℕ) → Among v xs → v ≢ a → Among v (erase a xs)
unfolding erase
Among-erase a v [] h ne = absurd h
Among-erase a v (x ∷ xs) (inl e) ne = rw (ne→==_false x a (λ f. ne (sym e ∙ f))) (inl e)
Among-erase a v (x ∷ xs) (inr h) ne = elim (Bool-cases (x == a)) [
  | inl here ↦ rw here h
  | inr other ↦ rw other (inr (Among-erase a v xs h ne))
]

-- All of the first list is in the second.
abbrev pub Within : List ℕ → List ℕ → Type 0
Within xs ms = (v : ℕ) → Among v xs → Among v ms

length-Within : (xs ms : List ℕ) → Distinct xs → Within xs ms → length xs ≤ length ms
length-Within [] ms d w = omega arith
length-Within (x ∷ xs) ms d w = omega (
  arith,
  length-erase x ms (w x (inl refl)),
  length-Within xs (erase x ms) d.1
      (λ v h. Among-erase x v ms (w v (inr h)) (λ e. d.0 (meets e h))),
)
  where
    meets : {v : ℕ} → v ≡ x → Among v xs → Among x xs
    meets e h = subst (λ z. Among z xs) e h

abbrev Apart : List ℕ → List ℕ → Type 0
Apart xs ys = (v : ℕ) → Among v xs → ¬ (Among v ys)

Distinct-append : (xs ys : List ℕ) → Distinct xs → Distinct ys → Apart xs ys → Distinct (xs ++ ys)
Distinct-append [] ys d e a = e
Distinct-append (x ∷ xs) ys d e a = (
  (λ h. elim (Among-append x xs ys h) [ inl l ↦ d.0 l | inr r ↦ a x (inl refl) r ]),
  Distinct-append xs ys d.1 e (λ v h. a v (inr h)),
)

-- A shared element, or none.
shared : (xs ys : List ℕ) → ((v : ℕ) × Among v xs × Among v ys) ⊎ Apart xs ys
shared [] ys = inr (λ v h. absurd h)
shared (x ∷ xs) ys = elim (Bool-cases (contains x ys)) [
  | inl had ↦ inl (x, inl refl, contains-Among x ys had)
  | inr not_had ↦ elim (shared xs ys) [
    | inl (v, a, b) ↦ inl (v, inr a, b)
    | inr apart ↦ inr λ v h. elim h [
      | inl e ↦ λ m. not-contains x ys not_had (subst (λ z. Among z ys) (sym e) m)
      | inr rest ↦ apart v rest
    ]
  ]
]

-- Two lists of distinct members of a third that are longer together than it share an element.
pub overlap :
    (xs ys ms : List ℕ)
    → Distinct xs
    → Distinct ys
    → Within xs ms
    → Within ys ms
    → length ms < length xs + length ys
    → (v : ℕ) × Among v xs × Among v ys
overlap xs ys ms d e w u more = elim (shared xs ys) [
  | inl found ↦ found
  | inr apart ↦ absurd (
      omega (
        arith,
        length-append xs ys,
        length-Within (xs ++ ys) ms (Distinct-append xs ys d e apart)
            (λ v h. elim (Among-append v xs ys h) [ inl l ↦ w v l | inr r ↦ u v r ]),
      ))
]
