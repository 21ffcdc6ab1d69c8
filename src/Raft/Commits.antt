-- ===== src/Raft/Commits.antt =====
-- raft/node.rs, maybe_advance_commit_index: the leader's commit rule.
pub mod Apply
use mathlib.Core.Path.{subst}
use raft_kv_distributed_kv_s.Raft.State.{RaftState, majority_count}
use raft_kv_distributed_kv_s.Raft.Node.Commit.{
  can_commit, advance_loop, maybe_advance_commit_index, apply_committed_entries, replicas,
}
use raft_kv_distributed_kv_s.Raft.Log.{last_index, RaftLog, term_at}
use Prim.Native.Nat.{ℕ, suc}
use raft_kv_distributed_kv_s.Prelude.{
  ℕ, ◌<◌, ◌≡◌, arith, length, ◌≤◌, ◌⊎◌, true, false, inl, ◌+◌, ◌-◌, refl, ◌↔◌, suc, inr, Bool-cases,
  ap, zero, ◌∙◌, sym, dec_lt, List, ◌*◌, ◌/◌, [], ◌∷◌, leb,
}

-- What the loop over `k` indices from `i` makes of the commit index.
pub record Advanced (s : RaftState) (i k c : ℕ) : Type 0 where
  pub grows : s.commit_index ≤ c
  pub rule : (c ≡ s.commit_index) ⊎ ((i ≤ c) × (c < i + k) × (can_commit s c ≡ true))
  pub best : (j : ℕ) → i ≤ j → j < i + k → can_commit s j ≡ true → j ≤ c

-- The two conditions do not read the commit index, which the loop moves.
can_commit-frame :
    (s : RaftState) (c i : ℕ) → can_commit (record s { commit_index = c }) i ≡ can_commit s i
unfolding can_commit majority_count
can_commit-frame s c i = refl

extend_good :
    (s : RaftState) (i k c : ℕ)
    → s.commit_index < i
    → can_commit s i ≡ true
    → Advanced (record s { commit_index = i }) (i + 1) k c
    → Advanced s i (suc k) c
extend_good s i k c h good ih = record {
  grows = omega (arith, ih.grows);
  rule = inr (
    omega (arith, ih.grows),
    elim ih.rule [ inl e ↦ omega arith | inr (a, b, _) ↦ omega arith ],
    elim ih.rule [
      | inl e ↦ ap (can_commit s) e ∙ good
      | inr (_, _, d) ↦ sym (can_commit-frame s i c) ∙ d
    ],
  );
  best = λ j a b d. elim (dec_lt i j) [
    | yes above ↦ ih.best j (omega arith) (omega arith) (can_commit-frame s i j ∙ d)
    | no here ↦ omega (arith, ih.grows)
  ];
}

extend_bad :
    (s : RaftState) (i k c : ℕ)
    → can_commit s i ≡ false
    → Advanced s (i + 1) k c
    → Advanced s i (suc k) c
extend_bad s i k c bad ih = record {
  grows = ih.grows;
  rule = elim ih.rule [ inl e ↦ inl e | inr (a, b, d) ↦ inr (omega arith, omega arith, d) ];
  best = λ j a b d. elim (dec_lt i j) [
    | yes above ↦ ih.best j (omega arith) (omega arith) d
    | no here ↦ let e : j ≡ i = omega arith in cc (ap (can_commit s) e)
  ];
}

advance_loop-Advanced :
    (k : ℕ) (s : RaftState) (i : ℕ)
    → s.commit_index < i
    → Advanced s i k (advance_loop k s i).commit_index
unfolding advance_loop
advance_loop-Advanced zero s i h = record {
  grows = omega arith;
  rule = inl refl;
  best = λ j a b. absurd (omega arith);
}
advance_loop-Advanced (suc k) s i h = elim (Bool-cases (can_commit s i)) [
  | inl good ↦
      rw (good, advance_loop)
        (extend_good s i k _ h good (advance_loop-Advanced k _ (i + 1) (omega arith)))
  | inr bad ↦
      rw (bad, advance_loop)
        (extend_bad s i k _ bad (advance_loop-Advanced k s (i + 1) (omega arith)))
]

-- Of the followers in the list, with their match indices, just `k` have one that is `c` or later.
pub data Reached (c : ℕ) : List (ℕ × ℕ) → ℕ → Type 0 where
  nobody : Reached c [] 0
  reached :
      {fs : List (ℕ × ℕ)} {k : ℕ} (id index : ℕ)
      → c ≤ index
      → Reached c fs k
      → Reached c ((id, index) ∷ fs) (1 + k)
  lags :
      {fs : List (ℕ × ℕ)} {k : ℕ} (id index : ℕ)
      → index < c
      → Reached c fs k
      → Reached c ((id, index) ∷ fs) k

replicas-Reached : (c : ℕ) (fs : List (ℕ × ℕ)) → Reached c fs (replicas c fs)
unfolding replicas
replicas-Reached c [] = nobody
replicas-Reached c ((id, index) ∷ fs) = elim (Bool-cases (leb c index)) [
  | inl reaches ↦ rw reaches (reached id index (ground arith) (replicas-Reached c fs))
  | inr behind ↦ rw behind (
      subst (Reached c ((id, index) ∷ fs)) (omega arith)
        (lags id index (ground arith) (replicas-Reached c fs)))
]

Reached-replicas : {c k : ℕ} {fs : List (ℕ × ℕ)} → Reached c fs k → k ≡ replicas c fs
unfolding replicas
Reached-replicas nobody = refl
Reached-replicas (reached id index h r) = let ih = Reached-replicas r in ground arith
Reached-replicas (lags id index h r) = let ih = Reached-replicas r in ground arith

-- The leader and `k` followers are more than half of the peers, the leader among them.
abbrev pub IsMost : RaftState → ℕ → Type 0
IsMost s k = length s.peers < 2 * (1 + k)

-- What the rule makes of the commit index.
pub record Commits (s : RaftState) (c : ℕ) : Type 0 where
  pub grows : s.commit_index ≤ c
  pub rule :
      (c ≡ s.commit_index)
      ⊎ ((c ≤ last_index s.log)
          × (term_at s.log c ≡ s.current_term)
          × ((k : ℕ) × Reached c s.match_index k × IsMost s k))
  pub best :
      (j k : ℕ)
      → c < j
      → j ≤ last_index s.log
      → term_at s.log j ≡ s.current_term
      → Reached j s.match_index k
      → ¬ IsMost s k

-- The two conditions of the code, in these words.
can_commit-in_term :
    (s : RaftState) (i : ℕ)
    → can_commit s i ≡ true
    → (term_at s.log i ≡ s.current_term) × IsMost s (replicas i s.match_index)
unfolding can_commit majority_count
can_commit-in_term s i h = (
  ground arith,
  let many : length s.peers / 2 + 1 ≤ 1 + replicas i s.match_index = ground arith in omega arith,
)

can_commit-IsMost :
    (s : RaftState) (i k : ℕ)
    → term_at s.log i ≡ s.current_term
    → Reached i s.match_index k
    → IsMost s k
    → can_commit s i ≡ true
unfolding can_commit majority_count
can_commit-IsMost s i k in_term r most =
    let same = Reached-replicas r in
    let many : length s.peers / 2 + 1 ≤ 1 + replicas i s.match_index = omega (arith, same, most) in
    ground arith

advance-commit_index :
    (s : RaftState)
    → (maybe_advance_commit_index s).0.commit_index
      ≡ (advance_loop (last_index s.log - s.commit_index) s (s.commit_index + 1)).commit_index
unfolding maybe_advance_commit_index apply_committed_entries
advance-commit_index s = ground arith

-- The commit index never falls. An index that is new to it lies in the log, has an entry of the
-- leader's term, and the leader with the followers whose recorded match index is there or behind it
-- is more than half of the peers; of the later indices of the log that have an entry of that term,
-- none is reached by so many.
pub advance-Commits : (s : RaftState) → Commits s (maybe_advance_commit_index s).0.commit_index
advance-Commits s = rw advance-commit_index (record {
  grows = a.grows;
  rule = elim a.rule [
    | inl e ↦ inl e
    | inr (low, high, good) ↦
        let (in_term, most) = can_commit-in_term s c good in
        inr (omega arith, in_term, (_, replicas-Reached c s.match_index, most))
  ];
  best = λ j k above inside in_term r most. absurd (
      omega (
        arith,
        a.grows,
        a.best j (omega (arith, a.grows)) (omega (arith, a.grows))
            (can_commit-IsMost s j k in_term r most),
      ));
})
  where
    c : ℕ
    c = (advance_loop (last_index s.log - s.commit_index) s (s.commit_index + 1)).commit_index

    a : Advanced s (s.commit_index + 1) (last_index s.log - s.commit_index) c
    a = advance_loop-Advanced _ s (s.commit_index + 1) (omega arith)
