-- ===== src/Raft/Merge.antt =====
-- raft/node.rs, handle_append_entries: the index loop over the request's entries is the plain
-- recursion `overlay` over the two lists.
-- The entries after `prev_log_index`, existing and sent: equal terms keep the existing entry, the
-- first conflict replaces the rest.
pub mod Accept
pub mod Agree
use native.Mathlib.Numerals.{add-one}
use raft_kv_distributed_kv_s.Prelude.{
  List, ℕ, ◌<◌, ◌∷◌, ◌++◌, ◌≤◌, get_elem?, length, if◌then◌else◌, drop, arith, ◌≡◌, ◌==◌, ◌-◌, ◌+◌,
  some, none, take, get_elem?-ge, get_elem?-lt, Option-cases, [], inl, inr, ap, drop-nil, suc,
  append-nil, sym, take-append-drop, take-all, drop-all, drop-eq-cons, Bool-cases, ◌∙◌, take-suc,
  append_assoc, ==_iff, true, refl,
}
use raft_kv_distributed_kv_s.Raft.Log.{RaftLog, term_at, last_index, LogEntry, truncate_from}
use raft_kv_distributed_kv_s.Raft.Node.Entries.{scan}

unfoldable pub overlay : List LogEntry → List LogEntry → List LogEntry
overlay xs [] = xs
overlay [] (e ∷ es) = e ∷ es
overlay (x ∷ xs) (e ∷ es) = if x.term == e.term then x ∷ overlay xs es else e ∷ es

-- The log after the loop and the append.
abbrev pub merged : RaftLog → ℕ → List LogEntry → List LogEntry
merged log index es = let (cut, last) = scan log es index in cut.entries ++ drop (last - index) es

pub scan_ge : (log : RaftLog) (es : List LogEntry) (i : ℕ) → i ≤ (scan log es i).1
unfolding scan
scan_ge log [] i = omega arith
scan_ge log (e ∷ es) i = ground (arith, scan_ge log es (i + 1))

term_at-some :
    (log : RaftLog) (i : ℕ) (x : LogEntry)
    → get_elem? log.entries i ≡ some x
    → term_at log i ≡ x.term
unfolding term_at
term_at-some log i x h = rw h

term_at-none : (log : RaftLog) (i : ℕ) → get_elem? log.entries i ≡ none → term_at log i ≡ 0
unfolding term_at
term_at-none log i h = rw h

pub last_index-eq :
    (log : RaftLog) → 0 < length log.entries → last_index log ≡ length log.entries - 1
unfolding last_index
last_index-eq log h = ground arith

-- The loop meets the end of the log.
scan-end :
    (log : RaftLog) (e : LogEntry) (es : List LogEntry) (i : ℕ)
    → 0 < length log.entries
    → get_elem? log.entries i ≡ none
    → scan log (e ∷ es) i ≡ (log, i)
unfolding scan
scan-end log e es i pos h =
    ground (arith, term_at-none log i h, last_index-eq log pos, get_elem?-ge log.entries i h)

-- The loop meets a conflict, or an entry that is there already.
scan-at :
    (log : RaftLog) (e x : LogEntry) (es : List LogEntry) (i : ℕ)
    → 0 < length log.entries
    → get_elem? log.entries i ≡ some x
    → scan log (e ∷ es) i ≡ (
        if x.term == e.term
        then scan log es (i + 1)
        else (record { entries = take i log.entries }, i))
unfolding scan truncate_from
scan-at log e x es i pos h =
    ground (arith, term_at-some log i x h, last_index-eq log pos, get_elem?-lt log.entries i x h)

pub drop_self : (i : ℕ) (es : List LogEntry) → drop (i - i) es ≡ es
drop_self i es = ap (λ (k : ℕ). drop k es) {y = 0} (omega arith)

pub drop_past :
    (i last : ℕ) (e : LogEntry) (es : List LogEntry)
    → i + 1 ≤ last
    → drop (last - i) (e ∷ es) ≡ drop (last - (i + 1)) es
drop_past i last e es h = ap (λ (k : ℕ). drop k (e ∷ es)) {y = suc (last - (i + 1))} (omega arith)

-- The index loop over the log, then the append of what it did not find, is `overlay` on the part of
-- the log from that index on.
pub merged-eq-overlay :
    (log : RaftLog) (i : ℕ) (es : List LogEntry)
    → 0 < length log.entries
    → i ≤ length log.entries
    → merged log i es ≡ take i log.entries ++ overlay (drop i log.entries) es
unfolding overlay
merged-eq-overlay log i [] pos h =
    unfold scan in rw (drop-nil, append-nil) (sym (take-append-drop i log.entries))
merged-eq-overlay log i (e ∷ es) pos h = elim (Option-cases (get_elem? log.entries i)) [
  | inl over ↦ rw (
    scan-end log e es i pos over,
    drop_self,
    take-all _ i (get_elem?-ge log.entries i over),
    drop-all _ i (get_elem?-ge log.entries i over),
  )
  | inr (x, found) ↦
      rw (scan-at log e x es i pos found, drop-eq-cons log.entries i x found)
        (elim (Bool-cases (x.term == e.term)) [
          | inl same ↦
              rw (same, drop_past i (scan log es (i + 1)).1 e es (scan_ge log es (i + 1)))
                (merged-eq-overlay log (i + 1) es pos
                    (omega (arith, get_elem?-lt log.entries i x found))
                  ∙ rw (add-one, take-suc log.entries i x found, append_assoc))
          | inr conflict ↦ rw (conflict, drop_self)
        ])
]

abbrev pub terms : List LogEntry → List ℕ
terms [] = []
terms (e ∷ es) = e.term ∷ terms es

length-terms : (es : List LogEntry) → length (terms es) ≡ length es
length-terms [] = refl
length-terms (e ∷ es) = ap suc (length-terms es)

terms_all : (es : List LogEntry) → take (length es) (terms es) ≡ terms es
terms_all es = take-all (terms es) (length es) (omega (arith, length-terms es))

-- The front of the result has the terms of the request.
pub terms-overlay : (xs es : List LogEntry) → take (length es) (terms (overlay xs es)) ≡ terms es
unfolding overlay
terms-overlay xs [] = refl
terms-overlay [] (e ∷ es) = terms_all (e ∷ es)
terms-overlay (x ∷ xs) (e ∷ es) = elim (Bool-cases (x.term == e.term)) [
  | inl same ↦ rw same (cc (terms-overlay xs es, (==_iff x.term e.term).0 same))
  | inr conflict ↦ rw conflict (terms_all (e ∷ es))
]

eq_self : (a : ℕ) → (a == a) ≡ true
eq_self a = (==_iff a a).1 refl

overlay-same : (es : List LogEntry) → overlay es es ≡ es
unfolding overlay
overlay-same [] = refl
overlay-same (e ∷ es) = rw eq_self (ap (λ zs. e ∷ zs) (overlay-same es))

-- The same request once more changes nothing.
pub overlay-overlay : (xs es : List LogEntry) → overlay (overlay xs es) es ≡ overlay xs es
unfolding overlay
overlay-overlay xs [] = refl
overlay-overlay [] (e ∷ es) = overlay-same (e ∷ es)
overlay-overlay (x ∷ xs) (e ∷ es) = elim (Bool-cases (x.term == e.term)) [
  | inl same ↦ rw (same, same) (ap (λ zs. x ∷ zs) (overlay-overlay xs es))
  | inr conflict ↦ rw conflict (overlay-same (e ∷ es))
]

-- A request whose terms are all there already changes nothing: what follows them is kept.
pub overlay_known :
    (xs es : List LogEntry) → take (length es) (terms xs) ≡ terms es → overlay xs es ≡ xs
unfolding overlay
overlay_known xs [] h = refl
overlay_known [] (e ∷ es) h = cc
overlay_known (x ∷ xs) (e ∷ es) h =
    let same : x.term ≡ e.term = cc in
    rw ((==_iff x.term e.term).1 same) (ap (λ zs. x ∷ zs) (overlay_known xs es (cc)))
