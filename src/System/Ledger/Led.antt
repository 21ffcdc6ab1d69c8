-- ===== src/System/Ledger/Led.antt =====
-- raft/node.rs in the cluster: the record of leaders and logs after a leader has moved, or has been
-- elected.
use mathlib.Core.Path.{subst, ap, sym}
use raft_kv_distributed_kv_s.System.Ledger.{Owners, Asked, ℕ, Book, RaftState, LogEntry}
use raft_kv_distributed_kv_s.System.Ledger.Moved.{Change, Moving, log_bounded, moved-positive}
use raft_kv_distributed_kv_s.Prelude.{
  ℕ, if◌then◌else◌, ◌≡◌, ◌≢◌, ◌==◌, arith, some, [], List, ℕ_discrete, none, length, ◌<◌, ◌∙◌, ap,
  ◌≤◌, ◌⊎◌, sym, Option-cases, ◌++◌, inr, word, inl, append-nil, ◌∷◌, length-append,
}
use raft_kv_distributed_kv_s.Raft.Matching.{
  Book, Continues, Traced, Traced-Continues, Traced-append,
}
use raft_kv_distributed_kv_s.Raft.Matching.Terms.{Below, Below-append}
use raft_kv_distributed_kv_s.Raft.State.{RaftState, leader}
use raft_kv_distributed_kv_s.Raft.Writes.{
  LogMove, kept, Office, appended, took, resigned, stayed, elected, stood,
}
use raft_kv_distributed_kv_s.Raft.Log.{LogEntry, RaftLog}

-- A map with one more entry.
abbrev entered : {A : Type 0} → ℕ → A → (ℕ → A) → ℕ → A
entered at x f u = if u == at then x else f u

entered-here : {A : Type 0} → (at : ℕ) (x : A) (f : ℕ → A) → entered at x f at ≡ x
entered-here at x f = ground arith

entered-other :
    {A : Type 0} → (at : ℕ) (x : A) (f : ℕ → A) (u : ℕ) → u ≢ at → entered at x f u ≡ f u
entered-other at x f u ne = ground arith

-- The leader's log takes its place in the record.
module _ {book : Book} {owner : Owners} {i : ℕ} {s t : RaftState} (w : Moving book owner i s t)
    (leads : t.role ≡ leader) (mine : (j : ℕ) → owner t.current_term ≡ some j → j ≡ i) where
  noted : Book
  noted = entered t.current_term t.log.entries book

  owned : Owners
  owned = entered t.current_term (some i) owner

  noted-here : noted t.current_term ≡ t.log.entries
  unfolding noted
  noted-here = entered-here t.current_term t.log.entries book

  owned-here : owned t.current_term ≡ some i
  unfolding owned
  owned-here = entered-here t.current_term (some i) owner

  noted-other : (u : ℕ) → u ≢ t.current_term → noted u ≡ book u
  unfolding noted
  noted-other = entered-other t.current_term t.log.entries book

  owned-other : (u : ℕ) → u ≢ t.current_term → owned u ≡ owner u
  unfolding owned
  owned-other = entered-other t.current_term (some i) owner

  positive : 0 < t.current_term
  positive = moved-positive w (λ f. cc (f, leads))

  -- A term that no node has led has no log.
  unled : owner t.current_term ≢ some i → book t.current_term ≡ []
  unled free = elim (Option-cases (owner t.current_term)) [
    | inl none_led ↦ w.unowned t.current_term none_led positive
    | inr (j, led) ↦ absurd (free (led ∙ ap (λ x. some x) (mine j led)))
  ]

  -- The leader of a term only adds to its log.
  same_leads :
      s.role ≡ leader → t.current_term ≡ s.current_term → s.log.entries ≡ book t.current_term
  same_leads l term = (w.keeper.leads l).1 ∙ ap book (sym term)

  longer : (more : List LogEntry) × (t.log.entries ≡ book t.current_term ++ more)
  longer = go w.log w.office
    where
      anew :
          owner t.current_term ≢ some i
          → (more : List LogEntry) × (t.log.entries ≡ book t.current_term ++ more)
      anew free = (t.log.entries, ap (λ p. p ++ t.log.entries) (sym (unled free)))

      go :
          LogMove (Asked book) s t
          → Office s t
          → (more : List LogEntry) × (t.log.entries ≡ book t.current_term ++ more)
      go (appended x was l term own space e) o =
          (x ∷ [], e ∙ ap (λ p. p ++ x ∷ []) (same_leads was term))
      go (took r a b c f d e) o = cc (f, leads)
      go (kept e) (resigned f) = cc (f, leads)
      go (kept e) (stayed same term) = (
        [],
        ap (λ (l : RaftLog). l.entries) e
            ∙ same_leads (sym same ∙ leads) term
            ∙ sym (append-nil (book t.current_term)),
      )
      go (kept e) (elected was l term) =
          anew (λ own. w.keeper.stands was (ap owner (sym term) ∙ own))
      go (kept e) (stood more) = anew (λ own. omega (arith, more, w.keeper.past t.current_term own))

  noted-Continues : Continues book noted
  noted-Continues u = elim (ℕ_discrete u t.current_term) [
    | yes now ↦
        let (more, e) = longer in
        (more, ap noted now ∙ noted-here ∙ e ∙ ap (λ x. book x ++ more) (sym now))
    | no other ↦ ([], noted-other u other ∙ sym (append-nil (book u)))
  ]

  record Fit (es : List LogEntry) : Type 0 where
    traced : Traced noted es
    nonempty : 0 < length es
    short : length es < word
    below : Below t.current_term es

  fit : LogMove (Asked book) s t → Fit t.log.entries
  fit (kept e) =
      subst (λ (l : RaftLog). Fit l.entries) (sym e)
        (record {
          traced = Traced-Continues book noted s.log.entries noted-Continues w.keeper.traced;
          nonempty = w.keeper.nonempty;
          short = log_bounded w;
          below = λ j x h. omega (arith, w.grows, w.keeper.below j x h);
        })
  fit (appended x was l term own space e) = subst Fit (sym e) (record {
    traced =
        Traced-append noted s.log.entries x
          (Traced-Continues book noted s.log.entries noted-Continues w.keeper.traced)
          (ap noted (own ∙ sym term) ∙ noted-here ∙ e);
    nonempty = omega (arith, length-append s.log.entries (x ∷ []));
    short = omega (arith, length-append s.log.entries (x ∷ []), space);
    below =
        Below-append t.current_term s.log.entries x
          (λ j y h. omega (arith, w.grows, w.keeper.below j y h)) (omega (arith, own, term));
  })
  fit (took r a b c f d e) = cc (f, leads)

  not_now : (u j : ℕ) → owner u ≡ some j → j ≢ i → u ≢ t.current_term
  not_now u j e ne now = ne (mine j (ap owner (sym now) ∙ e))

  lead_past : (u : ℕ) → owned u ≡ some i → u ≤ t.current_term
  lead_past u e = elim (ℕ_discrete u t.current_term) [
    | yes now ↦ omega (arith, now)
    | no other ↦ omega (arith, w.grows, w.keeper.past u (sym (owned-other u other) ∙ e))
  ]

  lead_owned : (u j : ℕ) → owner u ≡ some j → owned u ≡ some j
  lead_owned u j e = elim (ℕ_discrete u t.current_term) [
    | yes now ↦ ap owned now ∙ owned-here ∙ ap (λ x. some x) (sym (mine j (ap owner (sym now) ∙ e)))
    | no other ↦ owned-other u other ∙ e
  ]

  lead_newly :
      (u j : ℕ)
      → owned u ≡ some j
      → (owner u ≡ some j) ⊎ ((j ≡ i) × (u ≡ t.current_term) × (t.role ≡ leader))
  lead_newly u j e = elim (ℕ_discrete u t.current_term) [
    | yes now ↦
        let same : some j ≡ some i = sym e ∙ ap owned now ∙ owned-here in inr (cc same, now, leads)
    | no other ↦ inl (sym (owned-other u other) ∙ e)
  ]

  lead_unowned : (u : ℕ) → owned u ≡ none → 0 < u → noted u ≡ []
  lead_unowned u e h = elim (ℕ_discrete u t.current_term) [
    | yes now ↦ cc (e, ap owned now, owned-here)
    | no other ↦ noted-other u other ∙ w.unowned u (sym (owned-other u other) ∙ e) h
  ]

  lead_bounded : (u : ℕ) → length (noted u) < word
  lead_bounded u = elim (ℕ_discrete u t.current_term) [
    | yes now ↦ omega (arith, ap length (ap noted now ∙ noted-here), (fit w.log).short)
    | no other ↦ omega (arith, ap length (noted-other u other), w.bounded u)
  ]

  lead_tops : (u : ℕ) → Below u (noted u)
  lead_tops u = elim (ℕ_discrete u t.current_term) [
    | yes now ↦
        subst (λ x. Below x (noted x)) (sym now)
          (subst (Below t.current_term) (sym noted-here) (fit w.log).below)
    | no other ↦ subst (Below u) (sym (noted-other u other)) (w.tops u)
  ]

  pub lead-Change : Change book owner i t
  lead-Change = record {
    new_book = noted;
    new_owner = owned;
    continues = noted-Continues;
    keeper = record {
      traced = (fit w.log).traced;
      nonempty = (fit w.log).nonempty;
      below = (fit w.log).below;
      leads = λ _. (owned-here, sym noted-here);
      past = lead_past;
      stands = λ c. cc (c, leads);
      positive = λ _. positive;
      indices = w.indices;
    };
    others_book = λ u j e ne. noted-other u (not_now u j e ne);
    still_owned = lead_owned;
    newly_owned = lead_newly;
    unowned = lead_unowned;
    sentinel_only =
        ap length (noted-other 0 (λ now. omega (arith, now, positive))) ∙ w.sentinel_only;
    tops = lead_tops;
    bounded = lead_bounded;
  }
