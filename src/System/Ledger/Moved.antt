-- ===== src/System/Ledger/Moved.antt =====
-- raft/node.rs in the cluster: the record of leaders and logs after one node has moved.
use mathlib.Core.Path.{subst, sym, ap}
use raft_kv_distributed_kv_s.Raft.Matching.{overlay-either_log, reaches}
use raft_kv_distributed_kv_s.Raft.Matching.Terms.{Below}
use raft_kv_distributed_kv_s.System.Ledger.{
  Owners, Asked, Keeper, Book, ℕ, RaftState, AppendEntriesRequest,
}
use raft_kv_distributed_kv_s.Raft.Matching.{
  Book, Continues, Traced-Continues, Traced-bounded, Traced, Part, reaches, overlay-either_log,
}
use raft_kv_distributed_kv_s.Prelude.{
  ℕ, length, ◌≢◌, ◌≡◌, some, ◌<◌, inl, word, ◌⊎◌, inr, none, [], ◌∙◌, ◌≤◌, sym, List, append-nil,
  arith, refl, next_word, ap, suc, take, ◌++◌, drop,
}
use raft_kv_distributed_kv_s.Raft.State.{RaftState, leader, candidate, follower}
use raft_kv_distributed_kv_s.Raft.Log.{term_at, LogEntry, RaftLog}
use raft_kv_distributed_kv_s.Raft.Message.{AppendEntriesRequest}
use raft_kv_distributed_kv_s.Raft.Writes.{
  Office, LogMove, AllPositive, resigned, kept, stayed, elected, appended, stood, took,
}
use raft_kv_distributed_kv_s.Raft.Merge.{merged, overlay, merged-eq-overlay}

-- How the record changes when node `i` moves to the state `t`.
pub record Change (book : Book) (owner : Owners) (i : ℕ) (t : RaftState) : Type 0 where
  pub new_book : Book
  pub new_owner : Owners
  pub continues : Continues book new_book
  pub keeper : Keeper new_book new_owner i t
  pub others_book : (u j : ℕ) → owner u ≡ some j → j ≢ i → new_book u ≡ book u
  pub still_owned : (u j : ℕ) → owner u ≡ some j → new_owner u ≡ some j
  pub newly_owned :
      (u j : ℕ)
      → new_owner u ≡ some j
      → (owner u ≡ some j) ⊎ ((j ≡ i) × (u ≡ t.current_term) × (t.role ≡ leader))
  pub unowned : (u : ℕ) → new_owner u ≡ none → 0 < u → new_book u ≡ []
  pub sentinel_only : length (new_book 0) ≡ 1
  pub tops : (u : ℕ) → Below u (new_book u)
  pub bounded : (u : ℕ) → length (new_book u) < word

-- A record that fits the state `s` of node `i`, and the move of the node to the state `t`.
pub record Moving (book : Book) (owner : Owners) (i : ℕ) (s t : RaftState) : Type 0 where
  pub keeper : Keeper book owner i s
  pub sentinel_only : length (book 0) ≡ 1
  pub tops : (u : ℕ) → Below u (book u)
  pub bounded : (u : ℕ) → length (book u) < word
  pub unowned : (u : ℕ) → owner u ≡ none → 0 < u → book u ≡ []
  pub grows : s.current_term ≤ t.current_term
  pub office : Office s t
  pub log : LogMove (Asked book) s t
  pub indices : AllPositive t.next_index

-- Another node is a keeper still.
pub other-Keeper :
    {book : Book} {owner : Owners} {i : ℕ} {t : RaftState} (c : Change book owner i t) (j : ℕ)
    (s : RaftState)
    → j ≢ i
    → Keeper book owner j s
    → Keeper c.new_book c.new_owner j s
other-Keeper {book} {owner} {i} {t} c j s ne k = record {
  traced = Traced-Continues book c.new_book s.log.entries c.continues k.traced;
  nonempty = k.nonempty;
  below = k.below;
  leads = λ l.
      let (own, log) = k.leads l in
      (c.still_owned s.current_term j own, log ∙ sym (c.others_book s.current_term j own ne));
  past = λ u e. k.past u (was u e);
  stands = λ role e. k.stands role (was s.current_term e);
  positive = k.positive;
  indices = k.indices;
}
  where
    was : (u : ℕ) → c.new_owner u ≡ some j → owner u ≡ some j
    was u e = elim (c.newly_owned u j e) [ inl old ↦ old | inr (mine, _, _) ↦ absurd (ne mine) ]

module _ {book : Book} {owner : Owners} {i : ℕ} {s t : RaftState}
    (w : Moving book owner i s t) where
  pub log_bounded : length s.log.entries < word
  log_bounded = Traced-bounded book s.log.entries word w.keeper.traced w.keeper.nonempty w.bounded

  -- What a node's log can be after a move.
  record Fit (es : List LogEntry) : Type 0 where
    pub traced : Traced book es
    pub nonempty : 0 < length es
    pub below : Below t.current_term es

  old-Fit : Fit s.log.entries
  old-Fit = record {
    traced = w.keeper.traced;
    nonempty = w.keeper.nonempty;
    below = λ j x h. omega (arith, w.grows, w.keeper.below j x h);
  }

  -- What a follower makes of a request is its own log or that of the sender.
  took-Fit :
      (r : AppendEntriesRequest) (es : List LogEntry)
      → Traced book es
      → Part es r
      → Below r.term es
      → term_at s.log r.prev_log_index ≡ r.prev_log_term
      → r.term ≤ t.current_term
      → Fit (merged s.log (next_word r.prev_log_index) r.entries)
  unfolding term_at
  took-Fit r es u part below agrees reach_term =
      let reach =
        reaches book s.log.entries es r w.keeper.traced u w.sentinel_only w.keeper.nonempty part
          agrees in
      let first : next_word r.prev_log_index ≡ suc r.prev_log_index =
        omega (arith, reach, log_bounded) in
      let is_overlay : merged s.log (next_word r.prev_log_index) r.entries
          ≡ take (suc r.prev_log_index) s.log.entries
            ++ overlay (drop (suc r.prev_log_index) s.log.entries) r.entries =
        ap (λ j. merged s.log j r.entries) first
        ∙ merged-eq-overlay s.log (suc r.prev_log_index) r.entries w.keeper.nonempty
            (omega (arith, reach)) in
      elim (overlay-either_log book s.log.entries es r w.keeper.traced u w.sentinel_only
        w.keeper.nonempty part agrees) [
          | inl own ↦ subst Fit (sym (is_overlay ∙ own)) old-Fit
          | inr sent ↦ subst Fit (sym (is_overlay ∙ sent)) (record {
            traced = u;
            nonempty = omega (arith, part.has_prev);
            below = λ j x h. omega (arith, reach_term, below j x h);
          })
        ]

  pub moved-stands : t.role ≡ candidate → owner t.current_term ≢ some i
  moved-stands role own = go w.office
    where
      go : Office s t → ⊥
      go (resigned f) = cc (role, f)
      go (stayed same term) = w.keeper.stands (sym same ∙ role) (ap owner (sym term) ∙ own)
      go (elected was l term) = cc (role, l)
      go (stood more) = omega (arith, more, w.keeper.past t.current_term own)

  pub moved-positive : t.role ≢ follower → 0 < t.current_term
  moved-positive ne = go w.office
    where
      go : Office s t → 0 < t.current_term
      go (resigned f) = absurd (ne f)
      go (stayed same term) = omega (arith, term, w.keeper.positive (λ f. ne (same ∙ f)))
      go (elected was l term) = omega (arith, term, w.keeper.positive (λ f. cc (f, was)))
      go (stood more) = omega (arith, more)

  -- The record stays as it is when the node does not lead.
  module _ (follows : t.role ≢ leader) where
    kept_log : LogMove (Asked book) s t → Fit t.log.entries
    kept_log (kept e) = subst (λ (l : RaftLog). Fit l.entries) (sym e) old-Fit
    kept_log (appended x was l term own space e) = absurd (follows l)
    kept_log (took r (inl none_sent) some_sent agrees f reach e) = absurd (some_sent none_sent)
    kept_log (took r (inr (es, u, part, below)) some_sent agrees f reach e) =
        subst Fit (sym e) (took-Fit r es u part below agrees reach)

    pub same-Change : Change book owner i t
    same-Change = record {
      new_book = book;
      new_owner = owner;
      continues = λ u. ([], sym (append-nil (book u)));
      keeper = record {
        traced = (kept_log w.log).traced;
        nonempty = (kept_log w.log).nonempty;
        below = (kept_log w.log).below;
        leads = λ l. absurd (follows l);
        past = λ u e. omega (arith, w.grows, w.keeper.past u e);
        stands = moved-stands;
        positive = moved-positive;
        indices = w.indices;
      };
      others_book = λ u j e ne. refl;
      still_owned = λ u j e. e;
      newly_owned = λ u j e. inl e;
      unowned = w.unowned;
      sentinel_only = w.sentinel_only;
      tops = w.tops;
      bounded = w.bounded;
    }
