-- ===== src/System/Voters.antt =====
-- raft/node.rs in the cluster: a record of all votes that were cast, which every node, every candidacy
-- and every reply in flight agrees with.
use mathlib.Core.Path.{subst}
use raft_kv_distributed_kv_s.Prelude.{
  ℕ, List, [], ◌∷◌, ◌≡◌, ◌≢◌, ◌∙◌, ◌<◌, ◌≤◌, ap, sym, some, none, inl, inr, Option, ◌==◌, ◌&&◌,
  if◌then◌else◌, arith, length, ℕ_discrete, ◌/◌, ◌+◌,
}
use raft_kv_distributed_kv_s.Raft.Node.{RaftNode}
use raft_kv_distributed_kv_s.Raft.State.{follower, majority_count, leader}
use raft_kv_distributed_kv_s.Raft.Votes.{Keeps}
use raft_kv_distributed_kv_s.Raft.Quorum.{Among, Distinct}
use raft_kv_distributed_kv_s.Raft.Votes.Candidacy.{
  Carried, Started, Candidacy, resigned, carried, started,
}

-- The candidate that a node has voted for in a term.
abbrev pub Ballots : Type 0
Ballots = ℕ → ℕ → Option ℕ

-- What a node's state says of its votes, and of the votes it has collected.
pub record Voter (ms : List ℕ) (cast : Ballots) (i : ℕ) (n : RaftNode) : Type 0 where
  pub is_id : n.state.id ≡ i
  pub peers_are : n.state.peers ≡ ms
  pub past : (t : ℕ) → n.state.current_term < t → cast i t ≡ none
  pub current : cast i n.state.current_term ≡ n.state.voted_for
  pub votes :
      n.state.role ≢ follower
      → (v : ℕ) → Among v n.votes_received
      → Among v ms × (cast v n.state.current_term ≡ some i)
  pub distinct : n.state.role ≢ follower → Distinct n.votes_received
  pub elected : n.state.role ≡ leader → majority_count n.state ≤ length n.votes_received

-- The record after a node has become `m`.
abbrev pub recorded : ℕ → RaftNode → Ballots → Ballots
recorded i m cast v t =
    if (v == i) && (t == m.state.current_term) then m.state.voted_for else cast v t

pub recorded-here :
    (i : ℕ) (m : RaftNode) (cast : Ballots)
    → recorded i m cast i m.state.current_term ≡ m.state.voted_for
recorded-here i m cast = ground arith

recorded-term :
    (i : ℕ) (m : RaftNode) (cast : Ballots) (v t : ℕ)
    → t ≢ m.state.current_term
    → recorded i m cast v t ≡ cast v t
recorded-term i m cast v t ne = ground arith

recorded-node :
    (i : ℕ) (m : RaftNode) (cast : Ballots) (v t : ℕ) → v ≢ i → recorded i m cast v t ≡ cast v t
recorded-node i m cast v t ne = ground arith

-- Votes that are cast stay cast.
abbrev pub Extends : Ballots → Ballots → Type 0
Extends old new = (v t c : ℕ) → old v t ≡ some c → new v t ≡ some c

module _ (ms : List ℕ) (cast : Ballots) (i : ℕ) (n m : RaftNode) (w : Voter ms cast i n)
    (k : Keeps n.state m.state) where
  recorded_again : (c : ℕ) → cast i m.state.current_term ≡ some c → m.state.voted_for ≡ some c
  recorded_again c e = elim (ℕ_discrete m.state.current_term n.state.current_term) [
    | yes same ↦ k.stays same c (sym w.current ∙ ap (cast i) (sym same) ∙ e)
    | no later ↦ cc (e, w.past m.state.current_term (omega (arith, k.grows, later)))
  ]

  pub recorded-Extends : Extends cast (recorded i m cast)
  recorded-Extends v t c e = elim (ℕ_discrete v i) [
    | no other ↦ recorded-node i m cast v t other ∙ e
    | yes here ↦ elim (ℕ_discrete t m.state.current_term) [
      | no elsewhen ↦ recorded-term i m cast v t elsewhen ∙ e
      | yes now ↦
          ap (λ x. recorded i m cast x t) here
          ∙ ap (recorded i m cast i) now
          ∙ recorded-here i m cast
          ∙ recorded_again c (ap (cast i) (sym now) ∙ ap (λ x. cast x t) (sym here) ∙ e)
    ]
  ]

  pub peers_same : majority_count m.state ≡ majority_count n.state
  unfolding majority_count
  peers_same = ap (λ ps. length ps / 2 + 1) k.same_peers

  -- The node that moved is a voter of the new record, when the votes that it was given are in the old
  -- one.
  module _ (Given : ℕ → Type 0)
      (given : (v : ℕ) → Given v → Among v ms × (cast v n.state.current_term ≡ some i))
      (here : Among i ms) where
    new_past : (t : ℕ) → m.state.current_term < t → recorded i m cast i t ≡ none
    new_past t h =
        recorded-term i m cast i t (λ e. absurd (omega (arith, e, h)))
        ∙ w.past t (omega (arith, k.grows, h))

    kept_votes :
        Carried Given n m
        → (v : ℕ) → Among v m.votes_received
        → Among v ms × (recorded i m cast v m.state.current_term ≡ some i)
    kept_votes c v h =
        let found : Among v ms × (cast v n.state.current_term ≡ some i) = elim (c.votes v h) [
          | inl g ↦ given v g
          | inr old ↦ w.votes c.was v old
        ] in
        let (member, e) = found in
        (member, recorded-Extends v m.state.current_term i (ap (cast v) c.same_term ∙ e))

    own_votes :
        Started m
        → (v : ℕ) → Among v m.votes_received
        → Among v ms × (recorded i m cast v m.state.current_term ≡ some i)
    own_votes s v h =
        let own : m.state.id ≡ i = k.same_id ∙ w.is_id in
        let is_own : i ≡ v = own_vote (subst (Among v) s.votes h) in
        (
          subst (λ x. Among x ms) is_own here,
          ap (λ x. recorded i m cast x m.state.current_term) (sym is_own)
              ∙ recorded-here i m cast
              ∙ s.voted
              ∙ ap (λ x. some x) own,
        )
      where
        own_vote : {v : ℕ} → Among v (m.state.id ∷ []) → i ≡ v
        own_vote (inl e) = sym (k.same_id ∙ w.is_id) ∙ e
        own_vote (inr h) = absurd h

    kept_elected :
        Carried Given n m → m.state.role ≡ leader → majority_count m.state ≤ length m.votes_received
    kept_elected c l = elim (c.elected l) [
      | inl (was, same) ↦ omega (arith, peers_same, w.elected was, ap length same)
      | inr enough ↦ enough
    ]

    pub moved-Voter : Candidacy Given n m → Voter ms (recorded i m cast) i m
    moved-Voter (resigned f) = record {
      is_id = k.same_id ∙ w.is_id;
      peers_are = k.same_peers ∙ w.peers_are;
      past = new_past;
      current = recorded-here i m cast;
      votes = λ ne. absurd (ne f);
      distinct = λ ne. absurd (ne f);
      elected = λ l. cc (l, f);
    }
    moved-Voter (carried c) = record {
      is_id = k.same_id ∙ w.is_id;
      peers_are = k.same_peers ∙ w.peers_are;
      past = new_past;
      current = recorded-here i m cast;
      votes = λ _. kept_votes c;
      distinct = λ _. c.distinct (w.distinct c.was);
      elected = kept_elected c;
    }
    moved-Voter (started s) = record {
      is_id = k.same_id ∙ w.is_id;
      peers_are = k.same_peers ∙ w.peers_are;
      past = new_past;
      current = recorded-here i m cast;
      votes = λ _. own_votes s;
      distinct = λ _. subst Distinct (sym s.votes) ((λ h. h), tt);
      elected = λ l. omega (arith, s.elected l, ap length s.votes);
    }

-- Another node is a voter still.
pub other-Voter :
    {ms : List ℕ} {cast : Ballots} (i j : ℕ) (m n : RaftNode)
    → j ≢ i
    → Extends cast (recorded i m cast)
    → Voter ms cast j n
    → Voter ms (recorded i m cast) j n
other-Voter {ms} {cast} i j m n ne x w = record {
  is_id = w.is_id;
  peers_are = w.peers_are;
  past = λ t h. recorded-node i m cast j t ne ∙ w.past t h;
  current = recorded-node i m cast j n.state.current_term ne ∙ w.current;
  votes = λ role v h. let (member, e) = w.votes role v h in (member, x v n.state.current_term j e);
  distinct = w.distinct;
  elected = w.elected;
}
