-- ===== src/System/Sound.antt =====
-- transport.rs and raft/node.rs in the cluster: the record of the votes agrees with every node and with
-- every line in flight, also after a node has moved.
use mathlib.Core.Path.{subst}
use raft_kv_distributed_kv_s.Prelude.{
  ℕ, List, [], ◌≡◌, ◌≢◌, ◌∙◌, ap, refl, sym, some, inl, inr, arith, ℕ_discrete, ne→==_false,
}
use raft_kv_distributed_kv_s.Transport
use raft_kv_distributed_kv_s.Transport.{
  MessageJson, send_message, Delivery, network_message, PeerTransport, push_sent, send_messages,
  find_address, send_written, send_to,
}
use raft_kv_distributed_kv_s.System.Voters.{
  Ballots, Voter, recorded, Extends, recorded-Extends, moved-Voter, other-Voter, recorded-here,
}
use raft_kv_distributed_kv_s.Raft.Quorum.{Among, Among-append}
use raft_kv_distributed_kv_s.Cluster.{ClusterNode}
use raft_kv_distributed_kv_s.Raft.Node.{Action, RaftNode}
use raft_kv_distributed_kv_s.Raft.Votes.Candidacy.{Fair}
use raft_kv_distributed_kv_s.System.{Setting, System, changed, members, transport, after}
use raft_kv_distributed_kv_s.Raft.Durable.{RoundTrips, Durable}
use raft_kv_distributed_kv_s.Raft.Votes.{Keeps}
use raft_kv_distributed_kv_s.System.Steps.{Acts}
use raft_kv_distributed_kv_s.System.Lines.{Honest, MessageRoundTrips, sent-GrantsOf}

-- Every node is a voter of one record of the votes, has no message waiting and has saved its state, and
-- every grant in flight is on that record.
pub record Sound (e : Setting) (s : System) : Type 0 where
  pub cast : Ballots
  pub voters : (i : ℕ) → Among i (members e) → Voter (members e) cast i (s.node i).raft
  pub quiet : (i : ℕ) → Among i (members e) → (s.node i).outbound_messages ≡ []
  pub durable : (i : ℕ) → Among i (members e) → Durable e.json (s.node i).raft
  pub lines : (d : Delivery) → Among d s.in_flight → Honest e.messages (members e) cast d

-- The invariant of a later state, of a record with at least the same votes.
pub record Grown (e : Setting) (s : System) (h : Sound e s) (t : System) : Type 0 where
  pub sound : Sound e t
  pub extends : Extends h.cast sound.cast

pub changed-here : (i : ℕ) (k : ClusterNode) (nodes : ℕ → ClusterNode) → changed i k nodes i ≡ k
changed-here i k nodes = ground arith

changed-other :
    (i j : ℕ) (k : ClusterNode) (nodes : ℕ → ClusterNode) → j ≢ i → changed i k nodes j ≡ nodes j
changed-other i j k nodes ne = rw (ne→==_false j i ne) refl

pub changed_elim :
    (P : ℕ → ClusterNode → Type 0) (i : ℕ) (k : ClusterNode) (nodes : ℕ → ClusterNode)
    → P i k
    → ((j : ℕ) → j ≢ i → P j (nodes j))
    → (j : ℕ) → P j (changed i k nodes j)
changed_elim P i k nodes here other j = elim (ℕ_discrete j i) [
  | yes e ↦
      subst (λ x. P x (changed i k nodes x)) (sym e)
        (subst (P i) (sym (changed-here i k nodes)) here)
  | no ne ↦ subst (P j) (sym (changed-other i j k nodes ne)) (other j ne)
]

module _ (e : Setting) (rt : RoundTrips e.json) (mrt : MessageRoundTrips e.messages) where
  -- The invariant after the Raft node of `i` has made a fair move and its messages were sent.
  pub moved-Sound :
      (s : System) (h : Sound e s) (i : ℕ) (here : Among i (members e)) (r : RaftNode × List Action)
      (k : ClusterNode) (sent : List Delivery) (Given : ℕ → Type 0)
      → ((v : ℕ)
          → Given v
          → Among v (members e) × (h.cast v (s.node i).raft.state.current_term ≡ some i))
      → Keeps (s.node i).raft.state r.0.state
      → Fair Given (s.node i).raft r
      → Durable e.json r.0
      → Acts e.messages (transport e i) r k sent
      → Grown e s h (after i s k sent)
  unfolding Transport.new
  moved-Sound s h i here r k sent Given given kept fair durable acts = record {
    sound = record {
      cast = cast;
      voters =
          changed_elim (λ j n. Among j (members e) → Voter (members e) cast j n.raft) i k s.node
            (λ _. subst (Voter (members e) cast i) (sym acts.raft_is) (
              moved-Voter (members e) h.cast i (s.node i).raft r.0 w kept Given given here
                fair.candidacy))
            (λ j ne there. other-Voter i j r.0 (s.node j).raft ne extends (h.voters j there));
      quiet =
          changed_elim (λ j n. Among j (members e) → n.outbound_messages ≡ []) i k s.node
            (λ _. acts.none_queued) (λ j _. h.quiet j);
      durable =
          changed_elim (λ j n. Among j (members e) → Durable e.json n.raft) i k s.node
            (λ _. subst (Durable e.json) (sym acts.raft_is) durable) (λ j _. h.durable j);
      lines = λ d on from q line g. elim (Among-append d s.in_flight sent on) [
        | inl old ↦
            let (member, vote) = h.lines d old from q line g in
            (member, extends from q.term d.to vote)
        | inr new ↦
            let (from_is, term, vote) =
              sent-GrantsOf e.messages mrt (transport e i) r.0.state r.1 d from q fair.replies
                (subst (Among d) acts.sent_is new) line g in
            (
              subst (λ x. Among x (members e)) (sym from_is) here,
              ap (λ x. cast x q.term) from_is
                  ∙ ap (cast i) term
                  ∙ recorded-here i r.0 h.cast
                  ∙ vote,
            )
      ];
    };
    extends = extends;
  }
    where
      cast : Ballots
      cast = recorded i r.0 h.cast

      w : Voter (members e) h.cast i (s.node i).raft
      w = h.voters i here

      extends : Extends h.cast cast
      extends = recorded-Extends (members e) h.cast i (s.node i).raft r.0 w kept
