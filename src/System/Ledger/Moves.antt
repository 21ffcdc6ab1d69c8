-- ===== src/System/Ledger/Moves.antt =====
-- The cluster: the record of leaders and logs after a node has moved and its messages were sent.
use mathlib.Core.Path.{subst, sym, ap}
use raft_kv_distributed_kv_s.Transport
use raft_kv_distributed_kv_s.Raft.State.{NodeRole, follower, candidate}
use raft_kv_distributed_kv_s.System.{transport}
use raft_kv_distributed_kv_s.System.Ledger.{
  Asked, Asked-Continues, Genuine, Keeper, Ledger, Continued, MessageJson, Setting, Book, Sound,
  leader, Won,
}
use raft_kv_distributed_kv_s.System.Ledger.Moved.{Change, Moving, same-Change, other-Keeper}
use raft_kv_distributed_kv_s.System.Ledger.Led.{lead-Change}
use raft_kv_distributed_kv_s.System.Ledger.Sent.{sent-Genuine}
use raft_kv_distributed_kv_s.Transport.{MessageJson, Delivery}
use raft_kv_distributed_kv_s.System.{
  Setting, Delivery, System, ℕ, Among, members, RaftNode, ClusterNode, after,
}
use raft_kv_distributed_kv_s.Raft.Matching.{Book, Continues}
use raft_kv_distributed_kv_s.System.Lines.{MessageRoundTrips}
use raft_kv_distributed_kv_s.System.Sound.{Sound, Grown, changed-here, changed_elim}
use raft_kv_distributed_kv_s.Prelude.{ℕ, List, ◌≤◌, ◌∙◌, ◌≡◌, some, sym, refl, inl, inr, ap}
use raft_kv_distributed_kv_s.Raft.Quorum.{Among, Among-append}
use raft_kv_distributed_kv_s.Raft.Node.{RaftNode, Action}
use raft_kv_distributed_kv_s.Cluster.{ClusterNode}
use raft_kv_distributed_kv_s.System.Steps.{Acts}
use raft_kv_distributed_kv_s.System.Voters.{Voter}
use raft_kv_distributed_kv_s.Raft.Writes.{Writes, Sends}
use raft_kv_distributed_kv_s.Raft.State.{leader, NodeRole}
use raft_kv_distributed_kv_s.System.Winners.{Won, leader-Won, same_winner, Won-Extends}
use raft_kv_distributed_kv_s.Raft.Writes.Actions.{All}

Genuine-Continues :
    (mj : MessageJson) (old new : Book) (d : Delivery)
    → Continues old new
    → Genuine mj old d
    → Genuine mj new d
Genuine-Continues mj old new d c g = record {
  requests = λ from r e. Asked-Continues old new r c (g.requests from r e);
  replies = g.replies;
}

module _ (e : Setting) (mrt : MessageRoundTrips e.messages) (s : System) (h : Sound e s)
    (l : Ledger e s h) (i : ℕ) (here : Among i (members e)) (r : RaftNode × List Action)
    (k : ClusterNode) (sent : List Delivery) (acts : Acts e.messages (transport e i) r k sent)
    (g : Grown e s h (after i s k sent)) where
  -- The record after a change, when a majority voted for the node if it leads.
  changed-Continued :
      (c : Change l.book l.owner i r.0.state)
      → All (Sends r.0.state.current_term r.0.state.log) r.1
      → (r.0.state.role ≡ leader → Won (members e) g.sound.cast r.0.state.current_term i)
      → Continued e l.book (after i s k sent) g.sound
  unfolding Transport.new
  changed-Continued c sends wins = record {
    ledger = record {
      book = c.new_book;
      owner = c.new_owner;
      keepers =
          changed_elim (λ j n. Among j (members e) → Keeper c.new_book c.new_owner j n.raft.state) i
            k s.node
            (λ _.
              subst (λ (n : RaftNode). Keeper c.new_book c.new_owner i n.state) (sym acts.raft_is)
                c.keeper)
            (λ j ne there. other-Keeper c j (s.node j).raft.state ne (l.keepers j there));
      won = λ t j own. elim (c.newly_owned t j own) [
        | inl old ↦ Won-Extends (members e) h.cast g.sound.cast t j g.extends (l.won t j old)
        | inr (is_i, now, leads) ↦
            subst (λ x. Won (members e) g.sound.cast t x) (sym is_i)
              (subst (λ x. Won (members e) g.sound.cast x i) (sym now) (wins leads))
      ];
      unowned = c.unowned;
      sentinel_only = c.sentinel_only;
      tops = c.tops;
      bounded = c.bounded;
      lines = λ d on. elim (Among-append d s.in_flight sent on) [
        | inl old ↦ Genuine-Continues e.messages l.book c.new_book d c.continues (l.lines d old)
        | inr new ↦
            sent-Genuine e.messages mrt (transport e i) c.new_book r.0.state.log c.keeper.traced
              c.keeper.nonempty c.bounded r.0.state.current_term c.keeper.below r.1 d sends
              (subst (Among d) acts.sent_is new)
      ];
    };
    continues = c.continues;
  }

  new-Voter : Voter (members e) g.sound.cast i r.0
  new-Voter =
      subst (Voter (members e) g.sound.cast i)
        (ap (λ (n : ClusterNode). n.raft) (changed-here i k s.node) ∙ acts.raft_is)
        (g.sound.voters i here)

  pub moved-Continued :
      (s.node i).raft.state.current_term ≤ r.0.state.current_term
      → Writes (Asked l.book) (s.node i).raft.state r
      → Continued e l.book (after i s k sent) g.sound
  moved-Continued grows w = go r.0.state.role refl
    where
      moving : Moving l.book l.owner i (s.node i).raft.state r.0.state
      moving = record {
        keeper = l.keepers i here;
        sentinel_only = l.sentinel_only;
        tops = l.tops;
        bounded = l.bounded;
        unowned = l.unowned;
        grows = grows;
        office = w.office;
        log = w.log;
        indices = w.indices;
      }

      wins : r.0.state.role ≡ leader → Won (members e) g.sound.cast r.0.state.current_term i
      wins = leader-Won (members e) g.sound.cast i r.0 new-Voter

      mine : r.0.state.role ≡ leader → (j : ℕ) → l.owner r.0.state.current_term ≡ some j → j ≡ i
      mine leads j own =
          same_winner (members e) g.sound.cast r.0.state.current_term j i
            (Won-Extends (members e) h.cast g.sound.cast r.0.state.current_term j g.extends
              (l.won r.0.state.current_term j own))
            (wins leads)

      go : (role : NodeRole) → r.0.state.role ≡ role → Continued e l.book (after i s k sent) g.sound
      go leader f = changed-Continued (lead-Change moving f (mine f)) w.sends wins
      go follower f = changed-Continued (same-Change moving (λ x. cc (x, f))) w.sends wins
      go candidate f = changed-Continued (same-Change moving (λ x. cc (x, f))) w.sends wins
