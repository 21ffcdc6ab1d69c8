-- ===== src/System/Runs.antt =====
-- The cluster: every step and every run keeps the record of the votes.
use mathlib.Core.Path.{subst}
use raft_kv_distributed_kv_s.Cluster
use raft_kv_distributed_kv_s.Prelude.{ℕ, List, [], ◌≡◌, ◌∙◌, ap, refl, sym, ok, none, ◌<◌, length}
use raft_kv_distributed_kv_s.Raft.Node.Step.{dispatch}
use raft_kv_distributed_kv_s.Raft.Votes.Runs.{dispatch-Moves}
use raft_kv_distributed_kv_s.Raft.Durable.Restart.{dispatch-Durable, Restarted, restart_restores}
use raft_kv_distributed_kv_s.System.{
  Setting, System, members, transport, after, HasRoom, Step, ticks, receives, serves, restarts,
  IsInitial, SyncResult, StorageEngine,
}
use raft_kv_distributed_kv_s.Raft.Node.{RaftNode, persistent}
use raft_kv_distributed_kv_s.Raft.Node.Election.{tick}
use raft_kv_distributed_kv_s.Transport.{Delivery, send_messages}
use raft_kv_distributed_kv_s.Raft.Durable.{RoundTrips, Quiet-Durable, untouched}
use raft_kv_distributed_kv_s.Cluster.{ClusterNode}
use raft_kv_distributed_kv_s.Raft.Node.Entries.{propose_as}
use raft_kv_distributed_kv_s.System.Voters.{Voter}
use raft_kv_distributed_kv_s.System.Lines.{MessageRoundTrips}
use raft_kv_distributed_kv_s.System.Sound.{Sound, Grown, moved-Sound}
use raft_kv_distributed_kv_s.Raft.Votes.Candidacy.{Nothing, same_candidacy, resigned}
use raft_kv_distributed_kv_s.Cluster.Actions.{messages}
use raft_kv_distributed_kv_s.Raft.Quorum.{Among}
use raft_kv_distributed_kv_s.Raft.Votes.Candidacy.Elections.{tick-Fair}
use raft_kv_distributed_kv_s.System.Steps.{
  Acts, Received, Proposed, ignored, handled, tick_round-Acts, refused, proposed,
  receive_line-Received, serve-Proposed,
}
use raft_kv_distributed_kv_s.Raft.Votes.{Keeps-refl, same-Keeps}
use raft_kv_distributed_kv_s.Server.{tick_round}
use raft_kv_distributed_kv_s.Raft.Votes.Candidacy.Requests.{actions_of, propose-Fair}
use raft_kv_distributed_kv_s.Raft.Votes.Election.{tick-Moves}
use raft_kv_distributed_kv_s.Raft.State.{leader, follower}
use raft_kv_distributed_kv_s.Raft.Durable.Steps.{tick-Lasts}
use raft_kv_distributed_kv_s.Raft.Log.{to_entries}
use raft_kv_distributed_kv_s.Raft.Votes.Entries.{propose-Keeps}
use raft_kv_distributed_kv_s.Raft.Durable.Entries.{propose-Durable}
use raft_kv_distributed_kv_s.Storage.Wal.{SyncResult}
use raft_kv_distributed_kv_s.Storage.Engine.{StorageEngine}
use raft_kv_distributed_kv_s.System.Arrivals.{Brought, Brought-recorded, dispatch-Fair}

module _ (e : Setting) (rt : RoundTrips e.json) (mrt : MessageRoundTrips e.messages) where
  idle-Sound :
      (s : System) (h : Sound e s) (i : ℕ) (here : Among i (members e)) (k : ClusterNode)
      (sent : List Delivery)
      → Acts e.messages (transport e i) ((s.node i).raft, []) k sent
      → Grown e s h (after i s k sent)
  idle-Sound s h i here k sent acts =
      moved-Sound e rt mrt s h i here ((s.node i).raft, []) k sent Nothing (λ v b. absurd b)
        (Keeps-refl _)
        (record { replies = tt; candidacy = same_candidacy Nothing _ _ refl refl refl })
        (h.durable i here) acts

  ticks-Sound :
      (s : System) (h : Sound e s) (i : ℕ) (here : Among i (members e)) (k : ClusterNode)
      (sent : List Delivery)
      → HasRoom (s.node i)
      → tick_round e.messages e.json (transport e i) (s.node i) ≡ (k, sent)
      → Grown e s h (after i s k sent)
  unfolding tick
  ticks-Sound s h i here k sent room q =
      let n = (s.node i).raft in
      moved-Sound e rt mrt s h i here (tick e.json n) k sent Nothing (λ v b. absurd b)
        (tick-Moves e.json n room n.state.role).kept (tick-Fair e.json n n.state.role refl)
        (tick-Lasts e.json rt n n.state.role (h.durable i here)).kept
        (subst (λ r. Acts e.messages (transport e i) (tick e.json n) r.0 r.1) q
          (tick_round-Acts e.messages e.json (transport e i) (s.node i) (h.quiet i here)))

  line-Sound :
      (s : System) (h : Sound e s) (d : Delivery) (on : Among d s.in_flight)
      (here : Among d.to (members e)) (r : ClusterNode × List Delivery)
      → Received e.messages e.json (transport e d.to) (s.node d.to) d.line r
      → Grown e s h (after d.to s r.0 r.1)
  line-Sound s h d on here r (ignored acts) = idle-Sound s h d.to here r.0 r.1 acts
  line-Sound s h d on here r (handled m q acts) =
      let n = (s.node d.to).raft in
      moved-Sound e rt mrt s h d.to here (dispatch e.json n m) r.0 r.1 (Brought n m)
        (Brought-recorded e.messages (members e) h.cast d n m (h.lines d on) q)
        (dispatch-Moves e.json n m).kept (dispatch-Fair e.json n m)
        (dispatch-Durable e.json rt n m (h.durable d.to here)) acts

  command-Sound :
      (s : System) (h : Sound e s) (i : ℕ) (here : Among i (members e)) (k : ClusterNode)
      (sent : List Delivery)
      → Proposed e.messages e.json (transport e i) (s.node i) k sent
      → Grown e s h (after i s k sent)
  command-Sound s h i here k sent (refused acts) = idle-Sound s h i here k sent acts
  command-Sound s h i here k sent (proposed c role acts) =
      let n = (s.node i).raft in
      let (m, actions) = propose_as leader e.json n c in
      moved-Sound e rt mrt s h i here (m, actions_of actions) k sent Nothing (λ v b. absurd b)
        (propose-Keeps e.json n c leader) (propose-Fair e.json n c leader)
        (propose-Durable e.json rt n c leader (h.durable i here)) acts

  -- A node that is made of its own state file.
  restart-Sound :
      (s : System) (h : Sound e s) (i : ℕ) (here : Among i (members e)) (raft : RaftNode)
      (k : ClusterNode)
      → Restarted i (members e) (s.node i).raft (ok raft)
      → k.raft ≡ raft
      → k.outbound_messages ≡ []
      → Grown e s h (after i s k [])
  unfolding messages send_messages
  restart-Sound s h i here raft k r same none_yet =
      let n = (s.node i).raft in
      let is_raft : r.node ≡ raft = cc (r.is_ok) in
      let w = h.voters i here in
      moved-Sound e rt mrt s h i here (r.node, []) k [] Nothing (λ v b. absurd b)
        (same-Keeps n.state r.node.state (r.is_id ∙ sym w.is_id) (r.peers_are ∙ sym w.peers_are)
          (ap (λ p. p.current_term) r.same_state) (ap (λ p. p.voted_for) r.same_state))
        (record { replies = tt; candidacy = resigned r.is_follower })
        (Quiet-Durable (record { same_file = r.same_file; same_state = r.same_state })
          (h.durable i here))
        (record { raft_is = same ∙ sym is_raft; sent_is = refl; none_queued = none_yet })

  -- What is made of a storage and a Raft node.
  pub joined-same :
      (syncs : List SyncResult) (storage : StorageEngine) (raft : RaftNode) (k : ClusterNode)
      → Cluster.new syncs (ok storage) (ok raft) ≡ ok k
      → (k.raft ≡ raft) × (k.outbound_messages ≡ [])
  unfolding Cluster.new
  joined-same syncs storage raft k made = (cc made, cc made)

  pub Step-Sound :
      (s t : System) (h : Sound e s)
      → ((i : ℕ) → Among i (members e) → 0 < length (s.node i).raft.state.log.entries)
      → Step e s t
      → Grown e s h t
  Step-Sound s _ h full (ticks i here room k sent q) = ticks-Sound s h i here k sent room q
  Step-Sound s _ h full (receives d on here k sent q) =
      line-Sound s h d on here (k, sent)
        (subst (Received e.messages e.json (transport e d.to) (s.node d.to) d.line) q (
          receive_line-Received e.messages e.json (transport e d.to) (s.node d.to) d.line
            (h.quiet d.to here)))
  Step-Sound s _ h full (serves i here space c) =
      command-Sound s h i here _ _
        (serve-Proposed e.messages e.json (transport e i) (s.node i) c (h.quiet i here))
  Step-Sound s _ h full (restarts i here p at raft q syncs storage k made) =
      let (same, none_yet) = joined-same syncs storage raft k made in
      restart-Sound s h i here raft k
        (subst (Restarted i (members e) (s.node i).raft) q (
          restart_restores e.json i (members e) (s.node i).raft p (full i here) at
            (h.durable i here)))
        same none_yet

  initial-Voter :
      (s : System)
      → IsInitial e s
      → (i : ℕ) → Among i (members e)
      → Voter (members e) (λ _ _. none) i (s.node i).raft
  initial-Voter s h i here = record {
    is_id = ap (λ x. x.id) (h.new_state i here);
    peers_are = ap (λ x. x.peers) (h.new_state i here);
    past = λ t _. refl;
    current = sym (ap (λ x. x.voted_for) (h.new_state i here));
    votes = λ ne. absurd (ne follows);
    distinct = λ ne. absurd (ne follows);
    elected = λ l. cc (l, follows);
  }
    where
      follows : (s.node i).raft.state.role ≡ follower
      follows = ap (λ x. x.role) (h.new_state i here)

  pub initial-Sound : (s : System) → IsInitial e s → Sound e s
  unfolding to_entries
  initial-Sound s h = record {
    cast = λ _ _. none;
    voters = initial-Voter s h;
    quiet = h.none_queued;
    durable = λ i here. untouched (h.new_file i here) (ap persistent (h.new_state i here));
    lines = λ d on. absurd (subst (Among d) h.none_sent on);
  }
