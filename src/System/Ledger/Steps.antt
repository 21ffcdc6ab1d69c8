-- ===== src/System/Ledger/Steps.antt =====
-- The cluster: every step keeps the record of leaders and logs.
use mathlib.Core.Path.{subst}
use raft_kv_distributed_kv_s.Cluster.{ClusterNode}
use raft_kv_distributed_kv_s.Raft.Writes.Follower.{handle_append_entries-Writes}
use raft_kv_distributed_kv_s.System.Ledger.{Asked, Ledger, Continued, Setting, Sound, leader}
use raft_kv_distributed_kv_s.System.Ledger.Moves.{moved-Continued}
use raft_kv_distributed_kv_s.System.Runs.{joined-same}
use raft_kv_distributed_kv_s.System.Steps.{proposed}
use raft_kv_distributed_kv_s.System.{
  transport, Setting, System, ℕ, Delivery, Step, Among, members, ticks, ClusterNode, RaftNode,
  receives, restarts, HasRoom, HasSpace, tick_round, after, serves,
}
use raft_kv_distributed_kv_s.System.Lines.{MessageRoundTrips}
use raft_kv_distributed_kv_s.System.Sound.{Sound, Grown}
use raft_kv_distributed_kv_s.Prelude.{
  ℕ, ◌<◌, List, length, ◌≡◌, some, ok, [], arith, ◌∙◌, sym, ap, refl,
}
use raft_kv_distributed_kv_s.Raft.Node.Step.{
  dispatch, NetworkMessage, request_vote, request_vote_response, append_entries,
  append_entries_response,
}
use raft_kv_distributed_kv_s.Transport.{Delivery, send_messages}
use raft_kv_distributed_kv_s.Cluster.Actions.{messages}
use raft_kv_distributed_kv_s.Raft.Quorum.{Among}
use raft_kv_distributed_kv_s.Raft.Node.Election.{handle_request_vote_response, tick}
use raft_kv_distributed_kv_s.Raft.Node.Entries.{handle_append_entries_response}
use raft_kv_distributed_kv_s.Raft.Log.{to_entries}
use raft_kv_distributed_kv_s.Cluster.{
  ClusterNode, request_vote, request_vote_response, append_entries, append_entries_response,
}
use raft_kv_distributed_kv_s.Raft.Node.{RaftNode}
use raft_kv_distributed_kv_s.Raft.Durable.Restart.{Restarted, restart_restores}
use raft_kv_distributed_kv_s.System.Steps.{
  Received, Acts, Proposed, receive_line-Received, tick_round-Acts, ignored, refused, handled,
  serve-Proposed,
}
use raft_kv_distributed_kv_s.Server.{tick_round}
use raft_kv_distributed_kv_s.Raft.Writes.{Writes, AllPositive, stayed, kept, Writes-Asked, resigned}
use raft_kv_distributed_kv_s.Raft.Persist.{refused, PersistentState}
use raft_kv_distributed_kv_s.Raft.Votes.Election.{tick-Moves}
use raft_kv_distributed_kv_s.Raft.Votes.Runs.{dispatch-Moves}
use raft_kv_distributed_kv_s.Raft.Votes.Entries.{propose-Keeps}
use raft_kv_distributed_kv_s.Raft.Writes.Elections.{
  tick-Writes, handle_request_vote-Writes, vote_response-Writes,
}
use raft_kv_distributed_kv_s.Raft.State.{leader}
use raft_kv_distributed_kv_s.Raft.Writes.Entries.{propose-Writes, append_response-Writes}
use raft_kv_distributed_kv_s.Raft.Durable.{RoundTrips}

module _ (e : Setting) (rt : RoundTrips e.json) (mrt : MessageRoundTrips e.messages) (s : System)
    (h : Sound e s) (l : Ledger e s h) where
  idle-Continued :
      (i : ℕ) (here : Among i (members e)) (k : ClusterNode) (sent : List Delivery)
      → Acts e.messages (transport e i) ((s.node i).raft, []) k sent
      → (g : Grown e s h (after i s k sent)) → Continued e l.book (after i s k sent) g.sound
  idle-Continued i here k sent acts g =
      moved-Continued e mrt s h l i here ((s.node i).raft, []) k sent acts g (omega arith)
        (record {
          office = stayed refl refl;
          log = kept refl;
          indices = (l.keepers i here).indices;
          sends = tt;
        })

  ticks-Continued :
      (i : ℕ) (here : Among i (members e)) (k : ClusterNode) (sent : List Delivery)
      → HasRoom (s.node i)
      → tick_round e.messages e.json (transport e i) (s.node i) ≡ (k, sent)
      → (g : Grown e s h (after i s k sent)) → Continued e l.book (after i s k sent) g.sound
  unfolding tick
  ticks-Continued i here k sent room q g =
      let n = (s.node i).raft in
      moved-Continued e mrt s h l i here (tick e.json n) k sent
        (subst (λ r. Acts e.messages (transport e i) (tick e.json n) r.0 r.1) q
          (tick_round-Acts e.messages e.json (transport e i) (s.node i) (h.quiet i here)))
        g (tick-Moves e.json n room n.state.role).kept.grows
        (Writes-Asked (Asked l.book) n.state _
          (tick-Writes e.json n n.state.role (l.keepers i here).indices room))

  dispatch-Writes :
      (d : Delivery) (on : Among d s.in_flight) (here : Among d.to (members e)) (m : NetworkMessage)
      → e.messages.from_str d.line ≡ some m
      → Writes (Asked l.book) (s.node d.to).raft.state (dispatch e.json (s.node d.to).raft m)
  unfolding dispatch handle_request_vote_response handle_append_entries_response
  dispatch-Writes d on here m line = go m line
    where
      n : RaftNode
      n = (s.node d.to).raft

      indices : AllPositive n.state.next_index
      indices = (l.keepers d.to here).indices

      go :
          (m : NetworkMessage)
          → e.messages.from_str d.line ≡ some m
          → Writes (Asked l.book) n.state (dispatch e.json n m)
      go (request_vote from r) line =
          Writes-Asked (Asked l.book) n.state _ (handle_request_vote-Writes e.json n r indices)
      go (request_vote_response from r) line =
          Writes-Asked (Asked l.book) n.state _
            (vote_response-Writes e.json n from r n.state.role refl indices)
      go (append_entries from r) line =
          handle_append_entries-Writes (Asked l.book) e.json n r
            ((l.lines d on).requests from r line) indices
      go (append_entries_response from r) line = Writes-Asked (Asked l.book) n.state _ (
          append_response-Writes e.json n from r n.state.role ((l.lines d on).replies from r line)
            indices)

  line-Continued :
      (d : Delivery) (on : Among d s.in_flight) (here : Among d.to (members e))
      (r : ClusterNode × List Delivery)
      → Received e.messages e.json (transport e d.to) (s.node d.to) d.line r
      → (g : Grown e s h (after d.to s r.0 r.1)) → Continued e l.book (after d.to s r.0 r.1) g.sound
  line-Continued d on here r (ignored acts) g = idle-Continued d.to here r.0 r.1 acts g
  line-Continued d on here r (handled m q acts) g =
      let n = (s.node d.to).raft in
      moved-Continued e mrt s h l d.to here (dispatch e.json n m) r.0 r.1 acts g
        (dispatch-Moves e.json n m).kept.grows (dispatch-Writes d on here m q)

  command-Continued :
      (i : ℕ) (here : Among i (members e)) (k : ClusterNode) (sent : List Delivery)
      → HasSpace (s.node i)
      → Proposed e.messages e.json (transport e i) (s.node i) k sent
      → (g : Grown e s h (after i s k sent)) → Continued e l.book (after i s k sent) g.sound
  command-Continued i here k sent space (refused acts) g = idle-Continued i here k sent acts g
  command-Continued i here k sent space (proposed c role acts) g =
      let n = (s.node i).raft in
      moved-Continued e mrt s h l i here _ k sent acts g (propose-Keeps e.json n c leader).grows (
        Writes-Asked (Asked l.book) n.state _
          (propose-Writes e.json n c role (l.keepers i here).indices space))

  restart-Continued :
      (i : ℕ) (here : Among i (members e)) (raft : RaftNode) (k : ClusterNode)
      → Restarted i (members e) (s.node i).raft (ok raft)
      → k.raft ≡ raft
      → k.outbound_messages ≡ []
      → (g : Grown e s h (after i s k [])) → Continued e l.book (after i s k []) g.sound
  unfolding messages send_messages to_entries
  restart-Continued i here raft k r same none_yet g =
      let is_raft : r.node ≡ raft = cc r.is_ok in
      moved-Continued e mrt s h l i here (r.node, []) k []
        (record { raft_is = same ∙ sym is_raft; sent_is = refl; none_queued = none_yet }) g
        (omega (arith, ap (λ p. p.current_term) r.same_state))
        (record {
          office = resigned r.is_follower;
          log = kept (ap (λ (p : PersistentState). record { entries = p.log }) r.same_state);
          indices = subst AllPositive (sym r.none_tracked) tt;
          sends = tt;
        })

  pub full : (i : ℕ) → Among i (members e) → 0 < length (s.node i).raft.state.log.entries
  full i here = (l.keepers i here).nonempty

  pub Step-Continued :
      (t : System) → Step e s t → (g : Grown e s h t) → Continued e l.book t g.sound
  Step-Continued _ (ticks i here room k sent q) g = ticks-Continued i here k sent room q g
  Step-Continued _ (receives d on here k sent q) g =
      line-Continued d on here (k, sent)
        (subst (Received e.messages e.json (transport e d.to) (s.node d.to) d.line) q (
          receive_line-Received e.messages e.json (transport e d.to) (s.node d.to) d.line
            (h.quiet d.to here)))
        g
  Step-Continued _ (serves i here space c) g =
      command-Continued i here _ _ space
        (serve-Proposed e.messages e.json (transport e i) (s.node i) c (h.quiet i here)) g
  Step-Continued _ (restarts i here p at raft q syncs storage k made) g =
      let (same, none_yet) = joined-same e rt mrt syncs storage raft k made in
      restart-Continued i here raft k
        (subst (Restarted i (members e) (s.node i).raft) q (
          restart_restores e.json i (members e) (s.node i).raft p (full i here) at
            (h.durable i here)))
        same none_yet g
