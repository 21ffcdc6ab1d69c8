-- ===== src/Server/Commit/Acknowledged.antt =====
-- network/server.rs, await_commit and handle_client: what a reply says of the commit index, and that a
-- reply comes.
use raft_kv_distributed_kv_s.Server.Commit.{
  await_commit, ℕ, answer, Response, serve, Poll, timed_out, patience, settle,
}
use raft_kv_distributed_kv_s.Cluster.{
  ClusterNode, not_leader, moved, ok_string, handle_client_command,
}
use raft_kv_distributed_kv_s.Prelude.{
  ℕ, Text, List, ◌≢◌, ◌≤◌, length, ◌+◌, ◌≡◌, ◌⊎◌, some, ◌∷◌, Bool-cases, leb, inl, false, leb→le,
  inr, none, arith, ap, [], refl, sym, ◌∙◌,
}
use raft_kv_distributed_kv_s.Raft.Log.{LogCommand, put}
use raft_kv_distributed_kv_s.Protocol.{Response, error, set}
use raft_kv_distributed_kv_s.Server.{serve, MessageJson, Served, Json, PeerTransport}
use raft_kv_distributed_kv_s.Transport.{MessageJson, PeerTransport}
use raft_kv_distributed_kv_s.Raft.Quorum.{Among}
use raft_kv_distributed_kv_s.Cluster.Clients.{
  Accepted, Written, elsewhere, client_writes, refused, accepted,
}
use raft_kv_distributed_kv_s.Raft.Persist.{Json}
use raft_kv_distributed_kv_s.Server.Requests.{accepted}

await_commit-committed :
    (deadline index : ℕ) (reply r : Response) (ps : List Poll)
    → r ≢ timed_out
    → await_commit deadline index reply ps ≡ some r
    → (p : Poll) × Among p ps × (index ≤ p.commit_index) × (reply ≡ r)
unfolding await_commit
await_commit-committed deadline index reply r [] ne h = cc h
await_commit-committed deadline index reply r (p ∷ ps) ne h =
    elim (Bool-cases (leb index p.commit_index)) [
      | inl done ↦
          let now : some reply ≡ some r = rw done at h in (p, inl refl, leb→le _ _ done, cc now)
      | inr waits ↦ elim (Bool-cases (leb deadline p.now)) [
        | inl late ↦
            let now : some timed_out ≡ some r = rw (waits, late) at h in absurd (ne (cc now))
        | inr early ↦
            let now : await_commit deadline index reply ps ≡ some r = rw (waits, early) at h in
            let (q, on, enough, same) = await_commit-committed deadline index reply r ps ne now in
            (q, inr on, enough, same)
      ]
    ]

await_commit-returns :
    (deadline index : ℕ) (reply : Response) (ps : List Poll) (p : Poll)
    → Among p ps
    → (deadline ≤ p.now) ⊎ (index ≤ p.commit_index)
    → (r : Response) × (await_commit deadline index reply ps ≡ some r)
unfolding await_commit
await_commit-returns deadline index reply [] p on h = absurd on
await_commit-returns deadline index reply (q ∷ ps) p on h =
    elim (Bool-cases (leb index q.commit_index)) [
      | inl done ↦ rw done (reply, refl)
      | inr waits ↦ elim (Bool-cases (leb deadline q.now)) [
        | inl late ↦ rw (waits, late) (timed_out, refl)
        | inr early ↦
            rw (waits, early)
              (await_commit-returns deadline index reply ps p (further on waits early) h)
      ]
    ]
  where
    further :
        Among p (q ∷ ps)
        → leb index q.commit_index ≡ false
        → leb deadline q.now ≡ false
        → Among p ps
    further (inr later) waits early = later
    further (inl same) waits early = elim h [
      | inl late ↦
          absurd (
            not_both deadline p.now late (ap (λ (x : Poll). leb deadline x.now) (sym same) ∙ early))
      | inr done ↦ absurd (
          not_both index p.commit_index done
            (ap (λ (x : Poll). leb index x.commit_index) (sym same) ∙ waits))
    ]
      where
        not_both : (a b : ℕ) → a ≤ b → leb a b ≢ false
        not_both a b le e = ground arith

-- If a pass of the wait for a commit finds the three seconds gone, the command has a reply: the
-- loop has ended in that pass or before.
pub answer-returns :
    (start : ℕ) (polls : List Poll) (s : Served) (p : Poll)
    → Among p polls
    → start + patience ≤ p.now
    → (r : Response) × (answer start polls s ≡ some r)
unfolding answer
answer-returns start polls s p on late =
    elim s.pending as (λ o. (r : Response) × (settle start s.reply polls o ≡ some r)) [
      | none ↦ (s.reply, refl)
      | some index ↦ await_commit-returns (start + patience) index s.reply polls p on (inl late)
    ]

-- A write that its client saw succeed: a leader had it appended to its log, and the loop saw the commit
-- index at that entry or beyond.
pub record Acknowledged (n m : ClusterNode) (c : LogCommand) (polls : List Poll) : Type 0 where
  pub accepted : Accepted n m c
  pub poll : Poll
  pub seen : Among poll polls
  pub committed : length n.raft.state.log.entries ≤ poll.commit_index

settle-Acknowledged :
    (n : ClusterNode) (key : Text) (c : LogCommand) (reply : Response) (r : ClusterNode × Response)
    (start : ℕ) (polls : List Poll)
    → reply ≢ timed_out
    → reply ≢ error not_leader
    → ((shard : ℕ) → reply ≢ error (moved shard))
    → Written n key c reply r
    → settle start r.1 polls r.0.pending_commit_index ≡ some reply
    → Acknowledged n r.0 c polls
settle-Acknowledged n key c reply r start polls nt nl nm (elsewhere shard away e) h =
    let h1 : settle start (error (moved shard)) polls none ≡ some reply =
      ap (λ (z : ClusterNode × Response). settle start z.1 polls z.0.pending_commit_index) (sym e)
      ∙ h in
    absurd (nm shard (cc h1))
settle-Acknowledged n key c reply r start polls nt nl nm (refused here not_led e) h =
    let h1 : settle start (error not_leader) polls none ≡ some reply =
      ap (λ (z : ClusterNode × Response). settle start z.1 polls z.0.pending_commit_index) (sym e)
      ∙ h in
    absurd (nl (cc h1))
settle-Acknowledged n key c reply r start polls nt nl nm (accepted here a e) h =
    let h1 : await_commit (start + patience) (length n.raft.state.log.entries) r.1 polls
        ≡ some reply =
      ap (settle start r.1 polls) (sym a.waits) ∙ h in
    let (p, on, enough, _) =
      await_commit-committed (start + patience) (length n.raft.state.log.entries) r.1 reply polls nt
        h1 in
    record { accepted = a; poll = p; seen = on; committed = enough }

-- If the client of a SET gets OK, then the node was the leader and its log ends in the command, in its
-- own term, and the node's commit index was seen to reach that entry while the reply was held.
pub set-Acknowledged :
    (mj : MessageJson) (json : Json) (t : PeerTransport) (n : ClusterNode) (key value : Text)
    (start : ℕ) (polls : List Poll)
    → answer start polls (serve mj json t n (set key value)) ≡ some ok_string
    → Acknowledged n (handle_client_command json n (set key value)).0 (put key value) polls
unfolding answer serve
set-Acknowledged mj json t n key value start polls h =
    settle-Acknowledged n key (put key value) ok_string
      (handle_client_command json n (set key value)) start polls (λ e. cc e) (λ e. cc e)
      (λ shard e. cc e) (client_writes json n key value).0 h
