-- ===== src/System/Lines.antt =====
-- transport.rs and raft/node.rs: which votes the lines that a node sends can grant.
use raft_kv_distributed_kv_s.Prelude.{
  ℕ, List, [], ◌∷◌, ◌≡◌, ◌≢◌, ◌∙◌, ap, refl, sym, some, none, inl, inr, ◌⊎◌, Option, true, Text,
}
use raft_kv_distributed_kv_s.Transport.{
  MessageJson, send_message, Delivery, network_message, PeerTransport, push_sent, send_messages,
  send_written, send_to,
}
use raft_kv_distributed_kv_s.Raft.State.{RaftState}
use raft_kv_distributed_kv_s.Raft.Node.Step.{NetworkMessage}
use raft_kv_distributed_kv_s.System.Voters.{Ballots}
use raft_kv_distributed_kv_s.Raft.Message.{RequestVoteResponse}
use raft_kv_distributed_kv_s.Raft.Quorum.{Among}
use raft_kv_distributed_kv_s.Cluster.{
  PeerMessage, request_vote, append_entries, append_entries_response, request_vote_response,
}
use raft_kv_distributed_kv_s.Cluster.Actions.{messages}
use raft_kv_distributed_kv_s.Raft.Node.{
  Action, apply_entry, send_request_vote, send_append_entries, send_append_entries_response,
  send_request_vote_response,
}
use raft_kv_distributed_kv_s.Raft.Votes.Candidacy.{Replies}

-- Documented of the JSON library: a message that it wrote it reads back.
abbrev pub MessageRoundTrips : MessageJson → Type 0
MessageRoundTrips mj =
    (m : NetworkMessage) (line : Text) → mj.to_string m ≡ some line → mj.from_str line ≡ some m

-- A grant in a line is a vote on record, for the node that the line goes to.
abbrev pub Honest : MessageJson → List ℕ → Ballots → Delivery → Type 0
Honest mj ms cast d =
    (from : ℕ) (r : RequestVoteResponse)
    → mj.from_str d.line ≡ some (NetworkMessage.request_vote_response from r)
    → r.vote_granted ≡ true
    → Among from ms × (cast from r.term ≡ some d.to)

-- A line that was sent is that of a message.
abbrev pub Carries : MessageJson → PeerTransport → PeerMessage → Delivery → Type 0
Carries mj t m d = (d.to ≡ m.to) × (mj.from_str d.line ≡ some (network_message t.node_id m.payload))

send_written-Carries :
    (mj : MessageJson) (t : PeerTransport) (m : PeerMessage) (d : Delivery) (address : Text)
    (o : Option Text)
    → MessageRoundTrips mj
    → mj.to_string (network_message t.node_id m.payload) ≡ o
    → send_written m.to address o ≡ some d
    → Carries mj t m d
send_written-Carries mj t m d address none rt e h = cc
send_written-Carries mj t m d address (some line) rt e h =
    let same : record { to = m.to; address = address; line = line } ≡ d = cc in
    (
      ap (λ (z : Delivery). z.to) (sym same),
      ap (λ (z : Delivery). mj.from_str z.line) (sym same) ∙ rt _ line e,
    )

send_to-Carries :
    (mj : MessageJson) (t : PeerTransport) (m : PeerMessage) (d : Delivery) (o : Option Text)
    → MessageRoundTrips mj
    → send_to mj t m o ≡ some d
    → Carries mj t m d
send_to-Carries mj t m d none rt h = cc
send_to-Carries mj t m d (some address) rt h = send_written-Carries mj t m d address _ rt refl h

pub send_message-Carries :
    (mj : MessageJson) (t : PeerTransport) (m : PeerMessage) (d : Delivery)
    → MessageRoundTrips mj
    → send_message mj t m ≡ some d
    → Carries mj t m d
unfolding send_message
send_message-Carries mj t m d rt h = send_to-Carries mj t m d _ rt h

-- The grants that a node sends.
abbrev GrantsOf : ℕ → RaftState → Delivery → ℕ → RequestVoteResponse → Type 0
GrantsOf i s d from r = (from ≡ i) × (r.term ≡ s.current_term) × (s.voted_for ≡ some d.to)

pub Among-push_sent :
    (o : Option Delivery) (d : Delivery) (ds : List Delivery)
    → Among d (push_sent o ds)
    → (o ≡ some d) ⊎ Among d ds
Among-push_sent none d ds h = inr h
Among-push_sent (some x) d ds (inl e) = inl (ap (λ z. some z) e)
Among-push_sent (some x) d ds (inr h) = inr h

module _ (mj : MessageJson) (rt : MessageRoundTrips mj) (t : PeerTransport) (s : RaftState) where
  -- No grant is in the line of another message.
  other_line :
      (m : PeerMessage) (d : Delivery) (from : ℕ) (r : RequestVoteResponse)
      → network_message t.node_id m.payload ≢ NetworkMessage.request_vote_response from r
      → send_message mj t m ≡ some d
      → mj.from_str d.line ≢ some (NetworkMessage.request_vote_response from r)
  other_line m d from r ne h e =
      let (_, line) = send_message-Carries mj t m d rt h in ne (cc (line, e))

  pub sent-GrantsOf :
      (actions : List Action) (d : Delivery) (from : ℕ) (r : RequestVoteResponse)
      → Replies s actions
      → Among d (send_messages mj t (messages actions))
      → mj.from_str d.line ≡ some (NetworkMessage.request_vote_response from r)
      → r.vote_granted ≡ true
      → GrantsOf t.node_id s d from r
  unfolding messages send_messages network_message
  sent-GrantsOf [] d from r q h e g = absurd h
  sent-GrantsOf (apply_entry _ _ ∷ rest) d from r q h e g = sent-GrantsOf rest d from r q h e g
  sent-GrantsOf (send_request_vote to x ∷ rest) d from r q h e g = elim (Among-push_sent _ d _ h) [
    | inl this ↦
        absurd
          (other_line (record { to = to; payload = request_vote x }) d from r (λ f. cc f) this e)
    | inr later ↦ sent-GrantsOf rest d from r q later e g
  ]
  sent-GrantsOf (send_append_entries to x ∷ rest) d from r q h e g =
      elim (Among-push_sent _ d _ h) [
        | inl this ↦ absurd (
            other_line (record { to = to; payload = append_entries x }) d from r (λ f. cc f) this e)
        | inr later ↦ sent-GrantsOf rest d from r q later e g
      ]
  sent-GrantsOf (send_append_entries_response to x ∷ rest) d from r q h e g =
      elim (Among-push_sent _ d _ h) [
        | inl this ↦ absurd (
            other_line (record { to = to; payload = append_entries_response x }) d from r
              (λ f. cc f) this e)
        | inr later ↦ sent-GrantsOf rest d from r q later e g
      ]
  sent-GrantsOf (send_request_vote_response to x ∷ rest) d from r q h e g =
      elim (Among-push_sent _ d _ h) [
        | inl this ↦
            let (to_is, line) =
              send_message-Carries mj t (record { to = to; payload = request_vote_response x }) d rt
                this in
            let from_is : t.node_id ≡ from = cc (line, e) in
            let same : x ≡ r = cc (line, e) in
            let (term, vote) = q.0 (ap (λ z. z.vote_granted) same ∙ g) in
            (sym from_is, ap (λ z. z.term) (sym same) ∙ term, vote ∙ ap (λ z. some z) (sym to_is))
        | inr later ↦ sent-GrantsOf rest d from r q.1 later e g
      ]
