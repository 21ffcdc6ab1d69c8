-- ===== src/System/Ledger/Sent.antt =====
-- transport.rs in the cluster: the lines that a node sends are those of its actions.
use mathlib.Core.Path.{subst, ap, sym}
use raft_kv_distributed_kv_s.Transport.{
  MessageJson, send_message, Delivery, network_message, PeerTransport, send_messages,
}
use raft_kv_distributed_kv_s.Cluster.{
  PeerMessage, MessagePayload, request_vote, append_entries, append_entries_response,
  request_vote_response,
}
use raft_kv_distributed_kv_s.Raft.Log.{RaftLog}
use raft_kv_distributed_kv_s.Cluster.Actions.{messages}
use raft_kv_distributed_kv_s.System.Lines.{
  MessageRoundTrips, Carries, Among-push_sent, send_message-Carries,
}
use raft_kv_distributed_kv_s.Raft.Writes.{Lawful, Inside, Sends}
use raft_kv_distributed_kv_s.Prelude.{
  List, ◌<◌, ◌∷◌, length, ℕ, inl, word, ◌≡◌, inr, some, [], refl, arith, ap, ◌∙◌, sym,
}
use raft_kv_distributed_kv_s.Raft.Matching.{Book, Traced, Traced-bounded}
use raft_kv_distributed_kv_s.Raft.Matching.Terms.{Below}
use raft_kv_distributed_kv_s.Raft.Node.{
  Action, apply_entry, send_request_vote, send_request_vote_response, send_append_entries,
  send_append_entries_response,
}
use raft_kv_distributed_kv_s.Raft.Quorum.{Among}
use raft_kv_distributed_kv_s.Raft.Writes.Actions.{All}
use raft_kv_distributed_kv_s.System.Ledger.{Genuine, Asked}

-- What `Sends` says of a message.
abbrev Says : ℕ → RaftLog → MessagePayload → Type 0
Says term log (append_entries r) = Lawful term log r
Says term log (append_entries_response r) = Inside log r
Says term log (request_vote r) = Unit
Says term log (request_vote_response r) = Unit

messages-Says :
    (term : ℕ) (log : RaftLog) (actions : List Action) (m : PeerMessage)
    → All (Sends term log) actions
    → Among m (messages actions)
    → Says term log m.payload
unfolding messages
messages-Says term log [] m h on = absurd on
messages-Says term log (apply_entry _ _ ∷ rest) m h on = messages-Says term log rest m h.1 on
messages-Says term log (send_request_vote to r ∷ rest) m h (inl e) =
    subst (λ (x : PeerMessage). Says term log x.payload) e tt
messages-Says term log (send_request_vote to r ∷ rest) m h (inr on) =
    messages-Says term log rest m h.1 on
messages-Says term log (send_request_vote_response to r ∷ rest) m h (inl e) =
    subst (λ (x : PeerMessage). Says term log x.payload) e tt
messages-Says term log (send_request_vote_response to r ∷ rest) m h (inr on) =
    messages-Says term log rest m h.1 on
messages-Says term log (send_append_entries to r ∷ rest) m h (inl e) =
    subst (λ (x : PeerMessage). Says term log x.payload) e h.0
messages-Says term log (send_append_entries to r ∷ rest) m h (inr on) =
    messages-Says term log rest m h.1 on
messages-Says term log (send_append_entries_response to r ∷ rest) m h (inl e) =
    subst (λ (x : PeerMessage). Says term log x.payload) e h.0
messages-Says term log (send_append_entries_response to r ∷ rest) m h (inr on) =
    messages-Says term log rest m h.1 on

module _ (mj : MessageJson) (rt : MessageRoundTrips mj) (t : PeerTransport) where
  sent-Carries :
      (ms : List PeerMessage) (d : Delivery)
      → Among d (send_messages mj t ms)
      → (m : PeerMessage) × Among m ms × Carries mj t m d
  unfolding send_messages
  sent-Carries [] d on = absurd on
  sent-Carries (m ∷ ms) d on = elim (Among-push_sent (send_message mj t m) d _ on) [
    | inl this ↦ (m, inl refl, send_message-Carries mj t m d rt this)
    | inr later ↦ let (x, there, carries) = sent-Carries ms d later in (x, inr there, carries)
  ]

  -- The log of the sender is in the book.
  module _ (book : Book) (log : RaftLog) (u : Traced book log.entries)
      (nonempty : 0 < length log.entries) (bounded : (u : ℕ) → length (book u) < word) (term : ℕ)
      (below : Below term log.entries) where
    said-Asked :
        (d : Delivery) (payload : MessagePayload)
        → Says term log payload
        → mj.from_str d.line ≡ some (network_message t.node_id payload)
        → Genuine mj book d
    unfolding network_message
    said-Asked d (request_vote x) h e = record {
      requests = λ from r f. cc (e, f);
      replies = λ from r f. cc (e, f);
    }
    said-Asked d (request_vote_response x) h e = record {
      requests = λ from r f. cc (e, f);
      replies = λ from r f. cc (e, f);
    }
    said-Asked d (append_entries x) h e = record {
      requests = λ from r f.
          let same : x ≡ r = cc (e, f) in
          subst (Asked book) same (elim h [
            | inl none_sent ↦ inl none_sent
            | inr (part, own) ↦
                inr (log.entries, u, part, subst (λ z. Below z log.entries) (sym own) below)
          ]);
      replies = λ from r f. cc (e, f);
    }
    said-Asked d (append_entries_response x) h e = record {
      requests = λ from r f. cc (e, f);
      replies = λ from r f m g.
          let same : x ≡ r = cc (e, f) in
          omega (
            arith,
            h m (ap (λ z. z.match_index) same ∙ g) nonempty,
            Traced-bounded book log.entries word u nonempty bounded,
          );
    }

    pub sent-Genuine :
        (actions : List Action) (d : Delivery)
        → All (Sends term log) actions
        → Among d (send_messages mj t (messages actions))
        → Genuine mj book d
    sent-Genuine actions d h on =
        let (m, there, (_, line)) = sent-Carries (messages actions) d on in
        said-Asked d m.payload (messages-Says term log actions m h there) line
