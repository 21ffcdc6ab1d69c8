-- ===== src/System/Arrivals.antt =====
-- raft/node.rs in the cluster: the votes that a received message brings.
use mathlib.Core.Path.{subst}
use raft_kv_distributed_kv_s.Prelude.{ℕ, List, ◌≡◌, ◌∙◌, ap, refl, sym, some}
use raft_kv_distributed_kv_s.Raft.Node.Step.{
  NetworkMessage, dispatch, request_vote, request_vote_response, append_entries,
  append_entries_response,
}
use raft_kv_distributed_kv_s.Raft.Node.{RaftNode}
use raft_kv_distributed_kv_s.Raft.Node.Election.{handle_request_vote_response}
use raft_kv_distributed_kv_s.Transport.{MessageJson, Delivery}
use raft_kv_distributed_kv_s.Raft.Node.Entries.{handle_append_entries_response}
use raft_kv_distributed_kv_s.System.Voters.{Ballots}
use raft_kv_distributed_kv_s.System.Lines.{Honest}
use raft_kv_distributed_kv_s.Raft.Votes.Candidacy.{Nothing, Fair}
use raft_kv_distributed_kv_s.Raft.Persist.{Json}
use raft_kv_distributed_kv_s.Raft.Quorum.{Among}
use raft_kv_distributed_kv_s.Raft.Votes.Candidacy.Elections.{
  handle_request_vote-Fair, ArrivedVote, vote_response-Fair,
}
use raft_kv_distributed_kv_s.Raft.Votes.Candidacy.Requests.{
  handle_append_entries-Fair, append_response-Fair,
}

-- The votes that a message brings.
abbrev pub Brought : RaftNode → NetworkMessage → ℕ → Type 0
Brought n (request_vote _ _) = Nothing
Brought n (append_entries _ _) = Nothing
Brought n (append_entries_response _ _) = Nothing
Brought n (request_vote_response from r) = ArrivedVote n from r

pub dispatch-Fair :
    (json : Json) (n : RaftNode) (m : NetworkMessage) → Fair (Brought n m) n (dispatch json n m)
unfolding dispatch handle_request_vote_response handle_append_entries_response
dispatch-Fair json n (request_vote from r) = handle_request_vote-Fair json n r
dispatch-Fair json n (request_vote_response from r) =
    vote_response-Fair json n from r n.state.role refl
dispatch-Fair json n (append_entries from r) = handle_append_entries-Fair json n r
dispatch-Fair json n (append_entries_response from r) =
    append_response-Fair json n from r n.state.role

-- The votes that an honest line brings are on record.
pub Brought-recorded :
    (mj : MessageJson) (ms : List ℕ) (cast : Ballots) (d : Delivery) (n : RaftNode)
    (m : NetworkMessage)
    → Honest mj ms cast d
    → mj.from_str d.line ≡ some m
    → (v : ℕ) → Brought n m v
    → Among v ms × (cast v n.state.current_term ≡ some d.to)
Brought-recorded mj ms cast d n (request_vote _ _) h e v b = absurd b
Brought-recorded mj ms cast d n (append_entries _ _) h e v b = absurd b
Brought-recorded mj ms cast d n (append_entries_response _ _) h e v b = absurd b
Brought-recorded mj ms cast d n (request_vote_response from r) h e v b =
    let (member, vote) = h from r e b.granted in
    (
      subst (λ x. Among x ms) b.voter member,
      ap (λ t. cast v t) (sym b.in_term) ∙ ap (λ x. cast x r.term) (sym b.voter) ∙ vote,
    )
