-- ===== src/Raft/Votes/Once.antt =====
-- raft/node.rs, handle_request_vote: when a vote is granted, and that it is granted once a term.
-- A call answers yes: its only action is the reply that grants the vote, in the term `t`.
use raft_kv_distributed_kv_s.Raft.Persist.{Json}
use raft_kv_distributed_kv_s.Raft.Node.Election.{
  adopt_term, decide_vote, handle_request_vote, grant_vote, up_to_date,
}
use raft_kv_distributed_kv_s.Prelude.{
  List, Bool, ℕ, ◌≡◌, ◌≤◌, ◌∷◌, Bool-cases, arith, true, ltb, [], some, false, inl, inr, ap, sym,
  ◌∙◌, ◌<◌, ◌⊎◌, length, refl, suc,
}
use raft_kv_distributed_kv_s.Raft.Node.{
  RaftNode, persist, Action, reset_election_timeout, send_request_vote_response,
}
use raft_kv_distributed_kv_s.Raft.Message.{RequestVoteRequest}
use raft_kv_distributed_kv_s.Raft.State.{become_follower}
use raft_kv_distributed_kv_s.Raft.Votes.{Keeps-trans, LogEntry, last_index}
use raft_kv_distributed_kv_s.Raft.Votes.Runs.{Runs, Runs-Keeps}
use raft_kv_distributed_kv_s.Raft.Votes.Election.{handle_request_vote-Keeps}
use raft_kv_distributed_kv_s.Raft.Log.{
  LogEntry, last_term, last_index, term_or_zero, RaftLog, last_entry,
}

abbrev pub Grants : Json → RaftNode → RequestVoteRequest → ℕ → Type 0
Grants json n r t =
    (handle_request_vote json n r).1
    ≡ send_request_vote_response r.candidate_id (record { term = t; vote_granted = true }) ∷ []

-- The term of the last of some entries, `t` if there is none.
abbrev pub final_term : ℕ → List LogEntry → ℕ
final_term t [] = t
final_term t (e ∷ es) = final_term e.term es

-- The candidate's last entry has a later term than the last of `es`, or it has the same term and
-- an index that is not less.
abbrev pub AsRecent : List LogEntry → RequestVoteRequest → Type 0
AsRecent es r =
    (final_term 0 es < r.last_log_term)
    ⊎ ((r.last_log_term ≡ final_term 0 es) × (length es ≤ suc r.last_log_index))

-- What a granted vote says of the node before and after it.
pub record Granted (json : Json) (n : RaftNode) (r : RequestVoteRequest) (t : ℕ) : Type 0 where
  pub current : n.state.current_term ≤ r.term
  pub recent : AsRecent n.state.log.entries r
  pub voted : (handle_request_vote json n r).0.state.voted_for ≡ some r.candidate_id
  pub in_term : (handle_request_vote json n r).0.state.current_term ≡ t

term-final :
    (t : ℕ) (e : LogEntry) (es : List LogEntry)
    → term_or_zero (last_entry (e ∷ es)) ≡ final_term t (e ∷ es)
term-final t e [] = refl
term-final t e (f ∷ es) = term-final e.term f es

last_term-final : (log : RaftLog) → last_term log ≡ final_term 0 log.entries
unfolding last_term
last_term-final log = of_entries log.entries
  where
    of_entries : (es : List LogEntry) → term_or_zero (last_entry es) ≡ final_term 0 es
    of_entries [] = refl
    of_entries (e ∷ es) = term-final 0 e es

up_to_date-AsRecent :
    (log : RaftLog) (r : RequestVoteRequest) → up_to_date log r ≡ true → AsRecent log.entries r
unfolding up_to_date last_index
up_to_date-AsRecent log r h = rw (sym (last_term-final log)) (ground arith)

log-adopt_term :
    (json : Json) (n : RaftNode) (t : ℕ) → (adopt_term json n t).state.log ≡ n.state.log
unfolding adopt_term persist become_follower
log-adopt_term json n t = ground arith

reply_vote : List Action → Bool
reply_vote (send_request_vote_response _ r ∷ _) = r.vote_granted
reply_vote _ = false

reply_term : List Action → ℕ
reply_term (send_request_vote_response _ r ∷ _) = r.term
reply_term _ = 0

decide-Granted :
    (json : Json) (n : RaftNode) (r : RequestVoteRequest)
    → reply_vote (decide_vote json n r).1 ≡ true
    → (up_to_date n.state.log r ≡ true)
      × ((decide_vote json n r).0.state.voted_for ≡ some r.candidate_id)
      × ((decide_vote json n r).0.state.current_term ≡ reply_term (decide_vote json n r).1)
unfolding decide_vote reply_vote reply_term grant_vote persist reset_election_timeout
decide-Granted json n r h = ground arith

handle-stale :
    (json : Json) (n : RaftNode) (r : RequestVoteRequest)
    → ltb r.term n.state.current_term ≡ true
    → reply_vote (handle_request_vote json n r).1 ≡ false
unfolding handle_request_vote reply_vote
handle-stale json n r h = rw h

handle-fresh :
    (json : Json) (n : RaftNode) (r : RequestVoteRequest)
    → ltb r.term n.state.current_term ≡ false
    → handle_request_vote json n r ≡ decide_vote json (adopt_term json n r.term) r
unfolding handle_request_vote
handle-fresh json n r h = rw h

-- A vote is granted only to a candidate whose term is not behind and whose log is at least as up to
-- date as the voter's; the vote is then recorded, in the term that the reply names.
pub Grants-Granted :
    (json : Json) (n : RaftNode) (r : RequestVoteRequest) (t : ℕ)
    → Grants json n r t
    → Granted json n r t
unfolding reply_vote reply_term
Grants-Granted json n r t h = elim (Bool-cases (ltb r.term n.state.current_term)) [
  | inl stale ↦ cc (handle-stale json n r stale, ap reply_vote h)
  | inr fresh ↦
      let m = adopt_term json n r.term in
      let e = handle-fresh json n r fresh in
      let d = decide-Granted json m r (ap (λ x. reply_vote x.1) (sym e) ∙ ap reply_vote h) in
      record {
        current = ground arith;
        recent = up_to_date-AsRecent n.state.log r (rw log-adopt_term at d.0);
        voted = rw e d.1;
        in_term = rw e (d.2 ∙ ap (λ x. reply_term x.1) (sym e) ∙ ap reply_term h);
      }
]

-- In one term a node never grants its vote to two candidates: whatever it receives between the two
-- answers, its term staying below the largest 64-bit number, both went to the same one.
pub one_vote_per_term :
    (json : Json) (n : RaftNode) (r : RequestVoteRequest) {m : RaftNode} (q : RequestVoteRequest)
    (t : ℕ)
    → Grants json n r t
    → Runs json (handle_request_vote json n r).0 m
    → Grants json m q t
    → r.candidate_id ≡ q.candidate_id
one_vote_per_term json n r {m} q t first between second =
    let a = Grants-Granted json n r t first in
    let b = Grants-Granted json m q t second in
    let k = Keeps-trans (Runs-Keeps between) (handle_request_vote-Keeps json m q) in
    cc (k.stays (b.in_term ∙ sym a.in_term) r.candidate_id a.voted, b.voted)
