-- ===== src/Main/Integration/Persistence.antt =====
-- main.rs: the test of a restart from the state file.
use raft_kv_distributed_kv_s.Raft.Tests.Encoding
use raft_kv_distributed_kv_s.Raft.Node.Election
use raft_kv_distributed_kv_s.Raft.Node.Replicate
use raft_kv_distributed_kv_s.Raft.State
use raft_kv_distributed_kv_s.Raft.Node
use raft_kv_distributed_kv_s.Raft.Persist
use raft_kv_distributed_kv_s.Raft.Log
use raft_kv_distributed_kv_s.Raft.State.{follower, become_leader}
use raft_kv_distributed_kv_s.Raft.Log.{LogEntry, put, last_index, last_term}
use raft_kv_distributed_kv_s.Raft.Node.{RaftNode, with_persistence, persist}
use raft_kv_distributed_kv_s.Raft.Persist.{Json, StatePersister}
use raft_kv_distributed_kv_s.Main.Integration.{
  all_hold, option_eq, role_eq, command_eq, tick_until_acts, no_file, List, Option, IoResult, Bool,
  ℕ, false, true, some, ok, [], text_eq,
}
use raft_kv_distributed_kv_s.Raft.Tests.Encoding.{json_example}
use raft_kv_distributed_kv_s.Prelude.{
  List, codes, Option, IoResult, Bool, ◌≡◌, ℕ, false, true, ◌∷◌, some, ok, refl, [], ◌==◌, none,
  ◌&&◌, io_error,
}
use raft_kv_distributed_kv_s.Storage.Lines.{text_eq}

abbrev peers : List ℕ
peers = 1 ∷ 2 ∷ 3 ∷ []

abbrev stored : LogEntry
stored = record { term = 1; command = put (codes "name") (codes "uday") }

abbrev is_stored : Option LogEntry → Bool
is_stored none = false
is_stored (some e) = (e.term == 1) && command_eq e.command stored.command

abbrev recovered_holds : IoResult RaftNode → Bool
recovered_holds io_error = false
recovered_holds (ok n) = all_hold (
    (n.state.current_term == 1)
    ∷ option_eq (λ a b. a == b) n.state.voted_for (some 1)
    ∷ (last_index n.state.log == 1)
    ∷ (last_term n.state.log == 1)
    ∷ is_stored (Log.get n.state.log 1)
    ∷ role_eq n.state.role follower
    ∷ (n.state.commit_index == 0)
    ∷ (n.state.last_applied == 0)
    ∷ [])

-- A node that is made leader by hand, with an entry that is written to its log by hand, and saved.
abbrev led : Json → RaftNode → RaftNode
led json n =
    let s = become_leader n.state in
    persist json (record n { state = record s { log = Log.append s.log stored } })

abbrev recovers : Json → Option StatePersister → Bool
recovers json none = false
recovers json (some p) = recovered_holds (with_persistence json 1 peers p true true)

unfoldable lifetimes : Json → IoResult RaftNode → Bool
lifetimes json io_error = false
lifetimes json (ok n) =
    let (standing, _) = tick_until_acts 65 json n in
    all_hold (
      (standing.state.current_term == 1)
      ∷ option_eq (λ a b. a == b) standing.state.voted_for (some 1)
      ∷ recovers json (led json standing).persister
      ∷ [])

unfoldable test_raft_persistence : Json → Bool
test_raft_persistence json = lifetimes json (with_persistence json 1 peers no_file true true)

persistence_test : test_raft_persistence json_example ≡ true
unfolding lifetimes test_raft_persistence Node.with_persistence Node.restore Persist.load
    Log.from_entries Persist.write Node.new Node.reset_election_timeout tick_until_acts
    Election.tick Election.tick_as Election.tick_election Node.timeout_of Node.next_seed
    Election.start_election Election.has_majority State.majority_count Election.stand Node.persist
    State.become_candidate Election.request_votes Election.handle_request_vote Election.vote_request
    Election.decide_vote Election.may_vote_for Election.adopt_term State.become_follower
    Election.up_to_date Log.last_term Log.last_index Election.handle_request_vote_response
    Election.vote_response_as Election.grant_vote Election.count_vote Node.insert_vote Node.contains
    Election.win_election Log.entries_from Log.term_at Log.to_entries Election.tick_heartbeat
    Replicate.find_index Replicate.replicate_to Replicate.replicate_to_all_peers
    Replicate.replicate_to_peer Replicate.request_from Replicate.send_heartbeats Node.save_if_any
    Persist.save State.become_leader State.track Log.append Log.append_entries Log.truncate_from
    Log.get text_eq Encoding.encode Encoding.decode Encoding.enc_vote Encoding.enc_entries
    Encoding.enc_command Encoding.enc_text Encoding.dec_vote Encoding.dec_entries
    Encoding.dec_command Encoding.dec_put Encoding.dec_delete Encoding.dec_text
persistence_test = refl
