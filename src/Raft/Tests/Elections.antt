-- ===== src/Raft/Tests/Elections.antt =====
-- An example of an election.
use raft_kv_distributed_kv_s.Raft.Node
use raft_kv_distributed_kv_s.Raft.Votes.Won.{election_is_won, Leads, hear}
use raft_kv_distributed_kv_s.Raft.Node.{reset_election_timeout}
use raft_kv_distributed_kv_s.Raft.Tests.Encoding.{json_example}
use raft_kv_distributed_kv_s.Raft.Node.Election.{start_election}
use raft_kv_distributed_kv_s.Prelude.{◌∷◌, [], arith}

-- Node 1 of three, with the votes of nodes 3 and 2.
election_is_won_example :
    Leads 1 (
      hear json_example 1
        (start_election json_example (Node.new 1 (1 ∷ 2 ∷ 3 ∷ []))).0
        (3 ∷ 2 ∷ []))
unfolding reset_election_timeout Node.new
election_is_won_example =
    election_is_won json_example (Node.new 1 (1 ∷ 2 ∷ 3 ∷ [])) (3 ∷ 2 ∷ []) (omega arith)
      (ground arith) (ground arith) (omega arith)
