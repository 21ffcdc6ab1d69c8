-- ===== src/Raft/Message.antt =====
-- raft/message.rs: the four remote calls between nodes.
use raft_kv_distributed_kv_s.Prelude.{ℕ, Bool, Option, List}
use raft_kv_distributed_kv_s.Raft.Log.{LogEntry}

pub record RequestVoteRequest : Type 0 where
  pub term : ℕ
  pub candidate_id : ℕ
  pub last_log_index : ℕ
  pub last_log_term : ℕ

pub record RequestVoteResponse : Type 0 where
  pub term : ℕ
  pub vote_granted : Bool

pub record AppendEntriesRequest : Type 0 where
  pub term : ℕ
  pub leader_id : ℕ
  pub prev_log_index : ℕ
  pub prev_log_term : ℕ
  pub entries : List LogEntry
  pub leader_commit : ℕ

pub record AppendEntriesResponse : Type 0 where
  pub term : ℕ
  pub success : Bool
  pub match_index : Option ℕ
