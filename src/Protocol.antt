-- ===== src/Protocol.antt =====
-- network/protocol.rs: the commands of the clients and the replies, and their text in the RESP
-- protocol.
pub mod Parse
pub mod Replies
use raft_kv_distributed_kv_s.Prelude.{ℕ, Text}

pub data Command : Type 0 where
  get : Text → Command
  set : (key value : Text) → Command
  del : Text → Command
  ping : Command
  unknown : Text → Command

-- The integers of the program are not negative.
pub data Response : Type 0 where
  simple_string bulk_string error : Text → Response
  null : Response
  integer : ℕ → Response
