-- ===== src/Protocol/Replies.antt =====
-- network/protocol.rs, Response::serialize.
pub mod RoundTrip
use raft_kv_distributed_kv_s.Prelude.{Text, codes, ◌∷◌, [], ◌++◌, length}
use raft_kv_distributed_kv_s.Protocol.{Response, simple_string, bulk_string, error, null, integer}
use raft_kv_distributed_kv_s.Decimal.{decimal}

abbrev pub crlf : Text
crlf = 13 ∷ 10 ∷ []

unfoldable pub serialize : Response → Text
serialize (simple_string s) = b'+' ∷ (s ++ crlf)
serialize (bulk_string s) = b'$' ∷ (decimal (length s) ++ (crlf ++ (s ++ crlf)))
serialize null = codes "$-1" ++ crlf
serialize (error message) = codes "-ERR " ++ (message ++ crlf)
serialize (integer n) = b':' ∷ (decimal n ++ crlf)
