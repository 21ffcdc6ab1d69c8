-- ===== src/Server/Commit.antt =====
-- network/server.rs, await_commit: the reply to a write is held until its entry is committed.
pub mod Acknowledged
use raft_kv_distributed_kv_s.Prelude.{
  ℕ, Option, none, some, List, [], ◌∷◌, ◌+◌, leb, if◌then◌else◌, codes,
}
use raft_kv_distributed_kv_s.Protocol.{Command, Response, error}
use raft_kv_distributed_kv_s.Server.{Served, serve}

-- One pass of the loop: the commit index that the node then has, and the clock after it, in
-- microseconds.
pub record Poll : Type 0 where
  pub commit_index : ℕ
  pub now : ℕ

abbrev pub timed_out : Response
timed_out = error (codes "TIMEOUT - entry appended but not committed by a majority")

-- `none` while the loop goes on.
unfoldable pub await_commit : ℕ → ℕ → Response → List Poll → Option Response
await_commit deadline index reply [] = none
await_commit deadline index reply (p ∷ ps) =
    let rest = await_commit deadline index reply ps in
    if leb index p.commit_index
    then some reply
    else if leb deadline p.now
    then some timed_out
    else rest

-- Three seconds.
abbrev pub patience : ℕ
patience = 3000000

abbrev pub settle : ℕ → Response → List Poll → Option ℕ → Option Response
settle start reply polls none = some reply
settle start reply polls (some index) = await_commit (start + patience) index reply polls

-- The reply to a command that was taken up at the time `start`.
unfoldable pub answer : ℕ → List Poll → Served → Option Response
answer start polls s = settle start s.reply polls s.pending
