-- ===== src/Server/Connection/Conversation.antt =====
-- network/server.rs and network/protocol.rs: what a client reads on its connection.
use mathlib.Core.Option
use raft_kv_distributed_kv_s.Server.Connection.{
  Turn, Event, refused, replied, handle_client, respond, pass, Text,
}
use raft_kv_distributed_kv_s.Server.{serve, List, ℕ, MessageJson, Response, Json, PeerTransport}
use raft_kv_distributed_kv_s.Server.Commit.{answer}
use raft_kv_distributed_kv_s.Server.Requests.Wire.{
  incoming, TakesAscii, pipeline, AreRequests, read_request-resp_array, resp_array,
}
use raft_kv_distributed_kv_s.Protocol.Replies.{serialize}
use raft_kv_distributed_kv_s.Protocol.Replies.RoundTrip.{read_reply, read_reply-serialize, Fits}
use raft_kv_distributed_kv_s.Prelude.{
  List, Text, ℕ, ◌++◌, Option, some, ◌∷◌, [], suc, ◌≡◌, length, true, ◌≤◌, zero, arith, ap, refl,
  ◌∙◌, none, Bool,
}
use raft_kv_distributed_kv_s.Transport.{MessageJson, PeerTransport}
use raft_kv_distributed_kv_s.Protocol.{Command, Response}
use raft_kv_distributed_kv_s.Raft.Persist.{Json}

-- All bytes that go to the client.
abbrev pub text_of : List Event → Text
text_of [] = []
text_of (refused t ∷ rest) = t ++ text_of rest
text_of (replied s t ∷ rest) = t ++ text_of rest

abbrev next_reply :
    (Text → Option (List Response)) → Option (Response × Text) → Option (List Response)
next_reply go none = none
next_reply go (some (r, rest)) = Option.map (λ rs. r ∷ rs) (go rest)

-- The replies that a client reads one after another, in so many reads.
unfoldable pub read_replies : ℕ → Text → Option (List Response)
read_replies zero t = some []
read_replies (suc n) t = next_reply (read_replies n) (read_reply t)

abbrev pub AllFit : List Response → Type 0
AllFit [] = Unit
AllFit (r ∷ rs) = Fits r × AllFit rs

module _ (mj : MessageJson) (json : Json) (t : PeerTransport) (upper : Text → Text)
    (utf8 : Text → Bool) where
  -- Every command gets an answer in its turn, and the write of the reply succeeds.
  abbrev pub Answered : List Command → List Turn → List Response → Type 0
  Answered [] [] [] = Unit
  Answered (c ∷ cs) (u ∷ us) (reply ∷ replies) =
      (answer u.start u.polls (serve mj json t u.node c) ≡ some reply)
      × (u.delivered ≡ true)
      × Answered cs us replies
  Answered _ _ _ = ⊥

  one_reply :
      (passes : ℕ) (name : Text) (args : List Text) (c : Command) (rest : Text) (u : Turn)
      (us : List Turn) (reply : Response)
      → TakesAscii utf8
      → AreRequests utf8 upper ((name, args) ∷ []) (c ∷ [])
      → answer u.start u.polls (serve mj json t u.node c) ≡ some reply
      → u.delivered ≡ true
      → text_of (
          handle_client mj json t upper
            (suc passes)
            (incoming utf8 (resp_array (name ∷ args) rest))
            (u ∷ us))
        ≡ serialize reply ++ text_of (handle_client mj json t upper passes (incoming utf8 rest) us)
  unfolding handle_client pass respond
  one_reply passes name args c rest u us reply ascii (are_lines, few, asks, _) answered written =
      rw
        (
          read_request-resp_array utf8 upper name args c rest ascii are_lines few asks,
          answered,
          written,
        )
        refl

  -- A conversation: a client sends requests one after another, names and arguments in valid UTF-8
  -- with no line feed, fewer than 2^64 in each, and each asks for a command by its name, letter case
  -- aside, and its arguments. On its connection it reads one reply for each, in order: the answer to
  -- that command, be it the reply, an error or a time-out, if every command is answered in its turn,
  -- every write succeeds and the replies are such as a client can read back.
  pub conversation :
      (passes : ℕ) (rs : List (Text × List Text)) (cs : List Command) (us : List Turn)
      (replies : List Response)
      → TakesAscii utf8
      → AreRequests utf8 upper rs cs
      → Answered cs us replies
      → AllFit replies
      → length rs ≤ passes
      → read_replies
          (length replies)
          (text_of (handle_client mj json t upper passes (incoming utf8 (pipeline rs)) us))
        ≡ some replies
  unfolding read_replies
  conversation passes [] [] [] [] ascii h a f enough = refl
  conversation zero (r ∷ rs) cs us replies ascii h a f enough = absurd (omega (arith, enough))
  conversation (suc passes) ((name, args) ∷ rs) (c ∷ cs) (u ∷ us) (reply ∷ replies) ascii
        (are_lines, few, asks, others) (answered, written, later) (fits, fit) enough =
      ap (read_replies (length (reply ∷ replies))) (
        one_reply passes name args c (pipeline rs) u us reply ascii (are_lines, few, asks, tt)
          answered written)
      ∙ ap (next_reply (read_replies (length replies))) (
          read_reply-serialize reply
            (text_of (handle_client mj json t upper passes (incoming utf8 (pipeline rs)) us)) fits)
      ∙ ap (Option.map (λ rs. reply ∷ rs))
          (conversation passes rs cs us replies ascii others later fit (omega (arith, enough)))
  conversation passes [] (c ∷ cs) us replies ascii h a f enough = absurd h
  conversation passes [] [] [] (reply ∷ replies) ascii h a f enough = absurd a
  conversation passes [] [] (u ∷ us) replies ascii h a f enough = absurd a
  conversation (suc passes) (r ∷ rs) [] us replies ascii h a f enough = absurd h
  conversation (suc passes) (r ∷ rs) (c ∷ cs) [] replies ascii h a f enough = absurd a
  conversation (suc passes) (r ∷ rs) (c ∷ cs) (u ∷ us) [] ascii h a f enough = absurd a
