-- ===== src/System/Tests/Encoding.antt =====
-- A concrete encoding of the messages, in place of the JSON library, for the examples.
use raft_kv_distributed_kv_s.Raft.Node.Step.{
  NetworkMessage, request_vote, request_vote_response, append_entries, append_entries_response,
}
use raft_kv_distributed_kv_s.Prelude.{
  ℕ, zero, suc, [], ◌∷◌, ◌≡◌, ap, refl, sym, some, none, Text, Bool, Option, false, length, true,
  ◌∙◌,
}
use raft_kv_distributed_kv_s.Transport.{MessageJson}
use raft_kv_distributed_kv_s.Raft.Tests.Encoding.{
  enc_vote, dec_vote, enc_entries, dec_entries, dec_entries-enc_entries,
}
use raft_kv_distributed_kv_s.System.Lines.{MessageRoundTrips}

unfoldable pub enc_bool : Bool → ℕ
enc_bool false = 0
enc_bool true = 1

unfoldable pub dec_bool : ℕ → Bool
dec_bool zero = false
dec_bool (suc _) = true

dec_bool-enc_bool : (b : Bool) → dec_bool (enc_bool b) ≡ b
unfolding dec_bool enc_bool
dec_bool-enc_bool false = refl
dec_bool-enc_bool true = refl

unfoldable pub encode_message : NetworkMessage → Option Text
encode_message (request_vote from r) =
    some (0 ∷ from ∷ r.term ∷ r.candidate_id ∷ r.last_log_index ∷ r.last_log_term ∷ [])
encode_message (request_vote_response from r) =
    some (1 ∷ from ∷ r.term ∷ enc_bool r.vote_granted ∷ [])
encode_message (append_entries_response from r) =
    some (2 ∷ from ∷ r.term ∷ enc_bool r.success ∷ enc_vote r.match_index [])
encode_message (append_entries from r) = some (
    3
    ∷ from
    ∷ r.term
    ∷ r.leader_id
    ∷ r.prev_log_index
    ∷ r.prev_log_term
    ∷ r.leader_commit
    ∷ length r.entries
    ∷ enc_entries r.entries)

unfoldable pub decode_message : Text → Option NetworkMessage
decode_message (zero ∷ from ∷ term ∷ id ∷ i ∷ t ∷ []) = some (
    request_vote from
      (record { term = term; candidate_id = id; last_log_index = i; last_log_term = t }))
decode_message (suc zero ∷ from ∷ term ∷ b ∷ []) =
    some (request_vote_response from (record { term = term; vote_granted = dec_bool b }))
decode_message (suc (suc zero) ∷ from ∷ term ∷ b ∷ tag ∷ c ∷ []) = some (
    append_entries_response from
      (record { term = term; success = dec_bool b; match_index = dec_vote tag c }))
decode_message (suc (suc (suc _)) ∷ from ∷ term ∷ id ∷ i ∷ t ∷ c ∷ n ∷ es) = some (
    append_entries from (record {
      term = term;
      leader_id = id;
      prev_log_index = i;
      prev_log_term = t;
      entries = dec_entries n es;
      leader_commit = c;
    }))
decode_message _ = none

abbrev pub message_example : MessageJson
message_example = record { to_string = encode_message; from_str = decode_message }

at_line :
    {t line : Text} {q : Option NetworkMessage}
    → some t ≡ some line
    → decode_message t ≡ q
    → decode_message line ≡ q
at_line h e = ap decode_message (cc h) ∙ e

reads :
    (m : NetworkMessage) (line : Text) → encode_message m ≡ some line → decode_message line ≡ some m
unfolding encode_message decode_message enc_vote dec_vote
reads (request_vote from r) line h = at_line h refl
reads (request_vote_response from r) line h = at_line h (
    ap (λ b. some (request_vote_response from (record r { vote_granted = b })))
      (dec_bool-enc_bool r.vote_granted))
reads (append_entries from r) line h = at_line h (
    ap (λ es. some (append_entries from (record r { entries = es })))
      (dec_entries-enc_entries r.entries))
reads (append_entries_response from r) line h = at_line h (both r.match_index refl)
  where
    both :
        (o : Option ℕ)
        → r.match_index ≡ o
        → decode_message (2 ∷ from ∷ r.term ∷ enc_bool r.success ∷ enc_vote o [])
          ≡ some (append_entries_response from r)
    both none e =
        rw dec_bool-enc_bool
          (ap (λ z. some (append_entries_response from (record r { match_index = z }))) (sym e))
    both (some c) e =
        rw dec_bool-enc_bool
          (ap (λ z. some (append_entries_response from (record r { match_index = z }))) (sym e))

pub message_example-RoundTrips : MessageRoundTrips message_example
message_example-RoundTrips = reads
