-- ===== src/Raft/Tests/Encoding.antt =====
-- A concrete encoding of the saved state, in place of the JSON library, for the examples.
use raft_kv_distributed_kv_s.Prelude.{
  ℕ, zero, suc, Text, List, Option, length, ◌∷◌, take, drop, ◌≡◌, some, ◌++◌, ap, [], none, ◌∙◌,
  sym, refl,
}
use raft_kv_distributed_kv_s.Raft.Log.{LogCommand, put, delete, LogEntry, noop}
use raft_kv_distributed_kv_s.Raft.Persist.{PersistentState, Json}
use raft_kv_distributed_kv_s.Raft.Durable.{RoundTrips}

-- A text with its length in front, before the rest.
unfoldable pub enc_text : Text → Text → Text
enc_text t rest = length t ∷ (t ++ rest)

unfoldable pub dec_text : Text → Text × Text
dec_text [] = ([], [])
dec_text (n ∷ t) = (take n t, drop n t)

take-front : (t rest : Text) → take (length t) (t ++ rest) ≡ t
take-front [] rest = refl
take-front (c ∷ t) rest = ap (λ z. c ∷ z) (take-front t rest)

drop-front : (t rest : Text) → drop (length t) (t ++ rest) ≡ rest
drop-front [] rest = refl
drop-front (c ∷ t) rest = drop-front t rest

dec_text-enc_text : (t rest : Text) → dec_text (enc_text t rest) ≡ (t, rest)
unfolding dec_text enc_text
dec_text-enc_text t rest = rw (take-front t rest, drop-front t rest) refl

unfoldable pub enc_command : LogCommand → Text → Text
enc_command (put k v) rest = 0 ∷ enc_text k (enc_text v rest)
enc_command (delete k) rest = 1 ∷ enc_text k rest
enc_command noop rest = 2 ∷ rest

unfoldable pub dec_put : Text × Text → LogCommand × Text
dec_put (k, t) = let (v, rest) = dec_text t in (put k v, rest)

unfoldable pub dec_delete : Text × Text → LogCommand × Text
dec_delete (k, rest) = (delete k, rest)

unfoldable pub dec_command : Text → LogCommand × Text
unfolding dec_put dec_delete
dec_command (zero ∷ t) = dec_put (dec_text t)
dec_command (suc zero ∷ t) = dec_delete (dec_text t)
dec_command (suc (suc _) ∷ t) = (noop, t)
dec_command [] = (noop, [])

dec_command-enc_command :
    (c : LogCommand) (rest : Text) → dec_command (enc_command c rest) ≡ (c, rest)
unfolding dec_command enc_command dec_put dec_delete
dec_command-enc_command (put k v) rest =
    ap dec_put (dec_text-enc_text k (enc_text v rest))
    ∙ ap (λ x. (put k x.0, x.1)) (dec_text-enc_text v rest)
dec_command-enc_command (delete k) rest = ap dec_delete (dec_text-enc_text k rest)
dec_command-enc_command noop rest = refl

unfoldable pub enc_entries : List LogEntry → Text
enc_entries [] = []
enc_entries (e ∷ es) = e.term ∷ enc_command e.command (enc_entries es)

unfoldable pub dec_entries : ℕ → Text → List LogEntry
dec_entries zero t = []
dec_entries (suc n) [] = []
dec_entries (suc n) (term ∷ t) =
    let (c, rest) = dec_command t in record { term = term; command = c } ∷ dec_entries n rest

pub dec_entries-enc_entries : (es : List LogEntry) → dec_entries (length es) (enc_entries es) ≡ es
unfolding dec_entries enc_entries
dec_entries-enc_entries [] = refl
dec_entries-enc_entries (e ∷ es) =
    rw (dec_command-enc_command e.command (enc_entries es))
      (ap (λ z. e ∷ z) (dec_entries-enc_entries es))

unfoldable pub enc_vote : Option ℕ → Text → Text
enc_vote none rest = 0 ∷ 0 ∷ rest
enc_vote (some c) rest = 1 ∷ c ∷ rest

unfoldable pub dec_vote : ℕ → ℕ → Option ℕ
dec_vote zero c = none
dec_vote (suc _) c = some c

unfoldable pub encode : PersistentState → Option Text
encode s = some (s.current_term ∷ enc_vote s.voted_for (length s.log ∷ enc_entries s.log))

unfoldable pub decode : Text → Option PersistentState
decode (term ∷ tag ∷ c ∷ n ∷ t) =
    some (record { current_term = term; voted_for = dec_vote tag c; log = dec_entries n t })
decode _ = none

abbrev pub json_example : Json
json_example = record { to_string_pretty = encode; from_str = decode }

decode-vote :
    (s : PersistentState) (v : Option ℕ)
    → s.voted_for ≡ v
    → decode (s.current_term ∷ enc_vote v (length s.log ∷ enc_entries s.log)) ≡ some s
unfolding decode enc_vote dec_vote
decode-vote s none h =
    rw (dec_entries-enc_entries s.log) (ap (λ z. some (record s { voted_for = z })) (sym h))
decode-vote s (some c) h =
    rw (dec_entries-enc_entries s.log) (ap (λ z. some (record s { voted_for = z })) (sym h))

pub json_example-RoundTrips : RoundTrips json_example
unfolding encode
json_example-RoundTrips s = (_, refl, decode-vote s s.voted_for refl)
