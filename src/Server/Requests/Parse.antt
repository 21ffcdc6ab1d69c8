-- ===== src/Server/Requests/Parse.antt =====
-- network/server.rs and network/protocol.rs: the server reads the requests of its clients itself, and as
-- Command::parse does but for commands with a wrong number of arguments.
use mathlib.Core.Path.{subst, sym}
use raft_kv_distributed_kv_s.Server.Requests.{
  server_command, take_args, read_request, Command, Request, rejected, accepted, Line, or_unknown,
  request_of, read_counted, text_eq, push_read,
}
use raft_kv_distributed_kv_s.Prelude.{
  Option, Text, none, List, ℕ, ◌≡◌, map, some, false, Bool-cases, suc, ◌⊎◌, inr, ◌∷◌, inl, [], refl,
  ◌∙◌, ap, zero, sym,
}
use raft_kv_distributed_kv_s.Protocol.Parse.{
  starts_with, parse, command_named, read_args, num_args, command_of_args, parse_counted,
  parse_lines, get_name, push_arg, set_name, del_name, ping_name,
}
use raft_kv_distributed_kv_s.Protocol.{Command, unknown}
use raft_kv_distributed_kv_s.Server.Requests.Wire.{stream}
use raft_kv_distributed_kv_s.Storage.Lines.{lines, text_eq}

or_unknown-command_named :
    (name : Text) (args : List Text)
    → server_command name args ≡ or_unknown name (command_named name args)
unfolding server_command command_named
or_unknown-command_named name args = elim (Bool-cases (text_eq name get_name)) [
  | inl e ↦ rw (e, server_command, command_named) refl
  | inr not_get ↦ elim (Bool-cases (text_eq name set_name)) [
    | inl e ↦ rw (not_get, e) refl
    | inr not_set ↦ elim (Bool-cases (text_eq name del_name)) [
      | inl e ↦ rw (not_get, not_set, e) refl
      | inr not_del ↦ elim (Bool-cases (text_eq name ping_name)) [
        | inl e ↦ rw (not_get, not_set, not_del, e) refl
        | inr not_ping ↦ rw (not_get, not_set, not_del, not_ping) refl
      ]
    ]
  ]
]

take_args-read_args :
    (n : ℕ) (ls : List Text) → (take_args n (map (λ l. some l) ls)).0 ≡ read_args n ls
unfolding take_args read_args
take_args-read_args zero ls = refl
take_args-read_args (suc n) [] = refl
take_args-read_args (suc n) (l ∷ []) = refl
take_args-read_args (suc n) (l ∷ line ∷ ls) = elim (Bool-cases (starts_with b'$' l)) [
  | inr e ↦ rw e refl
  | inl e ↦ rw e (
      push_read-arg line (take_args n (map (λ l. some l) ls))
      ∙ ap (push_arg line) (take_args-read_args n ls))
]
  where
    push_read-arg :
        (arg : Text) (r : Option (List Text) × List Line) → (push_read arg r).0 ≡ push_arg arg r.0
    push_read-arg arg (none, rest) = refl
    push_read-arg arg (some args, rest) = refl

-- What the server reads and what Command::parse makes of the same text.
pub record Agrees (parsed : Option Command) (r : Request) : Type 0 where
  pub read : (c : Command) → parsed ≡ some c → r ≡ accepted c
  pub back :
      (c : Command)
      → r ≡ accepted c
      → (parsed ≡ some c) ⊎ ((parsed ≡ none) × ((name : Text) × (c ≡ unknown name)))

rejected-Agrees : (e : Text) → Agrees none (rejected e)
rejected-Agrees e = record { read = λ c h. cc h; back = λ c h. cc h }

or_unknown-Agrees : (name : Text) (o : Option Command) → Agrees o (accepted (or_unknown name o))
or_unknown-Agrees name none = record { read = λ c h. cc h; back = λ c h. inr (refl, (name, cc h)) }
or_unknown-Agrees name (some d) = record { read = λ c h. cc h; back = λ c h. inl (cc h) }

request_of-Agrees :
    (upper : Text → Text) (o : Option (List Text))
    → Agrees (command_of_args upper o) (request_of upper o)
request_of-Agrees upper none = rejected-Agrees _
request_of-Agrees upper (some []) = rejected-Agrees _
request_of-Agrees upper (some (name ∷ args)) =
    subst (λ c. Agrees (command_named (upper name) (name ∷ args)) (accepted c))
      (sym (or_unknown-command_named (upper name) (name ∷ args)))
      (or_unknown-Agrees (upper name) (command_named (upper name) (name ∷ args)))

read_counted-Agrees :
    (upper : Text → Text) (o : Option ℕ) (ls : List Text)
    → Agrees (parse_counted upper o ls) (read_counted upper o (map (λ l. some l) ls)).0
read_counted-Agrees upper none ls = rejected-Agrees _
read_counted-Agrees upper (some n) ls =
    subst (λ o. Agrees (command_of_args upper (read_args n ls)) (request_of upper o))
      (sym (take_args-read_args n ls)) (request_of-Agrees upper (read_args n ls))

no_star : (l : Text) → starts_with b'*' l ≡ false → num_args l ≡ none
unfolding starts_with num_args
no_star [] h = refl
no_star (c ∷ t) h = rw h refl

read_lines-Agrees :
    (upper : Text → Text) (ls : List Text)
    → Agrees (parse_lines upper ls) (read_request upper (map (λ l. some l) ls)).0
unfolding read_request
read_lines-Agrees upper [] = record { read = λ c h. cc h; back = λ c h. cc h }
read_lines-Agrees upper (l ∷ ls) = elim (Bool-cases (starts_with b'*' l)) [
  | inl e ↦ rw e (read_counted-Agrees upper (num_args l) ls)
  | inr e ↦ rw (e, no_star l e) (rejected-Agrees _)
]

-- The server reads a text as Command::parse does: a command that parse gives is accepted, and a command
-- that the server accepts is the one that parse gives, or it is an unknown command and parse gives none.
pub read_request-parse :
    (upper : Text → Text) (input : Text)
    → Agrees (parse upper input) (read_request upper (stream input)).0
unfolding parse
read_request-parse upper input = read_lines-Agrees upper (lines input)
