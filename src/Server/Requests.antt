-- ===== src/Server/Requests.antt =====
-- network/server.rs, handle_client: the requests of a connection, read from its lines. A line is `none`
-- when it cannot be read.
pub mod Asks
pub mod Wire
pub mod Parse
use raft_kv_distributed_kv_s.Prelude.{
  ℕ, zero, suc, Text, codes, Option, none, some, List, [], ◌∷◌, if◌then◌else◌,
}
use raft_kv_distributed_kv_s.Protocol.{Command, get, del, ping, unknown}
use raft_kv_distributed_kv_s.Protocol.Parse.{
  get_name, set_name, del_name, ping_name, with_key, with_value, starts_with, num_args,
}
use raft_kv_distributed_kv_s.Storage.Lines.{text_eq}

abbrev pub Line : Type 0
Line = Option Text

-- The end of the connection, an error for the client, or a command.
pub data Request : Type 0 where
  closed : Request
  rejected : Text → Request
  accepted : Command → Request

abbrev pub invalid_protocol : Text
invalid_protocol = codes "invalid protocol"

abbrev pub invalid_argument_count : Text
invalid_argument_count = codes "invalid argument count"

abbrev pub protocol_parse_error : Text
protocol_parse_error = codes "protocol parse error"

abbrev pub push_read : Text → Option (List Text) × List Line → Option (List Text) × List Line
push_read arg (none, rest) = (none, rest)
push_read arg (some args, rest) = (some (arg ∷ args), rest)

-- The loop over the arguments, `none` for `parse_failed`, and the lines that are left.
unfoldable pub take_args : ℕ → List Line → Option (List Text) × List Line
take_args zero ls = (some [], ls)
take_args (suc n) [] = (none, [])
take_args (suc n) (none ∷ ls) = (none, ls)
take_args (suc n) (some len_line ∷ []) = (none, [])
take_args (suc n) (some len_line ∷ none ∷ ls) =
    if starts_with b'$' len_line then (none, ls) else (none, none ∷ ls)
take_args (suc n) (some len_line ∷ some line ∷ ls) =
    let rest = take_args n ls in
    if starts_with b'$' len_line then push_read line rest else (none, some line ∷ ls)

abbrev pub or_unknown : Text → Option Command → Command
or_unknown name none = unknown name
or_unknown name (some c) = c

-- A command with the wrong number of arguments is unknown.
unfoldable pub server_command : Text → List Text → Command
server_command name args =
    if text_eq name get_name
    then or_unknown name (with_key get args)
    else if text_eq name set_name
    then or_unknown name (with_value args)
    else if text_eq name del_name
    then or_unknown name (with_key del args)
    else if text_eq name ping_name
    then ping
    else unknown name

abbrev pub request_of : (Text → Text) → Option (List Text) → Request
request_of upper none = rejected protocol_parse_error
request_of upper (some []) = rejected protocol_parse_error
request_of upper (some (name ∷ args)) = accepted (server_command (upper name) (name ∷ args))

abbrev pub read_counted : (Text → Text) → Option ℕ → List Line → Request × List Line
read_counted upper none ls = (rejected invalid_argument_count, ls)
read_counted upper (some n) ls = let (args, rest) = take_args n ls in (request_of upper args, rest)

-- One pass of the loop up to the command, and the lines that are left.
unfoldable pub read_request : (Text → Text) → List Line → Request × List Line
read_request upper [] = (closed, [])
read_request upper (none ∷ ls) = (closed, ls)
read_request upper (some first_line ∷ ls) =
    if starts_with b'*' first_line
    then read_counted upper (num_args first_line) ls
    else (rejected invalid_protocol, ls)

abbrev push_request : Request → List Request → List Request
push_request closed later = []
push_request (rejected e) later = rejected e ∷ later
push_request (accepted c) later = accepted c ∷ later

-- All requests of a connection, in so many passes.
unfoldable pub requests : ℕ → (Text → Text) → List Line → List Request
requests zero upper ls = []
requests (suc k) upper ls =
    let (r, rest) = read_request upper ls in push_request r (requests k upper rest)
