-- ===== src/Protocol/Parse.antt =====
-- network/protocol.rs, Command::parse. `upper` is `str::to_uppercase`.
use raft_kv_distributed_kv_s.Prelude.{
  ℕ, zero, suc, Text, codes, Bool, false, Option, none, some, List, [], ◌∷◌, ◌==◌, if◌then◌else◌,
}
use raft_kv_distributed_kv_s.Protocol.{Command, get, set, del, ping, unknown}
use raft_kv_distributed_kv_s.Decimal.{parse_usize}
use raft_kv_distributed_kv_s.Storage.Lines.{text_eq, lines}

abbrev pub get_name : Text
get_name = codes "GET"

abbrev pub set_name : Text
set_name = codes "SET"

abbrev pub del_name : Text
del_name = codes "DEL"

abbrev pub ping_name : Text
ping_name = codes "PING"

unfoldable pub starts_with : ℕ → Text → Bool
starts_with c [] = false
starts_with c (d ∷ t) = d == c

-- The number of arguments, from the first line.
unfoldable pub num_args : Text → Option ℕ
num_args [] = none
num_args (c ∷ t) = if c == b'*' then parse_usize t else none

abbrev pub push_arg : Text → Option (List Text) → Option (List Text)
push_arg arg none = none
push_arg arg (some args) = some (arg ∷ args)

-- Pairs of a length line, whose number is not read, and a line of data.
unfoldable pub read_args : ℕ → List Text → Option (List Text)
read_args zero ls = some []
read_args (suc n) [] = none
read_args (suc n) (len_line ∷ []) = none
read_args (suc n) (len_line ∷ line ∷ ls) =
    let rest = read_args n ls in if starts_with b'$' len_line then push_arg line rest else none

abbrev pub with_key : (Text → Command) → List Text → Option Command
with_key c (name ∷ key ∷ []) = some (c key)
with_key c _ = none

abbrev pub with_value : List Text → Option Command
with_value (name ∷ key ∷ value ∷ []) = some (set key value)
with_value _ = none

-- The command of a name in upper case.
unfoldable pub command_named : Text → List Text → Option Command
command_named name args =
    if text_eq name get_name
    then with_key get args
    else if text_eq name set_name
    then with_value args
    else if text_eq name del_name
    then with_key del args
    else if text_eq name ping_name
    then some ping
    else some (unknown name)

abbrev pub command_of : (Text → Text) → List Text → Option Command
command_of upper [] = none
command_of upper (name ∷ args) = command_named (upper name) (name ∷ args)

abbrev pub command_of_args : (Text → Text) → Option (List Text) → Option Command
command_of_args upper none = none
command_of_args upper (some args) = command_of upper args

abbrev pub parse_counted : (Text → Text) → Option ℕ → List Text → Option Command
parse_counted upper none ls = none
parse_counted upper (some n) ls = command_of_args upper (read_args n ls)

abbrev pub parse_lines : (Text → Text) → List Text → Option Command
parse_lines upper [] = none
parse_lines upper (first_line ∷ ls) = parse_counted upper (num_args first_line) ls

unfoldable pub parse : (Text → Text) → Text → Option Command
parse upper input = parse_lines upper (lines input)
