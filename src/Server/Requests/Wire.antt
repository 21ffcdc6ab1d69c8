-- ===== src/Server/Requests/Wire.antt =====
-- network/server.rs, handle_client: a request in the RESP protocol is read as it was written, whatever
-- follows it on the connection.
use Prim.Native.Nat.{ℕ, suc}
use raft_kv_distributed_kv_s.Prelude.{
  Text, List, ℕ, ◌∷◌, ◌≢◌, ◌<◌, [], length, map, ◌++◌, word, some, ◌≡◌, arith, ap, ◌∙◌, Option,
  refl, append_assoc, ◌≤◌, suc, zero, Bool, true, none, if◌then◌else◌,
}
use raft_kv_distributed_kv_s.Server.Requests.Asks.{Asks, server_command-Asks}
use raft_kv_distributed_kv_s.Decimal.{
  IsAscii, decimal-IsAscii, decimal, decimal-Lacks, parse_usize-decimal,
}
use raft_kv_distributed_kv_s.Server.Requests.{
  take_args, read_request, Line, server_command, accepted, push_read, read_counted, request_of,
  Request, requests, text_eq, push_request,
}
use raft_kv_distributed_kv_s.Protocol.Parse.{num_args, starts_with, set_name}
use raft_kv_distributed_kv_s.Storage.Lines.{
  Lacks, lines, lines-line, strip_return, text_eq, lines_from-line,
}
use raft_kv_distributed_kv_s.Protocol.{Command, set}

-- What a client sends: the arguments as bulk strings, and before them their number.
abbrev pub bulk_strings : List Text → Text → Text
bulk_strings [] rest = rest
bulk_strings (arg ∷ args) rest =
    (b'$' ∷ decimal (length arg)) ++ 13 ∷ 10 ∷ (arg ++ 13 ∷ 10 ∷ bulk_strings args rest)

abbrev pub resp_array : List Text → Text → Text
resp_array args rest = (b'*' ∷ decimal (length args)) ++ 13 ∷ 10 ∷ bulk_strings args rest

-- The lines of a connection on which all of a text arrives, if `utf8` tells which of them the
-- standard library takes for UTF-8: it reads no other line.
abbrev pub incoming : (Text → Bool) → Text → List Line
incoming utf8 t = map (λ l. if utf8 l then some l else none) (lines t)

-- The lines of a text that is a Rust string.
abbrev pub stream : Text → List Line
stream t = map (λ l. some l) (lines t)

abbrev pub AreLines : (Text → Bool) → List Text → Type 0
AreLines utf8 [] = Unit
AreLines utf8 (arg ∷ args) = (Lacks 10 arg × (utf8 arg ≡ true)) × AreLines utf8 args

incoming-line :
    (utf8 : Text → Bool) (line rest : Text)
    → Lacks 10 line
    → utf8 line ≡ true
    → incoming utf8 (line ++ 13 ∷ 10 ∷ rest) ≡ some line ∷ incoming utf8 rest
incoming-line utf8 line rest h valid =
    ap (map (λ l. if utf8 l then some l else none)) (lines-line line rest h)
    ∙ ap (λ b. (if b then some line else none) ∷ incoming utf8 rest) valid

stream-line :
    (line rest : Text) → Lacks 10 line → stream (line ++ 13 ∷ 10 ∷ rest) ≡ some line ∷ stream rest
stream-line line rest h = incoming-line (λ _. true) line rest h refl

-- A text in ASCII is in UTF-8.
abbrev pub TakesAscii : (Text → Bool) → Type 0
TakesAscii utf8 = (t : Text) → IsAscii t → utf8 t ≡ true

number-Lacks : (c n : ℕ) → c ≢ 10 → Lacks 10 (c ∷ decimal n)
number-Lacks c n ne = (ne, decimal-Lacks 10 n (omega arith))

dollar-Lacks : (n : ℕ) → Lacks 10 (b'$' ∷ decimal n)
dollar-Lacks n = number-Lacks b'$' n (λ e. absurd (omega (arith, e)))

number-IsAscii : (c n : ℕ) → c < 128 → IsAscii (c ∷ decimal n)
number-IsAscii c n h = (h, decimal-IsAscii n)

star-Lacks : (n : ℕ) → Lacks 10 (b'*' ∷ decimal n)
star-Lacks n = number-Lacks b'*' n (λ e. absurd (omega (arith, e)))

-- The two lines of a bulk string.
bulk_lines :
    (utf8 : Text → Bool) (arg rest : Text)
    → TakesAscii utf8
    → Lacks 10 arg
    → utf8 arg ≡ true
    → incoming utf8 (bulk_strings (arg ∷ []) rest)
      ≡ some (b'$' ∷ decimal (length arg)) ∷ some arg ∷ incoming utf8 rest
bulk_lines utf8 arg rest ascii h valid =
    incoming-line utf8 (b'$' ∷ decimal (length arg)) (arg ++ 13 ∷ 10 ∷ rest)
      (dollar-Lacks (length arg)) (ascii _ (number-IsAscii b'$' (length arg) (omega arith)))
    ∙ ap (λ z. some (b'$' ∷ decimal (length arg)) ∷ z) (incoming-line utf8 arg rest h valid)

take_args-bulk_strings :
    (utf8 : Text → Bool) (args : List Text) (rest : Text)
    → TakesAscii utf8
    → AreLines utf8 args
    → take_args (length args) (incoming utf8 (bulk_strings args rest))
      ≡ (some args, incoming utf8 rest)
unfolding take_args starts_with
take_args-bulk_strings utf8 [] rest ascii h = refl
take_args-bulk_strings utf8 (arg ∷ args) rest ascii h =
    ap (take_args (length (arg ∷ args)))
      (bulk_lines utf8 arg (bulk_strings args rest) ascii h.0.0 h.0.1)
    ∙ ap (push_read arg) (take_args-bulk_strings utf8 args rest ascii h.1)

num_args-count : (n : ℕ) → n < word → num_args (b'*' ∷ decimal n) ≡ some n
unfolding num_args
num_args-count n h = parse_usize-decimal n h

-- A request whose arguments are UTF-8 and hold no line feed is read as the command that it asks for,
-- and what follows it on the connection is left for the next request, if there are fewer than 2^64
-- arguments.
pub read_request-resp_array :
    (utf8 : Text → Bool) (upper : Text → Text) (name : Text) (args : List Text) (c : Command)
    (rest : Text)
    → TakesAscii utf8
    → AreLines utf8 (name ∷ args)
    → length (name ∷ args) < word
    → Asks upper name args c
    → read_request upper (incoming utf8 (resp_array (name ∷ args) rest))
      ≡ (accepted c, incoming utf8 rest)
unfolding read_request starts_with
read_request-resp_array utf8 upper name args c rest ascii h few asks =
    ap (read_request upper) (
      incoming-line utf8 (b'*' ∷ decimal (length (name ∷ args))) (bulk_strings (name ∷ args) rest)
        (star-Lacks (length (name ∷ args)))
        (ascii _ (number-IsAscii b'*' (length (name ∷ args)) (omega arith))))
    ∙ ap (λ n. read_counted upper n (incoming utf8 (bulk_strings (name ∷ args) rest)))
        (num_args-count (length (name ∷ args)) few)
    ∙ ap (λ (r : Option (List Text) × List Line). (request_of upper r.0, r.1))
        (take_args-bulk_strings utf8 (name ∷ args) rest ascii h)
    ∙ ap (λ c. (accepted c, incoming utf8 rest)) (server_command-Asks upper name args c asks)

-- Requests that are sent one after another.
abbrev pub pipeline : List (Text × List Text) → Text
pipeline [] = []
pipeline ((name, args) ∷ rs) = resp_array (name ∷ args) (pipeline rs)

-- What they are: UTF-8 with no line feed, and each asks for its command of the list.
abbrev pub AreRequests :
    (Text → Bool) → (Text → Text) → List (Text × List Text) → List Command → Type 0
AreRequests utf8 upper [] [] = Unit
AreRequests utf8 upper ((name, args) ∷ rs) (c ∷ cs) =
    AreLines utf8 (name ∷ args)
    × (length (name ∷ args) < word)
    × Asks upper name args c
    × AreRequests utf8 upper rs cs
AreRequests utf8 upper _ _ = ⊥

incoming-none : (utf8 : Text → Bool) → incoming utf8 [] ≡ []
unfolding lines
incoming-none utf8 = refl

-- Requests sent one after another on one connection are read one by one, in as many passes, as the
-- commands that they ask for by name, letter case aside, and arguments, if all names and arguments are
-- valid UTF-8 and hold no line feed and no request has 2^64 of them.
pub requests-pipeline :
    (utf8 : Text → Bool) (upper : Text → Text) (rs : List (Text × List Text)) (cs : List Command)
    (k : ℕ)
    → TakesAscii utf8
    → AreRequests utf8 upper rs cs
    → length rs ≤ k
    → requests k upper (incoming utf8 (pipeline rs)) ≡ map (λ c. accepted c) cs
unfolding requests
requests-pipeline utf8 upper [] [] zero ascii h enough = refl
requests-pipeline utf8 upper [] [] (suc k) ascii h enough =
    rw incoming-none (unfold read_request in refl)
requests-pipeline utf8 upper [] (c ∷ cs) k ascii h enough = absurd h
requests-pipeline utf8 upper (r ∷ rs) [] k ascii h enough = absurd h
requests-pipeline utf8 upper ((name, args) ∷ rs) (c ∷ cs) zero ascii h enough =
    absurd (omega (arith, enough))
requests-pipeline utf8 upper ((name, args) ∷ rs) (c ∷ cs) (suc k) ascii h enough =
    let (are_lines, few, asks, others) = h in
    ap (λ (r : Request × List Line). push_request r.0 (requests k upper r.1))
      (read_request-resp_array utf8 upper name args c (pipeline rs) ascii are_lines few asks)
    ∙ ap (λ later. accepted c ∷ later)
        (requests-pipeline utf8 upper rs cs k ascii others (omega (arith, enough)))

stream-cut :
    (v w rest : Text)
    → Lacks 10 v
    → stream ((v ++ 10 ∷ w) ++ rest) ≡ some (strip_return v) ∷ stream (w ++ rest)
unfolding lines
stream-cut v w rest h =
    ap stream (append_assoc v (10 ∷ w) rest)
    ∙ ap (map (λ l. some l)) (lines_from-line [] v (w ++ rest) h)

-- A value with a line feed is cut: a SET whose name and key have no line feed is accepted for what
-- stands before the value's first line feed, less a carriage return at its end, and what stands
-- behind is read as the next request, though the value's length was sent. Names and arguments are
-- Rust strings, valid UTF-8.
pub read_request-line_feed :
    (upper : Text → Text) (name key v w rest : Text)
    → upper name ≡ set_name
    → Lacks 10 name
    → Lacks 10 key
    → Lacks 10 v
    → read_request upper (stream (resp_array (name ∷ key ∷ (v ++ 10 ∷ w) ∷ []) rest))
      ≡ (accepted (set key (strip_return v)), stream (w ++ 13 ∷ 10 ∷ rest))
unfolding read_request starts_with take_args server_command text_eq
read_request-line_feed upper name key v w rest up hn hk hv =
    ap (read_request upper) (
      stream-line (b'*' ∷ decimal 3) (bulk_strings (name ∷ key ∷ (v ++ 10 ∷ w) ∷ []) rest)
        (star-Lacks 3))
    ∙ ap (λ n. read_counted upper n (stream (bulk_strings (name ∷ key ∷ (v ++ 10 ∷ w) ∷ []) rest)))
        (num_args-count 3 (omega arith))
    ∙ ap (λ ls. read_counted upper (some 3) ls) the_lines
    ∙ ap
        (λ n. (
          accepted (server_command n (name ∷ key ∷ strip_return v ∷ [])),
          stream (w ++ 13 ∷ 10 ∷ rest),
        ))
        up
  where
    size : ℕ
    size = length (v ++ 10 ∷ w)

    cut_lines :
        stream (bulk_strings ((v ++ 10 ∷ w) ∷ []) rest)
        ≡ some (b'$' ∷ decimal size) ∷ some (strip_return v) ∷ stream (w ++ 13 ∷ 10 ∷ rest)
    cut_lines =
        stream-line (b'$' ∷ decimal size) ((v ++ 10 ∷ w) ++ 13 ∷ 10 ∷ rest) (dollar-Lacks size)
        ∙ ap (λ z. some (b'$' ∷ decimal size) ∷ z) (stream-cut v w (13 ∷ 10 ∷ rest) hv)

    the_lines :
        stream (bulk_strings (name ∷ key ∷ (v ++ 10 ∷ w) ∷ []) rest)
        ≡ some (b'$' ∷ decimal (length name))
          ∷ some name
          ∷ some (b'$' ∷ decimal (length key))
          ∷ some key
          ∷ some (b'$' ∷ decimal size)
          ∷ some (strip_return v)
          ∷ stream (w ++ 13 ∷ 10 ∷ rest)
    the_lines =
        bulk_lines (λ _. true) name (bulk_strings (key ∷ (v ++ 10 ∷ w) ∷ []) rest) (λ _ _. refl) hn
          refl
        ∙ ap (λ z. some (b'$' ∷ decimal (length name)) ∷ some name ∷ z)
            (bulk_lines (λ _. true) key (bulk_strings ((v ++ 10 ∷ w) ∷ []) rest) (λ _ _. refl) hk
                refl
              ∙ ap (λ z. some (b'$' ∷ decimal (length key)) ∷ some key ∷ z) cut_lines)
