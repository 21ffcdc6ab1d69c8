-- ===== src/Protocol/Replies/RoundTrip.antt =====
-- network/protocol.rs, Response::serialize: a client that reads the RESP protocol gets back the reply.
-- The bytes up to a carriage return and a line feed, and what follows them.
use Prim.Native.Nat.{ℕ}
use raft_kv_distributed_kv_s.Prelude.{
  Text, ℕ, Option, none, some, take, drop, ◌∷◌, if◌then◌else◌, length, ◌++◌, ◌==◌, leb, codes, ◌≡◌,
  ◌<◌, [], word, ne→==_false, ap, false, arith, append_assoc, refl, Bool-cases, length-append, inr,
  ◌∙◌, inl,
}
use raft_kv_distributed_kv_s.Protocol.{Response, simple_string, integer, bulk_string, null, error}
use raft_kv_distributed_kv_s.Decimal.{
  parse_usize, parse_digits, parse_signed, decimal, decimal-Lacks, parse_usize-decimal,
}
use raft_kv_distributed_kv_s.Protocol.Replies.{serialize, crlf}
use raft_kv_distributed_kv_s.Storage.Lines.{Lacks, text_eq, Lacks-append, text_eq_iff}

abbrev after_return : Text → Option (Text × Text)
after_return [] = none
after_return (c ∷ t) = if c == 10 then some ([], t) else none

abbrev push_byte : ℕ → Option (Text × Text) → Option (Text × Text)
push_byte c none = none
push_byte c (some (line, rest)) = some (c ∷ line, rest)

unfoldable pub reply_line : Text → Option (Text × Text)
reply_line [] = none
reply_line (c ∷ t) = let rest = reply_line t in if c == 13 then after_return t else push_byte c rest

-- So many bytes, with a carriage return and a line feed behind them.
abbrev bulk_of : Option ℕ → Text → Option (Response × Text)
bulk_of none t = none
bulk_of (some n) t =
    if leb (length t) n then none else some (bulk_string (take n t), drop 2 (drop n t))

-- `$-1` is the length of no string.
abbrev bulk : Option (Text × Text) → Option (Response × Text)
bulk none = none
bulk (some (line, rest)) =
    if text_eq line (codes "-1") then some (null, rest) else bulk_of (parse_usize line) rest

abbrev simple : Option (Text × Text) → Option (Response × Text)
simple none = none
simple (some (line, rest)) = some (simple_string line, rest)

abbrev failure : Option (Text × Text) → Option (Response × Text)
failure none = none
failure (some (line, rest)) =
    if text_eq (take 4 line) (codes "ERR ") then some (error (drop 4 line), rest) else none

abbrev number_of : Option ℕ → Text → Option (Response × Text)
number_of none rest = none
number_of (some n) rest = some (integer n, rest)

abbrev number : Option (Text × Text) → Option (Response × Text)
number none = none
number (some (line, rest)) = number_of (parse_usize line) rest

-- A reader of the RESP protocol, as clients have it.
pub read_reply : Text → Option (Response × Text)
read_reply [] = none
read_reply (c ∷ t) =
    if c == b'+'
    then simple (reply_line t)
    else if c == b'-'
    then failure (reply_line t)
    else if c == b':'
    then number (reply_line t)
    else if c == b'$'
    then bulk (reply_line t)
    else none

-- A line's text has no carriage return; numbers and lengths have 64 bits.
abbrev pub Fits : Response → Type 0
Fits (simple_string s) = Lacks 13 s
Fits (bulk_string s) = length s < word
Fits null = Unit
Fits (error message) = Lacks 13 message
Fits (integer n) = n < word

reply_line-line :
    (line rest : Text) → Lacks 13 line → reply_line (line ++ 13 ∷ 10 ∷ rest) ≡ some (line, rest)
unfolding reply_line
reply_line-line [] rest h = refl
reply_line-line (c ∷ line) rest h = rw (ne→==_false c 13 h.0, reply_line-line line rest h.1) refl

not_minus : (n : ℕ) → n < word → text_eq (decimal n) (codes "-1") ≡ false
unfolding parse_usize parse_digits parse_signed
not_minus n h = elim (Bool-cases (text_eq (decimal n) (codes "-1"))) [
  | inr e ↦ e
  | inl e ↦
      let same : parse_usize (decimal n) ≡ parse_usize (codes "-1") =
        ap parse_usize ((text_eq_iff (decimal n) (codes "-1")).0 e) in
      cc (same, parse_usize-decimal n h)
]

take-append : (s t : Text) → take (length s) (s ++ t) ≡ s
take-append [] t = refl
take-append (c ∷ s) t = ap (λ z. c ∷ z) (take-append s t)

drop-append : (s t : Text) → drop (length s) (s ++ t) ≡ t
drop-append [] t = refl
drop-append (c ∷ s) t = drop-append s t

bulk_of-bulk :
    (s rest : Text) → bulk_of (some (length s)) (s ++ 13 ∷ 10 ∷ rest) ≡ some (bulk_string s, rest)
bulk_of-bulk s rest =
    rw (longer, take-append s (13 ∷ 10 ∷ rest), drop-append s (13 ∷ 10 ∷ rest)) refl
  where
    longer : leb (length (s ++ 13 ∷ 10 ∷ rest)) (length s) ≡ false
    longer = ground (arith, length-append s (13 ∷ 10 ∷ rest))

-- A client reads back every reply and stops right behind it, if the texts of simple strings and of
-- errors hold no carriage return and numbers and lengths have 64 bits; a value may hold any bytes.
pub read_reply-serialize :
    (r : Response) (rest : Text) → Fits r → read_reply (serialize r ++ rest) ≡ some (r, rest)
unfolding serialize read_reply text_eq
read_reply-serialize (simple_string s) rest h =
    ap simple (ap reply_line (append_assoc s crlf rest) ∙ reply_line-line s rest h)
read_reply-serialize (error message) rest h = ap failure (
    ap (λ t. reply_line (b'E' ∷ b'R' ∷ b'R' ∷ b' ' ∷ t)) (append_assoc message crlf rest)
    ∙ reply_line-line (codes "ERR " ++ message) rest (
        Lacks-append 13 (codes "ERR ") message
          (
            (λ e. absurd (omega (arith, e))),
            (
              (λ e. absurd (omega (arith, e))),
              ((λ e. absurd (omega (arith, e))), ((λ e. absurd (omega (arith, e))), tt)),
            ),
          )
          h))
read_reply-serialize null rest h = unfold reply_line in refl
read_reply-serialize (integer n) rest h =
    ap number (
      ap reply_line (append_assoc (decimal n) crlf rest)
      ∙ reply_line-line (decimal n) rest (decimal-Lacks 13 n (omega arith)))
    ∙ ap (λ o. number_of o rest) (parse_usize-decimal n h)
read_reply-serialize (bulk_string s) rest h =
    ap bulk (
      ap reply_line (append_assoc (decimal (length s)) (crlf ++ (s ++ crlf)) rest)
      ∙ reply_line-line (decimal (length s)) ((s ++ crlf) ++ rest)
          (decimal-Lacks 13 (length s) (omega arith)))
    ∙ ap
        (λ b.
          if b
          then some (null, (s ++ crlf) ++ rest)
          else bulk_of (parse_usize (decimal (length s))) ((s ++ crlf) ++ rest))
        (not_minus (length s) (omega (arith, h)))
    ∙ ap (λ o. bulk_of o ((s ++ crlf) ++ rest)) (parse_usize-decimal (length s) (omega (arith, h)))
    ∙ ap (bulk_of (some (length s))) (append_assoc s crlf rest)
    ∙ bulk_of-bulk s rest
