-- ===== src/Decimal.antt =====
-- The standard library's printing of a number by `format!`, and its reading by `parse::<usize>`.
use raft_kv_distributed_kv_s.Storage.Lines.{Lacks}
use raft_kv_distributed_kv_s.Prelude.{
  ℕ, zero, suc, Text, [], ◌∷◌, ◌≡◌, ◌≤◌, ◌<◌, ◌+◌, ◌-◌, ◌*◌, ◌/◌, ◌%◌, ◌^◌, Option, none, some, ltb,
  ◌==◌, ◌||◌, if◌then◌else◌, word, arith, refl, ap, if_elim, ne→==_false, ◌∙◌,
}

-- A number in decimal. A 64-bit number has at most 20 digits.
unfoldable pub decimal_from : ℕ → ℕ → Text → Text
decimal_from zero n acc = acc
decimal_from (suc digits) n acc =
    let longer = (b'0' + n % 10) ∷ acc in
    let more = decimal_from digits (n / 10) longer in if ltb n 10 then longer else more

unfoldable pub decimal : ℕ → Text
unfolding decimal_from
decimal n = decimal_from 20 n []

-- The digits behind the number `n`, with the overflow of 64 bits found.
unfoldable pub parse_digits : Text → ℕ → Option ℕ
parse_digits [] n = some n
parse_digits (c ∷ t) n =
    let more = parse_digits t (n * 10 + (c - b'0')) in
    if ltb c b'0' || ltb b'9' c then none else if ltb (n * 10 + (c - b'0')) word then more else none

-- One plus sign may stand in front, and there must be a digit.
unfoldable pub parse_signed : Text → Option ℕ
unfolding parse_digits
parse_signed [] = none
parse_signed (c ∷ t) = parse_digits (c ∷ t) 0

unfoldable pub parse_usize : Text → Option ℕ
unfolding parse_signed
parse_usize [] = none
parse_usize (c ∷ t) = if c == b'+' then parse_signed t else parse_signed (c ∷ t)

-- Reading what was printed, with more text behind that was read before.
parse_digits-decimal_from :
    (digits n : ℕ) (acc : Text)
    → n < 10 ^ digits
    → n < word
    → parse_digits (decimal_from digits n acc) 0 ≡ parse_digits acc n
unfolding decimal_from parse_digits
parse_digits-decimal_from zero n acc h w = ap (parse_digits acc) (omega arith)
parse_digits-decimal_from (suc digits) n acc h w =
    ground (arith, parse_digits-decimal_from digits (n / 10) ((b'0' + n % 10) ∷ acc))

-- A text that starts with a digit, or a greater byte.
abbrev Starts : Text → Type 0
Starts [] = ⊥
Starts (c ∷ t) = b'0' ≤ c

decimal_from-Starts : (digits n : ℕ) (acc : Text) → Starts acc → Starts (decimal_from digits n acc)
unfolding decimal_from
decimal_from-Starts zero n acc h = h
decimal_from-Starts (suc digits) n acc h =
    if_elim Starts (ltb n 10) _ _ (λ _. omega arith)
      (λ _. decimal_from-Starts digits (n / 10) ((b'0' + n % 10) ∷ acc) (omega arith))

decimal-Starts : (n : ℕ) → Starts (decimal n)
unfolding decimal decimal_from
decimal-Starts n =
    if_elim Starts (ltb n 10) _ _ (λ _. omega arith)
      (λ _. decimal_from-Starts 19 (n / 10) ((b'0' + n % 10) ∷ []) (omega arith))

parse_usize-digits : (t : Text) → Starts t → parse_usize t ≡ parse_digits t 0
unfolding parse_usize parse_signed
parse_usize-digits [] h = absurd h
parse_usize-digits (c ∷ t) h = rw (ne→==_false c b'+' (λ e. absurd (omega (arith, e, h)))) refl

-- A 64-bit number is read back from its print.
pub parse_usize-decimal : (n : ℕ) → n < word → parse_usize (decimal n) ≡ some n
unfolding decimal
parse_usize-decimal n h =
    parse_usize-digits (decimal n) (decimal-Starts n)
    ∙ parse_digits-decimal_from 20 n [] (omega (arith, h)) h
    ∙ unfold parse_digits in refl

-- No byte of the print is one that is not a digit.
decimal_from-Lacks :
    (c digits n : ℕ) (acc : Text) → c < b'0' → Lacks c acc → Lacks c (decimal_from digits n acc)
unfolding decimal_from
decimal_from-Lacks c zero n acc low h = h
decimal_from-Lacks c (suc digits) n acc low h =
    let here : Lacks c ((b'0' + n % 10) ∷ acc) = ((λ e. absurd (omega (arith, e, low))), h) in
    if_elim (Lacks c) (ltb n 10) _ _ (λ _. here)
      (λ _. decimal_from-Lacks c digits (n / 10) ((b'0' + n % 10) ∷ acc) low here)

pub decimal-Lacks : (c n : ℕ) → c < b'0' → Lacks c (decimal n)
unfolding decimal
decimal-Lacks c n low = decimal_from-Lacks c 20 n [] low tt

abbrev pub IsAscii : Text → Type 0
IsAscii [] = Unit
IsAscii (c ∷ t) = (c < 128) × IsAscii t

decimal_from-IsAscii :
    (digits n : ℕ) (acc : Text) → IsAscii acc → IsAscii (decimal_from digits n acc)
unfolding decimal_from
decimal_from-IsAscii zero n acc h = h
decimal_from-IsAscii (suc digits) n acc h =
    let here : IsAscii ((b'0' + n % 10) ∷ acc) = (omega arith, h) in
    if_elim IsAscii (ltb n 10) _ _ (λ _. here)
      (λ _. decimal_from-IsAscii digits (n / 10) ((b'0' + n % 10) ∷ acc) here)

pub decimal-IsAscii : (n : ℕ) → IsAscii (decimal n)
unfolding decimal
decimal-IsAscii n = decimal_from-IsAscii 20 n [] tt
