-- ===== src/Storage/Lines.antt =====
-- What the standard library's `str::lines` and `str::split` do, on bytes.
use Prim.Native.Nat.{ℕ}
use raft_kv_distributed_kv_s.Prelude.{
  Text, ℕ, Bool, ◌∷◌, List, ◌≡◌, ◌++◌, if◌then◌else◌, [], ◌≢◌, true, false, ◌==◌, arith, append-nil,
  ==_iff, ◌&&◌, ne→==_false, refl, append_assoc, ◌↔◌, ap, sym, ◌∙◌,
}

unfoldable pub text_eq : Text → Text → Bool
text_eq [] [] = true
text_eq [] (c ∷ t) = false
text_eq (b ∷ s) [] = false
text_eq (b ∷ s) (c ∷ t) = b == c && text_eq s t

-- One carriage return at the end is dropped.
unfoldable pub strip_return : Text → Text
strip_return [] = []
strip_return (c ∷ []) = if c == 13 then [] else c ∷ []
strip_return (c ∷ d ∷ t) = c ∷ strip_return (d ∷ t)

-- The text that is read so far in the line, and the rest. The last line needs no end.
unfoldable pub lines_from : Text → Text → List Text
lines_from [] [] = []
lines_from (c ∷ seen) [] = (c ∷ seen) ∷ []
lines_from seen (c ∷ rest) =
    let ended = strip_return seen ∷ lines_from [] rest in
    let longer = lines_from (seen ++ c ∷ []) rest in if c == 10 then ended else longer

unfoldable pub lines : Text → List Text
unfolding lines_from
lines t = lines_from [] t

unfoldable pub split_from : Text → ℕ → Text → List Text
split_from seen sep [] = seen ∷ []
split_from seen sep (c ∷ rest) =
    let ended = seen ∷ split_from [] sep rest in
    let longer = split_from (seen ++ c ∷ []) sep rest in if c == sep then ended else longer

unfoldable pub split : ℕ → Text → List Text
unfolding split_from
split sep t = split_from [] sep t

-- No byte of the text is the given one.
abbrev pub Lacks : ℕ → Text → Type 0
Lacks c [] = Unit
Lacks c (d ∷ t) = (d ≢ c) × Lacks c t

pub text_eq_self : (t : Text) → text_eq t t ≡ true
unfolding text_eq
text_eq_self [] = refl
text_eq_self (c ∷ t) = ground (arith, text_eq_self t)

-- A line up to its end.
pub lines_from-line :
    (seen line rest : Text)
    → Lacks 10 line
    → lines_from seen (line ++ 10 ∷ rest) ≡ strip_return (seen ++ line) ∷ lines_from [] rest
unfolding lines_from
lines_from-line [] [] rest h = refl
lines_from-line (c ∷ seen) [] rest h = rw append-nil
lines_from-line [] (d ∷ line) rest h =
    rw (ne→==_false d 10 h.0) (lines_from-line (d ∷ []) line rest h.1)
lines_from-line (c ∷ seen) (d ∷ line) rest h =
    rw (ne→==_false d 10 h.0, lines_from-line (c ∷ (seen ++ d ∷ [])) line rest h.1, append_assoc)

-- A field up to the separator, and the last field.
pub split_from-field :
    (seen : Text) (sep : ℕ) (field rest : Text)
    → Lacks sep field
    → split_from seen sep (field ++ sep ∷ rest) ≡ (seen ++ field) ∷ split_from [] sep rest
unfolding split_from
split_from-field seen sep [] rest h = rw ((==_iff sep sep).1 refl, append-nil)
split_from-field seen sep (d ∷ field) rest h =
    rw (ne→==_false d sep h.0, split_from-field (seen ++ d ∷ []) sep field rest h.1, append_assoc)

pub split_from-last :
    (seen : Text) (sep : ℕ) (field : Text)
    → Lacks sep field
    → split_from seen sep field ≡ (seen ++ field) ∷ []
unfolding split_from
split_from-last seen sep [] h = rw append-nil
split_from-last seen sep (d ∷ field) h =
    rw (ne→==_false d sep h.0, split_from-last (seen ++ d ∷ []) sep field h.1, append_assoc)

to_eq : (s t : Text) → text_eq s t ≡ true → s ≡ t
unfolding text_eq
to_eq [] [] h = refl
to_eq [] (c ∷ t) h = cc
to_eq (b ∷ s) [] h = cc
to_eq (b ∷ s) (c ∷ t) h = ground (arith, to_eq s t)

pub text_eq_iff : (s t : Text) → (text_eq s t ≡ true) ↔ (s ≡ t)
unfolding text_eq
text_eq_iff s t = (to_eq s t, λ e. ap (text_eq s) (sym e) ∙ text_eq_self s)

-- The carriage return is taken from the end alone.
strip_return-cons : (c : ℕ) (t : Text) → c ≢ 13 → strip_return (c ∷ t) ≡ c ∷ strip_return t
unfolding strip_return
strip_return-cons c [] h = rw (ne→==_false c 13 h)
strip_return-cons c (d ∷ t) h = refl

pub strip_return-append :
    (s : Text) (c : ℕ) (t : Text) → c ≢ 13 → strip_return (s ++ c ∷ t) ≡ s ++ c ∷ strip_return t
unfolding strip_return
strip_return-append [] c t h = strip_return-cons c t h
strip_return-append (d ∷ []) c t h = ap (λ z. d ∷ z) (strip_return-cons c t h)
strip_return-append (d ∷ e ∷ s) c t h = ap (λ z. d ∷ z) (strip_return-append (e ∷ s) c t h)

pub Lacks-append : (c : ℕ) (s t : Text) → Lacks c s → Lacks c t → Lacks c (s ++ t)
Lacks-append c [] t h k = k
Lacks-append c (d ∷ s) t h k = (h.0, Lacks-append c s t h.1 k)

pub strip_return-last : (s : Text) → strip_return (s ++ 13 ∷ []) ≡ s
unfolding strip_return
strip_return-last [] = refl
strip_return-last (c ∷ []) = refl
strip_return-last (c ∷ d ∷ s) = ap (λ z. c ∷ z) (strip_return-last (d ∷ s))

-- A line that ends in a carriage return and a line feed.
pub lines-line :
    (line rest : Text) → Lacks 10 line → lines (line ++ 13 ∷ 10 ∷ rest) ≡ line ∷ lines rest
unfolding lines
lines-line line rest h =
    ap lines (sym (append_assoc line (13 ∷ []) (10 ∷ rest)))
    ∙ lines_from-line [] (line ++ 13 ∷ []) rest
        (Lacks-append 10 line (13 ∷ []) h ((λ e. absurd (omega arith)), tt))
    ∙ ap (λ l. l ∷ lines rest) (strip_return-last line)
