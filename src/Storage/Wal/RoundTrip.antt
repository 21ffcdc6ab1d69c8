-- ===== src/Storage/Wal/RoundTrip.antt =====
-- storage/wal.rs: what is written is read back.
-- An entry that survives the text format: no separator and no newline in the key and the value, and
-- no carriage return at the end of the line.
use raft_kv_distributed_kv_s.Storage.Wal.{
  WalEntry, parse_line, parse_lines, entry_line, parse_fields, serialize_entry, bar, newline,
  Operation, put_entry, delete_entry, put_tag, delete_tag,
}
use raft_kv_distributed_kv_s.Prelude.{
  List, Text, ◌∷◌, ◌≡◌, ◌++◌, append_assoc, ◌∙◌, [], ap, refl, some, arith, none,
}
use raft_kv_distributed_kv_s.Storage.Lines.{
  split, lines, Lacks, strip_return, lines_from-line, split_from, split_from-last, split_from-field,
  text_eq_self, Lacks-append, strip_return-append,
}

pub data IsClean : WalEntry → Type 0 where
  put :
      (key value : Text)
      → Lacks bar key
      → Lacks newline key
      → Lacks bar value
      → Lacks newline value
      → strip_return value ≡ value
      → IsClean (put_entry key value)
  delete :
      (key : Text)
      → Lacks bar key
      → Lacks newline key
      → strip_return key ≡ key
      → IsClean (delete_entry key)

abbrev pub AllClean : List WalEntry → Type 0
AllClean [] = Unit
AllClean (e ∷ es) = IsClean e × AllClean es

-- The file after the entries were appended, in order.
unfoldable pub written : List WalEntry → Text
written [] = []
written (e ∷ es) = serialize_entry e ++ written es

pub written-append : (es fs : List WalEntry) → written (es ++ fs) ≡ written es ++ written fs
unfolding written
written-append [] fs = refl
written-append (e ∷ es) fs = rw (written-append es fs, append_assoc)

-- The line of a put, and of a delete.
pub split-put :
    (key value : Text)
    → Lacks bar key
    → split bar (entry_line Operation.put (put_entry key value))
      ≡ put_tag ∷ key ∷ split_from [] bar value
unfolding split entry_line
split-put key value h =
    split_from-field [] bar put_tag (key ++ bar ∷ value) (ground arith)
    ∙ ap (λ z. put_tag ∷ z) (split_from-field [] bar key value h)

parse-put :
    (key value : Text)
    → Lacks bar key
    → Lacks bar value
    → parse_line (entry_line Operation.put (put_entry key value)) ≡ some (put_entry key value)
unfolding parse_line parse_fields
parse-put key value h k =
    rw (split-put key value h, split_from-last [] bar value k, text_eq_self put_tag)

split-delete :
    (key : Text)
    → Lacks bar key
    → split bar (entry_line Operation.delete (delete_entry key)) ≡ delete_tag ∷ key ∷ []
unfolding split entry_line
split-delete key h =
    split_from-field [] bar delete_tag key (ground arith)
    ∙ ap (λ z. delete_tag ∷ z) (split_from-last [] bar key h)

parse-delete :
    (key : Text)
    → Lacks bar key
    → parse_line (entry_line Operation.delete (delete_entry key)) ≡ some (delete_entry key)
unfolding parse_line parse_fields
parse-delete key h = rw (split-delete key h, text_eq_self delete_tag)

-- A line without a newline and with no carriage return at its end is read as it was written.
lines-line :
    (line rest : Text)
    → Lacks newline line
    → lines ((line ++ newline ∷ []) ++ rest) ≡ strip_return line ∷ lines rest
unfolding lines
lines-line line rest h = rw append_assoc (lines_from-line [] line rest h)

pub read_line :
    (line rest : Text) (e : WalEntry)
    → Lacks newline line
    → strip_return line ≡ line
    → parse_line line ≡ some e
    → parse_lines (lines ((line ++ newline ∷ []) ++ rest)) ≡ e ∷ parse_lines (lines rest)
unfolding parse_lines
read_line line rest e h k p = rw (lines-line line rest h, parse_lines, k, p)

-- A line that does not parse is passed over.
pub skip_line :
    (line rest : Text)
    → Lacks newline line
    → strip_return line ≡ line
    → parse_line line ≡ none
    → parse_lines (lines ((line ++ newline ∷ []) ++ rest)) ≡ parse_lines (lines rest)
unfolding parse_lines
skip_line line rest h k p = rw (lines-line line rest h, parse_lines, k, p)

pub put_line-Lacks :
    (key value : Text)
    → Lacks newline key
    → Lacks newline value
    → Lacks newline (entry_line Operation.put (put_entry key value))
unfolding entry_line
put_line-Lacks key value h k =
    Lacks-append newline put_tag (bar ∷ (key ++ bar ∷ value)) (ground arith)
      (omega arith, Lacks-append newline key (bar ∷ value) h (omega arith, k))

delete_line-Lacks :
    (key : Text)
    → Lacks newline key
    → Lacks newline (entry_line Operation.delete (delete_entry key))
unfolding entry_line
delete_line-Lacks key h =
    Lacks-append newline delete_tag (bar ∷ key) (ground arith) (omega arith, h)

pub strip_return-put_line :
    (key value : Text)
    → strip_return value ≡ value
    → strip_return (entry_line Operation.put (put_entry key value))
      ≡ entry_line Operation.put (put_entry key value)
unfolding entry_line
strip_return-put_line key value h =
    strip_return-append put_tag bar (key ++ bar ∷ value) (omega arith)
    ∙ ap (λ z. put_tag ++ bar ∷ z)
        (strip_return-append key bar value (omega arith) ∙ ap (λ z. key ++ bar ∷ z) h)

strip_return-delete_line :
    (key : Text)
    → strip_return key ≡ key
    → strip_return (entry_line Operation.delete (delete_entry key))
      ≡ entry_line Operation.delete (delete_entry key)
unfolding entry_line
strip_return-delete_line key h =
    strip_return-append delete_tag bar key (omega arith) ∙ ap (λ z. delete_tag ++ bar ∷ z) h

parse_entry :
    (e : WalEntry) (rest : Text)
    → IsClean e
    → parse_lines (lines (serialize_entry e ++ rest)) ≡ e ∷ parse_lines (lines rest)
unfolding serialize_entry
parse_entry e rest (put key value kb kn vb vn vr) =
    read_line (entry_line Operation.put (put_entry key value)) rest (put_entry key value)
      (put_line-Lacks key value kn vn) (strip_return-put_line key value vr)
      (parse-put key value kb vb)
parse_entry e rest (delete key kb kn kr) =
    read_line (entry_line Operation.delete (delete_entry key)) rest (delete_entry key)
      (delete_line-Lacks key kn) (strip_return-delete_line key kr) (parse-delete key kb)

-- The replay of a file of clean entries gives back the entries.
pub replay-written : (es : List WalEntry) → AllClean es → parse_lines (lines (written es)) ≡ es
unfolding written
replay-written [] h = unfold parse_lines lines in refl
replay-written (e ∷ es) h = parse_entry e (written es) h.0 ∙ ap (λ z. e ∷ z) (replay-written es h.1)

-- What follows clean entries is read after them.
pub replay-append :
    (es : List WalEntry) (rest : Text)
    → AllClean es
    → parse_lines (lines (written es ++ rest)) ≡ es ++ parse_lines (lines rest)
unfolding written
replay-append [] rest h = refl
replay-append (e ∷ es) rest h =
    rw append_assoc
      (parse_entry e (written es ++ rest) h.0 ∙ ap (λ z. e ∷ z) (replay-append es rest h.1))
