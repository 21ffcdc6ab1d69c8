-- ===== src/Metrics/Scrape.antt =====
-- metrics.rs: what Prometheus reads of a node's metrics is the node's state.
-- The part of a line before the first of a byte, and the part behind it.
use Prim.Native.Nat.{ℕ}
use raft_kv_distributed_kv_s.Prelude.{
  ℕ, Text, List, if◌then◌else◌, Option, ◌==◌, [], ◌++◌, ◌≡◌, some, false, ==_iff, none, ne→==_false,
  ◌<◌, word, ap, refl, Bool, true, ◌≢◌, not, ◌&&◌, arith, ◌∙◌, codes,
}
use raft_kv_distributed_kv_s.Metrics.{
  Metric, ◌∷◌, Option, [], some, value_line, print, codes, help_line, type_line, NodeRole,
  known_leader, RaftState, generate_metrics, role_metric, metrics, ClusterNode,
}
use raft_kv_distributed_kv_s.Protocol.Parse.{starts_with}
use raft_kv_distributed_kv_s.Storage.Lines.{
  Lacks, lines, strip_return, lines_from-line, Lacks-append,
}
use raft_kv_distributed_kv_s.Decimal.{parse_usize, decimal, parse_usize-decimal, decimal-Lacks}
use raft_kv_distributed_kv_s.Raft.State.{NodeRole, RaftState, follower, candidate, leader}
use raft_kv_distributed_kv_s.Cluster.{ClusterNode}
use raft_kv_distributed_kv_s.Metrics.Readings.{
  AreSmall, IsSmall, values, readings, metrics-AreSmall, metrics-readings,
}

unfoldable pub before : ℕ → Text → Text
before c [] = []
before c (d ∷ t) = let rest = d ∷ before c t in if d == c then [] else rest

unfoldable pub behind : ℕ → Text → Text
behind c [] = []
behind c (d ∷ t) = let rest = behind c t in if d == c then t else rest

abbrev sample_of : Text → Option ℕ → List (Text × ℕ)
sample_of name none = []
sample_of name (some n) = (name, n) ∷ []

-- A line is a comment, or the name, the labels in braces, a space and the value.
abbrev sample : Text → List (Text × ℕ)
sample line =
    if starts_with b'#' line
    then []
    else sample_of (before b'{' line) (parse_usize (behind 32 line))

pub samples : List Text → List (Text × ℕ)
samples [] = []
samples (line ∷ ls) = sample line ++ samples ls

-- What Prometheus takes from the text.
pub scrape : Text → List (Text × ℕ)
scrape t = samples (lines t)

lacks : ℕ → Text → Bool
lacks c [] = true
lacks c (d ∷ t) = not (d == c) && lacks c t

-- Names, help texts and labels hold no end of a line; names and labels no space, and names no brace or
-- number sign.
plain_line : Text → Bool
unfolding lacks
plain_line t = lacks 10 t && lacks 13 t

unfoldable pub is_plain : Metric → Bool
unfolding lacks plain_line
is_plain m =
    (lacks b'{' m.name && (lacks b'#' m.name && (lacks 32 m.name && plain_line m.name)))
    && (plain_line m.help && (lacks 32 m.labels && plain_line m.labels))

abbrev ArePlain : List Metric → Type 0
ArePlain [] = Unit
ArePlain (m ∷ ms) = (is_plain m ≡ true) × ArePlain ms

lacks-Lacks : (c : ℕ) (t : Text) → lacks c t ≡ true → Lacks c t
unfolding lacks
lacks-Lacks c [] h = tt
lacks-Lacks c (d ∷ t) h = ((λ e. absurd (ground arith)), lacks-Lacks c t (ground arith))

record Plain (m : Metric) : Type 0 where
  no_brace : Lacks b'{' m.name
  no_sign : Lacks b'#' m.name
  no_space : Lacks 32 m.name
  name : Lacks 10 m.name × Lacks 13 m.name
  help : Lacks 10 m.help × Lacks 13 m.help
  labels_no_space : Lacks 32 m.labels
  labels : Lacks 10 m.labels × Lacks 13 m.labels

to_Plain : (m : Metric) → is_plain m ≡ true → Plain m
unfolding is_plain plain_line
to_Plain m h = record {
  no_brace = lacks-Lacks b'{' m.name (ground arith);
  no_sign = lacks-Lacks b'#' m.name (ground arith);
  no_space = lacks-Lacks 32 m.name (ground arith);
  name = (lacks-Lacks 10 m.name (ground arith), lacks-Lacks 13 m.name (ground arith));
  help = (lacks-Lacks 10 m.help (ground arith), lacks-Lacks 13 m.help (ground arith));
  labels_no_space = lacks-Lacks 32 m.labels (ground arith);
  labels = (lacks-Lacks 10 m.labels (ground arith), lacks-Lacks 13 m.labels (ground arith));
}

strip_return-Lacks : (t : Text) → Lacks 13 t → strip_return t ≡ t
unfolding strip_return
strip_return-Lacks [] h = refl
strip_return-Lacks (c ∷ []) h = rw (ne→==_false c 13 h.0) refl
strip_return-Lacks (c ∷ d ∷ t) h = ap (λ z. c ∷ z) (strip_return-Lacks (d ∷ t) h.1)

lines-plain : (t rest : Text) → Lacks 10 t → Lacks 13 t → lines (t ++ 10 ∷ rest) ≡ t ∷ lines rest
unfolding lines
lines-plain t rest h k =
    lines_from-line [] t rest h ∙ ap (λ l. l ∷ lines rest) (strip_return-Lacks t k)

before-append : (c : ℕ) (s t : Text) → Lacks c s → before c (s ++ c ∷ t) ≡ s
unfolding before
before-append c [] t h = rw ((==_iff c c).1 refl) refl
before-append c (d ∷ s) t h = rw (ne→==_false d c h.0) (ap (λ z. d ∷ z) (before-append c s t h.1))

behind-append : (c : ℕ) (s t : Text) → Lacks c s → behind c (s ++ t) ≡ behind c t
unfolding behind
behind-append c [] t h = refl
behind-append c (d ∷ s) t h = rw (ne→==_false d c h.0) (behind-append c s t h.1)

starts_with-append : (c d : ℕ) (s t : Text) → d ≢ c → Lacks c s → starts_with c (s ++ d ∷ t) ≡ false
unfolding starts_with
starts_with-append c d [] t ne h = ne→==_false d c ne
starts_with-append c d (e ∷ s) t ne h = ne→==_false e c h.0

-- The line of a value has no byte that its parts lack.
value_line-Lacks :
    (c id : ℕ) (m : Metric) → c < 32 → Lacks c m.name → Lacks c m.labels → Lacks c (value_line id m)
unfolding value_line
value_line-Lacks c id m low h k = Lacks-append c m.name _ h (
    Lacks-append c (codes "{node=\"") _ (ground arith) (
      Lacks-append c (decimal id) _ (decimal-Lacks c id (omega (arith, low))) (
        (λ e. absurd (omega (arith, e, low))),
        Lacks-append c m.labels _ k (
            Lacks-append c (codes "} ") _ (ground arith)
              (decimal-Lacks c m.value (omega (arith, low)))),
      )))

behind-value_line : (id : ℕ) (m : Metric) → Plain m → behind 32 (value_line id m) ≡ decimal m.value
unfolding value_line behind
behind-value_line id m p =
    behind-append 32 m.name (codes "{node=\"" ++ (decimal id ++ (b'"' ∷ (m.labels ++ end))))
      p.no_space
    ∙ behind-append 32 (decimal id) (b'"' ∷ (m.labels ++ end)) (decimal-Lacks 32 id (omega arith))
    ∙ behind-append 32 m.labels end p.labels_no_space
  where
    end : Text
    end = codes "} " ++ decimal m.value

sample-value_line :
    (id : ℕ) (m : Metric)
    → Plain m
    → m.value < word
    → sample (value_line id m) ≡ (m.name, m.value) ∷ []
unfolding value_line
sample-value_line id m p small =
    rw
      (
        starts_with-append b'#' b'{' m.name _ (λ e. absurd (omega (arith, e))) p.no_sign,
        before-append b'{' m.name _ p.no_brace,
      )
      (ap (λ t. sample_of m.name (parse_usize t)) (behind-value_line id m p)
        ∙ ap (sample_of m.name) (parse_usize-decimal m.value small))

help_line-Lacks :
    (c : ℕ) (m : Metric) → c < 32 → Lacks c m.name → Lacks c m.help → Lacks c (help_line m)
unfolding help_line
help_line-Lacks c m low h k =
    Lacks-append c (codes "# HELP ") (m.name ++ 32 ∷ m.help) (ground arith)
      (Lacks-append c m.name (32 ∷ m.help) h ((λ e. absurd (omega (arith, e, low))), k))

type_line-Lacks : (c : ℕ) (m : Metric) → c < 32 → Lacks c m.name → Lacks c (type_line m)
unfolding type_line
type_line-Lacks c m low h =
    Lacks-append c (codes "# TYPE ") (m.name ++ codes " gauge") (ground arith)
      (Lacks-append c m.name (codes " gauge") h (ground arith))

scrape-print :
    (id : ℕ) (ms : List Metric) → ArePlain ms → AreSmall ms → scrape (print id ms) ≡ values ms
unfolding scrape samples print help_line type_line starts_with
scrape-print id [] h k = unfold lines in refl
scrape-print id (m ∷ ms) h k =
    ap samples (
      lines-plain (help_line m) (type_line m ++ 10 ∷ (value_line id m ++ 10 ∷ print id ms))
        (help_line-Lacks 10 m (omega arith) p.name.0 p.help.0)
        (help_line-Lacks 13 m (omega arith) p.name.1 p.help.1)
      ∙ ap (λ ls. help_line m ∷ ls)
          (lines-plain (type_line m) (value_line id m ++ 10 ∷ print id ms)
              (type_line-Lacks 10 m (omega arith) p.name.0)
              (type_line-Lacks 13 m (omega arith) p.name.1)
            ∙ ap (λ ls. type_line m ∷ ls)
                (lines-plain (value_line id m) (print id ms)
                  (value_line-Lacks 10 id m (omega arith) p.name.0 p.labels.0)
                  (value_line-Lacks 13 id m (omega arith) p.name.1 p.labels.1))))
    ∙ ap (λ xs. xs ++ samples (lines (print id ms))) (sample-value_line id m p k.0)
    ∙ ap (λ xs. (m.name, m.value) ∷ xs) (scrape-print id ms h.1 k.1)
  where
    p : Plain m
    p = to_Plain m h.0

role-ArePlain : (r : NodeRole) → is_plain (role_metric r) ≡ true
unfolding is_plain plain_line lacks
role-ArePlain follower = refl
role-ArePlain candidate = refl
role-ArePlain leader = refl

known_leader-ArePlain : (o : Option ℕ) → ArePlain (known_leader o)
unfolding is_plain plain_line lacks
known_leader-ArePlain none = tt
known_leader-ArePlain (some id) = (refl, tt)

metrics-ArePlain : (s : RaftState) → ArePlain (metrics s)
unfolding is_plain plain_line lacks
metrics-ArePlain s = (
  refl,
  (role-ArePlain s.role, (refl, (refl, (refl, (refl, known_leader-ArePlain s.leader_id))))),
)

-- What Prometheus reads from the text of a node's metrics is, in order, `raftkv_current_term` with
-- the node's term, `raftkv_role` with 0 for a follower, 1 for a candidate and 2 for a leader,
-- `raftkv_commit_index` with its commit index, `raftkv_last_applied` with its last applied index,
-- `raftkv_log_length` with the number of its entries without the sentinel, `raftkv_is_leader` with 1
-- or 0, and `raftkv_known_leader` with the leader if it knows one, if the log has its sentinel and
-- these numbers have 64 bits.
pub scrape-generate_metrics :
    (n : ClusterNode) (id : ℕ)
    → IsSmall n.raft.state
    → scrape (generate_metrics n id) ≡ readings n.raft.state
unfolding generate_metrics
scrape-generate_metrics n id small =
    scrape-print id (metrics n.raft.state) (metrics-ArePlain n.raft.state)
      (metrics-AreSmall n.raft.state small)
    ∙ metrics-readings n.raft.state small.sentinel
