-- ===== src/System/Ledger/Runs.antt =====
-- The cluster: the records of the votes and of leaders and logs over a run.
use mathlib.Core.Path.{subst, ap}
use raft_kv_distributed_kv_s.System.Ledger.{Ledger, Continued, Setting, Sound, Book, Traced, Keeper}
use raft_kv_distributed_kv_s.System.Runs.{Step-Sound, initial-Sound}
use raft_kv_distributed_kv_s.Raft.State
use raft_kv_distributed_kv_s.System.{
  start, next, now, later, Reach, Later, Setting, System, ℕ, Step, Among, members, IsInitial, Reach,
  Later, start, later,
}
use raft_kv_distributed_kv_s.System.Lines.{MessageRoundTrips}
use raft_kv_distributed_kv_s.System.Sound.{Sound, Grown}
use raft_kv_distributed_kv_s.Prelude.{
  ℕ, ◌<◌, List, length, ◌≡◌, [], arith, sym, refl, word, suc, none, zero, append-nil, ◌∷◌, take, ap,
}
use raft_kv_distributed_kv_s.Raft.Quorum.{Among}
use raft_kv_distributed_kv_s.Raft.Log.{sentinel, LogEntry}
use raft_kv_distributed_kv_s.Raft.Matching.{Book, Traced, Continues-trans}
use raft_kv_distributed_kv_s.Raft.Matching.Terms.{Below}
use raft_kv_distributed_kv_s.Raft.Durable.{RoundTrips}
use raft_kv_distributed_kv_s.System.Ledger.Steps.{full, Step-Continued}

-- The log of a new node, and no leader.
first_book : Book
first_book zero = sentinel ∷ []
first_book (suc t) = []

length-first_book : (t : ℕ) → length (first_book t) < word
unfolding first_book
length-first_book zero = omega arith
length-first_book (suc t) = omega arith

first_unowned : (t : ℕ) → 0 < t → first_book t ≡ []
unfolding first_book
first_unowned zero h = absurd (omega (arith, h))
first_unowned (suc t) h = refl

first_book-Traced : Traced first_book (sentinel ∷ [])
unfolding first_book
first_book-Traced zero x h =
    let same : sentinel ≡ x = cc h in
    subst (λ (y : LogEntry). sentinel ∷ [] ≡ take 1 (first_book y.term)) same refl
first_book-Traced (suc j) x h = cc h

Below-sentinel : Below 0 (sentinel ∷ [])
Below-sentinel zero x h =
    let same : sentinel ≡ x = cc h in omega (arith, ap (λ (y : LogEntry). y.term) same)
Below-sentinel (suc j) x h = cc h

Below-first_book : (t : ℕ) → Below t (first_book t)
unfolding first_book
Below-first_book zero i x h = Below-sentinel i x h
Below-first_book (suc t) i x h = cc h

first_one : length (first_book 0) ≡ 1
unfolding first_book
first_one = refl

new_node-Keeper : (i id : ℕ) (peers : List ℕ) → Keeper first_book (λ _. none) i (State.new id peers)
new_node-Keeper i id peers = record {
  traced = first_book-Traced;
  nonempty = omega arith;
  below = Below-sentinel;
  leads = λ l. cc l;
  past = λ t e. cc e;
  stands = λ c. cc c;
  positive = λ ne. absurd (ne refl);
  indices = tt;
}

-- Both records.
pub record Kept (e : Setting) (s : System) : Type 0 where
  pub sound : Sound e s
  pub ledger : Ledger e s sound

pub record After (e : Setting) (s : System) (k : Kept e s) (t : System) : Type 0 where
  pub grown : Grown e s k.sound t
  pub continued : Continued e k.ledger.book t grown.sound

module _ (e : Setting) (rt : RoundTrips e.json) (mrt : MessageRoundTrips e.messages) where
  initial-Kept : (s : System) → IsInitial e s → Kept e s
  initial-Kept s h = record {
    sound = initial-Sound e rt mrt s h;
    ledger = record {
      book = first_book;
      owner = λ _. none;
      keepers = λ i here.
          subst (Keeper first_book (λ _. none) i) (sym (h.new_state i here))
            (new_node-Keeper i i (members e));
      won = λ t i own. cc own;
      unowned = λ t own. first_unowned t;
      sentinel_only = first_one;
      tops = Below-first_book;
      bounded = length-first_book;
      lines = λ d on. absurd (subst (Among d) h.none_sent on);
    };
  }

  Step-After : (s t : System) (k : Kept e s) → Step e s t → After e s k t
  Step-After s t k step =
      let g = Step-Sound e rt mrt s t k.sound (full e rt mrt s k.sound k.ledger) step in
      record { grown = g; continued = Step-Continued e rt mrt s k.sound k.ledger t step g }

  pub Reach-Kept : (s : System) → Reach e s → Kept e s
  Reach-Kept s (start h) = initial-Kept s h
  Reach-Kept _ (next {s} {t} r step) =
      let a = Step-After s t (Reach-Kept s r) step in
      record { sound = a.grown.sound; ledger = a.continued.ledger }

  pub Later-After : (s t : System) (k : Kept e s) → Later e s t → After e s k t
  Later-After s _ k now = record {
    grown = record { sound = k.sound; extends = λ _ _ _ g. g };
    continued = record {
      ledger = k.ledger;
      continues = λ u. ([], sym (append-nil (k.ledger.book u)));
    };
  }
  Later-After s _ k (later {t} {u} run step) =
      let a = Later-After s t k run in
      let b = Step-After t u (record { sound = a.grown.sound; ledger = a.continued.ledger }) step in
      record {
        grown = record {
          sound = b.grown.sound;
          extends = λ v term c x. b.grown.extends v term c (a.grown.extends v term c x);
        };
        continued = record {
          ledger = b.continued.ledger;
          continues =
              Continues-trans k.ledger.book a.continued.ledger.book b.continued.ledger.book
                a.continued.continues b.continued.continues;
        };
      }
