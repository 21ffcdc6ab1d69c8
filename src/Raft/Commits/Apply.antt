-- ===== src/Raft/Commits/Apply.antt =====
-- raft/node.rs, apply_committed_entries: which commands are handed to the storage, and in what order.
-- The commands that are applied for an index, in order.
use Prim.Native.Nat.{ℕ, suc}
use raft_kv_distributed_kv_s.Prelude.{
  ℕ, Option, List, [], ◌≡◌, suc, ◌≤◌, ◌<◌, ◌+◌, ◌∷◌, some, ◌++◌, arith, if◌then◌else◌, ℕ_discrete,
  none, zero, ◌==◌, refl, ==_iff, append-nil, ◌-◌, ap, sym, ne→==_false,
}
use raft_kv_distributed_kv_s.Raft.Node.Commit.{
  apply_command, apply_found, apply_loop, apply_committed_entries,
}
use raft_kv_distributed_kv_s.Raft.Log.{LogEntry, LogCommand, RaftLog, get, put, delete, noop}
use raft_kv_distributed_kv_s.Raft.Node.{
  Action, apply_entry, send_request_vote, send_request_vote_response, send_append_entries,
  send_append_entries_response,
}
use raft_kv_distributed_kv_s.Raft.State.{RaftState}

pub applied_at : ℕ → List Action → List LogCommand
applied_at i [] = []
applied_at i (apply_entry j c ∷ rest) = if i == j then c ∷ applied_at i rest else applied_at i rest
applied_at i (_ ∷ rest) = applied_at i rest

-- The indices of the apply actions rise, all of them above `low`.
abbrev pub Rising : ℕ → List Action → Type 0
Rising low [] = Unit
Rising low (apply_entry i _ ∷ rest) = (low < i) × Rising i rest
Rising low (_ ∷ rest) = Rising low rest

-- What the storage should be told of an entry: its command, unless that is a no-op.
pub due : Option LogEntry → List LogCommand
due none = []
due (some e) = elim e.command [ noop ↦ [] | put k v ↦ put k v ∷ [] | delete k ↦ delete k ∷ [] ]

applied_at-command :
    (i j : ℕ) (c : LogCommand) (rest : List Action)
    → applied_at i (apply_command j c ++ rest) ≡ (
        if i == j
        then due (some (record { term = 0; command = c })) ++ applied_at i rest
        else applied_at i rest)
unfolding applied_at apply_command due
applied_at-command i j noop rest = ground arith
applied_at-command i j (put k v) rest = refl
applied_at-command i j (delete k) rest = refl

applied_at-found :
    (i j : ℕ) (o : Option LogEntry) (rest : List Action)
    → applied_at i (apply_found j o ++ rest)
      ≡ (if i == j then due o ++ applied_at i rest else applied_at i rest)
unfolding apply_found due
applied_at-found i j none rest = ground arith
applied_at-found i j (some e) rest = applied_at-command i j e.command rest

Rising-weaken : (a b : ℕ) (acts : List Action) → a ≤ b → Rising b acts → Rising a acts
Rising-weaken a b [] h r = tt
Rising-weaken a b (apply_entry i c ∷ rest) h r = (omega arith, r.1)
Rising-weaken a b (send_request_vote _ _ ∷ rest) h r = Rising-weaken a b rest h r
Rising-weaken a b (send_request_vote_response _ _ ∷ rest) h r = Rising-weaken a b rest h r
Rising-weaken a b (send_append_entries _ _ ∷ rest) h r = Rising-weaken a b rest h r
Rising-weaken a b (send_append_entries_response _ _ ∷ rest) h r = Rising-weaken a b rest h r

Rising-command :
    (low j : ℕ) (c : LogCommand) (rest : List Action)
    → low < j
    → Rising j rest
    → Rising low (apply_command j c ++ rest)
unfolding apply_command
Rising-command low j noop rest h r = Rising-weaken low j rest (omega arith) r
Rising-command low j (put k v) rest h r = (h, r)
Rising-command low j (delete k) rest h r = (h, r)

Rising-found :
    (low j : ℕ) (o : Option LogEntry) (rest : List Action)
    → low < j
    → Rising j rest
    → Rising low (apply_found j o ++ rest)
unfolding apply_found
Rising-found low j none rest h r = Rising-weaken low j rest (omega arith) r
Rising-found low j (some e) rest h r = Rising-command low j e.command rest h r

apply_loop-Rising : (k : ℕ) (log : RaftLog) (a : ℕ) → Rising a (apply_loop k log a).1
unfolding apply_loop
apply_loop-Rising zero log a = tt
apply_loop-Rising (suc k) log a =
    Rising-found a (a + 1) (get log (a + 1)) _ (omega arith) (apply_loop-Rising k log (a + 1))

apply_loop-below :
    (k : ℕ) (log : RaftLog) (a i : ℕ) → i ≤ a → applied_at i (apply_loop k log a).1 ≡ []
unfolding apply_loop applied_at
apply_loop-below zero log a i h = refl
apply_loop-below (suc k) log a i h =
    rw applied_at-found (ground (arith, apply_loop-below k log (a + 1) i))

apply_loop-at :
    (k : ℕ) (log : RaftLog) (a i : ℕ)
    → a < i
    → i ≤ a + k
    → applied_at i (apply_loop k log a).1 ≡ due (get log i)
unfolding apply_loop
apply_loop-at zero log a i h l = absurd (omega arith)
apply_loop-at (suc k) log a i h l = rw applied_at-found (elim (ℕ_discrete i (a + 1)) [
  | yes e ↦
      rw ((==_iff i (a + 1)).1 e, apply_loop-below k log (a + 1) i (omega arith), append-nil)
        (ap (λ j. due (get log j)) (sym e))
  | no ne ↦
      rw (ne→==_false i (a + 1) ne) (apply_loop-at k log (a + 1) i (omega arith) (omega arith))
])

apply_loop-above :
    (k : ℕ) (log : RaftLog) (a i : ℕ) → a + k < i → applied_at i (apply_loop k log a).1 ≡ []
unfolding apply_loop applied_at
apply_loop-above zero log a i h = refl
apply_loop-above (suc k) log a i h =
    rw applied_at-found (ground (arith, apply_loop-above k log (a + 1) i))

apply_loop-final : (k : ℕ) (log : RaftLog) (a : ℕ) → (apply_loop k log a).0 ≡ a + k
unfolding apply_loop
apply_loop-final zero log a = omega arith
apply_loop-final (suc k) log a = omega (arith, apply_loop-final k log (a + 1))

-- What the storage is told when the commit index moves to `c`.
pub record Applies (s : RaftState) (c : ℕ) (actions : List Action) : Type 0 where
  pub in_order : Rising s.last_applied actions
  pub once : (i : ℕ) → s.last_applied < i → i ≤ c → applied_at i actions ≡ due (get s.log i)
  pub none_before : (i : ℕ) → i ≤ s.last_applied → applied_at i actions ≡ []
  pub none_after : (i : ℕ) → c < i → applied_at i actions ≡ []

-- Moving the commit index to `c`, not below what is applied, hands over, in rising order of index, the
-- command of each entry in between, once, and no other; no-ops and missing entries are left out.
-- Afterwards `c` is both the commit index and the last applied one.
pub apply_committed_entries-Applies :
    (s : RaftState) (c : ℕ)
    → s.last_applied ≤ c
    → Applies s c (apply_committed_entries s c).1
      × ((apply_committed_entries s c).0.last_applied ≡ c)
      × ((apply_committed_entries s c).0.commit_index ≡ c)
unfolding apply_committed_entries
apply_committed_entries-Applies s c h = (
  record {
    in_order = apply_loop-Rising (c - s.last_applied) s.log s.last_applied;
    once = λ i a b. apply_loop-at (c - s.last_applied) s.log s.last_applied i a (omega arith);
    none_before = λ i a. apply_loop-below (c - s.last_applied) s.log s.last_applied i a;
    none_after = λ i a. apply_loop-above (c - s.last_applied) s.log s.last_applied i (omega arith);
  },
  omega (arith, apply_loop-final (c - s.last_applied) s.log s.last_applied),
  refl,
)
