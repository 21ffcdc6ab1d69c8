-- ===== src/Metrics/Readings.antt =====
-- metrics.rs: what is to be read of a node's metrics, name by name.
use raft_kv_distributed_kv_s.Metrics.{
  Metric, metrics, role_metric, role_num, is_leader, known_leader,
}
use raft_kv_distributed_kv_s.Raft.State.{NodeRole, RaftState, follower, candidate, leader}
use raft_kv_distributed_kv_s.Raft.Log.{RaftLog, last_index}
use raft_kv_distributed_kv_s.Prelude.{
  ℕ, Text, List, Option, [], ◌∷◌, ◌≡◌, some, none, ◌<◌, word, refl, arith, codes, length, ◌-◌,
}

-- The names and the values.
abbrev pub values : List Metric → List (Text × ℕ)
values [] = []
values (m ∷ ms) = (m.name, m.value) ∷ values ms

abbrev pub AreSmall : List Metric → Type 0
AreSmall [] = Unit
AreSmall (m ∷ ms) = (m.value < word) × AreSmall ms

-- What is to be read of a node, name by name.
abbrev role_code : NodeRole → ℕ
role_code follower = 0
role_code candidate = 1
role_code leader = 2

abbrev leads : NodeRole → ℕ
leads follower = 0
leads candidate = 0
leads leader = 1

abbrev leader_known : Option ℕ → List (Text × ℕ)
leader_known none = []
leader_known (some id) = (codes "raftkv_known_leader", id) ∷ []

abbrev pub readings : RaftState → List (Text × ℕ)
readings s =
    (codes "raftkv_current_term", s.current_term)
    ∷ (codes "raftkv_role", role_code s.role)
    ∷ (codes "raftkv_commit_index", s.commit_index)
    ∷ (codes "raftkv_last_applied", s.last_applied)
    ∷ (codes "raftkv_log_length", length s.log.entries - 1)
    ∷ (codes "raftkv_is_leader", leads s.role)
    ∷ leader_known s.leader_id

-- A log with its sentinel, and numbers of 64 bits.
pub record IsSmall (s : RaftState) : Type 0 where
  pub term : s.current_term < word
  pub commit : s.commit_index < word
  pub applied : s.last_applied < word
  pub sentinel : 0 < length s.log.entries
  pub entries : length s.log.entries < word
  pub known : (id : ℕ) → s.leader_id ≡ some id → id < word

role_num-code : (r : NodeRole) → role_num r ≡ role_code r
role_num-code follower = refl
role_num-code candidate = refl
role_num-code leader = refl

is_leader-leads : (r : NodeRole) → is_leader r ≡ leads r
is_leader-leads follower = refl
is_leader-leads candidate = refl
is_leader-leads leader = refl

known_leader-readings : (o : Option ℕ) → values (known_leader o) ≡ leader_known o
known_leader-readings none = refl
known_leader-readings (some id) = refl

last_index-length : (l : RaftLog) → 0 < length l.entries → last_index l ≡ length l.entries - 1
unfolding last_index
last_index-length l h = ground arith

pub metrics-readings : (s : RaftState) → 0 < length s.log.entries → values (metrics s) ≡ readings s
metrics-readings s h =
    rw
      (
        role_num-code s.role,
        is_leader-leads s.role,
        known_leader-readings s.leader_id,
        last_index-length s.log h,
      )
      refl

known_leader-AreSmall :
    (o : Option ℕ) → ((id : ℕ) → o ≡ some id → id < word) → AreSmall (known_leader o)
known_leader-AreSmall none h = tt
known_leader-AreSmall (some id) h = (h id refl, tt)

role-small : (r : NodeRole) → (role_metric r).value < word × (is_leader r < word)
role-small follower = (omega arith, omega arith)
role-small candidate = (omega arith, omega arith)
role-small leader = (omega arith, omega arith)

pub metrics-AreSmall : (s : RaftState) → IsSmall s → AreSmall (metrics s)
metrics-AreSmall s h =
    let (role, leading) = role-small s.role in
    (
      h.term,
      (
        role,
        (
          h.commit,
          (
            h.applied,
            (
              omega (arith, last_index-length s.log h.sentinel, h.sentinel, h.entries),
              (leading, known_leader-AreSmall s.leader_id h.known),
            ),
          ),
        ),
      ),
    )
