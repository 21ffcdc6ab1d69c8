-- ===== src/Storage/Engine/Refines.antt =====
-- storage/engine.rs: the engine as its clients see it, a map from keys to values in which a write whose
-- log could not be synced has not happened.
use raft_kv_distributed_kv_s.Storage.Engine
use raft_kv_distributed_kv_s.Storage.Engine.Recovery
use raft_kv_distributed_kv_s.Storage.Engine.Recovery.{Write}
use raft_kv_distributed_kv_s.Storage.Engine.{Text, SyncResult, List, StorageEngine}
use raft_kv_distributed_kv_s.Prelude.{
  Text, List, Option, some, ◌∷◌, IoResult, ◌≡◌, Bool, ◌++◌, [], if◌then◌else◌, ◌&&◌, none, ◌∙◌, ap,
}
use raft_kv_distributed_kv_s.Storage.Wal.{SyncResult}
use raft_kv_distributed_kv_s.Storage.Engine.Reads.{
  is_synced, outcome, read_after_put, read_after_delete,
}
use raft_kv_distributed_kv_s.Storage.Lines.{text_eq}

-- The map, and the results that clients got so far.
pub record KeyValues : Type 0 where
  pub value : Text → Option Text
  pub results : List (IoResult (Unit {0}))

-- The values with one write to a key in them, if the write is done.
abbrev pub changed : (Text → Option Text) → Text → Option Text → Bool → Text → Option Text
changed value key v done j = if done && text_eq j key then v else value j

-- What a client expects of one write.
abbrev pub specified : KeyValues → Write × SyncResult → KeyValues
specified m (Recovery.put k v, r) = record {
  value = changed m.value k (some v) (is_synced r);
  results = m.results ++ outcome (is_synced r) ∷ [];
}
specified m (Recovery.delete k, r) = record {
  value = changed m.value k none (is_synced r);
  results = m.results ++ outcome (is_synced r) ∷ [];
}

abbrev pub specified_run : KeyValues → List (Write × SyncResult) → KeyValues
specified_run m [] = m
specified_run m (w ∷ ws) = specified_run (specified m w) ws

-- What the engine does.
abbrev pub attempt : StorageEngine → Write × SyncResult → StorageEngine × IoResult (Unit {0})
attempt e (Recovery.put k v, r) = Engine.put e k v r
attempt e (Recovery.delete k, r) = Engine.delete e k r

pub record Client : Type 0 where
  pub engine : StorageEngine
  pub results : List (IoResult (Unit {0}))

abbrev pub attempt_run : Client → List (Write × SyncResult) → Client
attempt_run c [] = c
attempt_run c (w ∷ ws) =
    attempt_run
      (record {
        engine = (attempt c.engine w).0;
        results = c.results ++ (attempt c.engine w).1 ∷ [];
      })
      ws

pub record Implements (c : Client) (m : KeyValues) : Type 0 where
  pub reads : (k : Text) → Engine.get c.engine k ≡ m.value k
  pub same_results : c.results ≡ m.results

attempt-Implements :
    (c : Client) (m : KeyValues) (w : Write × SyncResult)
    → Implements c m
    → Implements (attempt_run c (w ∷ [])) (specified m w)
attempt-Implements c m (Recovery.put k v, r) i = record {
  reads = λ j.
      (read_after_put c.engine k v r j).0
      ∙ ap (λ o. if is_synced r && text_eq j k then some v else o) (i.reads j);
  same_results =
      ap (λ x. c.results ++ x ∷ []) ((read_after_put c.engine k v r k).1)
      ∙ ap (λ xs. xs ++ outcome (is_synced r) ∷ []) i.same_results;
}
attempt-Implements c m (Recovery.delete k, r) i = record {
  reads = λ j.
      (read_after_delete c.engine k r j).0
      ∙ ap (λ o. if is_synced r && text_eq j k then none else o) (i.reads j);
  same_results =
      ap (λ x. c.results ++ x ∷ []) ((read_after_delete c.engine k r k).1)
      ∙ ap (λ xs. xs ++ outcome (is_synced r) ∷ []) i.same_results;
}

-- An engine and a map that agree on all keys still agree, on the keys and on every result, after any puts
-- and deletes with any outcome of their syncs: the engine implements a map in which a failed write has not
-- happened.
pub attempt_run-Implements :
    (c : Client) (m : KeyValues) (ws : List (Write × SyncResult))
    → Implements c m
    → Implements (attempt_run c ws) (specified_run m ws)
attempt_run-Implements c m [] i = i
attempt_run-Implements c m (w ∷ ws) i =
    attempt_run-Implements (attempt_run c (w ∷ [])) (specified m w) ws (attempt-Implements c m w i)
