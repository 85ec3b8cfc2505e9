-- ===== src/Coordinator/Put/Outcomes.antt =====
-- How `ReplicatedStore::put` (src/coordinator/mod.rs) ends.
use diynamo.Base.{
  ◌+◌, take, drop, map, Option, some, none, [], ◌∷◌, if◌then◌else◌, ℕ, Bytes, length, ok, err, List,
}
use diynamo.Cluster.Types.{MemberInfo}
use diynamo.Store.Database.{Database, Bincode}
use diynamo.Store.RocksdbStore.{StoredEntry}
use diynamo.Coordinator.{ReplicatedStore, World, JoinSet}
use diynamo.Coordinator.Put.{try_candidates, run_tasks, WriteResult}

-- The results that are successes, and the ids of the failed ones.
unfoldable pub successes : List (Option WriteResult) → ℕ
successes [] = 0
successes (some (id, ok u) ∷ rest) = successes rest + 1
successes (some (id, err e) ∷ rest) = successes rest
successes (none ∷ rest) = successes rest

unfoldable pub failures : List (Option WriteResult) → List Bytes
failures [] = []
failures (some (id, ok u) ∷ rest) = failures rest
failures (some (id, err e) ∷ rest) = id ∷ failures rest
failures (none ∷ rest) = failures rest

module _ {Db W : Type 0} (world : World Db W) (api : Database Db) (codec : Bincode StoredEntry)
    (self_id key value : Bytes) (ts : ℕ) where
  -- The failed ids for which a candidate accepted the hint.
  unfoldable pub hinted_targets : List Bytes → List Bytes → List MemberInfo → W → List Bytes
  hinted_targets pref_ids [] candidates w = []
  hinted_targets pref_ids (target_id ∷ targets) candidates w =
      let (accepted, rest, w') =
        try_candidates world api codec self_id key value ts pref_ids target_id candidates w in
      let later = hinted_targets pref_ids targets rest w' in
      if accepted then target_id ∷ later else later

module _ {Ring Db W : Type 0} (world : World Db W) (api : Database Db) (codec : Bincode StoredEntry)
    (tasks : JoinSet MemberInfo WriteResult) (self : ReplicatedStore Ring) (key value : Bytes) where
  -- The acknowledgements of a write: the preferred members that took it, and the failed ones for
  -- which a candidate took a hint.
  unfoldable pub acknowledgements : ℕ → List MemberInfo → W → ℕ
  acknowledgements ts all w =
      let preferred = take self.n all in
      let (results, w₁) =
        run_tasks world api codec self.self_id key value ts (tasks.schedule preferred) w in
      successes (tasks.joined results)
      + length (
          hinted_targets world api codec self.self_id key value ts (map (λ m. m.id) preferred)
            (failures (tasks.joined results)) (drop self.n all) w₁)
