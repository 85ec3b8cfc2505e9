-- ===== src/Coordinator/Put/Results.antt =====
-- The results of the write tasks of `ReplicatedStore::put` (src/coordinator/mod.rs), and what it asks of
-- the tasks.
use diynamo.Base.{
  ℕ, ◌+◌, Bytes, Bool, true, false, not, ok, err, Option, none, some, List, [], ◌∷◌, ◌++◌, ◌≡◌,
  refl, arith, All, All-append,
}
use diynamo.Base.Bags.{count, SubBag}
use diynamo.Cluster.Types.{MemberInfo}
use diynamo.Store.Database.{Database, Bincode}
use diynamo.Store.RocksdbStore.{StoredEntry}
use diynamo.Coordinator.{World, JoinSet}
use diynamo.Coordinator.Put.{WriteResult, count_results, write_task, run_tasks, hint_write}

-- Whether a write task succeeded.
unfoldable pub succeeded : WriteResult → Bool
succeeded (id, ok _) = true
succeeded (id, err _) = false

-- The results that were joined without a panic.
unfoldable pub joined_results : {R : Type 0} → List (Option R) → List R
joined_results [] = []
joined_results (none ∷ rs) = joined_results rs
joined_results (some r ∷ rs) = r ∷ joined_results rs

-- Every task that is spawned acts once, and every result that is joined is one of a task.
pub record IsJoinSet {T R : Type 0} (tasks : JoinSet T R) : Type 0 where
  pub schedule_lem : (ts : List T) (p : T → Bool) → count p (tasks.schedule ts) ≡ count p ts
  pub joined_lem : (rs : List R) → SubBag (joined_results (tasks.joined rs)) rs

pub count_results-count :
    (acks : ℕ) (failed : List Bytes) (rs : List (Option WriteResult))
    → (count_results acks failed rs).0 ≡ acks + count succeeded (joined_results rs)
unfolding count_results count succeeded joined_results
count_results-count acks failed [] = omega arith
count_results-count acks failed (some (id, ok u) ∷ rs) =
    omega (arith, count_results-count (acks + 1) failed rs)
count_results-count acks failed (some (id, err e) ∷ rs) =
    count_results-count acks (failed ++ id ∷ []) rs
count_results-count acks failed (none ∷ rs) = count_results-count acks failed rs

module _ {Db W : Type 0} (world : World Db W) (api : Database Db) (codec : Bincode StoredEntry)
    (self_id key value : Bytes) (ts : ℕ) (good : MemberInfo → Bool)
    (Holds : MemberInfo → W → Type 0) where
  -- What the write of one replica does to the holders: it keeps them, and adds its node if it succeeds.
  pub record Writes : Type 0 where
    pub keep_write :
        (m c : MemberInfo) (w : W)
        → Holds m w
        → Holds m (write_task world api codec self_id key value ts c w).1
    pub write_ok :
        (m : MemberInfo) (w : W)
        → good m ≡ true
        → (write_task world api codec self_id key value ts m w).0 ≡ ok tt
        → Holds m (write_task world api codec self_id key value ts m w).1

  -- So does a hint.
  pub record Replicates (safe : Bytes → Bool) : Type 0 where
    pub writes : Writes
    pub keep_hint :
        (m c : MemberInfo) (target_id : Bytes) (w : W)
        → safe target_id ≡ true
        → Holds m w
        → Holds m (hint_write world api codec self_id key value ts c target_id w).1
    pub hint_ok :
        (m : MemberInfo) (target_id : Bytes) (w : W)
        → good m ≡ true
        → safe target_id ≡ true
        → (hint_write world api codec self_id key value ts m target_id w).0 ≡ ok tt
        → Holds m (hint_write world api codec self_id key value ts m target_id w).1

abbrev pub AllSafe : (Bytes → Bool) → List Bytes → Type 0
AllSafe safe ids = All (λ id. safe id ≡ true) ids

-- The failed ids are ids of the members that were written to.
pub run_tasks-safe :
    {Db W : Type 0} (world : World Db W) (api : Database Db) (codec : Bincode StoredEntry)
    (self_id key value : Bytes) (ts : ℕ) (safe : Bytes → Bool) (cs : List MemberInfo) (w : W)
    → count (λ r. not (safe r.0)) (run_tasks world api codec self_id key value ts cs w).0
      ≡ count (λ m. not (safe m.id)) cs
unfolding run_tasks count
run_tasks-safe world api codec self_id key value ts safe [] w = refl
run_tasks-safe world api codec self_id key value ts safe (c ∷ cs) w =
    let (r, w₁) = write_task world api codec self_id key value ts c w in
    rw (run_tasks-safe world api codec self_id key value ts safe cs w₁)

pub failed-safe :
    (safe : Bytes → Bool) (acks : ℕ) (failed : List Bytes) (rs : List (Option WriteResult))
    → AllSafe safe failed
    → count (λ r. not (safe r.0)) (joined_results rs) ≡ 0
    → AllSafe safe (count_results acks failed rs).1
unfolding count_results count joined_results
failed-safe safe acks failed [] a c = a
failed-safe safe acks failed (some (id, ok u) ∷ rs) a c =
    failed-safe safe (acks + 1) failed rs a (ground (arith, c))
failed-safe safe acks failed (some (id, err e) ∷ rs) a c =
    failed-safe safe acks (failed ++ id ∷ []) rs
      (All-append (λ i. safe i ≡ true) failed (id ∷ []) a (ground (arith, c), tt))
      (ground (arith, c))
failed-safe safe acks failed (none ∷ rs) a c = failed-safe safe acks failed rs a c

pub members-good :
    (good : MemberInfo → Bool) (ms : List MemberInfo)
    → All (λ m. good m ≡ true) ms
    → count (λ m. not (good m)) ms ≡ 0
unfolding count
members-good good [] a = refl
members-good good (m ∷ ms) a = ground (arith, members-good good ms a.1, a.0)

-- No member fails the test.
abbrev pub AllGood : (MemberInfo → Bool) → List MemberInfo → Type 0
AllGood good ms = count (λ m. not (good m)) ms ≡ 0

pub AllGood-cons :
    (good : MemberInfo → Bool) (c : MemberInfo) (cs : List MemberInfo)
    → AllGood good (c ∷ cs)
    → (good c ≡ true) × AllGood good cs
unfolding count
AllGood-cons good c cs g = ground (arith, g)
