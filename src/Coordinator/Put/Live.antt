-- ===== src/Coordinator/Put/Live.antt =====
-- When `ReplicatedStore::put` (src/coordinator/mod.rs) succeeds.
use diynamo.Base.{
  ℕ, ◌+◌, ◌≤◌, Bytes, take, Bool, true, not, ok, List, [], ◌∷◌, ◌≡◌, arith, All, Bool-cases, inl,
  inr,
}
use diynamo.Base.Bags.{count, count-take-drop}
use diynamo.Cluster.Types.{MemberInfo}
use diynamo.Store.Database.{Database, Bincode}
use diynamo.Store.RocksdbStore.{StoredEntry}
use diynamo.Coordinator.{ReplicatedStore, World, JoinSet}
use diynamo.Coordinator.Put.{WriteResult, write_task, run_tasks, check_quorum, replicate_write}
use diynamo.Coordinator.Put.Results.{
  succeeded, joined_results, IsJoinSet, count_results-count, members-good, AllGood, AllGood-cons,
}

-- No task panics: the results that are joined are those of all tasks.
abbrev pub NoPanic : {T R : Type 0} → JoinSet T R → Type 0
NoPanic {R = R} tasks =
    (rs : List R) (p : R → Bool) → count p (joined_results (tasks.joined rs)) ≡ count p rs

module _ {Db W : Type 0} (world : World Db W) (api : Database Db) (codec : Bincode StoredEntry)
    (self_id key value : Bytes) (ts : ℕ) (good up : MemberInfo → Bool) (Fine : W → Type 0) where
  -- A condition that the tasks keep, under which those of the members that are up succeed.
  pub record Serves : Type 0 where
    pub keep :
        (c : MemberInfo) (w : W)
        → good c ≡ true
        → Fine w
        → Fine (write_task world api codec self_id key value ts c w).1
    pub succeeds :
        (c : MemberInfo) (w : W)
        → good c ≡ true
        → up c ≡ true
        → Fine w
        → (write_task world api codec self_id key value ts c w).0 ≡ ok tt

module _ {Db W : Type 0} {world : World Db W} {api : Database Db} {codec : Bincode StoredEntry}
    {self_id key value : Bytes} {ts : ℕ} {good up : MemberInfo → Bool} {Fine : W → Type 0}
    (h : Serves world api codec self_id key value ts good up Fine) where
  run_tasks-succeeded :
      (cs : List MemberInfo) (w : W)
      → AllGood good cs
      → Fine w
      → count up cs ≤ count succeeded (run_tasks world api codec self_id key value ts cs w).0
  unfolding run_tasks count succeeded
  run_tasks-succeeded [] w g f = omega arith
  run_tasks-succeeded (c ∷ cs) w g f =
      let (good_c, g') = AllGood-cons good c cs g in
      let rest = run_tasks-succeeded cs _ g' (h.keep c w good_c f) in
      elim (Bool-cases (up c)) [
        | inl yes' ↦ rw (yes', h.succeeds c w good_c yes' f) (ground (arith, rest))
        | inr no' ↦ rw no' (ground (arith, rest))
      ]

check_quorum-enough :
    (acks hint_acks required : ℕ)
    → required ≤ acks
    → check_quorum (acks + hint_acks) required ≡ ok tt
unfolding check_quorum
check_quorum-enough acks hint_acks required e = ground (arith, e)

module _ {Ring Db W : Type 0} {world : World Db W} {api : Database Db} {codec : Bincode StoredEntry}
    {key value : Bytes} {ts : ℕ} {good up : MemberInfo → Bool} {Fine : W → Type 0}
    {tasks : JoinSet MemberInfo WriteResult} (joining : IsJoinSet tasks) (no_panic : NoPanic tasks)
    (self : ReplicatedStore Ring)
    (h : Serves world api codec self.self_id key value ts good up Fine) where
  -- If enough preferred members are up, the write succeeds.
  pub replicate_write-succeeds :
      (all : List MemberInfo) (w : W)
      → All (λ m. good m ≡ true) all
      → Fine w
      → self.w ≤ count up (take self.n all)
      → (replicate_write world api codec tasks self key value ts all w).0 ≡ ok tt
  unfolding replicate_write
  replicate_write-succeeds all w b f enough =
      let pref_list = take self.n all in
      let results =
        (run_tasks world api codec self.self_id key value ts (tasks.schedule pref_list) w).0 in
      let unfit = λ (m : MemberInfo). not (good m) in
      let g : count unfit (tasks.schedule pref_list) ≡ 0 = omega (
        arith,
        joining.schedule_lem pref_list unfit,
        count-take-drop unfit self.n all,
        members-good good all b,
      ) in
      check_quorum-enough _ _ _ (
        omega (
          arith,
          enough,
          joining.schedule_lem pref_list up,
          run_tasks-succeeded h (tasks.schedule pref_list) w g f,
          count_results-count 0 [] (tasks.joined results),
          no_panic results succeeded,
        ))
