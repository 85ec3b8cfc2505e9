-- ===== src/Coordinator/Put/Strict.antt =====
-- `ReplicatedStore::put` (src/coordinator/mod.rs) when every member is preferred: no member is left to take a
-- hint.
use diynamo.Base.{
  ℕ, zero, suc, ◌≤◌, Bytes, length, take, drop, map, Bool, true, not, ok, List, [], ◌∷◌, ◌≡◌, refl,
  arith, All,
}
use diynamo.Base.Bags.{count, SubBag, count-take-drop}
use diynamo.Cluster.Types.{MemberInfo}
use diynamo.Store.Database.{Database, Bincode}
use diynamo.Store.RocksdbStore.{StoredEntry}
use diynamo.Coordinator.{ReplicatedStore, World, JoinSet}
use diynamo.Coordinator.Put.{
  WriteResult, count_results, run_tasks, try_candidates, hint_slots, replicate_write,
}
use diynamo.Coordinator.Put.Results.{
  succeeded, IsJoinSet, Writes, count_results-count, members-good,
}
use diynamo.Coordinator.Put.Holders.{IsHeld, run_tasks_holders, check_quorum-ok}

drop_all : {A : Type 0} (n : ℕ) (xs : List A) → length xs ≤ n → drop n xs ≡ []
drop_all zero [] h = refl
drop_all zero (x ∷ xs) h = absurd (omega (arith, h))
drop_all (suc n) [] h = refl
drop_all (suc n) (x ∷ xs) h = drop_all n xs (omega (arith, h))

-- Without candidates no hint is placed.
hint_slots-none :
    {Db W : Type 0} (world : World Db W) (api : Database Db) (codec : Bincode StoredEntry)
    (self_id key value : Bytes) (ts : ℕ) (pref_ids targets : List Bytes) (acks : ℕ) (w : W)
    → hint_slots world api codec self_id key value ts pref_ids targets [] acks w ≡ (acks, w)
unfolding hint_slots try_candidates
hint_slots-none world api codec self_id key value ts pref_ids [] acks w = refl
hint_slots-none world api codec self_id key value ts pref_ids (target_id ∷ targets) acks w =
    hint_slots-none world api codec self_id key value ts pref_ids targets acks w

module _ {Ring Db W : Type 0} {world : World Db W} {api : Database Db} {codec : Bincode StoredEntry}
    {key value : Bytes} {ts : ℕ} {good : MemberInfo → Bool} {Holds : MemberInfo → W → Type 0}
    {tasks : JoinSet MemberInfo WriteResult} (joining : IsJoinSet tasks)
    (self : ReplicatedStore Ring)
    (h : Writes world api codec self.self_id key value ts good Holds) where
  -- If the write reports success and there are at most `n` members, at least as many as the write quorum
  -- asks hold it, hints aside.
  pub strict_holders :
      (all : List MemberInfo) (w : W)
      → length all ≤ self.n
      → All (λ m. good m ≡ true) all
      → (replicate_write world api codec tasks self key value ts all w).0 ≡ ok tt
      → (ms : List MemberInfo) × SubBag ms all
        × (self.w ≤ length ms)
        × IsHeld Holds ms (replicate_write world api codec tasks self key value ts all w).1
  unfolding replicate_write
  strict_holders all w small b e =
      let pref_list = take self.n all in
      let pref_ids = map (λ m. m.id) pref_list in
      let (results, w₁) =
        run_tasks world api codec self.self_id key value ts (tasks.schedule pref_list) w in
      let (real_acks, failed) = count_results 0 [] (tasks.joined results) in
      let unfit = λ (m : MemberInfo). not (good m) in
      let split = count-take-drop unfit self.n all in
      let g : count unfit (tasks.schedule pref_list) ≡ 0 =
        omega (arith, joining.schedule_lem pref_list unfit, split, members-good good all b) in
      let (ms, sub, len, held) = run_tasks_holders h (tasks.schedule pref_list) w g in
      let none_left : hint_slots world api codec self.self_id key value ts pref_ids failed
            (drop self.n all) 0 w₁
          ≡ (0, w₁) =
        rw (drop_all self.n all small)
          (hint_slots-none world api codec self.self_id key value ts pref_ids failed 0 w₁) in
      let enough = check_quorum-ok _ _ (rw none_left at e) in
      (
        ms,
        λ p. omega (arith, sub p, joining.schedule_lem pref_list p, count-take-drop p self.n all),
        omega (
          arith,
          len,
          enough,
          count_results-count 0 [] (tasks.joined results),
          joining.joined_lem results succeeded,
        ),
        rw none_left held,
      )
