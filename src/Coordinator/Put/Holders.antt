-- ===== src/Coordinator/Put/Holders.antt =====
-- Who holds a write after the phases of `ReplicatedStore::put` (src/coordinator/mod.rs), whatever it
-- means to hold it.
use diynamo.Base.{
  ℕ, ◌+◌, ◌≤◌, Bytes, length, length-append, take, drop, map, Bool, true, not, ok, List, [], ◌∷◌,
  ◌++◌, ◌≡◌, refl, ◌∙◌, arith, if◌then◌else◌, All, All-append, Bool-cases, Result-cases, inl, inr,
}
use diynamo.Base.Bags.{count, SubBag, count-append, count-take-drop}
use diynamo.Cluster.Types.{MemberInfo}
use diynamo.Store.Database.{Database, Bincode}
use diynamo.Store.RocksdbStore.{StoredEntry}
use diynamo.Coordinator.{ReplicatedStore, World, JoinSet}
use diynamo.Coordinator.Put.{
  WriteResult, contains_id, count_results, write_task, run_tasks, hint_write, try_candidates,
  hint_slots, check_quorum, replicate_write,
}
use diynamo.Coordinator.Put.Results.{
  succeeded, joined_results, IsJoinSet, Writes, Replicates, count_results-count, run_tasks-safe,
  failed-safe, members-good, AllSafe, AllGood, AllGood-cons,
}

-- Members that hold the write.
abbrev pub IsHeld : {W : Type 0} → (MemberInfo → W → Type 0) → List MemberInfo → W → Type 0
IsHeld Holds ms w = All (λ m. Holds m w) ms

module _ {Db W : Type 0} {world : World Db W} {api : Database Db} {codec : Bincode StoredEntry}
    {self_id key value : Bytes} {ts : ℕ} {good : MemberInfo → Bool}
    {Holds : MemberInfo → W → Type 0}
    (h : Writes world api codec self_id key value ts good Holds) where
  IsHeld-write_task :
      (ms : List MemberInfo) (c : MemberInfo) (w : W)
      → IsHeld Holds ms w
      → IsHeld Holds ms (write_task world api codec self_id key value ts c w).1
  IsHeld-write_task [] c w held = tt
  IsHeld-write_task (m ∷ ms) c w held = (h.keep_write m c w held.0, IsHeld-write_task ms c w held.1)

  pub IsHeld-run_tasks :
      (ms cs : List MemberInfo) (w : W)
      → IsHeld Holds ms w
      → IsHeld Holds ms (run_tasks world api codec self_id key value ts cs w).1
  unfolding run_tasks
  IsHeld-run_tasks ms [] w held = held
  IsHeld-run_tasks ms (c ∷ cs) w held = IsHeld-run_tasks ms cs _ (IsHeld-write_task ms c w held)

  -- The members whose tasks succeed hold the write when all tasks are done.
  pub run_tasks_holders :
      (cs : List MemberInfo) (w : W)
      → AllGood good cs
      → (ms : List MemberInfo) × SubBag ms cs
        × (length ms ≡ count succeeded (run_tasks world api codec self_id key value ts cs w).0)
        × IsHeld Holds ms (run_tasks world api codec self_id key value ts cs w).1
  unfolding run_tasks count succeeded
  run_tasks_holders [] w g = ([], λ p. omega arith, refl, tt)
  run_tasks_holders (c ∷ cs) w g =
      let (r, w₁) = write_task world api codec self_id key value ts c w in
      let (good_c, g') = AllGood-cons good c cs g in
      let (ms, sub, len, held) = run_tasks_holders cs w₁ g' in
      elim (Result-cases r) [
        | inl (u, e) ↦ (
          c ∷ ms,
          λ p. ground (arith, sub p),
          rw e (omega (arith, len)),
          ((IsHeld-run_tasks (c ∷ []) cs w₁ (h.write_ok c w good_c e, tt)).0, held),
        )
        | inr (x, e) ↦ (ms, λ p. ground (arith, sub p), rw e len, held)
      ]

module _ {Db W : Type 0} {world : World Db W} {api : Database Db} {codec : Bincode StoredEntry}
    {self_id key value : Bytes} {ts : ℕ} {safe : Bytes → Bool} {good : MemberInfo → Bool}
    {Holds : MemberInfo → W → Type 0}
    (h : Replicates world api codec self_id key value ts good Holds safe) where
  IsHeld-hint_write :
      (ms : List MemberInfo) (c : MemberInfo) (target_id : Bytes) (w : W)
      → safe target_id ≡ true
      → IsHeld Holds ms w
      → IsHeld Holds ms (hint_write world api codec self_id key value ts c target_id w).1
  IsHeld-hint_write [] c target_id w s held = tt
  IsHeld-hint_write (m ∷ ms) c target_id w s held =
      (h.keep_hint m c target_id w s held.0, IsHeld-hint_write ms c target_id w s held.1)

  -- The search for one slot keeps the holders; if a candidate accepts, it is a holder, and is not
  -- among the candidates that are left.
  IsHeld-try_candidates :
      (pref_ids : List Bytes) (target_id : Bytes) (ms cs : List MemberInfo) (w : W)
      → safe target_id ≡ true
      → IsHeld Holds ms w
      → IsHeld Holds ms
          (try_candidates world api codec self_id key value ts pref_ids target_id cs w).2
  unfolding try_candidates
  IsHeld-try_candidates pref_ids target_id ms [] w s held = held
  IsHeld-try_candidates pref_ids target_id ms (c ∷ cs) w s held =
      let (r, w₁) = hint_write world api codec self_id key value ts c target_id w in
      let held₁ = IsHeld-hint_write ms c target_id w s held in
      elim (Bool-cases (contains_id pref_ids c.id)) [
        | inl skip ↦ rw skip (IsHeld-try_candidates pref_ids target_id ms cs w s held)
        | inr try ↦ elim (Result-cases r) [
          | inl (u, e) ↦ rw (try, e) held₁
          | inr (x, e) ↦ rw (try, e) (IsHeld-try_candidates pref_ids target_id ms cs w₁ s held₁)
        ]
      ]

  try_candidates_holder :
      (pref_ids : List Bytes) (target_id : Bytes) (cs : List MemberInfo) (w : W)
      → safe target_id ≡ true
      → AllGood good cs
      → let (accepted, rest, w') =
          try_candidates world api codec self_id key value ts pref_ids target_id cs w in
        (ms : List MemberInfo) × (length ms ≡ (if accepted then 1 else 0))
        × ((p : MemberInfo → Bool) → count p ms + count p rest ≤ count p cs)
        × IsHeld Holds ms w'
  unfolding try_candidates count
  try_candidates_holder pref_ids target_id [] w s g = ([], refl, λ p. omega arith, tt)
  try_candidates_holder pref_ids target_id (c ∷ cs) w s g =
      let (good_c, g') = AllGood-cons good c cs g in
      let (r, w₁) = hint_write world api codec self_id key value ts c target_id w in
      elim (Bool-cases (contains_id pref_ids c.id)) [
        | inl skip ↦
            let (ms, len, sub, held) = try_candidates_holder pref_ids target_id cs w s g' in
            rw skip (ms, len, λ p. ground (arith, sub p), held)
        | inr try ↦ elim (Result-cases r) [
          | inl (u, e) ↦
              rw (try, e)
                (c ∷ [], refl, λ p. ground arith, (h.hint_ok c target_id w good_c s e, tt))
          | inr (x, e) ↦
              let (ms, len, sub, held) = try_candidates_holder pref_ids target_id cs w₁ s g' in
              rw (try, e) (ms, len, λ p. ground (arith, sub p), held)
        ]
      ]

  IsHeld-hint_slots :
      (pref_ids targets : List Bytes) (ms cs : List MemberInfo) (acks : ℕ) (w : W)
      → AllSafe safe targets
      → IsHeld Holds ms w
      → IsHeld Holds ms
          (hint_slots world api codec self_id key value ts pref_ids targets cs acks w).1
  unfolding hint_slots
  IsHeld-hint_slots pref_ids [] ms cs acks w s held = held
  IsHeld-hint_slots pref_ids (t ∷ targets) ms cs acks w s held =
      IsHeld-hint_slots pref_ids targets ms _ _ _ s.1
        (IsHeld-try_candidates pref_ids t ms cs w s.0 held)

  -- Phase 2 counts one acknowledgement for each holder that it adds.
  hint_slots_holders :
      (pref_ids targets : List Bytes) (cs : List MemberInfo) (acks : ℕ) (w : W)
      → AllSafe safe targets
      → AllGood good cs
      → let (hint_acks, w') =
          hint_slots world api codec self_id key value ts pref_ids targets cs acks w in
        (ms : List MemberInfo) × SubBag ms cs × (hint_acks ≡ acks + length ms) × IsHeld Holds ms w'
  unfolding hint_slots count
  hint_slots_holders pref_ids [] cs acks w s g = ([], λ p. omega arith, omega arith, tt)
  hint_slots_holders pref_ids (t ∷ targets) cs acks w s g =
      let (accepted, rest, w₁) =
        try_candidates world api codec self_id key value ts pref_ids t cs w in
      let (ms₁, len₁, sub₁, held₁) = try_candidates_holder pref_ids t cs w s.0 g in
      let acks₁ = if accepted then acks + 1 else acks in
      let g₁ : AllGood good rest = omega (arith, sub₁ (λ m. not (good m))) in
      let (ms₂, sub₂, len₂, held₂) = hint_slots_holders pref_ids targets rest acks₁ w₁ s.1 g₁ in
      (
        ms₁ ++ ms₂,
        λ p. omega (arith, count-append p ms₁ ms₂, sub₁ p, sub₂ p),
        len₂ ∙ ground (arith, len₁, length-append ms₁ ms₂),
        All-append (λ m. Holds m _) ms₁ ms₂
            (IsHeld-hint_slots pref_ids targets ms₁ rest acks₁ w₁ s.1 held₁) held₂,
      )

pub check_quorum-ok : (acks required : ℕ) → check_quorum acks required ≡ ok tt → required ≤ acks
unfolding check_quorum
check_quorum-ok acks required e = ground arith

module _ {Ring Db W : Type 0} {world : World Db W} {api : Database Db} {codec : Bincode StoredEntry}
    {key value : Bytes} {ts : ℕ} {safe : Bytes → Bool} {good : MemberInfo → Bool}
    {Holds : MemberInfo → W → Type 0} {tasks : JoinSet MemberInfo WriteResult}
    (joining : IsJoinSet tasks) (self : ReplicatedStore Ring)
    (h : Replicates world api codec self.self_id key value ts good Holds safe) where
  -- If the write reports success, there are different members of the ring order, at least as many as
  -- the write quorum asks, that hold it.
  pub replicate_write_holders :
      (all : List MemberInfo) (w : W)
      → All (λ m. safe m.id ≡ true) all
      → All (λ m. good m ≡ true) all
      → (replicate_write world api codec tasks self key value ts all w).0 ≡ ok tt
      → (ms : List MemberInfo) × SubBag ms all
        × (self.w ≤ length ms)
        × IsHeld Holds ms (replicate_write world api codec tasks self key value ts all w).1
  unfolding replicate_write
  replicate_write_holders all w a b e =
      let pref_list = take self.n all in
      let pref_ids = map (λ m. m.id) pref_list in
      let (results, w₁) =
        run_tasks world api codec self.self_id key value ts (tasks.schedule pref_list) w in
      let unfit = λ (m : MemberInfo). not (good m) in
      let none_unfit : count unfit all ≡ 0 = members-good good all b in
      let split = count-take-drop unfit self.n all in
      let g₁ : count unfit (tasks.schedule pref_list) ≡ 0 =
        omega (arith, joining.schedule_lem pref_list unfit, split, none_unfit) in
      let g₂ : count unfit (drop self.n all) ≡ 0 = omega (arith, split, none_unfit) in
      let (ms₁, sub₁, len₁, held₁) = run_tasks_holders h.writes (tasks.schedule pref_list) w g₁ in
      let (real_acks, failed) = count_results 0 [] (tasks.joined results) in
      let bad = λ (m : MemberInfo). not (safe m.id) in
      let bad_result = λ (r : WriteResult). not (safe r.0) in
      let no_bad : count bad_result (joined_results (tasks.joined results)) ≡ 0 = omega (
        arith,
        joining.joined_lem results bad_result,
        run_tasks-safe world api codec self.self_id key value ts safe (tasks.schedule pref_list) w,
        joining.schedule_lem pref_list bad,
        count-take-drop bad self.n all,
        members-good (λ m. safe m.id) all a,
      ) in
      let fs = failed-safe safe 0 [] (tasks.joined results) tt no_bad in
      let (ms₂, sub₂, len₂, held₂) =
        hint_slots_holders h pref_ids failed (drop self.n all) 0 w₁ fs g₂ in
      (
        ms₁ ++ ms₂,
        λ p. omega (
          arith,
          count-append p ms₁ ms₂,
          sub₁ p,
          sub₂ p,
          joining.schedule_lem pref_list p,
          count-take-drop p self.n all,
        ),
        omega (
          arith,
          length-append ms₁ ms₂,
          len₁,
          len₂,
          check_quorum-ok _ _ e,
          count_results-count 0 [] (tasks.joined results),
          joining.joined_lem results succeeded,
        ),
        All-append (λ m. Holds m _) ms₁ ms₂
            (IsHeld-hint_slots h pref_ids failed ms₁ (drop self.n all) 0 w₁ fs held₁) held₂,
      )
