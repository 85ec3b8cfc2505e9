-- ===== src/Coordinator/Put.antt =====
-- `ReplicatedStore::put` (src/coordinator/mod.rs): parallel writes, then hints for the failed ones.
pub mod Results
pub mod Holders
pub mod Strict
pub mod Outcomes
pub mod Live
use diynamo.Base.{
  ℕ, suc, ◌+◌, ◌-◌, Bytes, bytes_eq, length, take, drop, map, Bool, true, false, ◌||◌, Error,
  quorum_failed, panicked, Result, ok, err, Option, none, some, List, [], ◌∷◌, ◌++◌, ltb, leb,
  if◌then◌else◌,
}
use diynamo.Base.Exec.{Exec, continue, lift}
use diynamo.Cluster.Types.{MemberInfo, internal_base_url}
use diynamo.Cluster.Ring.{HashRing, ring_order_for_key}
use diynamo.Client
use diynamo.Client.{with_http, put_internal_versioned_bytes, put_hint_versioned_bytes}
use diynamo.Store.Database.{Database, Bincode}
use diynamo.Store.RocksdbStore.{StoredEntry, put_if_newer}
use diynamo.Coordinator.{ReplicatedStore, World, JoinSet}

-- A write task's result: the node's id, and how the write went.
abbrev pub WriteResult : Type 0
WriteResult = Bytes × Result (Unit {0})

-- `pref_ids.contains(id)`
unfoldable pub contains_id : List Bytes → Bytes → Bool
contains_id [] id = false
contains_id (j ∷ ids) id = bytes_eq j id || contains_id ids id

-- The loop over `join_next`: the acknowledgements, and the failed ids in the order they come. A task
-- that panicked adds to neither.
unfoldable pub count_results : ℕ → List Bytes → List (Option WriteResult) → ℕ × List Bytes
count_results real_acks failed [] = (real_acks, failed)
count_results real_acks failed (some (id, ok _) ∷ rest) = count_results (real_acks + 1) failed rest
count_results real_acks failed (some (id, err _) ∷ rest) =
    count_results real_acks (failed ++ id ∷ []) rest
count_results real_acks failed (none ∷ rest) = count_results real_acks failed rest

module _ {Db W : Type 0} (world : World Db W) (api : Database Db) (codec : Bincode StoredEntry)
    (self_id key value : Bytes) (ts : ℕ) where
  -- the local branch of a write task
  unfoldable pub local_write : Exec W (Unit {0})
  local_write w = elim (put_if_newer api codec (world.local w) key value ts) [
    | ok db ↦ (ok tt, world.set_local db w)
    | err e ↦ (err e, w)
  ]

  -- the remote branch
  unfoldable pub remote_write : MemberInfo → Exec W (Unit {0})
  remote_write member =
      put_internal_versioned_bytes world.send (with_http (internal_base_url member)) key value ts

  -- the task spawned for a member
  unfoldable pub write_task : MemberInfo → W → Result (Unit {0}) × W
  write_task member w = if bytes_eq member.id self_id then local_write w else remote_write member w

  -- the tasks, one after another in the order in which they act
  unfoldable pub run_tasks : List MemberInfo → W → List WriteResult × W
  run_tasks [] w = ([], w)
  run_tasks (member ∷ members) w =
      let (r, w') = write_task member w in
      let (rs, w'') = run_tasks members w' in ((member.id, r) ∷ rs, w'')

  -- one attempt of phase 2
  unfoldable pub hint_write : MemberInfo → Bytes → Exec W (Unit {0})
  hint_write candidate target_id =
      put_hint_versioned_bytes world.send (with_http (internal_base_url candidate)) target_id key
        value ts

  -- The inner loop of phase 2: candidates from the cursor on, until one accepts. Returns whether one
  -- did, and the candidates behind the cursor.
  unfoldable pub try_candidates :
      List Bytes → Bytes → List MemberInfo → W → Bool × List MemberInfo × W
  try_candidates pref_ids target_id [] w = (false, [], w)
  try_candidates pref_ids target_id (candidate ∷ rest) w =
      let skip = try_candidates pref_ids target_id rest w in
      let (r, w') = hint_write candidate target_id w in
      let next = try_candidates pref_ids target_id rest w' in
      if contains_id pref_ids candidate.id
      then skip
      else elim r [ ok _ ↦ (true, rest, w') | err _ ↦ next ]

  -- The outer loop: the failed ids in order, one cursor over the candidates.
  unfoldable pub hint_slots : List Bytes → List Bytes → List MemberInfo → ℕ → W → ℕ × W
  hint_slots pref_ids [] candidates hint_acks w = (hint_acks, w)
  hint_slots pref_ids (target_id ∷ targets) candidates hint_acks w =
      let (accepted, rest, w') = try_candidates pref_ids target_id candidates w in
      hint_slots pref_ids targets rest (if accepted then hint_acks + 1 else hint_acks) w'

-- The final test.
unfoldable pub check_quorum : ℕ → ℕ → Result (Unit {0})
check_quorum acks required = if leb required acks then ok tt else err (quorum_failed acks required)

module _ {Ring Db W : Type 0} (world : World Db W) (api : Database Db) (codec : Bincode StoredEntry)
    (tasks : JoinSet MemberInfo WriteResult) (self : ReplicatedStore Ring) (key value : Bytes) where
  -- Phases 1 and 2 on the ring order of the key, and the final test.
  unfoldable pub replicate_write : ℕ → List MemberInfo → Exec W (Unit {0})
  replicate_write ts all_in_order w =
      let pref_list = take self.n all_in_order in
      let hint_candidates = drop self.n all_in_order in
      let pref_ids = map (λ m. m.id) pref_list in
      let (results, w₁) =
        run_tasks world api codec self.self_id key value ts (tasks.schedule pref_list) w in
      let (real_acks, failed_node_ids) = count_results 0 [] (tasks.joined results) in
      let (hint_acks, w₂) =
        hint_slots world api codec self.self_id key value ts pref_ids failed_node_ids
          hint_candidates 0 w₁ in
      (check_quorum (real_acks + hint_acks) self.w, w₂)

  -- The slices `[..n]` and `[n..]` panic if the ring order has fewer than `n` members.
  unfoldable pub slice_and_write : ℕ → List MemberInfo → Exec W (Unit {0})
  slice_and_write ts all_in_order w =
      if ltb (length all_in_order) self.n
      then (err (panicked "range end index out of range for slice"), w)
      else replicate_write ts all_in_order w

  -- `ReplicatedStore::put`
  unfoldable pub put : HashRing Ring → Exec W (Unit {0})
  put ring_api w =
      let (ts, w') = world.now_millis w in
      continue (ring_order_for_key ring_api self.ring key) (slice_and_write ts) w'
