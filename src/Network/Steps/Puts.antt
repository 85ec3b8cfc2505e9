-- ===== src/Network/Steps/Puts.antt =====
-- A coordinator's `put` (src/coordinator/mod.rs) by the steps of the cluster.
use diynamo.Base.{
  ℕ, ◌+◌, Bytes, bytes_eq, Bool, true, not, ok, List, [], ◌∷◌, ◌≡◌, arith, length, take, drop, map,
  All, ltb, Bool-cases, Result-cases, inl, inr, if◌then◌else◌,
}
use diynamo.Base.Bags.{count, count-take-drop}
use diynamo.Client.{with_http}
use diynamo.Cluster.Types.{MemberInfo, internal_base_url}
use diynamo.Cluster.Ring.{HashRing, ring_order_for_key}
use diynamo.Store.Database.{Database, Bincode}
use diynamo.Store.RocksdbStore.{StoredEntry, put_if_newer}
use diynamo.Store.Hints.{HintEntry}
use diynamo.Coordinator.{ReplicatedStore, JoinSet}
use diynamo.Coordinator.Put.{
  WriteResult, contains_id, count_results, write_task, local_write, remote_write, run_tasks,
  hint_write, try_candidates, hint_slots, replicate_write, slice_and_write, put,
}
use diynamo.Coordinator.Put.Results.{
  IsJoinSet, joined_results, AllSafe, run_tasks-safe, failed-safe, members-good,
}
use diynamo.Network.{Transport, IsTransport, Cluster, world, count_message}
use diynamo.Network.Steps.Sends.{versioned-Reaches, hint-Reaches}
use diynamo.Network.Steps.{Reaches, counts, writes}

module _ {Db : Type 0} {t : Transport} {is_plain : Bytes → Bool} (routing : IsTransport t is_plain)
    (api : Database Db) (stored : Bincode StoredEntry) (hinted : Bincode HintEntry)
    (w₀ : Cluster Db) (key value : Bytes) (ts : ℕ) (plain : is_plain key ≡ true)
    (self_id self_url : Bytes) where
  abbrev From : Cluster Db → Type 0
  From w = Reaches t api stored hinted w₀ w

  local-Reaches :
      (w : Cluster Db)
      → From w
      → From (local_write (world t api stored hinted self_url) api stored self_id key value ts w).1
  unfolding local_write
  local-Reaches w r =
      elim (Result-cases (put_if_newer api stored (w.node self_url).store key value ts)) [
        | inl (db, e) ↦ rw (e, local_write) (writes self_url key value ts db r e)
        | inr (x, e) ↦ rw (e, local_write) r
      ]

  run_tasks-Reaches :
      (cs : List MemberInfo) (w : Cluster Db)
      → From w
      → From (run_tasks (world t api stored hinted self_url) api stored self_id key value ts cs w).1
  unfolding run_tasks write_task remote_write
  run_tasks-Reaches [] w r = r
  run_tasks-Reaches (c ∷ cs) w r =
      run_tasks-Reaches cs _ (elim (Bool-cases (bytes_eq c.id self_id)) [
        | inl self ↦ rw self (local-Reaches w r)
        | inr peer ↦ rw peer (
            versioned-Reaches routing api stored hinted w₀ key value ts plain
              (with_http (internal_base_url c)) w r)
      ])

  try_candidates-Reaches :
      (pref_ids : List Bytes) (target_id : Bytes) (cs : List MemberInfo) (w : Cluster Db)
      → is_plain target_id ≡ true
      → From w
      → From
          (try_candidates
            (world t api stored hinted self_url)
            api
            stored
            self_id
            key
            value
            ts
            pref_ids
            target_id
            cs
            w).2
  unfolding try_candidates hint_write
  try_candidates-Reaches pref_ids target_id [] w p r = r
  try_candidates-Reaches pref_ids target_id (c ∷ cs) w p r =
      let hinted' =
        hint-Reaches routing api stored hinted w₀ key value ts plain
          (with_http (internal_base_url c)) target_id w p r in
      elim (Bool-cases (contains_id pref_ids c.id)) [
        | inl skip ↦ rw skip (try_candidates-Reaches pref_ids target_id cs w p r)
        | inr try ↦
            elim (Result-cases
              (hint_write (world t api stored hinted self_url) api stored self_id key value ts c
                target_id w).0) [
                  | inl (u, e) ↦ rw (try, e) hinted'
                  | inr (x, e) ↦
                      rw (try, e)
                        (try_candidates-Reaches pref_ids target_id cs
                          (hint_write (world t api stored hinted self_url) api stored self_id key
                            value ts c target_id w).1
                          p hinted')
                ]
      ]

  hint_slots-Reaches :
      (pref_ids targets : List Bytes) (cs : List MemberInfo) (acks : ℕ) (w : Cluster Db)
      → AllSafe is_plain targets
      → From w
      → From
          (hint_slots
            (world t api stored hinted self_url)
            api
            stored
            self_id
            key
            value
            ts
            pref_ids
            targets
            cs
            acks
            w).1
  unfolding hint_slots
  hint_slots-Reaches pref_ids [] cs acks w s r = r
  hint_slots-Reaches pref_ids (target_id ∷ targets) cs acks w s r =
      let (accepted, rest, w₁) =
        try_candidates (world t api stored hinted self_url) api stored self_id key value ts pref_ids
          target_id cs w in
      hint_slots-Reaches pref_ids targets rest (if accepted then acks + 1 else acks) w₁ s.1
        (try_candidates-Reaches pref_ids target_id cs w s.0 r)

-- Every `put` of a coordinator is made of the steps of `Reaches`, whatever is lost and however it
-- ends, for a key that stands in a URL's path as it is, as the ids of the members in its ring order
-- do.
pub put-Reaches :
    {Ring Db : Type 0} {t : Transport} {is_plain : Bytes → Bool} (routing : IsTransport t is_plain)
    (api : Database Db) (stored : Bincode StoredEntry) (hinted : Bincode HintEntry)
    {tasks : JoinSet MemberInfo WriteResult} (joining : IsJoinSet tasks)
    (self : ReplicatedStore Ring) (self_url key value : Bytes) (ring_api : HashRing Ring)
    (all : List MemberInfo) (w₀ w : Cluster Db)
    → ring_order_for_key ring_api self.ring key ≡ ok all
    → is_plain key ≡ true
    → All (λ m. is_plain m.id ≡ true) all
    → Reaches t api stored hinted w₀ w
    → Reaches t api stored hinted w₀
        (put (world t api stored hinted self_url) api stored tasks self key value ring_api w).1
unfolding put slice_and_write replicate_write
put-Reaches {t = t} {is_plain = is_plain} routing api stored hinted {tasks = tasks} joining self
      self_url key value ring_api all w₀ w order plain ids r =
    let ts = t.clock w.messages in
    let pref_list = take self.n all in
    let (results, w₁) =
      run_tasks (world t api stored hinted self_url) api stored self.self_id key value ts
        (tasks.schedule pref_list) (count_message w) in
    let failed = (count_results 0 [] (tasks.joined results)).1 in
    let bad = λ (m : MemberInfo). not (is_plain m.id) in
    let bad_result = λ (x : WriteResult). not (is_plain x.0) in
    let no_bad : count bad_result (joined_results (tasks.joined results)) ≡ 0 = omega (
      arith,
      joining.joined_lem results bad_result,
      run_tasks-safe (world t api stored hinted self_url) api stored self.self_id key value ts
          is_plain (tasks.schedule pref_list) (count_message w),
      joining.schedule_lem pref_list bad,
      count-take-drop bad self.n all,
      members-good (λ m. is_plain m.id) all ids,
    ) in
    elim (Bool-cases (ltb (length all) self.n)) [
      | inl short ↦ rw (order, short) (counts r)
      | inr long ↦
          rw (order, long)
            (hint_slots-Reaches routing api stored hinted w₀ key value ts plain self.self_id
              self_url (map (λ m. m.id) pref_list) failed (drop self.n all) 0 w₁
              (failed-safe is_plain 0 [] (tasks.joined results) tt no_bad)
              (run_tasks-Reaches routing api stored hinted w₀ key value ts plain self.self_id
                self_url (tasks.schedule pref_list) (count_message w) (counts r)))
    ]
