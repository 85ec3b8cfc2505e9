-- ===== src/Network/Healed.antt =====
-- What a read without losses leaves at the preferred members, once its repairs have run: `get` in
-- src/coordinator/mod.rs on the cluster.
pub mod Replies
pub mod Due
use mathlib.Core.Option
use diynamo.Base.{
  ℕ, ◌≤◌, ◌<◌, Bytes, bytes_eq, bytes_eq→eq, bytes_eq_refl, bytes_eq_iff, Bool, true, false, not,
  ◌&&◌, Result, ok, err, ok-injective, Result-cases, Option, none, some, List, [], ◌∷◌, ◌≡◌, ◌⊎◌,
  refl, sym, ap, subst, ◌∙◌, arith, In, All, All-In, Bool-cases, inl, inr, leb, leb→le, guard-eq-ok,
  ltb, length, Option-cases,
}
use diynamo.Base.Bags.{count, In-count, count-In}
use diynamo.Base.Utf8.{is_utf8}
use diynamo.Client.{
  KvClient, with_http, get_internal_versioned, get_request, internal_kv_url, send_with,
  read_internal_response,
}
use diynamo.Cluster.Types.{MemberInfo, internal_base_url}
use diynamo.Cluster.Ring.{HashRing, preference_list_for_key}
use diynamo.Server.{Node, get_response, local_answer, get_kv_internal}
use diynamo.Store.{VersionedValue}
use diynamo.Store.Database.{Database, IsDatabase, Bincode, IsBincode}
use diynamo.Store.RocksdbStore
use diynamo.Store.RocksdbStore.{StoredEntry, versioned}
use diynamo.Store.RocksdbStore.Lww.{view, get-view}
use diynamo.Store.Hints.{HintEntry}
use diynamo.Coordinator.{ReplicatedStore, JoinSet}
use diynamo.Coordinator.Put.Results.{IsJoinSet, joined_results}
use diynamo.Coordinator.Put.Live.{NoPanic}
use diynamo.Coordinator.Get.{
  ReadResult, ReadResponse, Repair, read_task, run_reads, read_members, collect_responses,
  resolve_read, spawn_repairs, winner_of, needs_repair, get, repair, run_repairs,
}
use diynamo.Coordinator.Get.Quorum.{is_stale_answer, is_recent}
use diynamo.Coordinator.Get.Repairs.{Stale, spawn_repairs_iff, needs_repair-Stale}
use diynamo.Network.{
  Transport, IsTransport, arrives, Cluster, count_message, set_node, json_response, dispatch, serve,
  transmit, send, world,
}
use diynamo.Network.Holds.{StoreHolds}
use diynamo.Network.Holds.Durable.{place, is_addressed}
use diynamo.Network.Live.{Takes, Serving}
use diynamo.Network.Reads.{IsFrozen, reads-IsFaithful}
use diynamo.Network.Steps.{now, Reaches-StoreHolds}
use diynamo.Network.Steps.Gets.{run_repairs-Reaches}
use diynamo.Network.Taken.{versioned-Up, versioned-StoreHolds}
use diynamo.Network.Healed.Replies.{Answers, run_reads-In, run_reads-IsFrozen}
use diynamo.Network.Healed.Due.{resolve_read-ok, due_repair, not_due-StoreHolds}

module _ {Db : Type 0} {t : Transport} {is_plain : Bytes → Bool} (routing : IsTransport t is_plain)
    (api : Database Db) (stored : Bincode StoredEntry) (hinted : Bincode HintEntry)
    (arriving : (n : ℕ) → t.fate n ≡ arrives) (key : Bytes) (plain : is_plain key ≡ true)
    (text : is_utf8 key ≡ true) {Ring : Type 0} (ring_api : HashRing Ring)
    (tasks : JoinSet MemberInfo ReadResult) (self : ReplicatedStore Ring) (self_url : Bytes) where
  abbrev repaired : List Repair → Cluster Db → Cluster Db
  repaired = run_repairs ring_api (world t api stored hinted self_url) api stored tasks self key

  module _ (laws : IsDatabase api) (coding : IsBincode stored) (hint_coding : IsBincode hinted)
      (Ready : Db → Type 0)
      (takes : (key value : Bytes) (ts : ℕ) → Takes api stored key value ts Ready) where
    -- A repair that is in the list has been taken.
    run_repairs-StoreHolds :
        (order : List Repair) (url : Bytes) (v : VersionedValue) (w : Cluster Db)
        → is_utf8 v.data' ≡ true
        → In {A = Repair} (url, v) order
        → Serving Ready (w.node (with_http url).base_url)
        → StoreHolds laws coding hint_coding key v.data' v.timestamp
            ((repaired order w).node (with_http url).base_url).store
    unfolding run_repairs repair
    run_repairs-StoreHolds [] url v w x i up = absurd i
    run_repairs-StoreHolds ((u, v') ∷ order) url v w x (inr i) up =
        run_repairs-StoreHolds order url v _ x i (
          versioned-Up routing laws coding hint_coding arriving Ready takes (with_http u) key
            v'.data' v'.timestamp plain (with_http url).base_url w up)
    run_repairs-StoreHolds (task ∷ order) url v w x (inl e) up =
        let w' =
          repair ring_api (world t api stored hinted self_url) api stored tasks self key (url, v)
            w in
        subst
          (λ (y : Repair).
            StoreHolds laws coding hint_coding key v.data' v.timestamp
              ((repaired order (
                  repair ring_api (world t api stored hinted self_url) api stored tasks self key y
                    w)).node
                (with_http url).base_url).store)
          e
          (Reaches-StoreHolds t laws coding hint_coding key v.data' v.timestamp w'
            (repaired order w') (with_http url).base_url
            (run_repairs-Reaches routing api stored hinted ring_api tasks self self_url key plain w'
              order w' now)
            (versioned-StoreHolds routing laws coding hint_coding arriving Ready takes
              (with_http url) key v.data' v.timestamp plain text x w up))

-- Suppose that no message is lost and no task panics, and that a read of a key finds a value; the
-- key and the value are text, and the key stands in a URL's path as it is. Then every preferred
-- member whose server answers reads of the key and takes writes has, once the repairs that the read
-- spawned have run, an entry at least as new as the value that was read: in whatever order the
-- tasks and the repairs run, with other repairs of the key between them.
pub read_repair_heals :
    {Ring Db : Type 0} {t : Transport} {is_plain : Bytes → Bool} (routing : IsTransport t is_plain)
    {api : Database Db} {stored : Bincode StoredEntry} {hinted : Bincode HintEntry}
    (laws : IsDatabase api) (coding : IsBincode stored) (hint_coding : IsBincode hinted)
    {tasks : JoinSet MemberInfo ReadResult} (joining : IsJoinSet tasks) (no_panic : NoPanic tasks)
    (self : ReplicatedStore Ring) (self_url key : Bytes) (ring_api : HashRing Ring)
    (pref_list : List MemberInfo) (w : Cluster Db) (v : VersionedValue)
    (repairs order : List Repair) (Ready : Db → Type 0) (m : MemberInfo)
    (found : Option VersionedValue)
    → ((n : ℕ) → t.fate n ≡ arrives)
    → is_plain key ≡ true
    → is_utf8 key ≡ true
    → is_utf8 v.data' ≡ true
    → ((k x : Bytes) (ts : ℕ) → Takes api stored k x ts Ready)
    → preference_list_for_key ring_api self.ring key self.n ≡ ok pref_list
    → All (λ m. is_addressed self.self_id self_url m ≡ true) pref_list
    → (get ring_api (world t api stored hinted self_url) api stored tasks self key w).0
      ≡ ok (some v, repairs)
    → ((x : Repair) → In x repairs → In x order)
    → In m pref_list
    → Answers api stored key (w.node (place m)) found
    → Serving Ready (w.node (place m))
    → StoreHolds laws coding hint_coding key v.data' v.timestamp
        ((run_repairs ring_api
            (world t api stored hinted self_url)
            api
            stored
            tasks
            self
            key
            order
            (get ring_api (world t api stored hinted self_url) api stored tasks self key w).1).node
          (place m)).store
unfolding get read_members
read_repair_heals {t = t} routing {api = api} {stored = stored} {hinted = hinted} laws coding
      hint_coding {tasks = tasks} joining no_panic self self_url key ring_api pref_list w v repairs
      order Ready m found arriving plain text value_text takes p addressed e all_run i a up =
    let url = internal_base_url m in
    let good = λ (x : MemberInfo).
      bytes_eq (internal_base_url x) url && is_addressed self.self_id self_url x in
    let mine : good m ≡ true = ground (
      arith,
      bytes_eq_refl url,
      All-In (λ x. is_addressed self.self_id self_url x ≡ true) m pref_list addressed i,
    ) in
    let (x, ix, gx) =
      count-In good (tasks.schedule pref_list)
        (omega (arith, joining.schedule_lem pref_list good, In-count good m pref_list i mine)) in
    let same : internal_base_url x ≡ url = bytes_eq→eq _ _ (ground (arith, gx)) in
    let (results, w') =
      run_reads ring_api (world t api stored hinted self_url) api stored tasks self key
        (tasks.schedule pref_list) w in
    let frozen =
      run_reads-IsFrozen routing api stored hinted arriving key plain text ring_api tasks self
        self_url laws coding w (tasks.schedule pref_list) w (λ u. refl) in
    let (won, spawned) =
      resolve_read-ok self.r (collect_responses (tasks.joined results)) (some v) repairs
        (rw p at e) in
    let asked : In {A = ReadResult} (url, ok found) results =
      subst (λ (u : Bytes). In {A = ReadResult} (u, ok found) results) same
        (run_reads-In routing api stored hinted arriving key plain text ring_api tasks self self_url
          laws coding w x found (ground (arith, gx))
          (subst (λ (u : Bytes). Answers api stored key (w.node (with_http u).base_url) found)
            (sym same) a)
          (tasks.schedule pref_list) w (λ u. refl) ix) in
    rw p (elim (Bool-cases (needs_repair v.timestamp found)) [
      | inl need ↦
          run_repairs-StoreHolds routing api stored hinted arriving key plain text ring_api tasks
            self self_url laws coding hint_coding Ready takes order url v w' value_text
            (all_run (url, v)
              (due_repair tasks no_panic results url found v repairs asked need won spawned))
            (subst (Serving Ready) (sym (frozen (place m))) up)
      | inr newer ↦
          Reaches-StoreHolds t laws coding hint_coding key v.data' v.timestamp w' _ (place m)
            (run_repairs-Reaches routing api stored hinted ring_api tasks self self_url key plain w'
              order w' now)
            (subst
              (λ (n : Node _). StoreHolds laws coding hint_coding key v.data' v.timestamp n.store)
              (sym (frozen (place m)))
              (not_due-StoreHolds laws coding hint_coding key (w.node (place m)) found v a newer))
    ])
