-- ===== src/Network/Steps/Gets.antt =====
-- A coordinator's `get` and the repairs that it spawns (src/coordinator/mod.rs) by the steps of the cluster.
use diynamo.Base.{
  Bytes, bytes_eq, Bool, true, List, [], ◌∷◌, ◌≡◌, Bool-cases, Result-cases, inl, inr,
}
use diynamo.Client.{with_http}
use diynamo.Cluster.Types.{MemberInfo, internal_base_url}
use diynamo.Cluster.Ring.{HashRing, preference_list_for_key}
use diynamo.Store.Database.{Database, Bincode}
use diynamo.Store.RocksdbStore.{StoredEntry}
use diynamo.Store.Hints.{HintEntry}
use diynamo.Coordinator.{ReplicatedStore, JoinSet}
use diynamo.Coordinator.Get.{
  ReadResult, Repair, read_task, run_reads, read_members, get, repair, run_repairs,
}
use diynamo.Network.{Transport, IsTransport, Cluster, world}
use diynamo.Network.Steps.Sends.{versioned-Reaches, read-Reaches}
use diynamo.Network.Steps.{Reaches}

module _ {Ring Db : Type 0} {t : Transport} {is_plain : Bytes → Bool}
    (routing : IsTransport t is_plain) (api : Database Db) (stored : Bincode StoredEntry)
    (hinted : Bincode HintEntry) (ring_api : HashRing Ring) (tasks : JoinSet MemberInfo ReadResult)
    (self : ReplicatedStore Ring) (self_url key : Bytes) (plain : is_plain key ≡ true)
    (w₀ : Cluster Db) where
  abbrev From : Cluster Db → Type 0
  From w = Reaches t api stored hinted w₀ w

  run_reads-Reaches :
      (ms : List MemberInfo) (w : Cluster Db)
      → From w
      → From
          (run_reads ring_api (world t api stored hinted self_url) api stored tasks self key ms w).1
  unfolding run_reads read_task
  run_reads-Reaches [] w r = r
  run_reads-Reaches (m ∷ ms) w r =
      run_reads-Reaches ms _ (elim (Bool-cases (bytes_eq m.id self.self_id)) [
        | inl own ↦ rw own r
        | inr peer ↦ rw peer (
            read-Reaches routing api stored hinted w₀ key (with_http (internal_base_url m)) w plain
              r)
      ])

  pub get-Reaches :
      (w : Cluster Db)
      → From w
      → From (get ring_api (world t api stored hinted self_url) api stored tasks self key w).1
  unfolding get read_members
  get-Reaches w r = elim (Result-cases (preference_list_for_key ring_api self.ring key self.n)) [
    | inl (pref_list, e) ↦ rw e (run_reads-Reaches (tasks.schedule pref_list) w r)
    | inr (x, e) ↦ rw e r
  ]

  pub repair-Reaches :
      (task : Repair) (w : Cluster Db)
      → From w
      → From (repair ring_api (world t api stored hinted self_url) api stored tasks self key task w)
  unfolding repair
  repair-Reaches (url, winner) w r =
      versioned-Reaches routing api stored hinted w₀ key winner.data' winner.timestamp plain
        (with_http url) w r

  pub run_repairs-Reaches :
      (order : List Repair) (w : Cluster Db)
      → From w
      → From (
          run_repairs ring_api
            (world t api stored hinted self_url)
            api
            stored
            tasks
            self
            key
            order
            w)
  unfolding run_repairs
  run_repairs-Reaches [] w r = r
  run_repairs-Reaches (task ∷ order) w r = run_repairs-Reaches order _ (repair-Reaches task w r)
