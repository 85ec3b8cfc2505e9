-- ===== src/Network/Puts.antt =====
-- Who holds a write after `ReplicatedStore::put` (src/coordinator/mod.rs) on the cluster.
use diynamo.Base.{
  ℕ, ◌≤◌, Bytes, Bool, true, ok, ◌≡◌, List, length, All, Bool-cases, Result-cases, inl, inr, ltb,
  arith,
}
use diynamo.Base.Bags.{SubBag}
use diynamo.Cluster.Types.{MemberInfo}
use diynamo.Cluster.Ring.{HashRing, ring_order_for_key}
use diynamo.Store.Database.{Database, IsDatabase, Bincode, IsBincode}
use diynamo.Store.RocksdbStore.{StoredEntry}
use diynamo.Store.Hints.{HintEntry}
use diynamo.Server.{FaultFlags, answered}
use diynamo.Server.Public.{put_status, put_kv}
use diynamo.Coordinator.{ReplicatedStore, JoinSet}
use diynamo.Coordinator.Put.{WriteResult, slice_and_write, put}
use diynamo.Coordinator.Put.Results.{IsJoinSet}
use diynamo.Coordinator.Put.Holders.{replicate_write_holders}
use diynamo.Network.{Transport, IsTransport, Cluster, world, count_message}
use diynamo.Network.Holds.{NodeHolds, StoreHolds-put_if_newer}
use diynamo.Network.Holds.Durable.{place, is_addressed, Accepts, Replicates-cluster}
use diynamo.Network.Holds.Replicas.{put_versioned-IsReplica, put_hint-IsReplica}
use diynamo.Coordinator.Put.Results.{Replicates}
use diynamo.Network.Holds.Sent.{Holds}

module _ {Db : Type 0} {t : Transport} {is_plain : Bytes → Bool} (routing : IsTransport t is_plain)
    {api : Database Db} {stored : Bincode StoredEntry} {hinted : Bincode HintEntry}
    (laws : IsDatabase api) (coding : IsBincode stored) (hint_coding : IsBincode hinted)
    (self_id self_url key value : Bytes) (ts : ℕ) (plain : is_plain key ≡ true) where
  NodeHolds-Accepts :
      Accepts routing api stored hinted
        (NodeHolds laws coding hint_coding key value ts)
        key
        value
        ts
  unfolding NodeHolds
  NodeHolds-Accepts = record {
    stores =
        λ n db e. inl (StoreHolds-put_if_newer laws coding hint_coding key value ts n.store db e);
    versioned = put_versioned-IsReplica routing laws coding hint_coding key value ts;
  }

  NodeHolds-Replicates :
      Replicates
        (world t api stored hinted self_url)
        api
        stored
        self_id
        key
        value
        ts
        (is_addressed self_id self_url)
        (λ m w. Holds (NodeHolds laws coding hint_coding key value ts) (place m) w)
        is_plain
  NodeHolds-Replicates =
      Replicates-cluster NodeHolds-Accepts self_id self_url plain
        (put_hint-IsReplica routing laws coding hint_coding key value ts)

module _ {Ring Db : Type 0} {t : Transport} {is_plain : Bytes → Bool}
    (routing : IsTransport t is_plain) {api : Database Db} {stored : Bincode StoredEntry}
    {hinted : Bincode HintEntry} (laws : IsDatabase api) (coding : IsBincode stored)
    (hint_coding : IsBincode hinted) {tasks : JoinSet MemberInfo WriteResult}
    (joining : IsJoinSet tasks) (self : ReplicatedStore Ring) (self_url key value : Bytes) where
  -- Suppose that a coordinator's `put` reports success, for a key that stands in a URL's path as it
  -- is, as the ids of the members in its ring order do, and that the coordinator's own member, if
  -- it is among them, has the coordinator's URL. Whatever messages were lost and in whatever order
  -- the tasks ran, there are different members of the ring order, at least `w` of them, such that
  -- the server of each, when `put` returns, has at the key an entry of its local store that is at
  -- least as new as the write, or keeps the write itself as a hint.
  pub put_durable :
      (ring_api : HashRing Ring) (all : List MemberInfo) (w : Cluster Db)
      → ring_order_for_key ring_api self.ring key ≡ ok all
      → is_plain key ≡ true
      → All (λ m. is_plain m.id ≡ true) all
      → All (λ m. is_addressed self.self_id self_url m ≡ true) all
      → (put (world t api stored hinted self_url) api stored tasks self key value ring_api w).0
        ≡ ok tt
      → (ms : List MemberInfo) × SubBag ms all
        × (self.w ≤ length ms)
        × All
            (λ m. NodeHolds laws coding hint_coding key value (t.clock w.messages) (
              (put
                  (world t api stored hinted self_url)
                  api
                  stored
                  tasks
                  self
                  key
                  value
                  ring_api
                  w).1.node
                (place m)))
            ms
  unfolding put slice_and_write
  put_durable ring_api all w order plain ids addressed e =
      let r =
        NodeHolds-Replicates routing laws coding hint_coding self.self_id self_url key value
          (t.clock w.messages) plain in
      elim (Bool-cases (ltb (length all) self.n)) [
        | inl short ↦ ground (arith, order, short, e)
        | inr long ↦
            rw (order, long)
              (unfold Holds in
                replicate_write_holders joining self r all (count_message w) ids addressed
                  (rw (order, long) at e))
      ]

  -- The same for a client: if the public handler `put_kv` of the coordinator answers a write, then, under
  -- the conditions of `put_durable`, at least `w` different members of the ring order hold it in
  -- their local stores, or a write at least as new, or keep it as a hint.
  pub put_kv_durable :
      (ring_api : HashRing Ring) (all : List MemberInfo) (faults : FaultFlags) (s : ℕ)
      (w : Cluster Db)
      → ring_order_for_key ring_api self.ring key ≡ ok all
      → is_plain key ≡ true
      → All (λ m. is_plain m.id ≡ true) all
      → All (λ m. is_addressed self.self_id self_url m ≡ true) all
      → (put_kv ring_api
          (world t api stored hinted self_url)
          api
          stored
          self
          tasks
          faults
          key
          (record { value = value })
          w).0
        ≡ answered s
      → (ms : List MemberInfo) × SubBag ms all
        × (self.w ≤ length ms)
        × All
            (λ m. NodeHolds laws coding hint_coding key value (t.clock w.messages) (
              (put_kv ring_api
                  (world t api stored hinted self_url)
                  api
                  stored
                  self
                  tasks
                  faults
                  key
                  (record { value = value })
                  w).1.node
                (place m)))
            ms
  unfolding put_kv put_status
  put_kv_durable ring_api all faults s w order plain ids addressed e =
      elim (Bool-cases faults.block_public) [
        | inl blocked ↦ cc (rw blocked at e)
        | inr open_node ↦
            elim (Result-cases
              (put (world t api stored hinted self_url) api stored tasks self key value ring_api
                w).0) [
                  | inl (u, done) ↦
                      rw open_node (put_durable ring_api all w order plain ids addressed done)
                  | inr (x, failure) ↦ cc (rw (open_node, failure) at e)
                ]
      ]
