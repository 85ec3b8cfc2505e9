-- ===== src/Network/Runs.antt =====
-- The cluster while its coordinators and hand-offs work: src/coordinator/mod.rs and
-- src/coordinator/handoff.rs on the servers of src/server/mod.rs.
pub mod Sessions
use diynamo.Base.{
  ℕ, Bytes, Bool, true, Result, ok, err, List, ◌≡◌, subst, sym, map, All, Result-cases, inl, inr,
}
use diynamo.Client.{with_http}
use diynamo.Cluster.Types.{MemberInfo}
use diynamo.Cluster.Membership.{GossipNode, Memberlist, online_members}
use diynamo.Cluster.Ring.{HashRing, CoordinatorRing, ring_order_for_key}
use diynamo.Server.{FaultFlags}
use diynamo.Store.Database.{Database, Bincode}
use diynamo.Store.RocksdbStore.{StoredEntry, iter_all}
use diynamo.Store.Hints.{HintEntry, hints_for_node}
use diynamo.Coordinator.{ReplicatedStore, JoinSet}
use diynamo.Coordinator.Put.{WriteResult}
use diynamo.Coordinator.Put
use diynamo.Coordinator.Put.Results.{IsJoinSet}
use diynamo.Coordinator.Get.{ReadResult, Repair}
use diynamo.Coordinator.Get
use diynamo.Coordinator.Handoff.Deliver.{deliver_hints}
use diynamo.Coordinator.Handoff.Reconcile.{reconcile_keys}
use diynamo.Network.{Transport, IsTransport, Cluster, set_node, send, world}
use diynamo.Network.Steps.{Reaches, now, changes, counts}
use diynamo.Network.Steps.Puts.{put-Reaches}
use diynamo.Network.Steps.Gets.{get-Reaches, repair-Reaches}
use diynamo.Network.Steps.Handoffs.{PlainItem, PlainHints, deliver_hints-Reaches, push_all-Reaches}

-- The ids of the members in a ring order stand in a URL's path as they are.
abbrev pub PlainMembers : (Bytes → Bool) → Result (List MemberInfo) → Type 0
PlainMembers is_plain (ok all) = All (λ m. is_plain m.id ≡ true) all
PlainMembers is_plain (err e) = Unit

module _ {Db : Type 0} (t : Transport) (api : Database Db) (stored : Bincode StoredEntry)
    (hinted : Bincode HintEntry) where
  -- A server's hand-off task delivers the hints in its own hint store.
  unfoldable pub hand_over : Result (Unit {0}) → Bytes → Bytes → Bytes → Cluster Db → Cluster Db
  hand_over http url node_id node_url w =
      let (hints, w') =
        deliver_hints api hinted (send t api stored hinted) http node_id node_url (w.node url).hints
          w in
      set_node w' url (record (w'.node url) { hints = hints })

  module _ {Ring Handle Events : Type 0} (is_plain : Bytes → Bool) (ring_api : HashRing Ring)
      (memberlist : Memberlist Handle Events (Cluster Db)) where
    -- What the parts of the program do one behind the other, each from its start to its end.
    pub data Runs (w : Cluster Db) : Cluster Db → Type 0 where
      starts : Runs w w
      puts :
          {w' : Cluster Db} (tasks : JoinSet MemberInfo WriteResult) (self : ReplicatedStore Ring)
          (self_url key value : Bytes)
          → Runs w w'
          → IsJoinSet tasks
          → is_plain key ≡ true
          → PlainMembers is_plain (ring_order_for_key ring_api self.ring key)
          → Runs w
              (Put.put
                (world t api stored hinted self_url)
                api
                stored
                tasks
                self
                key
                value
                ring_api
                w').1
      gets :
          {w' : Cluster Db} (tasks : JoinSet MemberInfo ReadResult) (self : ReplicatedStore Ring)
          (self_url key : Bytes)
          → Runs w w'
          → is_plain key ≡ true
          → Runs w
              (Get.get ring_api (world t api stored hinted self_url) api stored tasks self key w').1
      repairs :
          {w' : Cluster Db} (tasks : JoinSet MemberInfo ReadResult) (self : ReplicatedStore Ring)
          (self_url key : Bytes) (task : Repair)
          → Runs w w'
          → is_plain key ≡ true
          → Runs w (
              Get.repair ring_api
                (world t api stored hinted self_url)
                api
                stored
                tasks
                self
                key
                task
                w')
      delivers :
          {w' : Cluster Db} (http : Result (Unit {0})) (url node_id node_url : Bytes)
          → Runs w w'
          → PlainHints is_plain (hints_for_node api hinted (w'.node url).hints node_id)
          → Runs w (hand_over http url node_id node_url w')
      reconciles :
          {w' : Cluster Db} (http : Result (Unit {0})) (url self_id node_id node_url : Bytes)
          (ring : CoordinatorRing Ring) (gossip : GossipNode Handle Events) (n : ℕ)
          → Runs w w'
          → (online_members memberlist gossip w').1 ≡ w'
          → All
              (PlainItem is_plain ring_api ring
                (map (λ m. m.id) (online_members memberlist gossip w').0)
                self_id
                node_id
                n)
              (iter_all api stored (w'.node url).store)
          → Runs w (
              reconcile_keys ring_api memberlist
                (send t api stored hinted)
                http
                api
                stored
                (w'.node url).store
                ring
                gossip
                self_id
                node_id
                node_url
                n
                w')
      faults :
          {w' : Cluster Db} (url : Bytes) (flags : FaultFlags)
          → Runs w w'
          → Runs w (set_node w' url (record (w'.node url) { faults = flags }))

module _ {Ring Handle Events Db : Type 0} {t : Transport} {is_plain : Bytes → Bool}
    (routing : IsTransport t is_plain) (api : Database Db) (stored : Bincode StoredEntry)
    (hinted : Bincode HintEntry) (ring_api : HashRing Ring)
    (memberlist : Memberlist Handle Events (Cluster Db)) (w₀ : Cluster Db) where
  abbrev From : Cluster Db → Type 0
  From w = Reaches t api stored hinted w₀ w

  put_any-Reaches :
      (tasks : JoinSet MemberInfo WriteResult) (self : ReplicatedStore Ring)
      (self_url key value : Bytes) (w : Cluster Db)
      → IsJoinSet tasks
      → is_plain key ≡ true
      → PlainMembers is_plain (ring_order_for_key ring_api self.ring key)
      → From w
      → From
          (Put.put
            (world t api stored hinted self_url)
            api
            stored
            tasks
            self
            key
            value
            ring_api
            w).1
  unfolding Put.put
  put_any-Reaches tasks self self_url key value w joining plain ids r =
      elim (Result-cases (ring_order_for_key ring_api self.ring key)) [
        | inl (all, e) ↦
            put-Reaches routing api stored hinted joining self self_url key value ring_api all w₀ w
              e plain (rw e at ids) r
        | inr (x, e) ↦ rw e (counts r)
      ]

  hand_over-Reaches :
      (http : Result (Unit {0})) (url node_id node_url : Bytes) (w : Cluster Db)
      → PlainHints is_plain (hints_for_node api hinted (w.node url).hints node_id)
      → From w
      → From (hand_over t api stored hinted http url node_id node_url w)
  unfolding hand_over
  hand_over-Reaches http url node_id node_url w plain r =
      let (hints, w') =
        deliver_hints api hinted (send t api stored hinted) http node_id node_url (w.node url).hints
          w in
      changes url hints (w'.node url).faults (
        deliver_hints-Reaches routing api stored hinted w₀ http node_id node_url (w.node url).hints
          w plain r)

  -- Let coordinators with their writes, reads and repairs, and hand-offs with their deliveries and
  -- reconciliations, run one behind the other, each from its start to its end, with every `put_if_newer`
  -- in one step. What they do to the cluster is made of the steps of `Reaches`, however each of them
  -- ends and whatever is lost: for keys and ids that stand in a URL's path as they are, and a gossip
  -- library whose queries leave the servers alone.
  pub Runs-Reaches :
      {w : Cluster Db} → Runs t api stored hinted is_plain ring_api memberlist w₀ w → From w
  unfolding reconcile_keys
  Runs-Reaches starts = now
  Runs-Reaches (puts {w'} tasks self self_url key value r joining plain ids) =
      put_any-Reaches tasks self self_url key value w' joining plain ids (Runs-Reaches r)
  Runs-Reaches (gets {w'} tasks self self_url key r plain) =
      get-Reaches routing api stored hinted ring_api tasks self self_url key plain w₀ w'
        (Runs-Reaches r)
  Runs-Reaches (repairs {w'} tasks self self_url key task r plain) =
      repair-Reaches routing api stored hinted ring_api tasks self self_url key plain w₀ task w'
        (Runs-Reaches r)
  Runs-Reaches (delivers {w'} http url node_id node_url r plain) =
      hand_over-Reaches http url node_id node_url w' plain (Runs-Reaches r)
  Runs-Reaches (reconciles {w'} http url self_id node_id node_url ring gossip n r same plain) =
      let r' = subst From (sym same) (Runs-Reaches r) in
      elim (Result-cases http) [
        | inl (built, e) ↦ rw e (
            push_all-Reaches routing api stored hinted w₀ ring_api ring
              (map (λ m. m.id) (online_members memberlist gossip w').0) self_id node_id n
              (with_http node_url) (iter_all api stored (w'.node url).store)
              (online_members memberlist gossip w').1 plain r')
        | inr (x, e) ↦ rw e r'
      ]
  Runs-Reaches (faults {w'} url flags r) = changes url (w'.node url).hints flags (Runs-Reaches r)
