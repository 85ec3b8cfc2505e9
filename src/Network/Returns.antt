-- ===== src/Network/Returns.antt =====
-- What a returning node has after a reconciliation (`reconcile_keys`, src/coordinator/handoff.rs) on the
-- cluster.
pub mod Restored
use diynamo.Base.{
  ℕ, Bytes, Bool, true, Result, ok, err, List, [], ◌∷◌, map, ◌≡◌, inl, inr, In, Bool-cases, All,
  subst, sym,
}
use diynamo.Base.Utf8.{is_utf8}
use diynamo.Client.{KvClient, with_http}
use diynamo.Cluster.Membership.{GossipNode, Memberlist, online_members}
use diynamo.Cluster.Ring.{HashRing, CoordinatorRing}
use diynamo.Store.{VersionedValue}
use diynamo.Store.Database.{Database, IsDatabase, Bincode, IsBincode}
use diynamo.Store.RocksdbStore.{StoredEntry, iter_all}
use diynamo.Store.Hints.{HintEntry}
use diynamo.Coordinator.Handoff.Reconcile.{sends_key, push_item, push_all, reconcile_keys}
use diynamo.Network.{Transport, IsTransport, arrives, Cluster, send}
use diynamo.Network.Holds.{StoreHolds}
use diynamo.Network.Live.{Takes, Serving}
use diynamo.Network.Taken.{versioned-Up, versioned-StoreHolds}
use diynamo.Network.Steps.{now, Reaches-StoreHolds}
use diynamo.Network.Steps.Handoffs.{Item, PlainItem, push_all-Reaches}

module _ {Ring Db : Type 0} {t : Transport} {is_plain : Bytes → Bool}
    (routing : IsTransport t is_plain) {api : Database Db} {stored : Bincode StoredEntry}
    {hinted : Bincode HintEntry} (laws : IsDatabase api) (coding : IsBincode stored)
    (hint_coding : IsBincode hinted) (ring_api : HashRing Ring) (ring : CoordinatorRing Ring)
    (online_ids : List Bytes) (self_id node_id : Bytes) (n : ℕ) (c : KvClient)
    (arriving : (m : ℕ) → t.fate m ≡ arrives) (Ready : Db → Type 0)
    (takes : (key value : Bytes) (ts : ℕ) → Takes api stored key value ts Ready) where
  abbrev push : Result Item → Cluster Db → Cluster Db
  push = push_item ring_api ring online_ids self_id node_id n (send t api stored hinted) c

  abbrev pushes : List (Result Item) → Cluster Db → Cluster Db
  pushes = push_all ring_api ring online_ids self_id node_id n (send t api stored hinted) c

  abbrev Plain : Result Item → Type 0
  Plain = PlainItem is_plain ring_api ring online_ids self_id node_id n

  push-Up :
      (item : Result Item) (w : Cluster Db)
      → Plain item
      → Serving Ready (w.node c.base_url)
      → Serving Ready ((push item w).node c.base_url)
  unfolding push_item
  push-Up (err e) w p u = u
  push-Up (ok (key, vv)) w p u =
      elim (Bool-cases (sends_key ring_api ring online_ids self_id node_id n key)) [
        | inr skipped ↦ rw skipped u
        | inl sent ↦ rw sent (
            versioned-Up routing laws coding hint_coding arriving Ready takes c key vv.data'
              vv.timestamp (p sent) c.base_url w u)
      ]

  push-StoreHolds :
      (key : Bytes) (vv : VersionedValue) (w : Cluster Db)
      → Plain (ok (key, vv))
      → Serving Ready (w.node c.base_url)
      → sends_key ring_api ring online_ids self_id node_id n key ≡ true
      → is_utf8 key ≡ true
      → is_utf8 vv.data' ≡ true
      → StoreHolds laws coding hint_coding key vv.data' vv.timestamp
          ((push (ok (key, vv)) w).node c.base_url).store
  unfolding push_item
  push-StoreHolds key vv w p u sent text value_text = rw sent (
      versioned-StoreHolds routing laws coding hint_coding arriving Ready takes c key vv.data'
        vv.timestamp (p sent) text value_text w u)

  -- What one item brings stays.
  pushes-StoreHolds :
      (items : List (Result Item)) (key : Bytes) (vv : VersionedValue) (w : Cluster Db)
      → All Plain items
      → In (ok (key, vv)) items
      → Serving Ready (w.node c.base_url)
      → sends_key ring_api ring online_ids self_id node_id n key ≡ true
      → is_utf8 key ≡ true
      → is_utf8 vv.data' ≡ true
      → StoreHolds laws coding hint_coding key vv.data' vv.timestamp
          ((pushes items w).node c.base_url).store
  unfolding push_all
  pushes-StoreHolds [] key vv w p m u sent text value_text = absurd m
  pushes-StoreHolds (item ∷ items) key vv w p (inl e) u sent text value_text = rw (← e) (
      Reaches-StoreHolds t laws coding hint_coding key vv.data' vv.timestamp (push (ok (key, vv)) w)
        (pushes items (push (ok (key, vv)) w)) c.base_url
        (push_all-Reaches routing api stored hinted (push (ok (key, vv)) w) ring_api ring online_ids
          self_id node_id n c items (push (ok (key, vv)) w) p.1 now)
        (push-StoreHolds key vv w (subst Plain (sym e) p.0) u sent text value_text))
  pushes-StoreHolds (item ∷ items) key vv w p (inr m) u sent text value_text =
      pushes-StoreHolds items key vv (push item w) p.1 m (push-Up item w p.0 u) sent text value_text

-- Suppose that no message is lost, and that the returning node does not block internal requests and
-- has a store that is ready for writes and stays so. Then, after a node's reconciliation, the
-- returning node's store has, at every key that the scan of the node's own store listed and that
-- the node is the one to send, an entry at least as new as the listed one; of keys and values that
-- are text, if the listed keys that are sent stand in a URL's path as they are.
pub reconcile_keys-StoreHolds :
    {Ring Handle Events Db : Type 0} {t : Transport} {is_plain : Bytes → Bool}
    (routing : IsTransport t is_plain) {api : Database Db} {stored : Bincode StoredEntry}
    {hinted : Bincode HintEntry} (laws : IsDatabase api) (coding : IsBincode stored)
    (hint_coding : IsBincode hinted) (ring_api : HashRing Ring) (ring : CoordinatorRing Ring)
    (memberlist : Memberlist Handle Events (Cluster Db)) (gossip : GossipNode Handle Events)
    (local : Db) (self_id node_id node_url : Bytes) (n : ℕ) (w : Cluster Db) (Ready : Db → Type 0)
    (key : Bytes) (vv : VersionedValue)
    → ((m : ℕ) → t.fate m ≡ arrives)
    → ((k v : Bytes) (ts : ℕ) → Takes api stored k v ts Ready)
    → All
        (PlainItem is_plain ring_api ring
          (map (λ m. m.id) (online_members memberlist gossip w).0)
          self_id
          node_id
          n)
        (iter_all api stored local)
    → Serving Ready ((online_members memberlist gossip w).1.node (with_http node_url).base_url)
    → In (ok (key, vv)) (iter_all api stored local)
    → sends_key ring_api ring
        (map (λ m. m.id) (online_members memberlist gossip w).0)
        self_id
        node_id
        n
        key
      ≡ true
    → is_utf8 key ≡ true
    → is_utf8 vv.data' ≡ true
    → StoreHolds laws coding hint_coding key vv.data' vv.timestamp
        ((reconcile_keys ring_api memberlist
            (send t api stored hinted)
            (ok tt)
            api
            stored
            local
            ring
            gossip
            self_id
            node_id
            node_url
            n
            w).node
          (with_http node_url).base_url).store
unfolding reconcile_keys
reconcile_keys-StoreHolds routing {api = api} {stored = stored} laws coding hint_coding ring_api
      ring memberlist gossip local self_id node_id node_url n w Ready key vv arriving takes plain up
      listed sent text value_text =
    pushes-StoreHolds routing laws coding hint_coding ring_api ring
      (map (λ m. m.id) (online_members memberlist gossip w).0) self_id node_id n
      (with_http node_url) arriving Ready takes (iter_all api stored local) key vv
      (online_members memberlist gossip w).1 plain listed up sent text value_text
