-- ===== src/Network/Returns/Restored.antt =====
-- What a reconciliation (`reconcile_keys`, src/coordinator/handoff.rs) brings of what its sender's store holds.
use diynamo.Base.{ℕ, Bytes, Bool, true, ok, some, [], map, ◌≡◌, All, ap}
use mathlib.Core.Option
use diynamo.Base.Utf8.{is_utf8}
use diynamo.Client.{with_http}
use diynamo.Cluster.Membership.{GossipNode, Memberlist, online_members}
use diynamo.Cluster.Ring.{HashRing, CoordinatorRing}
use diynamo.Store.Database.{Database, IsDatabase, Bincode, IsBincode}
use diynamo.Store.RocksdbStore.{StoredEntry, versioned, iter_all}
use diynamo.Store.RocksdbStore.Lww.{view}
use diynamo.Store.RocksdbStore.Listing.{IsRead, iter_all_exact}
use diynamo.Store.Hints.{HintEntry}
use diynamo.Coordinator.Handoff.Reconcile.{sends_key, reconcile_keys}
use diynamo.Network.{Transport, IsTransport, arrives, Cluster, send}
use diynamo.Network.Holds.{StoreHolds}
use diynamo.Network.Live.{Takes, Serving}
use diynamo.Network.Steps.Handoffs.{PlainItem}
use diynamo.Network.Returns.{reconcile_keys-StoreHolds}

-- Suppose that no message is lost, that the iterator over the sender's store gives no error, and that the returning
-- node does not block internal requests and has a store that is ready for writes and stays so. Then, after a node's
-- reconciliation, the returning node's store has, at every key that the node's own store holds and that the node is
-- the one to send, an entry at least as new as that one; of keys and values that are text, if the listed keys that are
-- sent stand in a URL's path as they are.
pub reconcile_keys-restores :
    {Ring Handle Events Db : Type 0} {t : Transport} {is_plain : Bytes → Bool}
    (routing : IsTransport t is_plain) {api : Database Db} {stored : Bincode StoredEntry}
    {hinted : Bincode HintEntry} (laws : IsDatabase api) (coding : IsBincode stored)
    (hint_coding : IsBincode hinted) (ring_api : HashRing Ring) (ring : CoordinatorRing Ring)
    (memberlist : Memberlist Handle Events (Cluster Db)) (gossip : GossipNode Handle Events)
    (local : Db) (self_id node_id node_url : Bytes) (n : ℕ) (w : Cluster Db) (Ready : Db → Type 0)
    (key : Bytes) (entry : StoredEntry)
    → ((m : ℕ) → t.fate m ≡ arrives)
    → ((k v : Bytes) (ts : ℕ) → Takes api stored k v ts Ready)
    → All
        (PlainItem is_plain ring_api ring
          (map (λ m. m.id) (online_members memberlist gossip w).0)
          self_id
          node_id
          n)
        (iter_all api stored local)
    → Serving Ready ((online_members memberlist gossip w).1.node (with_http node_url).base_url)
    → IsRead (api.iterator local [])
    → view laws coding local key ≡ some entry
    → sends_key ring_api ring
        (map (λ m. m.id) (online_members memberlist gossip w).0)
        self_id
        node_id
        n
        key
      ≡ true
    → is_utf8 key ≡ true
    → is_utf8 entry.data' ≡ true
    → StoreHolds laws coding hint_coding key entry.data' entry.timestamp
        ((reconcile_keys ring_api memberlist
            (send t api stored hinted)
            (ok tt)
            api
            stored
            local
            ring
            gossip
            self_id
            node_id
            node_url
            n
            w).node
          (with_http node_url).base_url).store
reconcile_keys-restores routing {api = api} {stored = stored} laws coding hint_coding ring_api ring
      memberlist gossip local self_id node_id node_url n w Ready key entry arriving takes plain up
      readable held sent text value_text =
    reconcile_keys-StoreHolds routing laws coding hint_coding ring_api ring memberlist gossip local
      self_id node_id node_url n w Ready key (versioned entry) arriving takes plain up
      ((iter_all_exact laws coding local key (versioned entry) readable).1
        (ap (Option.map versioned) held))
      sent text value_text
