-- ===== src/Network/Steps/Handoffs.antt =====
-- The tasks of a hand-off (src/coordinator/handoff.rs) by the steps of the cluster.
use diynamo.Base.{
  ℕ, Bytes, Bool, true, Result, ok, err, List, [], ◌∷◌, ◌≡◌, All, Bool-cases, Result-cases, inl,
  inr,
}
use diynamo.Client.{KvClient, with_http}
use diynamo.Cluster.Ring.{HashRing, CoordinatorRing}
use diynamo.Store.{VersionedValue}
use diynamo.Store.Database.{Database, Bincode}
use diynamo.Store.RocksdbStore.{StoredEntry}
use diynamo.Store.Hints.{HintEntry, hints_for_node}
use diynamo.Coordinator.Handoff.Deliver.{deliver_all, deliver_with, deliver_pending, deliver_hints}
use diynamo.Coordinator.Handoff.Reconcile.{sends_key, push_item, push_all}
use diynamo.Network.{Transport, IsTransport, Cluster, send}
use diynamo.Network.Steps.{Reaches}
use diynamo.Network.Steps.Sends.{versioned-Reaches}

-- An item of the scan that was read.
abbrev pub Item : Type 0
Item = Bytes × VersionedValue

module _ {Ring : Type 0} (is_plain : Bytes → Bool) (ring_api : HashRing Ring)
    (ring : CoordinatorRing Ring) (online_ids : List Bytes) (self_id node_id : Bytes) (n : ℕ) where
  -- The key of an item that was read stands in a URL's path as it is, if the node sends it.
  abbrev pub PlainItem : Result Item → Type 0
  PlainItem (ok (key, vv)) =
      sends_key ring_api ring online_ids self_id node_id n key ≡ true → is_plain key ≡ true
  PlainItem (err e) = Unit

-- The keys of the pending hints do.
abbrev pub PlainHints : (Bytes → Bool) → Result (List (Bytes × Bytes × ℕ)) → Type 0
PlainHints is_plain (ok pending) = All (λ h. is_plain h.0 ≡ true) pending
PlainHints is_plain (err e) = Unit

module _ {Db : Type 0} {t : Transport} {is_plain : Bytes → Bool} (routing : IsTransport t is_plain)
    (api : Database Db) (stored : Bincode StoredEntry) (hinted : Bincode HintEntry)
    (w₀ : Cluster Db) where
  abbrev From : Cluster Db → Type 0
  From w = Reaches t api stored hinted w₀ w

  pub deliver_all-Reaches :
      (c : KvClient) (node_id : Bytes) (pending : List (Bytes × Bytes × ℕ)) (hints : Db)
      (w : Cluster Db)
      → All (λ h. is_plain h.0 ≡ true) pending
      → From w
      → From (deliver_all api hinted (send t api stored hinted) c node_id pending hints w).1
  unfolding deliver_all
  deliver_all-Reaches c node_id [] hints w p r = r
  deliver_all-Reaches c node_id ((key, value, ts) ∷ pending) hints w p r =
      deliver_all-Reaches c node_id pending _ _ p.1
        (versioned-Reaches routing api stored hinted w₀ key value ts p.0 c w r)

  deliver_with-Reaches :
      (http : Result (Unit {0})) (c : KvClient) (node_id : Bytes)
      (pending : List (Bytes × Bytes × ℕ)) (hints : Db) (w : Cluster Db)
      → All (λ h. is_plain h.0 ≡ true) pending
      → From w
      → From (deliver_with api hinted (send t api stored hinted) http c node_id pending hints w).1
  unfolding deliver_with
  deliver_with-Reaches http c node_id [] hints w p r = r
  deliver_with-Reaches (err e) c node_id (hint ∷ pending) hints w p r = r
  deliver_with-Reaches (ok built) c node_id (hint ∷ pending) hints w p r =
      deliver_all-Reaches c node_id (hint ∷ pending) hints w p r

  pub deliver_hints-Reaches :
      (http : Result (Unit {0})) (node_id node_url : Bytes) (hints : Db) (w : Cluster Db)
      → PlainHints is_plain (hints_for_node api hinted hints node_id)
      → From w
      → From (deliver_hints api hinted (send t api stored hinted) http node_id node_url hints w).1
  unfolding deliver_hints deliver_pending
  deliver_hints-Reaches http node_id node_url hints w p r =
      elim (Result-cases (hints_for_node api hinted hints node_id)) [
        | inl (pending, e) ↦
            rw e
              (deliver_with-Reaches http (with_http node_url) node_id pending hints w (rw e at p) r)
        | inr (x, e) ↦ rw e r
      ]

  module _ {Ring : Type 0} (ring_api : HashRing Ring) (ring : CoordinatorRing Ring)
      (online_ids : List Bytes) (self_id node_id : Bytes) (n : ℕ) (c : KvClient) where
    pub push_item-Reaches :
        (item : Result Item) (w : Cluster Db)
        → PlainItem is_plain ring_api ring online_ids self_id node_id n item
        → From w
        → From (
            push_item ring_api ring online_ids self_id node_id n
              (send t api stored hinted)
              c
              item
              w)
    unfolding push_item
    push_item-Reaches (err e) w p r = r
    push_item-Reaches (ok (key, vv)) w p r =
        elim (Bool-cases (sends_key ring_api ring online_ids self_id node_id n key)) [
          | inl sent ↦ rw sent (
              versioned-Reaches routing api stored hinted w₀ key vv.data' vv.timestamp (p sent) c w
                r)
          | inr skipped ↦ rw skipped r
        ]

    pub push_all-Reaches :
        (items : List (Result Item)) (w : Cluster Db)
        → All (PlainItem is_plain ring_api ring online_ids self_id node_id n) items
        → From w
        → From (
            push_all ring_api ring online_ids self_id node_id n
              (send t api stored hinted)
              c
              items
              w)
    unfolding push_all
    push_all-Reaches [] w p r = r
    push_all-Reaches (item ∷ items) w p r =
        push_all-Reaches items _ p.1 (push_item-Reaches item w p.0 r)
