-- ===== src/Coordinator/Handoff/Reconcile.antt =====
-- `reconcile_keys` (src/coordinator/handoff.rs).
pub mod Sender
use diynamo.Base.{
  ℕ, Bytes, bytes_eq, Bool, true, false, not, ◌&&◌, ◌||◌, Result, ok, err, Option, none, some, List,
  [], ◌∷◌, map, if◌then◌else◌,
}
use diynamo.Base.Exec.{Exec}
use diynamo.Api.{Request, Response}
use diynamo.Client.{KvClient, with_http, put_internal_versioned_bytes}
use diynamo.Cluster.Membership.{GossipNode, Memberlist, online_members}
use diynamo.Cluster.Types.{MemberInfo}
use diynamo.Cluster.Ring.{HashRing, CoordinatorRing, preference_list_for_key}
use diynamo.Store.{VersionedValue}
use diynamo.Store.Database.{Database, Bincode}
use diynamo.Store.RocksdbStore.{StoredEntry, iter_all}

-- `online_ids.contains(id)`
unfoldable pub contains_id : List Bytes → Bytes → Bool
contains_id [] id = false
contains_id (j ∷ ids) id = bytes_eq j id || contains_id ids id

-- The designated sender: the first preferred node that is not the returning one and is online.
unfoldable pub designated : List Bytes → Bytes → List MemberInfo → Option Bytes
designated online_ids node_id [] = none
designated online_ids node_id (m ∷ pref_list) =
    if not (bytes_eq m.id node_id) && contains_id online_ids m.id
    then some m.id
    else designated online_ids node_id pref_list

-- `designated == Some(self_id)`
unfoldable pub is_self : Bytes → Option Bytes → Bool
is_self self_id none = false
is_self self_id (some id) = bytes_eq id self_id

module _ {Ring : Type 0} (ring_api : HashRing Ring) (ring : CoordinatorRing Ring)
    (online_ids : List Bytes) (self_id node_id : Bytes) (n : ℕ) where
  -- the tests on one key: no preference list skips it, and so does another designated sender
  unfoldable pub sends_by : Result (List MemberInfo) → Bool
  sends_by (ok pref_list) = is_self self_id (designated online_ids node_id pref_list)
  sends_by (err e) = false

  unfoldable pub sends_key : Bytes → Bool
  sends_key key = sends_by (preference_list_for_key ring_api ring key n)

  module _ {W : Type 0} (send : Request → Exec W Response) where
    -- One item of the scan: an iterator error and a key without a preference list are skipped.
    unfoldable pub push_item : KvClient → Result (Bytes × VersionedValue) → W → W
    push_item client (err e) w = w
    push_item client (ok (key, vv)) w =
        if sends_key key
        then (put_internal_versioned_bytes send client key vv.data' vv.timestamp w).1
        else w

    unfoldable pub push_all : KvClient → List (Result (Bytes × VersionedValue)) → W → W
    push_all client [] w = w
    push_all client (item ∷ items) w = push_all client items (push_item client item w)

-- The code behind `KvClient::new`, if the client can be built.
abbrev with_client : {W : Type 0} → Result (Unit {0}) → (W → W) → W → W
with_client (err e) rest w = w
with_client (ok built) rest w = rest w

-- `reconcile_keys`: the snapshot of the online members, the client, and the scan. `http` is how the
-- client's HTTP part is built.
unfoldable pub reconcile_keys :
    {Ring Handle Events Db W : Type 0}
    → HashRing Ring
    → Memberlist Handle Events W
    → (Request → Exec W Response)
    → Result (Unit {0})
    → Database Db
    → Bincode StoredEntry
    → Db
    → CoordinatorRing Ring
    → GossipNode Handle Events
    → Bytes
    → Bytes
    → Bytes
    → ℕ
    → W
    → W
unfolding push_all
reconcile_keys ring_api memberlist send http api codec local ring gossip self_id node_id node_url n
      w =
    let (members, w') = online_members memberlist gossip w in
    with_client http
      (push_all ring_api ring (map (λ m. m.id) members) self_id node_id n send (with_http node_url)
        (iter_all api codec local))
      w'
