-- ===== src/Cluster/Membership.antt =====
-- src/cluster/membership.rs: the handle of a running gossip node. The gossip library (crate memberlist)
-- is a parameter.
pub mod Subscriptions
pub mod Advertised
use diynamo.Base.{
  ℕ, Bytes, List, [], ◌∷◌, map, replicate, Bool, true, false, Error, panicked, message, Result, ok,
  err, context, Option, none, some,
}
use diynamo.Base.Exec.{Exec, ◌>>=◌, lift}
use diynamo.Config.{SocketAddr}
use diynamo.Cluster.Types.{MemberInfo}
use diynamo.Cluster.Delegate.{NodeMeta, from_bytes}

-- The library's `NodeState`: a node's id, address and metadata.
pub record NodeState : Type 0 where
  pub id : Bytes
  pub addr : SocketAddr
  pub meta : Bytes

-- The result of `join_many`: the seeds that were joined, and an error if not all were.
pub data Joining : Type 0 where
  all_joined : List SocketAddr → Joining
  partly_joined : List SocketAddr → Joining

-- What the library is asked to do, on its own state `W`: `Handle` is a running memberlist, `Events` a
-- subscriber to its events.
pub record Memberlist (Handle Events W : Type 0) : Type 0 where
  pub with_delegate : Bytes → SocketAddr → NodeMeta → Exec W (Handle × Events)
  pub join_many : Handle → List SocketAddr → W → Joining × W
  pub online_members : Handle → W → List NodeState × W
  pub members : Handle → W → List NodeState × W
  pub leave : Handle → ℕ → Exec W Bool
  pub shutdown : Handle → Exec W (Unit {0})

-- `std::sync::Mutex`: a panic while it is locked poisons it.
pub record Mutex (A : Type 0) : Type 0 where
  pub poisoned : Bool
  pub value : A

-- `GossipNode`
pub record GossipNode (Handle Events : Type 0) : Type 0 where
  pub inner : Handle
  pub node_id : Bytes
  pub gossip_bind : SocketAddr
  pub event_sub : Mutex (Option Events)

abbrev no_uuid : Bytes
no_uuid = replicate 16 0

-- The UUID and the port of the metadata, or zeros if it is too short.
uuid_and_port : Option NodeMeta → Bytes × ℕ
uuid_and_port none = (no_uuid, 0)
uuid_and_port (some m) = (m.uuid, m.http_port)

unfoldable pub node_state_to_member : NodeState → MemberInfo
unfolding uuid_and_port
node_state_to_member state =
    let (uuid, forward_port) = uuid_and_port (from_bytes state.meta) in
    record { id = state.id; gossip_addr = state.addr; forward_port = forward_port; uuid = uuid }

-- `GossipNode::subscribe`, on the mutex: `take().expect(..)` under the lock.
unfoldable pub take_subscriber : {A : Type 0} → Bool → Option A → Result A × Mutex (Option A)
take_subscriber true value =
    (err (panicked "PoisonError"), record { poisoned = true; value = value })
take_subscriber false none = (
  err (panicked "GossipNode::subscribe() called more than once"),
  record { poisoned = true; value = none },
)
take_subscriber false (some events) = (ok events, record { poisoned = false; value = none })

-- The test on what the seeds answered.
unfoldable pub check_joining : Joining → Result (Unit {0})
check_joining (all_joined joined) = ok tt
check_joining (partly_joined []) = err (message "failed to join any seed")
check_joining (partly_joined (a ∷ joined)) = ok tt

module _ {Handle Events : Type 0} where
  unfoldable pub subscribe : GossipNode Handle Events → Result Events × GossipNode Handle Events
  unfolding take_subscriber
  subscribe node =
      let (r, event_sub) = take_subscriber node.event_sub.poisoned node.event_sub.value in
      (r, record node { event_sub = event_sub })

  module _ {W : Type 0} (memberlist : Memberlist Handle Events W) where
    -- `if !join_seeds.is_empty() { .. }`
    unfoldable pub join_cluster : Handle → List SocketAddr → Exec W (Unit {0})
    unfolding check_joining
    join_cluster handle [] w = (ok tt, w)
    join_cluster handle (seed ∷ join_seeds) w =
        let (joining, w') = memberlist.join_many handle (seed ∷ join_seeds) w in
        (check_joining joining, w')

    abbrev start_memberlist : Bytes → SocketAddr → NodeMeta → Exec W (Handle × Events)
    start_memberlist node_id gossip_bind node_meta w =
        let (r, w') = memberlist.with_delegate node_id gossip_bind node_meta w in
        (context "failed to start memberlist" r, w')

    -- `GossipNode::start`
    unfoldable pub start :
        Bytes → SocketAddr → List SocketAddr → NodeMeta → Exec W (GossipNode Handle Events)
    unfolding join_cluster
    start node_id gossip_bind join_seeds node_meta = do
      (inner, event_sub) ← start_memberlist node_id gossip_bind node_meta
      joined ← join_cluster inner join_seeds
      lift (
          ok (record {
            inner = inner;
            node_id = node_id;
            gossip_bind = gossip_bind;
            event_sub = record { poisoned = false; value = some event_sub };
          }))

    -- `GossipNode::online_members`
    unfoldable pub online_members : GossipNode Handle Events → W → List MemberInfo × W
    unfolding node_state_to_member
    online_members node w =
        let (members, w') = memberlist.online_members node.inner w in
        (map node_state_to_member members, w')

    -- `GossipNode::all_members`
    unfoldable pub all_members : GossipNode Handle Events → W → List MemberInfo × W
    unfolding node_state_to_member
    all_members node w =
        let (members, w') = memberlist.members node.inner w in
        (map node_state_to_member members, w')

    -- `GossipNode::shutdown`: how the leave went does not matter; it waits 3000 ms at most.
    unfoldable pub shutdown : GossipNode Handle Events → Exec W (Unit {0})
    shutdown node w =
        let (left, w₁) = memberlist.leave node.inner 3000 w in
        let (r, w₂) = memberlist.shutdown node.inner w₁ in (context "memberlist shutdown" r, w₂)
