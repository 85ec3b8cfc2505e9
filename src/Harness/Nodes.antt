-- ===== src/Harness/Nodes.antt =====
-- `TestNode` (src/test_support/mod.rs): how the harness takes a node down and brings it back.
use diynamo.Base.{
  ℕ, ◌+◌, Bytes, bytes_eq, Bool, false, not, ◌&&◌, ◌||◌, ◌==◌, Error, panicked, Result, ok, err,
  Option, none, some, List, [], ◌∷◌, if◌then◌else◌,
}
use diynamo.Base.Exec.{Exec, ◌>>=◌}
use diynamo.Config.{SocketAddr}
use diynamo.Cluster.Types.{MemberInfo}
use diynamo.Cluster.Delegate.{NodeMeta}
use diynamo.Cluster.Membership.{GossipNode, Memberlist}
use diynamo.Cluster.Membership as Membership
use diynamo.Server.{FaultFlags}
use diynamo.Server as Server
use diynamo.Store.Database.{Database, Bincode}
use diynamo.Store.RocksdbStore.{StoredEntry, clear_all}
use diynamo.Harness.{Time, Looping, poll_loop, start_gossip_with_retry}

-- `TestNode`, less what it only keeps alive.
pub record TestNode (Handle Events Db : Type 0) : Type 0 where
  pub id : Bytes
  pub http_port : ℕ
  pub gossip_addr : SocketAddr
  pub faults : FaultFlags
  pub local : Db
  pub gossip : GossipNode Handle Events

abbrev addr_eq : SocketAddr → SocketAddr → Bool
addr_eq a b = bytes_eq a.ip b.ip && (a.port == b.port)

-- `TestCluster::node`
unfoldable pub node :
    {Handle Events Db : Type 0}
    → List (TestNode Handle Events Db)
    → Bytes
    → Result (TestNode Handle Events Db)
node [] id = err (panicked "unknown node id")
node (n ∷ nodes) id = if bytes_eq n.id id then ok n else node nodes id

-- `iter().any(|m| m.id == target_id)`, and the UUID of the first such member
unfoldable pub sees : List MemberInfo → Bytes → Bool
sees [] target_id = false
sees (m ∷ ms) target_id = bytes_eq m.id target_id || sees ms target_id

unfoldable pub uuid_in : List MemberInfo → Bytes → Option Bytes
uuid_in [] target_id = none
uuid_in (m ∷ ms) target_id = if bytes_eq m.id target_id then some m.uuid else uuid_in ms target_id

module _ {Handle Events Db W : Type 0} (memberlist : Memberlist Handle Events W) (time : Time W)
    (in_use : Error → Bool) (new_v4 : W → Bytes × W) (api : Database Db)
    (codec : Bincode StoredEntry) where
  abbrev Node : Type 0
  Node = TestNode Handle Events Db

  -- The node that is acted on, and the rest of the world.
  abbrev On : Type 0
  On = Node × W

  unfoldable pub kill_http : Node → Node
  kill_http n = record n { faults = Server.kill_http n.faults }

  unfoldable pub recover_http : Node → Node
  recover_http n = record n { faults = Server.recover_http n.faults }

  unfoldable pub suspend_gossip : Exec On (Unit {0})
  suspend_gossip (n, w) = let (r, w') = Membership.shutdown memberlist n.gossip w in (r, (n, w'))

  unfoldable pub kill_node : Exec On (Unit {0})
  unfolding suspend_gossip kill_http
  kill_node (n, w) = suspend_gossip (kill_http n, w)

  -- The node, with the gossip node that was started, if one was.
  abbrev with_gossip : Node → Result (GossipNode Handle Events) × W → Result (Unit {0}) × On
  with_gossip n (ok gossip, w) = (ok tt, (record n { gossip = gossip }, w))
  with_gossip n (err e, w) = (err e, (n, w))

  -- the new gossip node
  unfoldable pub rejoin : SocketAddr → Bytes → Node → Exec W (GossipNode Handle Events)
  rejoin seed uuid n w =
      let join = if addr_eq n.gossip_addr seed then [] else seed ∷ [] in
      let meta : NodeMeta = record { uuid = uuid; http_port = n.http_port } in
      start_gossip_with_retry time in_use (Membership.start memberlist n.id n.gossip_addr join meta)
        w

  unfoldable pub restart_gossip_with_uuid : SocketAddr → Bytes → Exec On (Unit {0})
  unfolding rejoin
  restart_gossip_with_uuid seed uuid (n, w) = with_gossip n (rejoin seed uuid n w)

  unfoldable pub restart_gossip : SocketAddr → Exec On (Unit {0})
  unfolding restart_gossip_with_uuid
  restart_gossip seed (n, w) =
      let (uuid, w') = new_v4 w in restart_gossip_with_uuid seed uuid (n, w')

  -- `recover_http`, and 300 ms for the peers, in which the running server goes on with the store:
  -- `served` is what it has made of the store by the end.
  unfoldable pub reopen : (Db → W → Db) → Exec On (Unit {0})
  unfolding recover_http
  reopen served (n, w) =
      (ok tt, (record (recover_http n) { local = served n.local w }, time.sleep 300 w))

  unfoldable pub recover_node : (Db → W → Db) → SocketAddr → Exec On (Unit {0})
  unfolding restart_gossip reopen
  recover_node served seed = restart_gossip seed >>= λ done. reopen served

  unfoldable pub peer_sees_node : Node → Bytes → W → Bool × W
  unfolding sees
  peer_sees_node n target_id w =
      let (members, w') = Membership.online_members memberlist n.gossip w in
      (sees members target_id, w')

  unfoldable pub peer_uuid : Node → Bytes → W → Option Bytes × W
  unfolding uuid_in
  peer_uuid n target_id w =
      let (members, w') = Membership.online_members memberlist n.gossip w in
      (uuid_in members target_id, w')

  unfoldable pub wipe_local_data : Exec On (Unit {0})
  wipe_local_data (n, w) =
      let (r, db) = clear_all api codec n.local in (r, (record n { local = db }, w))

  unfoldable pub is_gone : Node → Bytes → W → Bool × W
  unfolding peer_sees_node
  is_gone observer target_id w =
      let (seen, w') = peer_sees_node observer target_id w in (not seen, w')

  -- `while observer.peer_sees_node(&self.id) { if Instant::now() >= deadline { bail!(..) } sleep }`
  unfoldable pub wait_gone : ℕ → Node → ℕ → Node → Looping W (Unit {0})
  unfolding is_gone
  wait_gone fuel observer timeout n w =
      poll_loop time fuel (time.now w + timeout) 200 (is_gone observer n.id) w

  -- Goes on with the node behind the loop.
  abbrev then_on :
      Node → Option (Result (Unit {0}) × W) → Exec On (Unit {0}) → Option (Result (Unit {0}) × On)
  then_on n none rest = none
  then_on n (some (err e, w)) rest = some (err e, (n, w))
  then_on n (some (ok u, w)) rest = some (rest (n, w))

  unfoldable pub recover_after_data_loss :
      (Db → W → Db) → ℕ → SocketAddr → Node → ℕ → On → Option (Result (Unit {0}) × On)
  unfolding wait_gone wipe_local_data restart_gossip reopen
  recover_after_data_loss served fuel seed observer timeout (n, w) =
      then_on n (wait_gone fuel observer timeout n w)
        (wipe_local_data >>= (λ wiped. restart_gossip seed >>= (λ done. reopen served)))

  unfoldable pub recover_after_outage_data_intact :
      (Db → W → Db) → ℕ → SocketAddr → Node → Bytes → ℕ → On → Option (Result (Unit {0}) × On)
  unfolding wait_gone restart_gossip_with_uuid reopen
  recover_after_outage_data_intact served fuel seed observer preserve_uuid timeout (n, w) =
      then_on n (wait_gone fuel observer timeout n w)
        (restart_gossip_with_uuid seed preserve_uuid >>= (λ done. reopen served))

  -- the wait and the rest of `recover_after_outage`, behind the suspension
  abbrev return_from_outage :
      (Db → W → Db)
      → ℕ
      → SocketAddr
      → Node
      → ℕ
      → Result (Unit {0}) × On
      → Option (Result (Unit {0}) × On)
  return_from_outage served fuel seed observer timeout (err e, s) = some (err e, s)
  return_from_outage served fuel seed observer timeout (ok u, (n, w)) =
      then_on n (wait_gone fuel observer timeout n w)
        (restart_gossip seed >>= (λ done. reopen served))

  unfoldable pub recover_after_outage :
      (Db → W → Db) → ℕ → SocketAddr → Node → ℕ → On → Option (Result (Unit {0}) × On)
  unfolding wait_gone restart_gossip reopen suspend_gossip
  recover_after_outage served fuel seed observer timeout s =
      return_from_outage served fuel seed observer timeout (suspend_gossip s)
