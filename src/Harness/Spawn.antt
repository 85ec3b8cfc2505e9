-- ===== src/Harness/Spawn.antt =====
-- `TestCluster` (src/test_support/mod.rs): how the harness spawns a cluster and shuts it down. Sockets,
-- temporary directories and databases are parameters.
pub mod Roster
use diynamo.Base.{
  ℕ, suc, Bytes, codes, Error, message, panicked, Result, ok, err, context, String, Option, none,
  some, List, [], ◌∷◌, map, length, Bool,
}
use diynamo.Base.Exec.{Exec, ◌>>=◌, lift}
use diynamo.Config.{SocketAddr, ClusterMember}
use diynamo.Cluster.Types.{MemberInfo}
use diynamo.Cluster.Delegate.{NodeMeta}
use diynamo.Cluster.Ring.{HashRing}
use diynamo.Cluster.Membership.{GossipNode, Memberlist}
use diynamo.Cluster.Membership as Membership
use diynamo.Coordinator.{ReplicatedStore}
use diynamo.Coordinator.Create as Create
use diynamo.Server.{no_faults}
use diynamo.Harness.{
  Time, Looping, after, reserve_gossip_addr, start_gossip_with_retry, wait_for_cluster,
}
use diynamo.Harness.Nodes.{TestNode}

-- What was bound for an id: its HTTP address and its gossip address.
pub record Binding : Type 0 where
  pub id : Bytes
  pub http_addr : SocketAddr
  pub gossip_addr : SocketAddr

-- What the harness asks of the system.
pub record Host (Db W : Type 0) : Type 0 where
  pub bind : Exec W SocketAddr
  pub in_use : Error → Bool
  pub temp_dir : Exec W Bytes
  pub join_path : Bytes → Bytes → Bytes
  pub open_db : Bytes → Exec W Db
  pub new_v4 : W → Bytes × W

-- A node with its coordinator and its hint store.
pub record Spawned (Ring Handle Events Db : Type 0) : Type 0 where
  pub node : TestNode Handle Events Db
  pub store : ReplicatedStore Ring
  pub hints : Db

-- `TestCluster`
pub record TestCluster (Ring Handle Events Db : Type 0) : Type 0 where
  pub nodes : List (Spawned Ring Handle Events Db)
  pub roster : List ClusterMember
  pub n : ℕ
  pub w : ℕ
  pub r : ℕ
  pub vnodes : ℕ

-- the `map` that builds the roster
abbrev pub entry_of : Binding → ClusterMember
entry_of b = record { id = b.id; gossip_addr = b.gossip_addr; forward_port = b.http_addr.port }

unfoldable pub roster_of : List Binding → List ClusterMember
roster_of bindings = map entry_of bindings

-- `roster[0].gossip_addr`
abbrev pub seed_gossip : List ClusterMember → Result SocketAddr
seed_gossip [] = err (panicked "index out of bounds")
seed_gossip (m ∷ roster) = ok m.gossip_addr

abbrev within : {W A : Type 0} → String → Exec W A → Exec W A
within msg step w = let (r, w') = step w in (context msg r, w')

module _ {Ring Handle Events Db W : Type 0} (ring_api : Bytes → HashRing Ring)
    (memberlist : Memberlist Handle Events W) (time : Time W) (host : Host Db W)
    (http : Result (Unit {0})) where
  -- the first loop
  unfoldable pub bind_all : List Bytes → Exec W (List Binding)
  bind_all [] = lift (ok [])
  bind_all (id ∷ node_ids) = do
    http_addr ← within "bind http" host.bind
    gossip_addr ← reserve_gossip_addr time host.bind host.in_use
    bindings ← bind_all node_ids
    lift (ok (record { id = id; http_addr = http_addr; gossip_addr = gossip_addr } ∷ bindings))

  module _ (roster : List ClusterMember) (n w r vnodes : ℕ) where
    -- the node of a coordinator that was created
    abbrev spawned :
        Binding
        → Db
        → Db
        → Create.Created Ring Handle Events
        → Result (Spawned Ring Handle Events Db)
    spawned b local hints (err e, gossip) = err e
    spawned b local hints (ok (store, task), gossip) = ok (record {
      node = record {
        id = b.id;
        http_port = b.http_addr.port;
        gossip_addr = b.gossip_addr;
        faults = no_faults;
        local = local;
        gossip = gossip;
      };
      store = store;
      hints = hints;
    })

    abbrev new_uuid : Exec W Bytes
    new_uuid w' = let (uuid, w'') = host.new_v4 w' in (ok uuid, w'')

    -- one round of the second loop
    unfoldable pub spawn_node : List SocketAddr → Binding → Exec W (Spawned Ring Handle Events Db)
    spawn_node join b = do
      data_dir ← within "temp data dir" host.temp_dir
      local ← within "failed to open RocksDB" (host.open_db data_dir)
      hints ←
          within "failed to open HintStore" (host.open_db (host.join_path data_dir (codes "hints")))
      uuid ← new_uuid
      gossip ← start_gossip_with_retry time host.in_use (
          Membership.start memberlist b.id b.gossip_addr join
            (record { uuid = uuid; http_port = b.http_addr.port }))
      lift (spawned b local hints (Create.new (ring_api b.id) http gossip b.id roster n w r vnodes))

    -- the rest of the second loop, on the nodes behind the first
    unfoldable pub spawn_peers :
        SocketAddr → List Binding → Exec W (List (Spawned Ring Handle Events Db))
    unfolding spawn_node
    spawn_peers seed [] = lift (ok [])
    spawn_peers seed (b ∷ bindings) = do
      node ← spawn_node (seed ∷ []) b
      nodes ← spawn_peers seed bindings
      lift (ok (node ∷ nodes))

    -- the second loop: the first node is the seed
    unfoldable pub spawn_nodes :
        SocketAddr → List Binding → Exec W (List (Spawned Ring Handle Events Db))
    unfolding spawn_node spawn_peers
    spawn_nodes seed [] = lift (ok [])
    spawn_nodes seed (b ∷ bindings) = do
      node ← spawn_node [] b
      nodes ← spawn_peers seed bindings
      lift (ok (node ∷ nodes))

  -- The two loops of `spawn_with_vnodes`.
  unfoldable pub spawn_all : List Bytes → ℕ → ℕ → ℕ → ℕ → Exec W (TestCluster Ring Handle Events Db)
  unfolding bind_all roster_of spawn_nodes
  spawn_all node_ids n w r vnodes = do
    bindings ← bind_all node_ids
    seed ← lift (seed_gossip (roster_of bindings))
    nodes ← spawn_nodes (roster_of bindings) n w r vnodes seed bindings
    lift (
        ok (record {
          nodes = nodes;
          roster = roster_of bindings;
          n = n;
          w = w;
          r = r;
          vnodes = vnodes;
        }))

  unfoldable pub online : Spawned Ring Handle Events Db → W → List MemberInfo × W
  online s w = Membership.online_members memberlist s.node.gossip w

  -- the wait behind the loops
  abbrev converged :
      ℕ
      → ℕ
      → Result (TestCluster Ring Handle Events Db) × W
      → Option (Result (TestCluster Ring Handle Events Db) × W)
  converged fuel expected (err e, w) = some (err e, w)
  converged fuel expected (ok cluster, w) =
      after (wait_for_cluster time fuel online cluster.nodes expected w) (lift (ok cluster))

  -- `spawn_with_vnodes`, and `spawn`
  unfoldable pub spawn_with_vnodes :
      ℕ → List Bytes → ℕ → ℕ → ℕ → ℕ → Looping W (TestCluster Ring Handle Events Db)
  unfolding spawn_all online
  spawn_with_vnodes fuel node_ids n w r vnodes world =
      converged fuel (length node_ids) (spawn_all node_ids n w r vnodes world)

  unfoldable pub spawn : ℕ → List Bytes → ℕ → ℕ → ℕ → Looping W (TestCluster Ring Handle Events Db)
  unfolding spawn_with_vnodes
  spawn fuel node_ids n w r = spawn_with_vnodes fuel node_ids n w r 1

  -- `shutdown_all`: the results are dropped; that the HTTP servers are aborted shows in no state here
  shutdown_each : List (Spawned Ring Handle Events Db) → W → W
  shutdown_each [] w = w
  shutdown_each (s ∷ nodes) w =
      shutdown_each nodes (Membership.shutdown memberlist s.node.gossip w).1

  unfoldable pub shutdown_all : TestCluster Ring Handle Events Db → W → W
  unfolding shutdown_each
  shutdown_all cluster w = time.sleep 100 (shutdown_each cluster.nodes w)
