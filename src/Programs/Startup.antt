-- ===== src/Programs/Startup.antt =====
-- src/bin/server.rs: the start of a server. The file system, the network and the HTTP server are
-- parameters.
pub mod Checks
use diynamo.Base.{
  ℕ, ◌≤◌, Bytes, codes, ◌++◌, length, Bool, true, false, Error, message, Result, ok, err,
  ok-injective, context, Option, none, some, List, [], ◌∷◌, ◌≡◌, ◌≢◌, refl, sym, ap, ◌∙◌,
  Result-cases, inl, inr, Bool-cases, String, if◌then◌else◌,
}
use diynamo.Base.Exec.{Exec, ◌>>=◌, lift}
use diynamo.Config.{SocketAddr, ClusterMember, ResolvedServerConfig}
use diynamo.Cluster.Delegate.{NodeMeta}
use diynamo.Cluster.Membership.{GossipNode, Memberlist}
use diynamo.Cluster.Membership as Membership
use diynamo.Cluster.Ring.{HashRing}
use diynamo.Coordinator.{ReplicatedStore}
use diynamo.Coordinator.Create.{HandoffTask}
use diynamo.Coordinator.Create as Create

-- What the start asks of the system: `join_path` is `Path::join`, `open_db` is `DB::open`.
pub record System (Db W : Type 0) : Type 0 where
  pub exists : Bytes → W → Bool
  pub remove_dir_all : Bytes → Exec W (Unit {0})
  pub join_path : Bytes → Bytes → Bytes
  pub open_db : Bytes → Exec W Db
  pub new_v4 : W → Bytes × W
  pub bind : ℕ → Exec W (Unit {0})
  pub serve : Exec W (Unit {0})

-- The parts of a server that is ready to serve.
pub record Server (Ring Handle Events Db : Type 0) : Type 0 where
  pub local : Db
  pub hints : Db
  pub gossip : GossipNode Handle Events
  pub store : ReplicatedStore Ring
  pub task : HandoffTask Events

-- An error of a step, with the context that the code adds.
abbrev within : {W A : Type 0} → String → Exec W A → Exec W A
within msg step w = let (r, w') = step w in (context msg r, w')

module _ {Ring Handle Events Db W : Type 0} (ring_api : HashRing Ring)
    (memberlist : Memberlist Handle Events W) (system : System Db W)
    (http : Result (Unit {0})) where
  -- `maybe_wipe_data_dir`
  unfoldable pub maybe_wipe_data_dir : Bytes → Bool → Exec W (Unit {0})
  maybe_wipe_data_dir data_dir false w = (ok tt, w)
  maybe_wipe_data_dir data_dir true w =
      if system.exists data_dir w
      then within "failed to wipe data dir" (system.remove_dir_all data_dir) w
      else (ok tt, w)

  -- `RocksDbStore::open` and `HintStore::open`
  unfoldable pub open_store : Bytes → Exec W Db
  open_store path = within "failed to open RocksDB" (system.open_db path)

  unfoldable pub open_hints : Bytes → Exec W Db
  open_hints path = within "failed to open HintStore" (system.open_db path)

  abbrev new_uuid : Exec W Bytes
  new_uuid w = let (uuid, w') = system.new_v4 w in (ok uuid, w')

  -- the coordinator on the gossip node that was started
  abbrev server_of :
      Db → Db → Create.Created Ring Handle Events → Result (Server Ring Handle Events Db)
  server_of local hints (err e, gossip) = err e
  server_of local hints (ok (store, task), gossip) =
      ok (record { local = local; hints = hints; gossip = gossip; store = store; task = task })

  unfoldable pub create :
      ResolvedServerConfig
      → Db
      → Db
      → GossipNode Handle Events
      → Result (Server Ring Handle Events Db)
  create cfg local hints gossip =
      server_of local hints (
        Create.new ring_api http gossip cfg.node_id cfg.cluster_members cfg.n cfg.w cfg.r
          cfg.vnodes)

  -- the code behind the start of the gossip
  unfoldable pub on_gossip :
      ResolvedServerConfig
      → Db
      → Db
      → GossipNode Handle Events
      → Exec W (Server Ring Handle Events Db)
  unfolding create
  on_gossip cfg local hints gossip = do
    server ← lift (create cfg local hints gossip)
    bound ← system.bind cfg.port
    lift (ok server)

  -- `main` behind the roster test, until the server listens
  unfoldable pub prepare : ResolvedServerConfig → Bool → Exec W (Server Ring Handle Events Db)
  unfolding maybe_wipe_data_dir open_store open_hints on_gossip
  prepare cfg wipe_data = do
    wiped ← maybe_wipe_data_dir cfg.data_dir wipe_data
    local ← open_store cfg.data_dir
    hints ← open_hints (system.join_path cfg.data_dir (codes "hints"))
    uuid ← new_uuid
    gossip ←
        Membership.start memberlist cfg.node_id cfg.gossip_bind cfg.join
          (record { uuid = uuid; http_port = cfg.port })
    on_gossip cfg local hints gossip

  -- `if cfg.cluster_members.is_empty() { bail!(..) }`
  abbrev refuse_empty_roster : List ClusterMember → Result (Unit {0})
  refuse_empty_roster [] =
      err (message "config must define [[cluster.members]] for hash ring routing")
  refuse_empty_roster (m ∷ ms) = ok tt

  -- `main`, on the resolved settings: it serves until it is stopped, and leaves the gossip.
  unfoldable pub main : Result ResolvedServerConfig → Bool → Exec W (Unit {0})
  unfolding prepare
  main resolved wipe_data = do
    cfg ← lift resolved
    checked ← lift (refuse_empty_roster cfg.cluster_members)
    server ← prepare cfg wipe_data
    served ← system.serve
    Membership.shutdown memberlist server.gossip
