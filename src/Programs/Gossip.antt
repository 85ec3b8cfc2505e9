-- ===== src/Programs/Gossip.antt =====
-- src/bin/gossip.rs: a gossip node without a store.
use diynamo.Base.{ℕ, Bytes, ok, List}
use diynamo.Base.Exec.{Exec, ◌>>=◌}
use diynamo.Config.{SocketAddr}
use diynamo.Cluster.Membership.{Memberlist}
use diynamo.Cluster.Membership as Membership

-- `Args`
pub record Args : Type 0 where
  pub node_id : Bytes
  pub gossip_bind : SocketAddr
  pub join : List SocketAddr
  pub print_interval_secs : ℕ

-- `main` on its arguments: start, wait for a signal, leave. The task that prints the live members changes
-- nothing. `new_v4` is crate uuid's, `ctrl_c` tokio's.
module _ {Handle Events W : Type 0} (memberlist : Memberlist Handle Events W)
    (new_v4 : W → Bytes × W) (ctrl_c : Exec W (Unit {0})) where
  abbrev new_uuid : Exec W Bytes
  new_uuid w = let (uuid, w') = new_v4 w in (ok uuid, w')

  unfoldable pub main : Args → Exec W (Unit {0})
  main args = do
    uuid ← new_uuid
    node ←
        Membership.start memberlist args.node_id args.gossip_bind args.join
          (record { uuid = uuid; http_port = 0 })
    signal ← ctrl_c
    Membership.shutdown memberlist node
