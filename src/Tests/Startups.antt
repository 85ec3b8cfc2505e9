-- ===== src/Tests/Startups.antt =====
-- The start of a server on a system that grants everything.
use diynamo.Base.{ℕ, ◌≤◌, codes, length, replicate, true, ok, ◌++◌, ◌≡◌, refl}
use diynamo.Config.{ResolvedServerConfig, default_config}
use diynamo.Cluster.Ring.{from_roster}
use diynamo.Cluster.Membership.{start, join_cluster, check_joining, subscribe, take_subscriber}
use diynamo.Coordinator.Create.{new, new_on}
use diynamo.Programs.Startup.{
  System, maybe_wipe_data_dir, open_store, open_hints, create, on_gossip, prepare,
}
use diynamo.Programs.Startup.Checks.{before_gossip, prepare-roster}
use diynamo.Tests.Fixtures.{listed, roster}
use diynamo.Tests.Gossip.{one_seed}

-- The state counts the data directories that were removed.
abbrev granting : System ℕ ℕ
granting = record {
  exists = λ path w. true;
  remove_dir_all = λ path w. (ok tt, w);
  join_path = λ a b. a ++ codes "/" ++ b;
  open_db = λ path w. (ok 0, w);
  new_v4 = λ w. (replicate 16 5, w);
  bind = λ port w. (ok tt, w);
  serve = λ w. (ok tt, w);
}

abbrev settings : ResolvedServerConfig
settings = record default_config { cluster_members = roster }

prepare-roster_example :
    (3 ≤ length roster)
    × ((one_seed.with_delegate settings.node_id settings.gossip_bind
          (record {
            uuid = (before_gossip listed one_seed granting (ok tt) settings true 0).0;
            http_port = 8080;
          })
          (before_gossip listed one_seed granting (ok tt) settings true 0).1).0
        ≡ ok (1, 2))
unfolding prepare before_gossip maybe_wipe_data_dir open_store open_hints create on_gossip new
    new_on from_roster start join_cluster check_joining subscribe take_subscriber
prepare-roster_example = prepare-roster listed one_seed granting (ok tt) settings true 0 _ refl
