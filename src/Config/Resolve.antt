-- ===== src/Config/Resolve.antt =====
-- The command-line overrides of src/config/server.rs.
use diynamo.Base.{Option, none, some, ◌≡◌, arith}
use diynamo.Config.{ResolvedServerConfig, Overrides, apply_overrides}

-- The last option that is set.
abbrev pub latest {ℓ} : {A : Type ℓ} → Option A → Option A → Option A
latest old none = old
latest old (some new) = some new

abbrev pub overlay : Overrides → Overrides → Overrides
overlay o p = record {
  port = latest o.port p.port;
  data_dir = latest o.data_dir p.data_dir;
  node_id = latest o.node_id p.node_id;
  gossip_bind = latest o.gossip_bind p.gossip_bind;
  join = latest o.join p.join;
  vnodes = latest o.vnodes p.vnodes;
}

-- Two rounds of overrides act as one, in which the later setting of each field wins.
pub apply_overrides-overlay :
    (c : ResolvedServerConfig) (o p : Overrides)
    → apply_overrides (apply_overrides c o) p ≡ apply_overrides c (overlay o p)
unfolding apply_overrides
apply_overrides-overlay c o p = ground arith
