-- ===== src/Config.antt =====
-- src/config/server.rs: the server's settings.
pub mod Resolve
use diynamo.Base.{
  ℕ, Bytes, codes, String, Result, ok, err, message, context, ◌>>=◌, Option, none, some, List, [],
}

-- `std::net::SocketAddr`: the text of the address, and the port.
pub record SocketAddr : Type 0 where
  pub ip : Bytes
  pub port : ℕ

pub record NodeSection : Type 0 where
  pub id : Bytes
  pub http_port : ℕ
  pub gossip_bind : SocketAddr
  pub data_dir : Bytes

-- A roster entry.
pub record ClusterMember : Type 0 where
  pub id : Bytes
  pub gossip_addr : SocketAddr
  pub forward_port : ℕ

abbrev pub default_n : ℕ
default_n = 3

abbrev pub default_w : ℕ
default_w = 2

abbrev pub default_r : ℕ
default_r = 2

abbrev pub default_vnodes : ℕ
default_vnodes = 1

pub record ClusterSection : Type 0 where
  pub join : List SocketAddr
  pub members : List ClusterMember
  pub seeds : List Bytes
  pub n : ℕ
  pub w : ℕ
  pub r : ℕ
  pub vnodes : ℕ

abbrev pub default_cluster_section : ClusterSection
default_cluster_section = record {
  join = [];
  members = [];
  seeds = [];
  n = default_n;
  w = default_w;
  r = default_r;
  vnodes = default_vnodes;
}

pub record ServerConfigFile : Type 0 where
  pub node : NodeSection
  pub cluster : ClusterSection

pub record ResolvedServerConfig : Type 0 where
  pub node_id : Bytes
  pub port : ℕ
  pub gossip_bind : SocketAddr
  pub data_dir : Bytes
  pub join : List SocketAddr
  pub cluster_members : List ClusterMember
  pub seeds : List Bytes
  pub n : ℕ
  pub w : ℕ
  pub r : ℕ
  pub vnodes : ℕ

-- `From<ServerConfigFile>`
unfoldable pub from_file : ServerConfigFile → ResolvedServerConfig
from_file file = record {
  node_id = file.node.id;
  port = file.node.http_port;
  gossip_bind = file.node.gossip_bind;
  data_dir = file.node.data_dir;
  join = file.cluster.join;
  cluster_members = file.cluster.members;
  seeds = file.cluster.seeds;
  n = file.cluster.n;
  w = file.cluster.w;
  r = file.cluster.r;
  vnodes = file.cluster.vnodes;
}

abbrev pub default_config : ResolvedServerConfig
default_config = record {
  node_id = codes "node0";
  port = 8080;
  gossip_bind = record { ip = codes "127.0.0.1"; port = 7946 };
  data_dir = codes "./data/db";
  join = [];
  cluster_members = [];
  seeds = [];
  n = default_n;
  w = default_w;
  r = default_r;
  vnodes = default_vnodes;
}

-- The arguments of `apply_overrides`.
pub record Overrides : Type 0 where
  pub port : Option ℕ
  pub data_dir : Option Bytes
  pub node_id : Option Bytes
  pub gossip_bind : Option SocketAddr
  pub join : Option (List SocketAddr)
  pub vnodes : Option ℕ

-- `if let Some(v) = new { field = v }`
abbrev override {ℓ} : {A : Type ℓ} → Option A → A → A
override none old = old
override (some new) old = new

-- `ResolvedServerConfig::apply_overrides`
unfoldable pub apply_overrides : ResolvedServerConfig → Overrides → ResolvedServerConfig
apply_overrides c o = record c {
  port = override o.port c.port;
  data_dir = override o.data_dir c.data_dir;
  node_id = override o.node_id c.node_id;
  gossip_bind = override o.gossip_bind c.gossip_bind;
  join = override o.join c.join;
  vnodes = override o.vnodes c.vnodes;
}

-- The file system and the TOML parser, by their results on a path.
module _ {FilePath Text : Type 0} (read_to_string : FilePath → Result Text)
    (from_str : Text → Result ServerConfigFile) where
  unfoldable pub load_server_config : FilePath → Result ServerConfigFile
  load_server_config path = do
    contents ← context "failed to read config" (read_to_string path)
    context "failed to parse config" (from_str contents)

  unfoldable pub resolve : Option FilePath → Overrides → Result ResolvedServerConfig
  unfolding load_server_config
  resolve none o = ok (apply_overrides default_config o)
  resolve (some path) o = do file ← load_server_config path; ok (apply_overrides (from_file file) o)
