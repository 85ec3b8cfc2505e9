-- ===== src/Cluster/Types.antt =====
-- src/cluster/types.rs: a member of the cluster.
use diynamo.Base.{ℕ, Bytes, codes, ◌++◌, replicate, contains, if◌then◌else◌}
use diynamo.Base.Utf8.{decimal_u16}
use diynamo.Config.{SocketAddr, ClusterMember}

pub record MemberInfo : Type 0 where
  pub id : Bytes
  pub gossip_addr : SocketAddr
  pub forward_port : ℕ
  pub uuid : Bytes

-- `From<ClusterMember>`
unfoldable pub from_cluster_member : ClusterMember → MemberInfo
from_cluster_member m = record {
  id = m.id;
  gossip_addr = m.gossip_addr;
  forward_port = m.forward_port;
  uuid = replicate 16 0;
}

-- `format!("http://{}:{}", ip, port)`
unfoldable pub base_url : Bytes → ℕ → Bytes
base_url ip port = codes "http://" ++ ip ++ codes ":" ++ decimal_u16 port

unfoldable pub http_base_url : MemberInfo → Bytes
unfolding base_url
http_base_url m = base_url m.gossip_addr.ip m.forward_port

unfoldable pub internal_base_url : MemberInfo → Bytes
unfolding http_base_url
internal_base_url m = http_base_url m

-- `Display` of an address: an IPv6 address, which has colons, stands in brackets.
unfoldable pub display_addr : SocketAddr → Bytes
display_addr a =
    let ip = if contains a.ip b':' then codes "[" ++ a.ip ++ codes "]" else a.ip in
    ip ++ codes ":" ++ decimal_u16 a.port

-- `Display`
unfoldable pub display : MemberInfo → Bytes
unfolding display_addr
display m =
    m.id
    ++ codes "@"
    ++ display_addr m.gossip_addr
    ++ codes " (http:"
    ++ decimal_u16 m.forward_port
    ++ codes ")"
