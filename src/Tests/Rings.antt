-- ===== src/Tests/Rings.antt =====
-- Runs of the ring, the gossiped metadata and the settings.
use diynamo.Base.{
  ℕ, codes, bytes_eq, ok, none, some, List, [], ◌∷◌, ◌++◌, ◌≡◌, ◌≤◌, refl, arith, length, All,
  Distinct, replicate,
}
use diynamo.Base.Dict.{insert}
use diynamo.Base.Utf8.{is_utf8}
use diynamo.Config.{Overrides}
use diynamo.Cluster.Types.{MemberInfo, from_cluster_member}
use diynamo.Cluster.Delegate.{NodeMeta, to_bytes, from_bytes, from_bytes-to_bytes}
use diynamo.Cluster.Ring.{collect_roster, from_roster, ring_order_for_key}
use diynamo.Cluster.Ring.Order.{member_ids, IsFrom, ring_order_complete}
use diynamo.Tests.Fixtures.{listed, listed-IsHashRing, roster, ring_of}

ring_order_complete_example :
    (all : List MemberInfo) × (ring_order_for_key listed (ring_of 2) (codes "k") ≡ ok all)
    × (length all ≡ 3)
    × (2 ≤ length all)
    × Distinct (member_ids all)
    × All (IsFrom roster) all
unfolding from_roster collect_roster insert from_cluster_member bytes_eq is_utf8
ring_order_complete_example =
    ring_order_complete listed-IsHashRing roster 2 1 (ring_of 2) (codes "k") refl (ground arith)
      (omega arith) refl

abbrev some_meta : NodeMeta
some_meta = record { uuid = replicate 16 7; http_port = 8080 }

from_bytes-to_bytes_example : from_bytes (to_bytes some_meta ++ 1 ∷ []) ≡ some some_meta
from_bytes-to_bytes_example = from_bytes-to_bytes some_meta (1 ∷ []) refl (omega arith)

abbrev only_port : ℕ → Overrides
only_port p = record {
  port = some p;
  data_dir = none;
  node_id = none;
  gossip_bind = none;
  join = none;
  vnodes = none;
}
