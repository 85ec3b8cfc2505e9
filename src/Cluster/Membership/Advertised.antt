-- ===== src/Cluster/Membership/Advertised.antt =====
-- What other nodes see of a node's metadata: `DiynamoNodeDelegate::node_meta` (src/cluster/delegate.rs) and
-- `GossipNode::online_members` (src/cluster/membership.rs).
use diynamo.Base.{
  ℕ, ◌<◌, ◌≤◌, ◌^◌, Bytes, List, [], ◌∷◌, length, map, All, ok, Result, ◌≡◌, refl, some,
}
use mathlib.Core.List.{append-nil}
use diynamo.Cluster.Delegate.{
  NodeMeta, node_meta, to_bytes, from_bytes, from_bytes-to_bytes, to_bytes-IsByteString,
  IsByteString, meta_max_size,
}
use diynamo.Cluster.Membership.{
  NodeState, Memberlist, GossipNode, node_state_to_member, online_members,
}

-- A node's state as the gossip library keeps it, with the metadata that the node's delegate gives.
abbrev pub IsAdvertised : (Bytes → Result Bytes) → NodeState → NodeMeta → Type 0
IsAdvertised try_from state m = (limit : ℕ) × (state.meta ≡ node_meta try_from m limit)

-- The metadata of a process: its UUID and its HTTP port.
pub record IsMeta (m : NodeMeta) : Type 0 where
  pub uuid_length : length m.uuid ≡ 16
  pub uuid_bytes : IsByteString m.uuid
  pub port_u16 : m.http_port < 2 ^ 16

module _ (try_from : Bytes → Result Bytes)
    (try_from_lem : (s : Bytes) → length s ≤ meta_max_size → try_from s ≡ ok s) where
  member-advertised :
      (state : NodeState) (m : NodeMeta)
      → IsMeta m
      → IsAdvertised try_from state m
      → node_state_to_member state ≡ record {
        id = state.id;
        gossip_addr = state.addr;
        forward_port = m.http_port;
        uuid = m.uuid;
      }
  unfolding node_state_to_member node_meta
  member-advertised state m i (limit, e) =
      let (n, small, b) = to_bytes-IsByteString m i.uuid_length i.uuid_bytes i.port_u16 in
      let seen : state.meta ≡ to_bytes m = rw (try_from_lem (to_bytes m) small) at e in
      let back = from_bytes-to_bytes m [] i.uuid_length i.port_u16 in
      let read : from_bytes (to_bytes m) ≡ some m = rw (append-nil) at back in rw (seen, read) refl

  All-members :
      (metas : Bytes → NodeMeta) (states : List NodeState)
      → All (λ s. IsMeta (metas s.id) × IsAdvertised try_from s (metas s.id)) states
      → All
          (λ m. (m.forward_port ≡ (metas m.id).http_port) × (m.uuid ≡ (metas m.id).uuid))
          (map node_state_to_member states)
  All-members metas [] a = tt
  All-members metas (s ∷ states) a =
      rw (member-advertised s (metas s.id) a.0.0 a.0.1) ((refl, refl), All-members metas states a.1)

  -- The gossip library accepts a block of up to 512 bytes as it is. If it reports of every online node
  -- the metadata that the node's own delegate gives, then each member that a node sees online has
  -- the HTTP port and the UUID of its process.
  pub online_members-advertised :
      {Handle Events W : Type 0} (memberlist : Memberlist Handle Events W)
      (node : GossipNode Handle Events) (w : W) (metas : Bytes → NodeMeta)
      → All
          (λ s. IsMeta (metas s.id) × IsAdvertised try_from s (metas s.id))
          (memberlist.online_members node.inner w).0
      → All
          (λ m. (m.forward_port ≡ (metas m.id).http_port) × (m.uuid ≡ (metas m.id).uuid))
          (online_members memberlist node w).0
  unfolding online_members
  online_members-advertised memberlist node w metas a = All-members metas _ a
