-- ===== src/Harness/Spawn/Roster.antt =====
-- The roster of a cluster that the harness spawned (src/test_support/mod.rs).
use diynamo.Base.{
  ℕ, Bytes, codes, Result, ok, ok-injective, List, [], ◌∷◌, map, ◌≡◌, refl, ap, ap₂, ◌∙◌,
  Result-cases, inl, inr,
}
use diynamo.Config.{SocketAddr, ClusterMember}
use diynamo.Cluster.Ring.{HashRing}
use diynamo.Cluster.Membership.{Memberlist}
use diynamo.Cluster.Membership as Membership
use diynamo.Coordinator.Create as Create
use diynamo.Harness.{Time, reserve_gossip_addr, start_gossip_with_retry}
use diynamo.Harness.Spawn.{
  Binding, Host, Spawned, TestCluster, entry_of, roster_of, seed_gossip, bind_all, spawn_node,
  spawn_peers, spawn_nodes, spawn_all,
}

-- A node as the roster lists it.
abbrev pub listed_as :
    {Ring Handle Events Db : Type 0} → Spawned Ring Handle Events Db → ClusterMember
listed_as s = record {
  id = s.node.id;
  gossip_addr = s.node.gossip_addr;
  forward_port = s.node.http_port;
}

module _ {Ring Handle Events Db W : Type 0} (ring_api : Bytes → HashRing Ring)
    (memberlist : Memberlist Handle Events W) (time : Time W) (host : Host Db W)
    (http : Result (Unit {0})) where
  ids-bind_all :
      (node_ids : List Bytes) (w : W) (bindings : List Binding)
      → (bind_all ring_api memberlist time host http node_ids w).0 ≡ ok bindings
      → map (λ b. b.id) bindings ≡ node_ids
  unfolding bind_all
  ids-bind_all [] w bindings h = rw (← ok-injective _ _ h) refl
  ids-bind_all (id ∷ node_ids) w bindings h =
      let (r₁, w₁) = host.bind w in
      let (r₂, w₂) = reserve_gossip_addr time host.bind host.in_use w₁ in
      let (r₃, w₃) = bind_all ring_api memberlist time host http node_ids w₂ in
      elim (Result-cases r₁) [
        | inr (x, e₁) ↦ cc (rw e₁ at h)
        | inl (a, e₁) ↦ elim (Result-cases r₂) [
          | inr (x, e₂) ↦ cc (rw (e₁, e₂) at h)
          | inl (g, e₂) ↦ elim (Result-cases r₃) [
            | inr (x, e₃) ↦ cc (rw (e₁, e₂, e₃) at h)
            | inl (bs, e₃) ↦
                rw (← ok-injective _ _ (rw (e₁, e₂, e₃) at h))
                  (ap (λ (x : List Bytes). id ∷ x) (ids-bind_all node_ids w₂ bs e₃))
          ]
        ]
      ]

  module _ (roster : List ClusterMember) (n w r vnodes : ℕ) where
    listed-spawn_node :
        (join : List SocketAddr) (b : Binding) (v : W) (s : Spawned Ring Handle Events Db)
        → (spawn_node ring_api memberlist time host http roster n w r vnodes join b v).0 ≡ ok s
        → listed_as s ≡ entry_of b
    unfolding spawn_node
    listed-spawn_node join b v s h =
        let (r₁, w₁) = host.temp_dir v in
        elim (Result-cases r₁) [
          | inr (x, e₁) ↦ cc (rw e₁ at h)
          | inl (data_dir, e₁) ↦
              let (r₂, w₂) = host.open_db data_dir w₁ in
              elim (Result-cases r₂) [
                | inr (x, e₂) ↦ cc (rw (e₁, e₂) at h)
                | inl (local, e₂) ↦
                    let (r₃, w₃) = host.open_db (host.join_path data_dir (codes "hints")) w₂ in
                    elim (Result-cases r₃) [
                      | inr (x, e₃) ↦ cc (rw (e₁, e₂, e₃) at h)
                      | inl (hints, e₃) ↦
                          let (uuid, w₄) = host.new_v4 w₃ in
                          let (r₅, w₅) =
                            start_gossip_with_retry time host.in_use
                              (Membership.start memberlist b.id b.gossip_addr join
                                (record { uuid = uuid; http_port = b.http_addr.port }))
                              w₄ in
                          elim (Result-cases r₅) [
                            | inr (x, e₅) ↦ cc (rw (e₁, e₂, e₃, e₅) at h)
                            | inl (gossip, e₅) ↦
                                elim (Result-cases
                                  (Create.new (ring_api b.id) http gossip b.id roster n w r
                                    vnodes).0) [
                                      | inr (x, e₆) ↦ cc (rw (e₁, e₂, e₃, e₅, e₆) at h)
                                      | inl (made, e₆) ↦
                                          rw (← ok-injective _ _ (rw (e₁, e₂, e₃, e₅, e₆) at h))
                                            refl
                                    ]
                          ]
                    ]
              ]
        ]

    listed-spawn_peers :
        (seed : SocketAddr) (bindings : List Binding) (v : W)
        (nodes : List (Spawned Ring Handle Events Db))
        → (spawn_peers ring_api memberlist time host http roster n w r vnodes seed bindings v).0
          ≡ ok nodes
        → map listed_as nodes ≡ map entry_of bindings
    unfolding spawn_peers
    listed-spawn_peers seed [] v nodes h = rw (← ok-injective _ _ h) refl
    listed-spawn_peers seed (b ∷ bindings) v nodes h =
        let (r₁, w₁) =
          spawn_node ring_api memberlist time host http roster n w r vnodes (seed ∷ []) b v in
        let (r₂, w₂) =
          spawn_peers ring_api memberlist time host http roster n w r vnodes seed bindings w₁ in
        elim (Result-cases r₁) [
          | inr (x, e₁) ↦ cc (rw e₁ at h)
          | inl (s, e₁) ↦ elim (Result-cases r₂) [
            | inr (x, e₂) ↦ cc (rw (e₁, e₂) at h)
            | inl (rest, e₂) ↦ rw (← ok-injective _ _ (rw (e₁, e₂) at h)) (
                ap₂ (λ (m : ClusterMember) (ms : List ClusterMember). m ∷ ms)
                  (listed-spawn_node (seed ∷ []) b v s e₁)
                  (listed-spawn_peers seed bindings w₁ rest e₂))
          ]
        ]

    listed-spawn_nodes :
        (seed : SocketAddr) (bindings : List Binding) (v : W)
        (nodes : List (Spawned Ring Handle Events Db))
        → (spawn_nodes ring_api memberlist time host http roster n w r vnodes seed bindings v).0
          ≡ ok nodes
        → map listed_as nodes ≡ map entry_of bindings
    unfolding spawn_nodes
    listed-spawn_nodes seed [] v nodes h = rw (← ok-injective _ _ h) refl
    listed-spawn_nodes seed (b ∷ bindings) v nodes h =
        let (r₁, w₁) = spawn_node ring_api memberlist time host http roster n w r vnodes [] b v in
        let (r₂, w₂) =
          spawn_peers ring_api memberlist time host http roster n w r vnodes seed bindings w₁ in
        elim (Result-cases r₁) [
          | inr (x, e₁) ↦ cc (rw e₁ at h)
          | inl (s, e₁) ↦ elim (Result-cases r₂) [
            | inr (x, e₂) ↦ cc (rw (e₁, e₂) at h)
            | inl (rest, e₂) ↦ rw (← ok-injective _ _ (rw (e₁, e₂) at h)) (
                ap₂ (λ (m : ClusterMember) (ms : List ClusterMember). m ∷ ms)
                  (listed-spawn_node [] b v s e₁) (listed-spawn_peers seed bindings w₁ rest e₂))
          ]
        ]

  ids-roster :
      (bindings : List Binding) → map (λ m. m.id) (map entry_of bindings) ≡ map (λ b. b.id) bindings
  ids-roster [] = refl
  ids-roster (b ∷ bindings) = ap (λ (x : List Bytes). b.id ∷ x) (ids-roster bindings)

  -- The roster of a cluster that was spawned has the given ids, in their order, and lists exactly
  -- its nodes, each with the addresses that it was started on.
  pub spawn_all-roster :
      (node_ids : List Bytes) (n w r vnodes : ℕ) (v : W)
      (cluster : TestCluster Ring Handle Events Db)
      → (spawn_all ring_api memberlist time host http node_ids n w r vnodes v).0 ≡ ok cluster
      → (map (λ m. m.id) cluster.roster ≡ node_ids) × (map listed_as cluster.nodes ≡ cluster.roster)
  unfolding spawn_all roster_of
  spawn_all-roster node_ids n w r vnodes v cluster h =
      let (r₁, w₁) = bind_all ring_api memberlist time host http node_ids v in
      elim (Result-cases r₁) [
        | inr (x, e₁) ↦ cc (rw e₁ at h)
        | inl (bindings, e₁) ↦ elim (Result-cases (seed_gossip (roster_of bindings))) [
          | inr (x, e₂) ↦ cc (rw (e₁, e₂) at h)
          | inl (seed, e₂) ↦
              let (r₃, w₃) =
                spawn_nodes ring_api memberlist time host http (roster_of bindings) n w r vnodes
                  seed bindings w₁ in
              elim (Result-cases r₃) [
                | inr (x, e₃) ↦ cc (rw (e₁, e₂, e₃) at h)
                | inl (nodes, e₃) ↦ rw (← ok-injective _ _ (rw (e₁, e₂, e₃) at h)) (
                  ids-roster bindings ∙ ids-bind_all node_ids v bindings e₁,
                  listed-spawn_nodes (roster_of bindings) n w r vnodes seed bindings w₁ nodes e₃,
                )
              ]
        ]
      ]
