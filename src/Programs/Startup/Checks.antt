-- ===== src/Programs/Startup/Checks.antt =====
-- What holds of a server that has started, and what a refused start leaves (src/bin/server.rs).
use mathlib.Core.Option.{some-injective}
use diynamo.Base.{
  ◌≤◌, Bytes, length, Bool, Error, Result, ok, err, ok-injective, some, [], ◌≡◌, ◌⊎◌, refl, sym, ap,
  ◌∙◌, Result-cases, inl, inr, codes, message,
}
use diynamo.Config.{ResolvedServerConfig}
use diynamo.Cluster.Membership.{GossipNode, Memberlist, start}
use diynamo.Cluster.Delegate.{NodeMeta}
use diynamo.Cluster.Membership.Subscriptions.{start-event_sub}
use diynamo.Cluster.Ring.{HashRing}
use diynamo.Coordinator.Create.{new, new-once, new-inner}
use diynamo.Programs.Startup.{
  System, Server, maybe_wipe_data_dir, open_store, open_hints, create, on_gossip, prepare, main,
}

module _ {Ring Handle Events Db W : Type 0} (ring_api : HashRing Ring)
    (memberlist : Memberlist Handle Events W) (system : System Db W)
    (http : Result (Unit {0})) where
  create-long :
      (cfg : ResolvedServerConfig) (local hints : Db) (gossip : GossipNode Handle Events)
      (server : Server Ring Handle Events Db)
      → create ring_api memberlist system http cfg local hints gossip ≡ ok server
      → (cfg.n ≤ length cfg.cluster_members)
        × (gossip.event_sub.value ≡ some server.task.events)
        × (gossip.inner ≡ server.gossip.inner)
  unfolding create
  create-long cfg local hints gossip server h =
      elim (Result-cases
        (new ring_api http gossip cfg.node_id cfg.cluster_members cfg.n cfg.w cfg.r cfg.vnodes).0) [
          | inr (x, e) ↦ cc (rw e at h)
          | inl ((store, task), e) ↦
              let (long, sub, once) =
                new-once ring_api http gossip cfg.node_id cfg.cluster_members cfg.n cfg.w cfg.r
                  cfg.vnodes store task e in
              (
                long,
                sub
                    ∙ ap some (
                        ap (λ (v : Server Ring Handle Events Db). v.task.events)
                          (ok-injective _ _ (rw e at h))),
                sym (
                      new-inner ring_api http gossip cfg.node_id cfg.cluster_members cfg.n cfg.w
                        cfg.r cfg.vnodes)
                    ∙ ap (λ (v : Server Ring Handle Events Db). v.gossip.inner)
                        (ok-injective _ _ (rw e at h)),
              )
        ]

  on_gossip-long :
      (cfg : ResolvedServerConfig) (local hints : Db) (gossip : GossipNode Handle Events) (w : W)
      (server : Server Ring Handle Events Db)
      → (on_gossip ring_api memberlist system http cfg local hints gossip w).0 ≡ ok server
      → (cfg.n ≤ length cfg.cluster_members)
        × (gossip.event_sub.value ≡ some server.task.events)
        × (gossip.inner ≡ server.gossip.inner)
  unfolding on_gossip
  on_gossip-long cfg local hints gossip w server h =
      elim (Result-cases (create ring_api memberlist system http cfg local hints gossip)) [
        | inr (x, e) ↦ cc (rw e at h)
        | inl (made, e) ↦ elim (Result-cases (system.bind cfg.port w).0) [
          | inr (x, f) ↦ cc (rw (e, f) at h)
          | inl (u, f) ↦ create-long cfg local hints gossip server (e ∙ rw (e, f) at h)
        ]
      ]

  -- The state in which the gossip starts, behind the opening of the stores, and the startup UUID.
  unfoldable pub before_gossip : ResolvedServerConfig → Bool → W → Bytes × W
  before_gossip cfg wipe_data w =
      let wiped =
        (maybe_wipe_data_dir ring_api memberlist system http cfg.data_dir wipe_data w).1 in
      let stored = (open_store ring_api memberlist system http cfg.data_dir wiped).1 in
      system.new_v4
        (open_hints ring_api memberlist system http (system.join_path cfg.data_dir (codes "hints"))
          stored).1

  -- A server that is ready to serve has a roster of at least `n` members. Its gossip node is on the
  -- memberlist that was started behind the opening of the stores, with the UUID that was drawn there
  -- and under the server's own id, address and port; and its hand-off task gets the events of that
  -- same memberlist.
  pub prepare-roster :
      (cfg : ResolvedServerConfig) (wipe_data : Bool) (w : W)
      (server : Server Ring Handle Events Db)
      → (prepare ring_api memberlist system http cfg wipe_data w).0 ≡ ok server
      → (cfg.n ≤ length cfg.cluster_members)
        × ((memberlist.with_delegate cfg.node_id cfg.gossip_bind
              (record { uuid = (before_gossip cfg wipe_data w).0; http_port = cfg.port })
              (before_gossip cfg wipe_data w).1).0
            ≡ ok (server.gossip.inner, server.task.events))
  unfolding prepare before_gossip
  prepare-roster cfg wipe_data w server h =
      let (r₁, w₁) = maybe_wipe_data_dir ring_api memberlist system http cfg.data_dir wipe_data w in
      let (r₂, w₂) = open_store ring_api memberlist system http cfg.data_dir w₁ in
      let (r₃, w₃) =
        open_hints ring_api memberlist system http (system.join_path cfg.data_dir (codes "hints"))
          w₂ in
      let (uuid, w₄) = system.new_v4 w₃ in
      let meta : NodeMeta = record { uuid = uuid; http_port = cfg.port } in
      let (r₅, w₅) = start memberlist cfg.node_id cfg.gossip_bind cfg.join meta w₄ in
      elim (Result-cases r₁) [
        | inr (x, e₁) ↦ cc (rw e₁ at h)
        | inl (u, e₁) ↦ elim (Result-cases r₂) [
          | inr (x, e₂) ↦ cc (rw (e₁, e₂) at h)
          | inl (local, e₂) ↦ elim (Result-cases r₃) [
            | inr (x, e₃) ↦ cc (rw (e₁, e₂, e₃) at h)
            | inl (hints, e₃) ↦ elim (Result-cases r₅) [
              | inr (x, e₅) ↦ cc (rw (e₁, e₂, e₃, e₅) at h)
              | inl (gossip, e₅) ↦
                  let (long, sub, inner) =
                    on_gossip-long cfg local hints gossip w₅ server (rw (e₁, e₂, e₃, e₅) at h) in
                  let (events, started, there) =
                    start-event_sub memberlist cfg.node_id cfg.gossip_bind cfg.join meta w₄ gossip
                      e₅ in
                  let same : events ≡ server.task.events = some-injective _ _ (sym there ∙ sub) in
                  (long, rw (← same, ← inner) started)
            ]
          ]
        ]
      ]

  -- If the settings do not resolve, or their roster is empty, the start fails and does nothing
  -- else: it removes no data, opens no store, and starts no gossip.
  pub main-refuses :
      (resolved : Result ResolvedServerConfig) (wipe_data : Bool) (w : W)
      → ((x : Error) × (resolved ≡ err x))
        ⊎ ((cfg : ResolvedServerConfig) × (resolved ≡ ok cfg) × (cfg.cluster_members ≡ []))
      → (x : Error) × (main ring_api memberlist system http resolved wipe_data w ≡ (err x, w))
  unfolding main
  main-refuses resolved wipe_data w (inl (x, e)) = (x, rw e refl)
  main-refuses resolved wipe_data w (inr (cfg, e, none_there)) = (
    message "config must define [[cluster.members]] for hash ring routing",
    rw (e, none_there) refl,
  )
