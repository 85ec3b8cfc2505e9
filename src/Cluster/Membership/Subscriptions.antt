-- ===== src/Cluster/Membership/Subscriptions.antt =====
-- How a node starts and who gets its events: `GossipNode::start` and `GossipNode::subscribe`
-- (src/cluster/membership.rs).
use diynamo.Base.{
  Option, some, ℕ, zero, suc, Bytes, List, [], ◌∷◌, All, Bool, true, false, Result, ok, err,
  ok-injective, Error, panicked, message, none, ◌≡◌, ◌≢◌, ◌↔◌, ◌⊎◌, inl, inr, refl, ap,
  Result-cases, String,
}
use diynamo.Config.{SocketAddr}
use diynamo.Cluster.Delegate.{NodeMeta}
use diynamo.Cluster.Membership.{
  Memberlist, Joining, all_joined, partly_joined, GossipNode, take_subscriber, subscribe,
  check_joining, join_cluster, start,
}

-- A panic.
abbrev pub Panics : {A : Type 0} → Result A → Type 0
Panics r = (msg : String) × (r ≡ err (panicked msg))

pub take_subscriber-none :
    {A : Type 0} (poisoned : Bool)
    → Panics (take_subscriber {A = A} poisoned none).0
      × ((take_subscriber {A = A} poisoned none).1.value ≡ none)
unfolding take_subscriber
take_subscriber-none true = ((_, refl), refl)
take_subscriber-none false = ((_, refl), refl)

pub take_subscriber-ok :
    {A : Type 0} (poisoned : Bool) (value : Option A) (events : A)
    → (take_subscriber poisoned value).0 ≡ ok events
    → (value ≡ some events) × ((take_subscriber poisoned value).1.value ≡ none)
unfolding take_subscriber
take_subscriber-ok true value events e = cc
take_subscriber-ok false none events e = cc
take_subscriber-ok false (some a) events e = (ap some (ok-injective _ _ e), refl)

module _ {Handle Events W : Type 0} (memberlist : Memberlist Handle Events W) (inner : Handle) where
  check_joining-fails :
      (joining : Joining) (x : Error) → check_joining joining ≡ err x → joining ≡ partly_joined []
  unfolding check_joining
  check_joining-fails (all_joined js) x e = cc
  check_joining-fails (partly_joined []) x e = refl
  check_joining-fails (partly_joined (j ∷ js)) x e = cc

  join_cluster-fails :
      (join_seeds : List SocketAddr) (w : W) (x : Error)
      → (join_cluster memberlist inner join_seeds w).0 ≡ err x
      → (join_seeds ≢ []) × ((memberlist.join_many inner join_seeds w).0 ≡ partly_joined [])
  unfolding join_cluster
  join_cluster-fails [] w x e = cc
  join_cluster-fails (s ∷ seeds) w x e =
      (λ no_seeds. cc, check_joining-fails (memberlist.join_many inner (s ∷ seeds) w).0 x e)

  fails-join_cluster :
      (join_seeds : List SocketAddr) (w : W)
      → join_seeds ≢ []
      → (memberlist.join_many inner join_seeds w).0 ≡ partly_joined []
      → (join_cluster memberlist inner join_seeds w).0 ≡ err (message "failed to join any seed")
  unfolding join_cluster check_joining
  fails-join_cluster [] w some_seed e = absurd (some_seed refl)
  fails-join_cluster (s ∷ seeds) w some_seed e = rw e refl

module _ {Handle Events : Type 0} where
  -- The results of that many subscriptions, one after another.
  unfoldable pub subscriptions : ℕ → GossipNode Handle Events → List (Result Events)
  subscriptions zero node = []
  subscriptions (suc k) node = let (r, node') = subscribe node in r ∷ subscriptions k node'

  subscriptions-none :
      (k : ℕ) (node : GossipNode Handle Events)
      → node.event_sub.value ≡ none
      → All Panics (subscriptions k node)
  unfolding subscriptions subscribe
  subscriptions-none zero node e = tt
  subscriptions-none (suc k) node e =
      let (panics, nothing) = take_subscriber-none {A = Events} node.event_sub.poisoned in
      rw e (
        panics,
        subscriptions-none k
            (record node { event_sub = (take_subscriber node.event_sub.poisoned none).1 }) nothing,
      )

  module _ {W : Type 0} (memberlist : Memberlist Handle Events W) (node_id : Bytes)
      (gossip_bind : SocketAddr) (join_seeds : List SocketAddr) (node_meta : NodeMeta) (w : W) where
    -- A node that starts holds the subscriber to its memberlist.
    pub start-event_sub :
        (node : GossipNode Handle Events)
        → (start memberlist node_id gossip_bind join_seeds node_meta w).0 ≡ ok node
        → (events : Events) × ((memberlist.with_delegate node_id gossip_bind node_meta w).0
            ≡ ok (node.inner, events))
          × (node.event_sub.value ≡ some events)
    unfolding start
    start-event_sub node h =
        elim (Result-cases (memberlist.with_delegate node_id gossip_bind node_meta w).0) [
          | inr (x, e) ↦ cc (rw e at h)
          | inl ((inner, events), e) ↦
              let w' = (memberlist.with_delegate node_id gossip_bind node_meta w).1 in
              elim (Result-cases (join_cluster memberlist inner join_seeds w').0) [
                | inr (x, f) ↦ cc (rw (e, f) at h)
                | inl (u, f) ↦ rw (← ok-injective _ _ (rw (e, f) at h)) (events, e, refl)
              ]
        ]

    -- A node that starts can be subscribed to once, and the subscriber is the one that its memberlist
    -- reports to: of any number of calls of `subscribe`, the first returns it and all others panic.
    pub subscriptions-start :
        (node : GossipNode Handle Events) (k : ℕ)
        → (start memberlist node_id gossip_bind join_seeds node_meta w).0 ≡ ok node
        → (events : Events) × ((memberlist.with_delegate node_id gossip_bind node_meta w).0
            ≡ ok (node.inner, events))
          × ((rest : List (Result Events)) × (subscriptions (suc k) node ≡ ok events ∷ rest)
              × All Panics rest)
    unfolding start subscriptions subscribe take_subscriber
    subscriptions-start node k h =
        elim (Result-cases (memberlist.with_delegate node_id gossip_bind node_meta w).0) [
          | inr (x, e) ↦ cc (rw e at h)
          | inl ((inner, events), e) ↦
              elim (Result-cases
                (join_cluster memberlist inner join_seeds
                  (memberlist.with_delegate node_id gossip_bind node_meta w).1).0) [
                    | inr (x, f) ↦ cc (rw (e, f) at h)
                    | inl (u, f) ↦ rw (← ok-injective _ _ (rw (e, f) at h)) (
                      events,
                      e,
                      (
                        _,
                        refl,
                        subscriptions-none k
                            (record {
                              inner = inner;
                              node_id = node_id;
                              gossip_bind = gossip_bind;
                              event_sub = record { poisoned = false; value = none };
                            })
                            refl,
                      ),
                    )
                  ]
        ]

    -- The start fails exactly if the memberlist does not start, or if there are seeds and none of
    -- them is joined.
    pub start_fails_iff :
        ((x : Error) × ((start memberlist node_id gossip_bind join_seeds node_meta w).0 ≡ err x))
        ↔ (((x : Error) × ((memberlist.with_delegate node_id gossip_bind node_meta w).0 ≡ err x))
            ⊎ ((inner : Handle) × (events : Events) × ((memberlist.with_delegate node_id gossip_bind
                    node_meta w).0
                  ≡ ok (inner, events))
                × (join_seeds ≢ [])
                × ((memberlist.join_many inner join_seeds
                      (memberlist.with_delegate node_id gossip_bind node_meta w).1).0
                    ≡ partly_joined [])))
    unfolding start join_cluster check_joining
    start_fails_iff = (
      λ (x, h). elim (Result-cases (memberlist.with_delegate node_id gossip_bind node_meta w).0) [
        | inr bad ↦ inl bad
        | inl ((inner, events), e) ↦
            let w' = (memberlist.with_delegate node_id gossip_bind node_meta w).1 in
            elim (Result-cases (join_cluster memberlist inner join_seeds w').0) [
              | inl (u, f) ↦ cc (rw (e, f) at h)
              | inr (y, f) ↦
                  let (some_seed, none_joined) =
                    join_cluster-fails memberlist inner join_seeds w' y f in
                  inr (inner, events, e, some_seed, none_joined)
            ]
      ],
      λ h. elim h [
        | inl (x, e) ↦ rw e (_, refl)
        | inr (inner, events, e, some_seed, none_joined) ↦
            rw (e, fails-join_cluster memberlist inner join_seeds _ some_seed none_joined) (_, refl)
      ],
    )
