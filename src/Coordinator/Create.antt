-- ===== src/Coordinator/Create.antt =====
-- `ReplicatedStore::new` (src/coordinator/mod.rs): the ring, the client, and the hand-off task that takes the
-- node's events.
use diynamo.Base.{
  ℕ, ◌≤◌, Bytes, length, Error, Result, ok, err, ok-injective, List, [], ◌∷◌, ◌≡◌, refl, ap, ◌∙◌,
  arith, Result-cases, inl, inr, none, some,
}
use diynamo.Config.{ClusterMember}
use diynamo.Cluster.Ring.{HashRing, CoordinatorRing, from_roster}
use diynamo.Cluster.Membership.{GossipNode, subscribe, take_subscriber}
use diynamo.Cluster.Membership.Subscriptions.{take_subscriber-none, take_subscriber-ok}
use diynamo.Coordinator.{ReplicatedStore}

-- What `HandoffTask` is started with, besides the shared handles.
pub record HandoffTask (Events : Type 0) : Type 0 where
  pub self_id : Bytes
  pub roster : List ClusterMember
  pub n : ℕ
  pub vnodes : ℕ
  pub events : Events

-- A coordinator and the hand-off task that it started, or an error; and the gossip node, whose subscriber
-- may be taken.
abbrev pub Created : Type 0 → Type 0 → Type 0 → Type 0
Created Ring Handle Events =
    Result (ReplicatedStore Ring × HandoffTask Events) × GossipNode Handle Events

from_roster-long :
    {Ring : Type 0} (ring_api : HashRing Ring) (roster : List ClusterMember) (n vnodes : ℕ)
    (ring : CoordinatorRing Ring)
    → from_roster ring_api roster n vnodes ≡ ok ring
    → n ≤ length roster
unfolding from_roster
from_roster-long ring_api [] n vnodes ring e = cc
from_roster-long ring_api (c ∷ cs) n vnodes ring e = ground (arith, e)

module _ {Ring Handle Events : Type 0} (ring_api : HashRing Ring) where
  -- the code behind the subscription
  abbrev with_events :
      (Events → ReplicatedStore Ring × HandoffTask Events)
      → Result Events × GossipNode Handle Events
      → Created Ring Handle Events
  with_events build (ok events, gossip) = (ok (build events), gossip)
  with_events build (err e, gossip) = (err e, gossip)

  -- the code behind the ring and the client
  unfoldable pub new_on :
      Result (CoordinatorRing Ring)
      → Result (Unit {0})
      → GossipNode Handle Events
      → Bytes
      → List ClusterMember
      → ℕ
      → ℕ
      → ℕ
      → ℕ
      → Created Ring Handle Events
  new_on (err e) http gossip self_id roster n w r vnodes = (err e, gossip)
  new_on (ok ring) (err e) gossip self_id roster n w r vnodes = (err e, gossip)
  new_on (ok ring) (ok client) gossip self_id roster n w r vnodes =
      with_events
        (λ events. (
          record { self_id = self_id; ring = ring; n = n; w = w; r = r },
          record { self_id = self_id; roster = roster; n = n; vnodes = vnodes; events = events },
        ))
        (subscribe gossip)

  -- `ReplicatedStore::new`; `http` is how the shared HTTP client is built
  unfoldable pub new :
      Result (Unit {0})
      → GossipNode Handle Events
      → Bytes
      → List ClusterMember
      → ℕ
      → ℕ
      → ℕ
      → ℕ
      → Created Ring Handle Events
  unfolding new_on
  new http gossip self_id roster n w r vnodes =
      new_on (from_roster ring_api roster n vnodes) http gossip self_id roster n w r vnodes

  -- Nothing takes a subscriber that was taken.
  new-taken :
      (http : Result (Unit {0})) (gossip : GossipNode Handle Events) (self_id : Bytes)
      (roster : List ClusterMember) (n w r vnodes : ℕ)
      → gossip.event_sub.value ≡ none
      → (x : Error) × ((new http gossip self_id roster n w r vnodes).0 ≡ err x)
  unfolding new new_on subscribe
  new-taken http gossip self_id roster n w r vnodes e =
      elim (Result-cases (from_roster ring_api roster n vnodes)) [
        | inr (x, f) ↦ rw f (x, refl)
        | inl (ring, f) ↦ elim (Result-cases http) [
          | inr (x, g) ↦ rw (f, g) (x, refl)
          | inl (client, g) ↦
              let ((msg, panics), nothing) =
                take_subscriber-none {A = Events} gossip.event_sub.poisoned in
              rw (f, g, e, panics) (_, refl)
        ]
      ]

  -- The gossip node stays on its memberlist.
  pub new-inner :
      (http : Result (Unit {0})) (gossip : GossipNode Handle Events) (self_id : Bytes)
      (roster : List ClusterMember) (n w r vnodes : ℕ)
      → (new http gossip self_id roster n w r vnodes).1.inner ≡ gossip.inner
  unfolding new new_on subscribe
  new-inner http gossip self_id roster n w r vnodes =
      let sub = gossip.event_sub in
      elim (Result-cases (from_roster ring_api roster n vnodes)) [
        | inr (x, f) ↦ rw f refl
        | inl (ring, f) ↦ elim (Result-cases http) [
          | inr (x, g) ↦ rw (f, g) refl
          | inl (client, g) ↦ elim (Result-cases (take_subscriber sub.poisoned sub.value).0) [
            | inr (x, s) ↦ rw (f, g, s) refl
            | inl (events, s) ↦ rw (f, g, s) refl
          ]
        ]
      ]

  -- A coordinator is created only from a roster of at least `n` members, its hand-off task gets the
  -- gossip node's subscriber, and no second coordinator can be created on the same gossip node.
  pub new-once :
      (http : Result (Unit {0})) (gossip : GossipNode Handle Events) (self_id : Bytes)
      (roster : List ClusterMember) (n w r vnodes : ℕ) (store : ReplicatedStore Ring)
      (task : HandoffTask Events)
      → (new http gossip self_id roster n w r vnodes).0 ≡ ok (store, task)
      → (n ≤ length roster)
        × (gossip.event_sub.value ≡ some task.events)
        × ((http' : Result (Unit {0})) (self_id' : Bytes) (roster' : List ClusterMember)
              (n' w' r' vnodes' : ℕ)
            → (x : Error) × ((new http'
                  (new http gossip self_id roster n w r vnodes).1
                  self_id'
                  roster'
                  n'
                  w'
                  r'
                  vnodes').0
                ≡ err x))
  unfolding new new_on subscribe
  new-once http gossip self_id roster n w r vnodes store task h =
      let sub = gossip.event_sub in
      elim (Result-cases (from_roster ring_api roster n vnodes)) [
        | inr (x, f) ↦ cc (rw f at h)
        | inl (ring, f) ↦ elim (Result-cases http) [
          | inr (x, g) ↦ cc (rw (f, g) at h)
          | inl (client, g) ↦ elim (Result-cases (take_subscriber sub.poisoned sub.value).0) [
            | inr (x, s) ↦ cc (rw (f, g, s) at h)
            | inl (events, s) ↦
                let (there, gone) = take_subscriber-ok sub.poisoned sub.value events s in
                let same : events ≡ task.events =
                  ap (λ (x : ReplicatedStore Ring × HandoffTask Events). x.1.events)
                    (ok-injective _ _ (rw (f, g, s) at h)) in
                let taken = record gossip {
                  event_sub = (take_subscriber sub.poisoned sub.value).1;
                } in
                (
                  from_roster-long ring_api roster n vnodes ring f,
                  there ∙ ap some same,
                  rw (f, g, s)
                      (λ http' self_id' roster' n' w' r' vnodes'.
                        new-taken http' taken self_id' roster' n' w' r' vnodes' gone),
                )
          ]
        ]
      ]
