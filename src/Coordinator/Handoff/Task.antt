-- ===== src/Coordinator/Handoff/Task.antt =====
-- `HandoffTask::run` (src/coordinator/handoff.rs) as `ReplicatedStore::new` starts it.
use diynamo.Base.{
  ℕ, Bytes, Bool, Result, ok, err, Option, none, some, List, ◌≡◌, refl, subst, ok-injective,
  Result-cases, inl, inr,
}
use diynamo.Config.{ClusterMember}
use diynamo.Cluster.Membership.{GossipNode, subscribe, take_subscriber}
use diynamo.Cluster.Ring.{HashRing, CoordinatorRing, from_roster}
use diynamo.Coordinator.{ReplicatedStore}
use diynamo.Coordinator.Create.{HandoffTask, new, new_on}
use diynamo.Coordinator.Handoff.{Event, LoopState, Effect, initial, run}

module _ {Ring Events : Type 0} (ring_api : HashRing Ring) where
  -- Without a ring the task exits; `received` are the events that the subscriber gives until its
  -- channel closes, each with the tasks that have ended when it was handled. The result is the ring
  -- for the reconciliations, and what the loop spawned and aborted.
  unfoldable pub run_task :
      (Events → List ((ℕ → Bool) × Event))
      → HandoffTask Events
      → Option (CoordinatorRing Ring × (LoopState × List Effect))
  run_task received task = elim (from_roster ring_api task.roster task.n task.vnodes) [
    | ok ring ↦ some (ring, run initial (received task.events))
    | err e ↦ none
  ]

  -- The hand-off task of a coordinator that was created does not exit for want of a ring. If the maps
  -- of the two rings yield their keys in one order, it reconciles by the coordinator's own ring; and it
  -- handles the events of its subscriber.
  pub run_task-new :
      {Handle : Type 0} (received : Events → List ((ℕ → Bool) × Event)) (http : Result (Unit {0}))
      (gossip : GossipNode Handle Events) (self_id : Bytes) (roster : List ClusterMember)
      (n w r vnodes : ℕ) (store : ReplicatedStore Ring) (task : HandoffTask Events)
      → (new ring_api http gossip self_id roster n w r vnodes).0 ≡ ok (store, task)
      → run_task received task ≡ some (store.ring, run initial (received task.events))
  unfolding run_task new new_on subscribe
  run_task-new received http gossip self_id roster n w r vnodes store task h =
      let sub = gossip.event_sub in
      elim (Result-cases (from_roster ring_api roster n vnodes)) [
        | inr (x, f) ↦ cc (rw f at h)
        | inl (ring, f) ↦ elim (Result-cases http) [
          | inr (x, g) ↦ cc (rw (f, g) at h)
          | inl (client, g) ↦ elim (Result-cases (take_subscriber sub.poisoned sub.value).0) [
            | inr (x, s) ↦ cc (rw (f, g, s) at h)
            | inl (events, s) ↦
                let built = ok-injective _ _ (rw (f, g, s) at h) in
                subst
                  (λ (x : ReplicatedStore Ring × HandoffTask Events).
                    run_task received x.1 ≡ some (x.0.ring, run initial (received x.1.events)))
                  built (rw (run_task, f) refl)
          ]
        ]
      ]
