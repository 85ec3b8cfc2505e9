-- ===== src/Coordinator/Handoff/Running/Tracked.antt =====
-- Which reconciliation tasks of `HandoffTask::run` (src/coordinator/handoff.rs) run at once.
use mathlib.Core.Option.{some-injective}
use diynamo.Base.{
  sym, ◌∙◌, All, All-In, none, true, ◌⊎◌, refl, ℕ, Bytes, bytes_eq_iff, Bool, false, some, List, [],
  ◌∷◌, ◌≡◌, ◌≢◌, arith, In, inl, inr, Bool-cases, Option-cases, ◌==◌,
}
use diynamo.Base.Dict.{get, insert, remove, get-insert, get-remove}
use diynamo.Cluster.Membership.{NodeState}
use diynamo.Cluster.Types.{base_url}
use diynamo.Cluster.Delegate.{NodeMeta, from_bytes}
use diynamo.Coordinator.Handoff.{
  Event, LoopState, initial, uuid_changed, retain_unfinished, abort_stale, is_alive, on_meta,
  restart_reconciliation, on_alive, on_event, run,
}
use diynamo.Coordinator.Handoff.Running.{Task, abort_task, perform, still_running, running_after}

-- The task was told to abort, or it is the one that the loop remembers for its node.
abbrev pub IsTracked : List (Bytes × ℕ) → Task → Type 0
IsTracked active task = (task.aborted ≡ true) ⊎ (get task.node_id active ≡ some task.handle)

-- Every task that runs is so.
abbrev AllTracked : List (Bytes × ℕ) → List Task → Type 0
AllTracked active = All (IsTracked active)

get-retain :
    (finished : ℕ → Bool) (id : Bytes) (h : ℕ) (active : List (Bytes × ℕ))
    → get id active ≡ some h
    → finished h ≡ false
    → get id (retain_unfinished finished active) ≡ some h
unfolding get retain_unfinished
get-retain finished id h [] e f = cc
get-retain finished id h ((j, k) ∷ active) e f = ground (arith, get-retain finished id h active)

IsTracked-retain :
    (finished : ℕ → Bool) (active : List (Bytes × ℕ)) (running : List Task)
    → AllTracked active running
    → AllTracked (retain_unfinished finished active) (still_running finished running)
unfolding still_running
IsTracked-retain finished active [] t = tt
IsTracked-retain finished active (task ∷ running) (t, ts) =
    elim (Bool-cases (finished task.handle)) [
      | inl e ↦ rw e (IsTracked-retain finished active running ts)
      | inr e ↦ rw e (
        elim t [
          | inl a ↦ inl a
          | inr g ↦ inr (get-retain finished task.node_id task.handle active g e)
        ],
        IsTracked-retain finished active running ts,
      )
    ]

-- A task of another node is tracked as before, and one of this node is aborted.
IsTracked-insert :
    (active : List (Bytes × ℕ)) (running : List Task) (node_id : Bytes) (new : ℕ)
    → All
        (λ task.
          (task.aborted ≡ true)
          ⊎ ((node_id ≢ task.node_id) × (get task.node_id active ≡ some task.handle)))
        running
    → AllTracked (insert node_id new (remove node_id active)) running
IsTracked-insert active [] node_id new a = tt
IsTracked-insert active (task ∷ running) node_id new (a, more) = (
  elim a [
    | inl done ↦ inl done
    | inr (n, g) ↦ inr (
        ground (
          arith,
          n,
          g,
          get-insert node_id task.node_id new (remove node_id active),
          get-remove node_id task.node_id active,
          bytes_eq_iff node_id task.node_id,
        ))
  ],
  IsTracked-insert active running node_id new more,
)

-- Behind the abort of the task that the loop remembers for a node, the node has no other.
abort_task-tracked :
    (active : List (Bytes × ℕ)) (running : List Task) (node_id : Bytes) (k : ℕ)
    → get node_id active ≡ some k
    → AllTracked active running
    → All
        (λ task.
          (task.aborted ≡ true)
          ⊎ ((node_id ≢ task.node_id) × (get task.node_id active ≡ some task.handle)))
        (abort_task k running)
unfolding abort_task
abort_task-tracked active [] node_id k e t = tt
abort_task-tracked active (task ∷ running) node_id k e (t, ts) =
    let rest = abort_task-tracked active running node_id k e ts in
    elim (Bool-cases (task.handle == k)) [
      | inl same ↦ rw same (inl refl, rest)
      | inr other ↦ rw other (
        elim t [ inl a ↦ inl a | inr g ↦ inr (λ here. ground (arith, e, g, here, other), g) ],
        rest,
      )
    ]

-- Of a node that the loop remembers no task of, all tasks are aborted.
no_task-tracked :
    (active : List (Bytes × ℕ)) (running : List Task) (node_id : Bytes)
    → get node_id active ≡ none
    → AllTracked active running
    → All
        (λ task.
          (task.aborted ≡ true)
          ⊎ ((node_id ≢ task.node_id) × (get task.node_id active ≡ some task.handle)))
        running
no_task-tracked active [] node_id e t = tt
no_task-tracked active (task ∷ running) node_id e (t, ts) = (
  elim t [ inl a ↦ inl a | inr g ↦ inr (λ here. ground (arith, e, g, here), g) ],
  no_task-tracked active running node_id e ts,
)

new_task :
    (active : List (Bytes × ℕ)) (node_id : Bytes) (new : ℕ)
    → get node_id (insert node_id new (remove node_id active)) ≡ some new
new_task active node_id new =
    ground
      (arith, get-insert node_id node_id new (remove node_id active), bytes_eq_iff node_id node_id)

-- A restart aborts the node's old task, and no other.
IsTracked-restart :
    (s : LoopState) (running : List Task) (node_id url : Bytes)
    → AllTracked s.active_reconciliations running
    → AllTracked
        (restart_reconciliation s node_id url).0.active_reconciliations
        (perform (restart_reconciliation s node_id url).1 running)
unfolding restart_reconciliation perform abort_stale
IsTracked-restart s running node_id url t =
    let active = s.active_reconciliations in
    let new = new_task active node_id s.next_handle in
    elim (Option-cases (get node_id active)) [
      | inl e ↦ rw e (
        inr new,
        IsTracked-insert active running node_id s.next_handle
            (no_task-tracked active running node_id e t),
      )
      | inr (k, e) ↦ rw e (
        inr new,
        IsTracked-insert active (abort_task k running) node_id s.next_handle
            (abort_task-tracked active running node_id k e t),
      )
    ]

IsTracked-on_alive :
    (finished : ℕ → Bool) (s : LoopState) (running : List Task) (state : NodeState)
    (meta : NodeMeta)
    → AllTracked s.active_reconciliations running
    → AllTracked
        (on_alive finished s state meta).0.active_reconciliations
        (still_running finished (perform (on_alive finished s state meta).1 running))
unfolding on_alive perform
IsTracked-on_alive finished s running state meta t =
    let url = base_url state.addr.ip meta.http_port in
    elim (Bool-cases (uuid_changed (get state.id s.known_uuids) meta.uuid)) [
      | inl changed ↦ rw changed (
          IsTracked-retain finished (restart_reconciliation s state.id url).0.active_reconciliations
            (perform (restart_reconciliation s state.id url).1 running)
            (IsTracked-restart s running state.id url t))
      | inr same ↦ rw same (IsTracked-retain finished s.active_reconciliations running t)
    ]

still_running-tracked :
    (finished : ℕ → Bool) (active : List (Bytes × ℕ)) (running : List Task)
    → AllTracked active running
    → AllTracked active (still_running finished running)
unfolding still_running
still_running-tracked finished active [] t = tt
still_running-tracked finished active (task ∷ running) (t, ts) =
    let rest = still_running-tracked finished active running ts in
    elim (Bool-cases (finished task.handle)) [ inl e ↦ rw e rest | inr e ↦ rw e (t, rest) ]

IsTracked-on_event :
    (finished : ℕ → Bool) (s : LoopState) (running : List Task) (event : Event)
    → AllTracked s.active_reconciliations running
    → AllTracked
        (on_event finished s event).0.active_reconciliations
        (still_running finished (perform (on_event finished s event).1 running))
unfolding on_event on_meta perform
IsTracked-on_event finished s running event t =
    let kept = still_running-tracked finished s.active_reconciliations running t in
    elim (Bool-cases (is_alive event.kind)) [
      | inr skip ↦ rw skip kept
      | inl alive ↦ elim (Option-cases (from_bytes event.node_state.meta)) [
        | inl n ↦ rw (alive, n) kept
        | inr (meta, e) ↦
            rw (alive, e) (IsTracked-on_alive finished s running event.node_state meta t)
      ]
    ]

IsTracked-running_after :
    (s : LoopState) (running : List Task) (events : List ((ℕ → Bool) × Event))
    → AllTracked s.active_reconciliations running
    → AllTracked (run s events).0.active_reconciliations (running_after s running events)
unfolding run running_after
IsTracked-running_after s running [] t = t
IsTracked-running_after s running ((finished, event) ∷ events) t =
    IsTracked-running_after (on_event finished s event).0
      (still_running finished (perform (on_event finished s event).1 running)) events
      (IsTracked-on_event finished s running event t)

-- However the events come and whenever tasks end, aborted ones at any later time: of each node at most
-- one reconciliation runs that was not told to abort, and it is the one whose handle the loop keeps.
pub one_reconciliation :
    (events : List ((ℕ → Bool) × Event)) (a b : Task)
    → In a (running_after initial [] events)
    → In b (running_after initial [] events)
    → a.node_id ≡ b.node_id
    → a.aborted ≡ false
    → b.aborted ≡ false
    → (a.handle ≡ b.handle)
      × (get a.node_id (run initial events).0.active_reconciliations ≡ some a.handle)
one_reconciliation events a b i j same live_a live_b =
    let t = IsTracked-running_after initial [] events tt in
    let kept_a = All-In (IsTracked (run initial events).0.active_reconciliations) a _ t i in
    let kept_b = All-In (IsTracked (run initial events).0.active_reconciliations) b _ t j in
    elim kept_a [
      | inl told ↦ cc
      | inr here ↦ elim kept_b [
        | inl told ↦ cc
        | inr there ↦ (some-injective _ _ (sym here ∙ rw same there), here)
      ]
    ]
