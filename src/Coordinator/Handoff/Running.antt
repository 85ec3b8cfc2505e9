-- ===== src/Coordinator/Handoff/Running.antt =====
-- The reconciliation tasks of `HandoffTask::run` (src/coordinator/handoff.rs) that are running.
pub mod Tracked
use mathlib.Core.Option.{some-injective}
use diynamo.Base.{
  sym, ◌∙◌, All, All-In, none, true, ◌⊎◌, refl, ℕ, Bytes, bytes_eq_iff, Bool, false, some, List, [],
  ◌∷◌, ◌≡◌, ◌≢◌, arith, In, inl, inr, if◌then◌else◌, Bool-cases, Option-cases, ◌==◌,
}
use diynamo.Base.Dict.{get, insert, remove, get-insert, get-remove}
use diynamo.Cluster.Membership.{NodeState}
use diynamo.Cluster.Types.{base_url}
use diynamo.Cluster.Delegate.{NodeMeta, from_bytes}
use diynamo.Coordinator.Handoff.{
  Event, Effect, deliver, abort, reconcile, LoopState, initial, uuid_changed, retain_unfinished,
  abort_stale, is_alive, on_meta, restart_reconciliation, on_alive, on_event, run,
}

-- A reconciliation task that was spawned and has not ended: its node, its handle, and whether it was
-- told to abort. An abort is a request: the task goes on to its next await point, and ends there.
pub record Task : Type 0 where
  pub node_id : Bytes
  pub handle : ℕ
  pub aborted : Bool

-- `handle.abort()`
unfoldable pub abort_task : ℕ → List Task → List Task
abort_task h [] = []
abort_task h (task ∷ rest) =
    (if task.handle == h then record task { aborted = true } else task) ∷ abort_task h rest

unfoldable pub perform : List Effect → List Task → List Task
unfolding abort_task
perform [] running = running
perform (deliver id url ∷ effects) running = perform effects running
perform (abort h ∷ effects) running = perform effects (abort_task h running)
perform (reconcile h id url ∷ effects) running =
    perform effects (record { node_id = id; handle = h; aborted = false } ∷ running)

-- The tasks that are still running, given which have ended by then.
unfoldable pub still_running : (ℕ → Bool) → List Task → List Task
still_running finished [] = []
still_running finished (task ∷ rest) =
    let later = still_running finished rest in if finished task.handle then later else task ∷ later

unfoldable pub running_after : LoopState → List Task → List ((ℕ → Bool) × Event) → List Task
running_after s running [] = running
running_after s running ((finished, event) ∷ events) =
    let (s', effects) = on_event finished s event in
    running_after s' (still_running finished (perform effects running)) events
