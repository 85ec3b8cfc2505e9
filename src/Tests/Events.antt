-- ===== src/Tests/Events.antt =====
-- Runs of the event loop, and of the choice of the sender.
use diynamo.Base.{
  ℕ, Bytes, codes, bytes_eq, Bool, false, some, List, [], ◌∷◌, ◌≡◌, ◌≢◌, ◌↔◌, refl, inl, replicate,
}
use diynamo.Base.Dict.{get, insert, remove}
use diynamo.Cluster.Delegate.{to_bytes, from_bytes}
use diynamo.Coordinator.Handoff.{
  EventKind, Event, initial, uuid_changed, retain_unfinished, abort_stale, restart_reconciliation,
  on_alive, is_alive, on_meta, on_event, run,
}
use diynamo.Coordinator.Handoff.Events.{Starts, reported, Starts-on_event_iff}
use diynamo.Coordinator.Handoff.Running.Tracked.{one_reconciliation}
use diynamo.Coordinator.Handoff.Running.{Task, still_running, abort_task, running_after, perform}

abbrev a : Bytes
a = codes "a"

-- The node `a` reports a UUID.
abbrev joined : ℕ → Event
joined u = record {
  kind = EventKind.join;
  node_state = record {
    id = a;
    addr = record { ip = codes "h"; port = 1 };
    meta = to_bytes (record { uuid = replicate 16 u; http_port = 1 });
  };
}

abbrev never : ℕ → Bool
never h = false

-- A restart of the node.
abbrev events : List ((ℕ → Bool) × Event)
events = (never, joined 1) ∷ (never, joined 2) ∷ []

Starts-on_event_iff_example : Starts (on_event never initial (joined 1)).1 a ↔ (
    (uuid : Bytes) × (reported (joined 1) a ≡ some uuid) × (get a initial.known_uuids ≢ some uuid))
Starts-on_event_iff_example = Starts-on_event_iff never initial (joined 1) a

-- The task of the restart; the one before was aborted.
abbrev second : Task
second = record { node_id = a; handle = 1; aborted = false }

one_reconciliation_example :
    (◌≡◌ {A = ℕ} 1 1) × (get a (run initial events).0.active_reconciliations ≡ some 1)
unfolding abort_task running_after perform run on_event on_meta on_alive is_alive uuid_changed
    restart_reconciliation abort_stale retain_unfinished still_running get insert remove to_bytes
    from_bytes bytes_eq
one_reconciliation_example =
    one_reconciliation events second second (inl refl) (inl refl) refl refl refl
