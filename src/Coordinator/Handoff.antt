-- ===== src/Coordinator/Handoff.antt =====
-- src/coordinator/handoff.rs: the event loop that delivers hints and starts reconciliations.
pub mod Events
pub mod Running
pub mod Deliver
pub mod Reconcile
pub mod Task
use diynamo.Base.{
  ℕ, ◌+◌, Bytes, bytes_eq, Bool, true, false, not, Option, none, some, List, [], ◌∷◌, ◌++◌,
  if◌then◌else◌,
}
use diynamo.Base.Dict.{get, insert, remove}
use diynamo.Cluster.Membership.{NodeState}
use diynamo.Cluster.Types.{base_url}
use diynamo.Cluster.Delegate.{NodeMeta, from_bytes}

-- `EventKind` of the gossip library.
pub data EventKind : Type 0 where
  join leave update other : EventKind

pub record Event : Type 0 where
  pub kind : EventKind
  pub node_state : NodeState

-- What the loop does besides its own state: spawn a delivery, abort a reconciliation task, spawn one.
-- A task handle is the number of the reconciliation.
pub data Effect : Type 0 where
  deliver : Bytes → Bytes → Effect
  abort : ℕ → Effect
  reconcile : ℕ → Bytes → Bytes → Effect

-- The loop's variables; `next_handle` is the handle that the next `tokio::spawn` gives.
pub record LoopState : Type 0 where
  pub known_uuids : List (Bytes × Bytes)
  pub active_reconciliations : List (Bytes × ℕ)
  pub next_handle : ℕ

abbrev pub initial : LoopState
initial = record { known_uuids = []; active_reconciliations = []; next_handle = 0 }

-- `known_uuids.get(&node_id) != Some(&current_uuid)`
unfoldable pub uuid_changed : Option Bytes → Bytes → Bool
uuid_changed none uuid = true
uuid_changed (some known) uuid = not (bytes_eq known uuid)

-- `retain(|_, h| !h.is_finished())`
unfoldable pub retain_unfinished : (ℕ → Bool) → List (Bytes × ℕ) → List (Bytes × ℕ)
retain_unfinished finished [] = []
retain_unfinished finished ((id, h) ∷ rest) =
    let kept = retain_unfinished finished rest in if finished h then kept else (id, h) ∷ kept

-- The abort of a stale task, if there is one.
unfoldable pub abort_stale : Option ℕ → List Effect
abort_stale none = []
abort_stale (some h) = abort h ∷ []

-- Phase 2 for a changed UUID: abort, spawn, remember the handle.
unfoldable pub restart_reconciliation : LoopState → Bytes → Bytes → LoopState × List Effect
restart_reconciliation s node_id node_url = (
  record s {
    active_reconciliations = insert node_id s.next_handle (remove node_id s.active_reconciliations);
    next_handle = s.next_handle + 1;
  },
  abort_stale (get node_id s.active_reconciliations)
      ++ reconcile s.next_handle node_id node_url ∷ [],
)

-- The body of the loop for a node with metadata.
unfoldable pub on_alive : (ℕ → Bool) → LoopState → NodeState → NodeMeta → LoopState × List Effect
on_alive finished s state meta =
    let node_url = base_url state.addr.ip meta.http_port in
    let changed = uuid_changed (get state.id s.known_uuids) meta.uuid in
    let (s', effects) = if changed then restart_reconciliation s state.id node_url else (s, []) in
    (
      record s' {
        known_uuids = insert state.id meta.uuid s'.known_uuids;
        active_reconciliations = retain_unfinished finished s'.active_reconciliations;
      },
      deliver state.id node_url ∷ effects,
    )

-- The match on the event's kind: a leave, or any other kind, is skipped.
unfoldable pub is_alive : EventKind → Bool
is_alive EventKind.leave = false
is_alive EventKind.join = true
is_alive EventKind.update = true
is_alive EventKind.other = false

-- A node that has not gossiped its metadata yet is skipped.
unfoldable pub on_meta :
    (ℕ → Bool) → LoopState → NodeState → Option NodeMeta → LoopState × List Effect
on_meta finished s state none = (s, [])
on_meta finished s state (some meta) = on_alive finished s state meta

-- One round of the loop; `finished` tells which tasks have ended when the handles are pruned.
unfoldable pub on_event : (ℕ → Bool) → LoopState → Event → LoopState × List Effect
on_event finished s event =
    if is_alive event.kind
    then on_meta finished s event.node_state (from_bytes event.node_state.meta)
    else (s, [])

-- The loop over the events received until the channel closes.
unfoldable pub run : LoopState → List ((ℕ → Bool) × Event) → LoopState × List Effect
run s [] = (s, [])
run s ((finished, event) ∷ events) =
    let (s', now) = on_event finished s event in
    let (s'', later) = run s' events in (s'', now ++ later)
