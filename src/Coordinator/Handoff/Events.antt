-- ===== src/Coordinator/Handoff/Events.antt =====
-- What `HandoffTask::run` (src/coordinator/handoff.rs) knows, and when it starts a reconciliation.
use diynamo.Base.{
  ℕ, Bytes, bytes_eq, bytes_eq_iff, bytes_eq→eq, Bool, true, Option, none, some, List, [], ◌∷◌,
  ◌++◌, ◌≡◌, ◌≢◌, ◌↔◌, refl, sym, ap, ◌∙◌, subst, arith, In, inl, inr, if◌then◌else◌, Bool-cases,
  Option-cases,
}
use diynamo.Base.Dict.{get, get-insert}
use diynamo.Cluster.Membership.{NodeState}
use diynamo.Cluster.Types.{base_url}
use diynamo.Cluster.Delegate.{NodeMeta, from_bytes}
use diynamo.Coordinator.Handoff.{
  Event, Effect, deliver, reconcile, LoopState, uuid_changed, abort_stale, is_alive, on_meta,
  restart_reconciliation, on_alive, on_event, run,
}

-- The UUID that an event reports of a node, if it is a join or an update of that node with metadata.
uuid_of : Bool → Option NodeMeta → Option Bytes
uuid_of same none = none
uuid_of same (some meta) = if same then some meta.uuid else none

unfoldable pub reported : Event → Bytes → Option Bytes
unfolding uuid_of
reported event id =
    if is_alive event.kind
    then uuid_of (bytes_eq event.node_state.id id) (from_bytes event.node_state.meta)
    else none

abbrev pub latest : Option Bytes → Option Bytes → Option Bytes
latest known none = known
latest known (some uuid) = some uuid

-- The last UUID reported of a node, or the one known before.
unfoldable pub last_reported : Option Bytes → Bytes → List ((ℕ → Bool) × Event) → Option Bytes
last_reported known id [] = known
last_reported known id ((finished, event) ∷ events) =
    last_reported (latest known (reported event id)) id events

known-on_alive :
    (finished : ℕ → Bool) (s : LoopState) (state : NodeState) (meta : NodeMeta) (id : Bytes)
    → get id (on_alive finished s state meta).0.known_uuids
      ≡ (if bytes_eq state.id id then some meta.uuid else get id s.known_uuids)
unfolding on_alive restart_reconciliation
known-on_alive finished s state meta id =
    ground (arith, get-insert state.id id meta.uuid s.known_uuids)

known-on_event :
    (finished : ℕ → Bool) (s : LoopState) (event : Event) (id : Bytes)
    → get id (on_event finished s event).0.known_uuids
      ≡ latest (get id s.known_uuids) (reported event id)
unfolding on_event on_meta reported
known-on_event finished s event id = elim (Option-cases (from_bytes event.node_state.meta)) [
  | inl n ↦ ground (arith, n)
  | inr (meta, e) ↦ ground (arith, e, known-on_alive finished s event.node_state meta id)
]

-- After any events the loop knows of every node the UUID that was reported last, or what it knew
-- before if none was reported.
pub known-run :
    (s : LoopState) (events : List ((ℕ → Bool) × Event)) (id : Bytes)
    → get id (run s events).0.known_uuids ≡ last_reported (get id s.known_uuids) id events
unfolding run last_reported
known-run s [] id = refl
known-run s ((finished, event) ∷ events) id =
    known-run (on_event finished s event).0 events id
    ∙ ap (λ k. last_reported k id events) (known-on_event finished s event id)

-- Some reconciliation of a node is among the effects.
abbrev pub Starts : List Effect → Bytes → Type 0
Starts effects id = (h : ℕ) × (url : Bytes) × In (reconcile h id url) effects

uuid_changed_iff :
    (known : Option Bytes) (uuid : Bytes) → (uuid_changed known uuid ≡ true) ↔ (known ≢ some uuid)
unfolding uuid_changed
uuid_changed_iff none uuid = (λ _ e. cc, λ _. refl)
uuid_changed_iff (some k) uuid = (
  λ h e. ground (arith, h, bytes_eq_iff k uuid),
  λ n. elim (Bool-cases (bytes_eq k uuid)) [
    | inl e ↦ absurd (n (ap some ((bytes_eq_iff k uuid).0 e)))
    | inr e ↦ rw e
  ],
)

starts_stale :
    (o : Option ℕ) (h new : ℕ) (id url node_id node_url : Bytes)
    → In (reconcile h id url) (abort_stale o ++ reconcile new node_id node_url ∷ [])
    → node_id ≡ id
unfolding abort_stale
starts_stale none h new id url node_id node_url (inl e) = cc
starts_stale none h new id url node_id node_url (inr m) = absurd m
starts_stale (some k) h new id url node_id node_url (inl e) = cc
starts_stale (some k) h new id url node_id node_url (inr (inl e)) = cc
starts_stale (some k) h new id url node_id node_url (inr (inr m)) = absurd m

In-last : (effects : List Effect) (e : Effect) → In e (effects ++ e ∷ [])
In-last [] e = inl refl
In-last (d ∷ effects) e = inr (In-last effects e)

Starts-on_alive :
    (finished : ℕ → Bool) (s : LoopState) (state : NodeState) (meta : NodeMeta) (id : Bytes)
    → Starts (on_alive finished s state meta).1 id
      ↔ ((state.id ≡ id) × (uuid_changed (get state.id s.known_uuids) meta.uuid ≡ true))
unfolding on_alive restart_reconciliation
Starts-on_alive finished s state meta id =
    elim (Bool-cases (uuid_changed (get state.id s.known_uuids) meta.uuid)) [
      | inl changed ↦ rw changed (
        λ (h, url, m). elim m [
          | inl e ↦ cc
          | inr later ↦ (
            starts_stale (get state.id s.active_reconciliations) h s.next_handle id url state.id _
                later,
            refl,
          )
        ],
        λ (same, _).
            let url = base_url state.addr.ip meta.http_port in
            let new = reconcile s.next_handle state.id url in
            let stale = abort_stale (get state.id s.active_reconciliations) in
            subst (Starts (deliver state.id url ∷ stale ++ new ∷ [])) same
              (s.next_handle, url, inr (In-last stale new)),
      )
      | inr same_uuid ↦
          rw same_uuid
            (λ (h, url, m). elim m [ inl e ↦ cc | inr later ↦ absurd later ], λ (_, never). cc)
    ]

uuid_of-some :
    (same : Bool) (meta : NodeMeta) (uuid : Bytes)
    → uuid_of same (some meta) ≡ some uuid
    → (same ≡ true) × (meta.uuid ≡ uuid)
unfolding uuid_of
uuid_of-some same meta uuid h = ground arith

not_Starts-nothing : (id : Bytes) → ¬ Starts [] id
not_Starts-nothing id (h, url, m) = m

-- An event makes the loop start a reconciliation of a node exactly when it reports a UUID of that
-- node other than the one known before.
pub Starts-on_event_iff :
    (finished : ℕ → Bool) (s : LoopState) (event : Event) (id : Bytes)
    → Starts (on_event finished s event).1 id
      ↔ ((uuid : Bytes) × (reported event id ≡ some uuid) × (get id s.known_uuids ≢ some uuid))
unfolding on_event on_meta reported
Starts-on_event_iff finished s event id = elim (Bool-cases (is_alive event.kind)) [
  | inr skip ↦ rw skip (λ h. absurd (not_Starts-nothing id h), λ (uuid, r, n). cc)
  | inl alive ↦ elim (Option-cases (from_bytes event.node_state.meta)) [
    | inl n ↦ rw (alive, n) (λ h. absurd (not_Starts-nothing id h), λ (uuid, r, m). cc)
    | inr (meta, e) ↦
        let starts = Starts-on_alive finished s event.node_state meta id in
        rw (alive, e)
          (
            λ h.
                let (same, changed) = starts.0 h in
                (
                  meta.uuid,
                  rw ((bytes_eq_iff event.node_state.id id).1 same),
                  subst (λ i. get i s.known_uuids ≢ some meta.uuid) same
                      ((uuid_changed_iff _ _).0 changed),
                ),
            λ (uuid, r, n).
                let (b, u) = uuid_of-some (bytes_eq event.node_state.id id) meta uuid r in
                let same = bytes_eq→eq event.node_state.id id b in
                starts.1 (
                  same,
                  (uuid_changed_iff (get event.node_state.id s.known_uuids) meta.uuid).1
                      (λ k. n (ap (λ i. get i s.known_uuids) (sym same) ∙ k ∙ ap some u)),
                ),
          )
  ]
]
