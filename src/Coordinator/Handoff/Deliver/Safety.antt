-- ===== src/Coordinator/Handoff/Deliver/Safety.antt =====
-- The hints that `deliver_hints` (src/coordinator/handoff.rs) keeps and hands over.
use diynamo.Base.{
  ℕ, Bytes, bytes_eq, bytes_eq_refl, bytes_eq→eq, contains, false, Result, ok, err, Result-cases,
  some, List, [], ◌∷◌, ◌≡◌, ◌⊎◌, inl, inr, refl, sym, ap, ◌∙◌, arith, In, Bool-cases,
}
use diynamo.Base.Exec.{Exec}
use diynamo.Api.{Request, Response}
use diynamo.Client.{KvClient, with_http, put_internal_versioned_bytes}
use diynamo.Store.Database.{Database, IsDatabase, Bincode}
use diynamo.Store.Hints.{HintEntry, hints_for_node, delete_hint}
use diynamo.Store.Hints.View.{hint_view, hints_for_node_exact, hint_view-delete_hint}
use diynamo.Coordinator.Handoff.Deliver.{
  deleted_from, try_delete, after_answer, deliver_all, deliver_with, deliver_pending, deliver_hints,
}

-- What a client's versioned writes establish: a successful one makes its write received, and none
-- undoes that.
pub record Receives {W : Type 0} (send : Request → Exec W Response) (client : KvClient)
    (Received : Bytes → Bytes → ℕ → W → Type 0) : Type 0 where
  pub keep :
      (key value : Bytes) (ts : ℕ) (j v : Bytes) (s : ℕ) (w : W)
      → Received key value ts w
      → Received key value ts (put_internal_versioned_bytes send client j v s w).1
  pub gain :
      (key value : Bytes) (ts : ℕ) (w : W)
      → (put_internal_versioned_bytes send client key value ts w).0 ≡ ok tt
      → Received key value ts (put_internal_versioned_bytes send client key value ts w).1

-- Every pending hint of the key has this value and timestamp.
abbrev Agrees : Bytes → Bytes → ℕ → List (Bytes × Bytes × ℕ) → Type 0
Agrees key value ts pending =
    (v : Bytes) (s : ℕ) → In {A = Bytes × Bytes × ℕ} (key, v, s) pending → (v ≡ value) × (s ≡ ts)

module _ {Db : Type 0} {api : Database Db} (codec : Bincode HintEntry) (laws : IsDatabase api)
    (node_id : Bytes) (plain : contains node_id b'/' ≡ false) where
  hint_view-try_delete :
      (hints : Db) (j key : Bytes)
      → bytes_eq j key ≡ false
      → hint_view codec laws (try_delete api codec hints node_id j) node_id key
        ≡ hint_view codec laws hints node_id key
  unfolding try_delete deleted_from
  hint_view-try_delete hints j key n = elim (Result-cases (delete_hint api codec hints node_id j)) [
    | inl (hints', e) ↦
        let v = hint_view-delete_hint codec laws hints node_id j hints' node_id key plain plain e in
        rw (e, v, bytes_eq_refl node_id, n) refl
    | inr (x, e) ↦ rw e refl
  ]

module _ {Db W : Type 0} {api : Database Db} (codec : Bincode HintEntry) (laws : IsDatabase api)
    (send : Request → Exec W Response) (node_url : Bytes)
    (Received : Bytes → Bytes → ℕ → W → Type 0) (r : Receives send (with_http node_url) Received)
    (node_id : Bytes) (plain : contains node_id b'/' ≡ false) (key value : Bytes) (ts : ℕ) where
  received_kept :
      (pending : List (Bytes × Bytes × ℕ)) (hints : Db) (w : W)
      → Received key value ts w
      → Received key value ts
          (deliver_all api codec send (with_http node_url) node_id pending hints w).1
  unfolding deliver_all
  received_kept [] hints w h = h
  received_kept ((j, v, s) ∷ pending) hints w h =
      received_kept pending _ _ (r.keep key value ts j v s w h)

  received_now :
      (j v : Bytes) (s : ℕ) (w : W)
      → (j ≡ key) × (v ≡ value) × (s ≡ ts)
      → (put_internal_versioned_bytes send (with_http node_url) j v s w).0 ≡ ok tt
      → Received key value ts (put_internal_versioned_bytes send (with_http node_url) j v s w).1
  received_now j v s w (p, q, t) h = rw (p, q, t) (r.gain key value ts w (rw (p, q, t) at h))

  kept_or_received :
      (pending : List (Bytes × Bytes × ℕ)) (hints : Db) (w : W)
      → Agrees key value ts pending
      → hint_view codec laws hints node_id key ≡ some (record { timestamp = ts; data' = value })
      → (hint_view codec laws
            (deliver_all api codec send (with_http node_url) node_id pending hints w).0
            node_id
            key
          ≡ some (record { timestamp = ts; data' = value }))
        ⊎ Received key value ts
            (deliver_all api codec send (with_http node_url) node_id pending hints w).1
  unfolding deliver_all after_answer
  kept_or_received [] hints w a h = inl h
  kept_or_received ((j, v, s) ∷ pending) hints w a h =
      let a' : Agrees key value ts pending = λ v s i. a v s (inr i) in
      elim (Result-cases (put_internal_versioned_bytes send (with_http node_url) j v s w).0) [
        | inr (x, e) ↦ rw (e, deliver_all) (kept_or_received pending hints _ a' h)
        | inl (u, e) ↦ elim (Bool-cases (bytes_eq j key)) [
          | inr other ↦
              rw (e, deliver_all)
                (kept_or_received pending (try_delete api codec hints node_id j) _ a'
                  (hint_view-try_delete codec laws node_id plain hints j key other ∙ h))
          | inl same ↦
              let here : j ≡ key = bytes_eq→eq j key same in
              let mine = a v s (inl (ap (λ (k : Bytes). (k, v, s)) (sym here))) in
              inr (received_kept pending _ _ (received_now j v s w (here, mine.0, mine.1) e))
        ]
      ]

  safe_with :
      (http : Result (Unit {0})) (pending : List (Bytes × Bytes × ℕ)) (hints : Db) (w : W)
      → Agrees key value ts pending
      → hint_view codec laws hints node_id key ≡ some (record { timestamp = ts; data' = value })
      → (hint_view codec laws
            (deliver_with api codec send http (with_http node_url) node_id pending hints w).0
            node_id
            key
          ≡ some (record { timestamp = ts; data' = value }))
        ⊎ Received key value ts
            (deliver_with api codec send http (with_http node_url) node_id pending hints w).1
  unfolding deliver_with
  safe_with http [] hints w a h = inl h
  safe_with (err e) (hint ∷ pending) hints w a h = inl h
  safe_with (ok built) (hint ∷ pending) hints w a h = kept_or_received (hint ∷ pending) hints w a h

  -- A delivery round loses no hint of the returning node, whose id has no slash: a hint that the
  -- store keeps for it before the round is kept after it, or the node has received its write; this
  -- holds whichever requests and deletions fail and if no client can be built, if every accepted
  -- versioned write makes its write received and no later one undoes that.
  pub deliver_hints_safe :
      (http : Result (Unit {0})) (hints : Db) (w : W)
      → hint_view codec laws hints node_id key ≡ some (record { timestamp = ts; data' = value })
      → (hint_view codec laws
            (deliver_hints api codec send http node_id node_url hints w).0
            node_id
            key
          ≡ some (record { timestamp = ts; data' = value }))
        ⊎ Received key value ts (deliver_hints api codec send http node_id node_url hints w).1
  unfolding deliver_hints deliver_pending
  deliver_hints_safe http hints w h = elim (Result-cases (hints_for_node api codec hints node_id)) [
    | inr (x, e) ↦ rw e (inl h)
    | inl (pending, e) ↦ rw e (
        safe_with http pending hints w
          (λ v s i.
            let found = (hints_for_node_exact codec laws hints node_id pending key v s e).0 i in
            ground (arith, found, h))
          h)
  ]
