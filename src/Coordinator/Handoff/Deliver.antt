-- ===== src/Coordinator/Handoff/Deliver.antt =====
-- `deliver_hints` (src/coordinator/handoff.rs).
pub mod Safety
use diynamo.Base.{ℕ, Bytes, Result, ok, err, List, [], ◌∷◌, ◌≡◌, refl}
use diynamo.Base.Exec.{Exec}
use diynamo.Api.{Request, Response}
use diynamo.Client.{KvClient, with_http, put_internal_versioned_bytes}
use diynamo.Store.Database.{Database, Bincode}
use diynamo.Store.Hints.{HintEntry, hints_for_node, delete_hint}

-- the store after a deletion: a failed one keeps the hint
unfoldable pub deleted_from : {Db : Type 0} → Db → Result Db → Db
deleted_from hints (ok hints') = hints'
deleted_from hints (err e) = hints

module _ {Db : Type 0} (api : Database Db) (codec : Bincode HintEntry) where
  -- `let _ = hints.delete_hint(..)`
  unfoldable pub try_delete : Db → Bytes → Bytes → Db
  try_delete hints node_id key = deleted_from hints (delete_hint api codec hints node_id key)

  -- what follows an answer to a delivery
  unfoldable pub after_answer : Result (Unit {0}) → Db → Bytes → Bytes → Db
  after_answer (ok _) hints node_id key = try_delete hints node_id key
  after_answer (err e) hints node_id key = hints

  module _ {W : Type 0} (send : Request → Exec W Response) where
    -- the loop over the pending hints
    unfoldable pub deliver_all : KvClient → Bytes → List (Bytes × Bytes × ℕ) → Db → W → Db × W
    deliver_all client node_id [] hints w = (hints, w)
    deliver_all client node_id ((key, value, timestamp) ∷ pending) hints w =
        let (r, w') = put_internal_versioned_bytes send client key value timestamp w in
        deliver_all client node_id pending (after_answer r hints node_id key) w'

    -- the code behind the reading of the hints: nothing is to be sent, or the client cannot be
    -- built, or the loop runs; `http` is how the client's HTTP part is built
    unfoldable pub deliver_with :
        Result (Unit {0}) → KvClient → Bytes → List (Bytes × Bytes × ℕ) → Db → W → Db × W
    deliver_with http client node_id [] hints w = (hints, w)
    deliver_with (err e) client node_id (hint ∷ pending) hints w = (hints, w)
    deliver_with (ok built) client node_id (hint ∷ pending) hints w =
        deliver_all client node_id (hint ∷ pending) hints w

    unfoldable pub deliver_pending :
        Result (Unit {0}) → Result (List (Bytes × Bytes × ℕ)) → Bytes → Bytes → Db → W → Db × W
    deliver_pending http (err e) node_id node_url hints w = (hints, w)
    deliver_pending http (ok pending) node_id node_url hints w =
        deliver_with http (with_http node_url) node_id pending hints w

    -- `deliver_hints`
    unfoldable pub deliver_hints : Result (Unit {0}) → Bytes → Bytes → Db → W → Db × W
    deliver_hints http node_id node_url hints w =
        deliver_pending http (hints_for_node api codec hints node_id) node_id node_url hints w

    pub deliver_with-ok :
        (client : KvClient) (node_id : Bytes) (pending : List (Bytes × Bytes × ℕ)) (hints : Db)
        (w : W)
        → deliver_with (ok tt) client node_id pending hints w
          ≡ deliver_all client node_id pending hints w
    unfolding deliver_with deliver_all
    deliver_with-ok client node_id [] hints w = refl
    deliver_with-ok client node_id (hint ∷ pending) hints w = refl

    -- With hints that were read and a client, the loop decides.
    pub deliver_hints-ok :
        (node_id node_url : Bytes) (pending : List (Bytes × Bytes × ℕ)) (hints : Db) (w : W)
        → hints_for_node api codec hints node_id ≡ ok pending
        → deliver_hints (ok tt) node_id node_url hints w
          ≡ deliver_all (with_http node_url) node_id pending hints w
    unfolding deliver_hints deliver_pending
    deliver_hints-ok node_id node_url pending hints w e =
        rw e (deliver_with-ok (with_http node_url) node_id pending hints w)
