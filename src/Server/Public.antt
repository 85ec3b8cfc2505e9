-- ===== src/Server/Public.antt =====
-- src/server/mod.rs: the public handlers, over the coordinator of the node.
use diynamo.Base.{
  ℕ, Bytes, true, quorum_failed, message, panicked, Result, ok, err, Option, List, [], ◌≡◌, ◌⊎◌,
  ◌↔◌, inl, inr, refl, arith, if◌then◌else◌, Bool-cases,
}
use diynamo.Api.{PutBody, GetResponse, status_ok, status_service_unavailable}
use diynamo.Cluster.Types.{MemberInfo}
use diynamo.Cluster.Ring.{HashRing}
use diynamo.Store.{VersionedValue}
use diynamo.Store.Database.{Database, Bincode}
use diynamo.Store.RocksdbStore.{StoredEntry}
use diynamo.Server.{FaultFlags, Handled, answered, failed, map_store_error, get_response}
use diynamo.Coordinator.{ReplicatedStore, World, JoinSet}
use diynamo.Coordinator.Put
use diynamo.Coordinator.Put.{WriteResult}
use diynamo.Coordinator.Get
use diynamo.Coordinator.Get.{ReadResult, Repair}

-- the end of `put_kv`; a panic of the coordinator, after which the client gets no answer, is given as an
-- internal error
unfoldable pub put_status : Result (Unit {0}) → Handled ℕ
put_status (ok _) = answered status_ok
put_status (err e) = failed (map_store_error e)

-- the end of `get_kv`, with the repairs that the read spawned
unfoldable pub get_answer :
    Result (Option VersionedValue × List Repair) → Handled GetResponse × List Repair
get_answer (ok (v, repairs)) = (get_response v, repairs)
get_answer (err e) = (failed (map_store_error e), [])

module _ {Ring Db W : Type 0} (ring_api : HashRing Ring) (world : World Db W) (api : Database Db)
    (codec : Bincode StoredEntry) (self : ReplicatedStore Ring) where
  -- `put_kv`
  unfoldable pub put_kv :
      JoinSet MemberInfo WriteResult → FaultFlags → Bytes → PutBody → W → Handled ℕ × W
  put_kv tasks faults key body w =
      let (r, w') = Put.put world api codec tasks self key body.value ring_api w in
      if faults.block_public then (failed status_service_unavailable, w) else (put_status r, w')

  -- `get_kv`
  unfoldable pub get_kv :
      JoinSet MemberInfo ReadResult
      → FaultFlags
      → Bytes
      → W
      → (Handled GetResponse × List Repair) × W
  get_kv tasks faults key w =
      let (r, w') = Get.get ring_api world api codec tasks self key w in
      if faults.block_public
      then ((failed status_service_unavailable, []), w)
      else (get_answer r, w')

  put_status-unavailable_iff :
      (r : Result (Unit {0}))
      → (put_status r ≡ failed status_service_unavailable)
        ↔ ((acks : ℕ) × (required : ℕ) × (r ≡ err (quorum_failed acks required)))
  unfolding put_status map_store_error
  put_status-unavailable_iff (ok u) = (λ h. cc, λ (a, q, e). cc)
  put_status-unavailable_iff (err (quorum_failed acks required)) =
      (λ h. (acks, required, refl), λ x. refl)
  put_status-unavailable_iff (err (message m)) = (λ h. ground (arith, h), λ (a, q, e). cc)
  put_status-unavailable_iff (err (panicked m)) = (λ h. ground (arith, h), λ (a, q, e). cc)

  -- A client's write is answered 503 Service Unavailable exactly when the public handlers are blocked
  -- or the coordinator's `put` failed for want of acknowledgements: no other error gives that
  -- status.
  pub put_kv-unavailable_iff :
      (tasks : JoinSet MemberInfo WriteResult) (faults : FaultFlags) (key : Bytes) (body : PutBody)
      (w : W)
      → ((put_kv tasks faults key body w).0 ≡ failed status_service_unavailable) ↔ (
          (faults.block_public ≡ true)
          ⊎ ((acks : ℕ) × (required : ℕ) × ((Put.put world api codec tasks self key body.value
                  ring_api w).0
                ≡ err (quorum_failed acks required))))
  unfolding put_kv
  put_kv-unavailable_iff tasks faults key body w =
      let status =
        put_status-unavailable_iff
          ((Put.put world api codec tasks self key body.value ring_api w).0) in
      elim (Bool-cases faults.block_public) [
        | inl blocked ↦ rw blocked (λ h. inl refl, λ h. refl)
        | inr public ↦
            rw public (λ h. inr (status.0 h), λ h. elim h [ inl b ↦ cc | inr e ↦ status.1 e ])
      ]
