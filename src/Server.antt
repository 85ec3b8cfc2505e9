-- ===== src/Server.antt =====
-- src/server/mod.rs: the fault flags and the handlers that act on one node.
pub mod Public
use diynamo.Base.{
  ℕ, Bytes, Bool, true, false, Error, quorum_failed, Result, ok, err, Option, none, some,
  if◌then◌else◌,
}
use diynamo.Base.Utf8.{is_utf8}
use diynamo.Api.{
  PutBody, PutVersionedBody, GetResponse, status_ok, status_not_found, status_internal_server_error,
  status_service_unavailable,
}
use diynamo.Store.{VersionedValue}
use diynamo.Store.Database.{Database, Bincode}
use diynamo.Store.RocksdbStore
use diynamo.Store.RocksdbStore.{StoredEntry}
use diynamo.Store.Hints.{HintEntry, store_hint}

pub record FaultFlags : Type 0 where
  pub block_internal : Bool
  pub block_public : Bool
  pub block_hints : Bool

abbrev pub no_faults : FaultFlags
no_faults = record { block_internal = false; block_public = false; block_hints = false }

unfoldable pub kill_rpc : FaultFlags → FaultFlags
kill_rpc f = record { block_internal = true; block_public = true; block_hints = true }

unfoldable pub block_internal : FaultFlags → Bool → FaultFlags
block_internal f on = record f { block_internal = on }

unfoldable pub block_public : FaultFlags → Bool → FaultFlags
block_public f on = record f { block_public = on }

unfoldable pub block_hints : FaultFlags → Bool → FaultFlags
block_hints f on = record f { block_hints = on }

unfoldable pub kill_http : FaultFlags → FaultFlags
unfolding block_internal block_public
kill_http f = block_public (block_internal f true) true

unfoldable pub recover_http : FaultFlags → FaultFlags
unfolding block_internal block_public
recover_http f = block_public (block_internal f false) false

-- A handler's `Result<_, StatusCode>`.
pub data Handled {ℓ} (A : Type ℓ) : Type ℓ where
  answered : A → Handled A
  failed : ℕ → Handled A

-- `map_store_error`
unfoldable pub map_store_error : Error → ℕ
map_store_error (quorum_failed acks required) = status_service_unavailable
map_store_error _ = status_internal_server_error

-- the `match` at the end of `get_kv` and `get_kv_internal`
unfoldable pub get_response : Option VersionedValue → Handled GetResponse
get_response none = failed status_not_found
get_response (some v) =
    if is_utf8 v.data'
    then answered (record { value = v.data'; timestamp = v.timestamp })
    else failed status_internal_server_error

-- One server process: its two stores and its flags.
pub record Node (Db : Type 0) : Type 0 where
  pub store : Db
  pub hints : Db
  pub faults : FaultFlags

-- A write's outcome as a status, with the state it leaves.
unfoldable pub written : {Db : Type 0} → Node Db → (Db → Node Db) → Result Db → Handled ℕ × Node Db
written node set (ok db) = (answered status_ok, set db)
written node set (err e) = (failed status_internal_server_error, node)

module _ {Db : Type 0} (api : Database Db) (stored : Bincode StoredEntry)
    (hinted : Bincode HintEntry) where
  -- `put_kv_internal`; `now` is the clock's reading
  unfoldable pub put_kv_internal : ℕ → Bytes → PutBody → Node Db → Handled ℕ × Node Db
  unfolding written
  put_kv_internal now key body node =
      if node.faults.block_internal
      then (failed status_service_unavailable, node)
      else written node (λ db. record node { store = db })
          (RocksdbStore.put api stored node.store now key body.value)

  -- `put_kv_internal_versioned`
  unfoldable pub put_kv_internal_versioned :
      Bytes → PutVersionedBody → Node Db → Handled ℕ × Node Db
  unfolding written
  put_kv_internal_versioned key body node =
      if node.faults.block_internal
      then (failed status_service_unavailable, node)
      else written node (λ db. record node { store = db })
          (RocksdbStore.put_if_newer api stored node.store key body.value body.timestamp)

  -- `put_hint_internal`
  unfoldable pub put_hint_internal :
      Bytes → Bytes → PutVersionedBody → Node Db → Handled ℕ × Node Db
  unfolding written
  put_hint_internal target_id key body node =
      if node.faults.block_hints
      then (failed status_service_unavailable, node)
      else written node (λ db. record node { hints = db })
          (store_hint api hinted node.hints target_id key body.value body.timestamp)

  unfoldable pub local_answer : Result (Option VersionedValue) → Handled GetResponse
  local_answer (ok v) = get_response v
  local_answer (err e) = failed status_internal_server_error

  -- `get_kv_internal`
  unfoldable pub get_kv_internal : Bytes → Node Db → Handled GetResponse
  unfolding local_answer get_response
  get_kv_internal key node =
      if node.faults.block_internal
      then failed status_service_unavailable
      else local_answer (RocksdbStore.get api stored node.store key)
