-- ===== src/Store/RocksdbStore.antt =====
-- src/store/rocksdb_store.rs: the local store. `Result Db` is the new state of a `&self` method that
-- writes; the clock's reading is an argument.
pub mod Lww
pub mod Clear
pub mod Listing
pub mod Convergence
pub mod Races
use diynamo.Base.{
  ℕ, Bytes, Result, ok, err, message, context, ◌>>=◌, Option, none, some, List, [], ◌∷◌, map, leb,
  if◌then◌else◌,
}
use mathlib.Core.Option
use diynamo.Store.{VersionedValue}
use diynamo.Store.Database.{Database, Bincode}

-- `StoredEntry`.
pub record StoredEntry : Type 0 where
  pub timestamp : ℕ
  pub data' : Bytes

abbrev pub versioned : StoredEntry → VersionedValue
versioned e = record { timestamp = e.timestamp; data' = e.data' }

module _ {Db : Type 0} (api : Database Db) (codec : Bincode StoredEntry) where
  -- the last lines of `put_if_newer`
  pub write_entry : Db → Bytes → StoredEntry → Result Db
  write_entry db key entry = do
    bytes ← context "failed to serialize entry in put_if_newer" (codec.serialize entry)
    context "RocksDB put failed in put_if_newer" (api.put db key bytes)

  -- the test on what the database returned, and the write behind it
  pub write_if_newer : Db → Bytes → StoredEntry → Option Bytes → Result Db
  write_if_newer db key entry none = write_entry db key entry
  write_if_newer db key entry (some bytes) = do
    current ← context "failed to deserialize entry in put_if_newer" (codec.deserialize bytes)
    if leb entry.timestamp current.timestamp then ok db else write_entry db key entry

  -- `RocksDbStore::put_if_newer`
  unfoldable pub put_if_newer : Db → Bytes → Bytes → ℕ → Result Db
  unfolding write_if_newer write_entry
  put_if_newer db key value timestamp = do
    raw ← context "RocksDB get failed in put_if_newer" (api.get db key)
    write_if_newer db key (record { timestamp = timestamp; data' = value }) raw

  -- one item of `iter_all`
  decode_item : Result (Bytes × Bytes) → Result (Bytes × VersionedValue)
  decode_item item = do
    (k, v) ← context "RocksDB iterator error" item
    entry ← context "failed to deserialize entry in iter_all" (codec.deserialize v)
    ok (k, versioned entry)

  -- `RocksDbStore::iter_all`
  unfoldable pub iter_all : Db → List (Result (Bytes × VersionedValue))
  unfolding decode_item
  iter_all db = map decode_item (api.iterator db [])

  -- the `collect` of `clear_all`: the keys, or the first error
  unfoldable pub collect_keys : List (Result (Bytes × Bytes)) → Result (List Bytes)
  collect_keys [] = ok []
  collect_keys (item ∷ rest) = do
    (k, _) ← context "RocksDB iterator error" item
    ks ← collect_keys rest
    ok (k ∷ ks)

  -- the loop of `clear_all`; an early return keeps the deletions made so far
  unfoldable pub delete_keys : Db → List Bytes → Result (Unit {0}) × Db
  delete_keys db [] = (ok tt, db)
  delete_keys db (k ∷ ks) = elim (api.delete db k) [
    | ok db' ↦ delete_keys db' ks
    | err e ↦ (err (message "RocksDB delete failed"), db)
  ]

  -- `RocksDbStore::clear_all`
  unfoldable pub clear_all : Db → Result (Unit {0}) × Db
  unfolding collect_keys delete_keys
  clear_all db = elim (collect_keys (api.iterator db [])) [
    | ok keys ↦ delete_keys db keys
    | err e ↦ (err e, db)
  ]

  -- `StorageEngine::get` of the local store
  unfoldable pub get : Db → Bytes → Result (Option VersionedValue)
  get db key = do
    raw ← context "RocksDB get failed" (api.get db key)
    elim raw [
      | none ↦ ok none
      | some bytes ↦ do
        entry ← context "failed to deserialize stored entry" (codec.deserialize bytes)
        ok (some (versioned entry))
    ]

  -- `StorageEngine::put` of the local store; `now` is the clock's reading
  unfoldable pub put : Db → ℕ → Bytes → Bytes → Result Db
  put db now key value = do
    bytes ←
        context "failed to serialize stored entry"
          (codec.serialize (record { timestamp = now; data' = value }))
    context "RocksDB put failed" (api.put db key bytes)
