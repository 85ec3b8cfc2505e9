-- ===== src/Store/RocksdbStore/Races.antt =====
-- `RocksDbStore::put_if_newer` (src/store/rocksdb_store.rs) as threads run it: its read of the
-- database and its write are two steps, between which the other threads take theirs.
pub mod Floor
pub mod Overlap
use diynamo.Base.{
  ℕ, Bytes, Result, ok, err, Error, message, Option, List, [], ◌∷◌, ◌≡◌, refl, ◌==◌, if◌then◌else◌,
  Result-cases, inl, inr, arith,
}
use diynamo.Store.Database.{Database, Bincode}
use diynamo.Store.RocksdbStore.{StoredEntry, write_if_newer, put_if_newer}

-- Where a thread is in its call of `put_if_newer`: before the read, behind it with what it read, or
-- at the end with what the call returns.
pub data Call : Type 0 where
  entered : Bytes → StoredEntry → Call
  has_read : Bytes → StoredEntry → Option Bytes → Call
  returned : Result (Unit {0}) → Call

-- The store, and the threads by their numbers.
pub record Threads (Db : Type 0) : Type 0 where
  pub db : Db
  pub call : ℕ → Call

-- the read, or its error
unfoldable pub read_result : Bytes → StoredEntry → Result (Option Bytes) → Call
read_result key entry (ok raw) = has_read key entry raw
read_result key entry (err e) = returned (err (message "RocksDB get failed in put_if_newer"))

-- the store and the thread behind the test and the write
unfoldable pub write_result : {Db : Type 0} → Db → Result Db → Db × Call
write_result db (ok db') = (db', returned (ok tt))
write_result db (err e) = (db, returned (err e))

module _ {Db : Type 0} (api : Database Db) (codec : Bincode StoredEntry) where
  -- the next step of a thread
  unfoldable pub advance : Db → Call → Db × Call
  unfolding read_result write_result
  advance db (entered key entry) = (db, read_result key entry (api.get db key))
  advance db (has_read key entry raw) = write_result db (write_if_newer api codec db key entry raw)
  advance db (returned r) = (db, returned r)

  unfoldable pub take_turn : ℕ → Threads Db → Threads Db
  take_turn i s =
      let next = advance s.db (s.call i) in
      record { db = next.0; call = λ j. if i == j then next.1 else s.call j }

  -- The threads take their turns in an order that the scheduler gives.
  unfoldable pub interleave : List ℕ → Threads Db → Threads Db
  interleave [] s = s
  interleave (i ∷ order) s = interleave order (take_turn i s)
