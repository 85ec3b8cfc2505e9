-- ===== src/Store.antt =====
-- src/store/mod.rs and src/store/timestamp.rs: versioned values, the clock, and below it the two
-- stores with their database.
pub mod Database
pub mod Memory
pub mod RocksdbStore
pub mod Hints
use diynamo.Base.{ℕ, Bytes, ◌%◌, ◌^◌, Option, none, some}

-- A value with the timestamp of the write that produced it.
pub record VersionedValue : Type 0 where
  pub timestamp : ℕ
  pub data' : Bytes

-- `SystemTimestamp::now_millis`: the argument is the time since the epoch, `none` on a clock before
-- it; `as u64` keeps the low 64 bits.
unfoldable pub system_now_millis : Option ℕ → ℕ
system_now_millis none = 0
system_now_millis (some millis) = millis % 2 ^ 64
