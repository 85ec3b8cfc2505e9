-- ===== src/Tests/Races.antt =====
-- Threads that call `put_if_newer` at once.
use diynamo.Base.{
  ℕ, ◌==◌, Bytes, codes, if◌then◌else◌, some, [], ◌∷◌, ◌≡◌, ◌⊎◌, ◌≤◌, refl, arith, bytes_eq, lex_lt,
}
use diynamo.Store.Database.Ordered.{lookup, insert}
use diynamo.Store.Memory.{Memory, empty, memory, memory-IsDatabase}
use diynamo.Store.RocksdbStore.{StoredEntry, put_if_newer}
use diynamo.Store.RocksdbStore.Lww.{view, decoded}
use diynamo.Store.RocksdbStore.Races.{
  Call, entered, Threads, advance, read_result, write_result, take_turn, interleave,
}
use diynamo.Store.RocksdbStore.Races.Floor.{interleave-never_older}
use diynamo.Store.RocksdbStore.Races.Overlap.{take_turn-overwrites}
use diynamo.Tests.Fixtures.{stored_codec, stored_codec-IsBincode, database_or}

abbrev key : Bytes
key = codes "k"

abbrev first : StoredEntry
first = record { timestamp = 1; data' = codes "x" }

abbrev second : StoredEntry
second = record { timestamp = 2; data' = codes "y" }

abbrev third : StoredEntry
third = record { timestamp = 3; data' = codes "z" }

-- Thread 0 writes the second entry, every other one the third.
unfoldable calls : ℕ → Call
calls i = if i == 0 then entered key second else entered key third

abbrev holding_first : Memory
holding_first = database_or empty (put_if_newer memory stored_codec empty key (codes "x") 1)

abbrev threads : Threads Memory
threads = record { db = holding_first; call = calls }

interleave-never_older_example :
    (x : StoredEntry) × (view memory-IsDatabase stored_codec-IsBincode
        (interleave memory stored_codec (0 ∷ 1 ∷ 1 ∷ 0 ∷ []) threads).db
        key
      ≡ some x)
    × ((x ≡ first) ⊎ ((i : ℕ) × (calls i ≡ entered key x)))
    × (1 ≤ x.timestamp)
unfolding calls put_if_newer view decoded memory-IsDatabase lookup insert bytes_eq lex_lt
interleave-never_older_example =
    interleave-never_older memory-IsDatabase stored_codec-IsBincode (0 ∷ 1 ∷ 1 ∷ 0 ∷ []) threads key
      first (λ i. ground arith) refl

take_turn-overwrites_example :
    view memory-IsDatabase stored_codec-IsBincode
      (take_turn memory stored_codec 0
        (interleave memory stored_codec (1 ∷ 1 ∷ []) (take_turn memory stored_codec 0 threads))).db
      key
    ≡ some second
unfolding calls put_if_newer view decoded memory-IsDatabase lookup insert bytes_eq lex_lt take_turn
    interleave advance read_result write_result
take_turn-overwrites_example =
    take_turn-overwrites memory-IsDatabase stored_codec-IsBincode 0 (1 ∷ 1 ∷ []) threads key second
      refl (λ c h. ground (arith, h)) (omega arith, (omega arith, tt)) refl
