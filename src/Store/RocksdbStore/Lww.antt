-- ===== src/Store/RocksdbStore/Lww.antt =====
-- The abstract view of the local store (src/store/rocksdb_store.rs): a map from keys to entries.
use diynamo.Base.{
  ℕ, Bytes, bytes_eq, ok, err, >>=-eq-ok, context-eq-ok, Option, none, some, ◌≡◌, arith, leb,
  if◌then◌else◌, bytes_eq_iff,
}
use mathlib.Core.Option
use diynamo.Store.{VersionedValue}
use diynamo.Store.Database.{Database, IsDatabase, Bincode, IsBincode}
use diynamo.Store.Database.Ordered.{lookup, lookup-insert}
use diynamo.Store.RocksdbStore.{
  StoredEntry, versioned, write_entry, write_if_newer, put_if_newer, get, put,
}

-- The entry that last-write-wins keeps: the stored one, unless the new one is strictly newer.
unfoldable pub newer : Option StoredEntry → StoredEntry → StoredEntry
newer none e = e
newer (some c) e = if leb e.timestamp c.timestamp then c else e

module _ {Db : Type 0} {api : Database Db} {codec : Bincode StoredEntry} (laws : IsDatabase api)
    (coding : IsBincode codec) where
  unfoldable pub decoded : Option Bytes → Option StoredEntry
  decoded none = none
  decoded (some b) = elim (codec.deserialize b) [ ok e ↦ some e | err _ ↦ none ]

  -- What the store holds at a key, as the entry that its bytes stand for.
  unfoldable pub view : Db → Bytes → Option StoredEntry
  unfolding decoded
  view db key = decoded (lookup key (laws.entries db))

  view-write :
      (db : Db) (key : Bytes) (entry : StoredEntry) (b : Bytes) (db' : Db) (j : Bytes)
      → codec.serialize entry ≡ ok b
      → api.put db key b ≡ ok db'
      → view db' j ≡ (if bytes_eq key j then some entry else view db j)
  unfolding view
  view-write db key entry b db' j s p =
      rw (laws.put_lem db key b db' p, lookup-insert key j b (laws.entries db))
        (ground (arith, coding.round_trip entry b s))

  pub view-write_entry :
      (db : Db) (key : Bytes) (entry : StoredEntry) (db' : Db) (j : Bytes)
      → write_entry api codec db key entry ≡ ok db'
      → view db' j ≡ (if bytes_eq key j then some entry else view db j)
  unfolding write_entry
  view-write_entry db key entry db' j h =
      let (b, s, p) = >>=-eq-ok _ _ h in
      view-write db key entry b db' j (context-eq-ok _ _ s) (context-eq-ok _ _ p)

  view-write_if_newer :
      (db : Db) (key : Bytes) (entry : StoredEntry) (raw : Option Bytes) (db' : Db) (j : Bytes)
      → raw ≡ lookup key (laws.entries db)
      → write_if_newer api codec db key entry raw ≡ ok db'
      → view db' j ≡ (if bytes_eq key j then some (newer (view db key) entry) else view db j)
  unfolding write_if_newer newer view
  view-write_if_newer db key entry none db' j r h =
      ground (arith, r, view-write_entry db key entry db' j)
  view-write_if_newer db key entry (some bytes) db' j r h =
      let (current, d, w) = >>=-eq-ok _ _ h in
      let d' : codec.deserialize bytes ≡ ok current = context-eq-ok _ _ d in
      rw (← r) (ground (arith, r, d', w, view-write_entry db key entry db' j, bytes_eq_iff key j))

  -- A successful `put_if_newer` merges its write into the view by last-write-wins, and touches no
  -- other key.
  pub view-put_if_newer :
      (db : Db) (key value : Bytes) (timestamp : ℕ) (db' : Db) (j : Bytes)
      → put_if_newer api codec db key value timestamp ≡ ok db'
      → view db' j ≡ (
          if bytes_eq key j
          then some (newer (view db key) (record { timestamp = timestamp; data' = value }))
          else view db j)
  unfolding put_if_newer
  view-put_if_newer db key value timestamp db' j h =
      let (raw, g, w) = >>=-eq-ok _ _ h in
      let g' : raw ≡ lookup key (laws.entries db) = laws.get_lem db key raw (context-eq-ok _ _ g) in
      view-write_if_newer db key _ raw db' j g' w

  -- A successful read returns exactly what the view holds.
  pub get-view :
      (db : Db) (key : Bytes) (r : Option VersionedValue)
      → get api codec db key ≡ ok r
      → r ≡ Option.map versioned (view db key)
  unfolding get view
  get-view db key r h =
      let (raw, g, w) = >>=-eq-ok _ _ h in
      let g' : raw ≡ lookup key (laws.entries db) = laws.get_lem db key raw (context-eq-ok _ _ g) in
      rw (← g') (ground (arith, w))

  -- The unversioned write of the local store replaces the entry, whatever was there.
  pub view-put :
      (db : Db) (now : ℕ) (key value : Bytes) (db' : Db) (j : Bytes)
      → put api codec db now key value ≡ ok db'
      → view db' j
        ≡ (if bytes_eq key j then some (record { timestamp = now; data' = value }) else view db j)
  unfolding put
  view-put db now key value db' j h =
      let (b, s, p) = >>=-eq-ok _ _ h in
      view-write db key _ b db' j (context-eq-ok _ _ s) (context-eq-ok _ _ p)
