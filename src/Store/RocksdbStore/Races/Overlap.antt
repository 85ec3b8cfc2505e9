-- ===== src/Store/RocksdbStore/Races/Overlap.antt =====
-- Two calls of `put_if_newer` (src/store/rocksdb_store.rs), one behind the other and at once.
use diynamo.Base.{
  ℕ, ◌<◌, ◌≢◌, Bytes, bytes_eq_refl, ok, err, Result, Result-cases, Option, none, some, List, [],
  ◌∷◌, ◌≡◌, refl, sym, inl, inr, arith, ◌==◌, ==_iff, All, ◌∙◌, leb, true, false,
}
use diynamo.Store.Database.{Database, IsDatabase, Bincode, IsBincode}
use diynamo.Store.RocksdbStore.{StoredEntry, write_entry, write_if_newer, put_if_newer}
use diynamo.Store.RocksdbStore.Lww.{decoded, view, view-write_entry}
use diynamo.Store.RocksdbStore.Races.{
  entered, has_read, returned, read_result, write_result, advance, Threads, take_turn, interleave,
}

-- The store behind a call: a failed one leaves it as it was.
abbrev kept_or : {Db : Type 0} → Db → Result Db → Db
kept_or db (ok db') = db'
kept_or db (err e) = db

module _ {Db : Type 0} (api : Database Db) (codec : Bincode StoredEntry) where
  -- Two turns of one thread on end are a whole call of `put_if_newer`.
  pub interleave-alone :
      (i : ℕ) (s : Threads Db) (key value : Bytes) (ts : ℕ)
      → s.call i ≡ entered key (record { timestamp = ts; data' = value })
      → (interleave api codec (i ∷ i ∷ []) s).db
        ≡ kept_or s.db (put_if_newer api codec s.db key value ts)
  unfolding interleave take_turn advance read_result write_result put_if_newer
  interleave-alone i s key value ts h =
      let own : (i == i) ≡ true = (==_iff i i).1 refl in
      elim (Result-cases (api.get s.db key)) [
        | inr (x, g) ↦ rw (h, own, g) refl
        | inl (raw, g) ↦
            elim (Result-cases
              (write_if_newer api codec s.db key (record { timestamp = ts; data' = value }) raw)) [
                | inl (db', w) ↦ rw (h, own, g, w) refl
                | inr (x, w) ↦ rw (h, own, g, w) refl
              ]
      ]

module _ {Db : Type 0} {api : Database Db} {codec : Bincode StoredEntry} (laws : IsDatabase api)
    (coding : IsBincode codec) where
  -- The turns of the others leave a thread where it is.
  interleave-call :
      (i : ℕ) (others : List ℕ) (s : Threads Db)
      → All (λ j. i ≢ j) others
      → (interleave api codec others s).call i ≡ s.call i
  unfolding interleave take_turn
  interleave-call i [] s h = refl
  interleave-call i (j ∷ others) s (apart, h) =
      let other : (j == i) ≡ false = ground arith in
      interleave-call i others (take_turn api codec j s) h ∙ rw other refl

  -- A call that read something older writes.
  write_if_newer-older :
      (db : Db) (key : Bytes) (entry : StoredEntry) (raw : Option Bytes) (db' : Db)
      → ((c : StoredEntry) → decoded laws coding raw ≡ some c → c.timestamp < entry.timestamp)
      → write_if_newer api codec db key entry raw ≡ ok db'
      → write_entry api codec db key entry ≡ ok db'
  unfolding write_if_newer decoded
  write_if_newer-older db key entry none db' older h = h
  write_if_newer-older db key entry (some bytes) db' older h =
      elim (Result-cases (codec.deserialize bytes)) [
        | inr (x, d) ↦ cc (rw d at h)
        | inl (current, d) ↦
            let less : current.timestamp < entry.timestamp = older current (rw (decoded, d) refl) in
            let past : leb entry.timestamp current.timestamp ≡ false = ground arith in
            rw (d, past) at h
      ]

  -- the first turn of a thread
  first_turn :
      (i : ℕ) (s : Threads Db) (key : Bytes) (entry : StoredEntry) (r : Result (Option Bytes))
      → s.call i ≡ entered key entry
      → api.get s.db key ≡ r
      → (take_turn api codec i s).call i ≡ read_result key entry r
  unfolding take_turn advance
  first_turn i s key entry r h g =
      let own : (i == i) ≡ true = (==_iff i i).1 refl in rw (own, h, g) refl

  -- A call that has returned stays as it is.
  returned_turn :
      (i : ℕ) (s : Threads Db) (r : Result (Unit {0}))
      → s.call i ≡ returned r
      → (take_turn api codec i s).call i ≡ returned r
  unfolding take_turn advance
  returned_turn i s r h = let own : (i == i) ≡ true = (==_iff i i).1 refl in rw (own, h) refl

  -- the last turn of a thread whose read is behind it
  last_turn :
      (i : ℕ) (s : Threads Db) (key : Bytes) (entry : StoredEntry) (raw : Option Bytes)
      → s.call i ≡ has_read key entry raw
      → ((c : StoredEntry) → decoded laws coding raw ≡ some c → c.timestamp < entry.timestamp)
      → (take_turn api codec i s).call i ≡ returned (ok tt)
      → view laws coding (take_turn api codec i s).db key ≡ some entry
  unfolding take_turn advance write_result
  last_turn i s key entry raw h older end =
      let own : (i == i) ≡ true = (==_iff i i).1 refl in
      elim (Result-cases (write_if_newer api codec s.db key entry raw)) [
        | inr (x, w) ↦ cc (rw (h, own, w) at end)
        | inl (db', w) ↦
            let written = write_if_newer-older s.db key entry raw db' older w in
            rw
              (h, w, view-write_entry laws coding s.db key entry db' key written, bytes_eq_refl key)
              refl
      ]

  -- Let a thread's call of `put_if_newer` find nothing or an older entry at its key, and let other
  -- threads take any turns between its read and its write. If the call succeeds, then the store
  -- holds its entry, whatever the others wrote at the key and however new that was.
  pub take_turn-overwrites :
      (i : ℕ) (others : List ℕ) (s : Threads Db) (key : Bytes) (entry : StoredEntry)
      → s.call i ≡ entered key entry
      → ((c : StoredEntry) → view laws coding s.db key ≡ some c → c.timestamp < entry.timestamp)
      → All (λ j. i ≢ j) others
      → (take_turn api codec i (interleave api codec others (take_turn api codec i s))).call i
        ≡ returned (ok tt)
      → view laws coding
          (take_turn api codec i (interleave api codec others (take_turn api codec i s))).db
          key
        ≡ some entry
  unfolding read_result view
  take_turn-overwrites i others s key entry h older apart end =
      let first = take_turn api codec i s in
      let between = interleave api codec others first in
      let same = interleave-call i others first apart in
      elim (Result-cases (api.get s.db key)) [
        | inr (x, g) ↦
            cc (sym (returned_turn i between _ (same ∙ first_turn i s key entry (err x) h g)) ∙ end)
        | inl (raw, g) ↦
            last_turn i between key entry raw (same ∙ first_turn i s key entry (ok raw) h g)
              (rw (← laws.get_lem s.db key raw g) at older) end
      ]
