-- ===== src/Store/RocksdbStore/Races/Floor.antt =====
-- What no interleaving of `put_if_newer` (src/store/rocksdb_store.rs) undoes.
use diynamo.Base.{
  ℕ, ◌≤◌, Bytes, bytes_eq, bytes_eq→eq, ok, err, Result, Result-cases, >>=-eq-ok, context-eq-ok,
  Option, none, some, List, [], ◌∷◌, ◌≡◌, refl, sym, subst, ◌⊎◌, inl, inr, Bool-cases, arith, ◌==◌,
  ◌<◌,
}
use diynamo.Store.Database.{Database, IsDatabase, Bincode, IsBincode}
use diynamo.Store.RocksdbStore.{StoredEntry, write_entry, write_if_newer}
use diynamo.Store.RocksdbStore.Lww.{decoded, view, view-write_entry}
use diynamo.Store.RocksdbStore.Races.{
  Call, entered, has_read, returned, read_result, write_result, advance, Threads, take_turn,
  interleave,
}

-- The thread has not read the database, or its call is over.
abbrev pub IsOutside : Call → Type 0
IsOutside (entered key entry) = Unit
IsOutside (has_read key entry raw) = ⊥
IsOutside (returned r) = Unit

module _ {Db : Type 0} {api : Database Db} {codec : Bincode StoredEntry} (laws : IsDatabase api)
    (coding : IsBincode codec) where
  -- A write is made only behind the test on what the call had read, or the store stays as it is.
  write_if_newer-cases :
      (db : Db) (key : Bytes) (entry : StoredEntry) (raw : Option Bytes) (db' : Db)
      → write_if_newer api codec db key entry raw ≡ ok db'
      → (db ≡ db')
        ⊎ ((write_entry api codec db key entry ≡ ok db')
            × ((c : StoredEntry)
                → decoded laws coding raw ≡ some c
                → c.timestamp < entry.timestamp))
  unfolding write_if_newer decoded
  write_if_newer-cases db key entry none db' h = inr (h, λ c e. cc)
  write_if_newer-cases db key entry (some bytes) db' h =
      let (current, d, w) = >>=-eq-ok _ _ h in
      let d' : codec.deserialize bytes ≡ ok current = context-eq-ok _ _ d in ground (arith, d', w)

  module _ (From : Bytes → StoredEntry → Type 0) (key : Bytes) (e : StoredEntry) where
    -- What may be held at the key: the entry itself, or one that was to be written and is as new.
    abbrev Follows : Option StoredEntry → Type 0
    Follows none = ⊥
    Follows (some x) = ((x ≡ e) ⊎ From key x) × (e.timestamp ≤ x.timestamp)

    abbrev IsSound : Call → Type 0
    IsSound (entered k x) = From k x
    IsSound (has_read k x raw) = From k x × (k ≡ key → Follows (decoded laws coding raw))
    IsSound (returned r) = Unit

    read-IsSound :
        (db : Db) (k : Bytes) (x : StoredEntry) (r : Result (Option Bytes))
        → api.get db k ≡ r
        → Follows (view laws coding db key)
        → From k x
        → IsSound (read_result k x r)
    unfolding read_result view
    read-IsSound db k x (err f) g h m = tt
    read-IsSound db k x (ok raw) g h m = (m, λ same. rw (laws.get_lem db k raw g, same) h)

    above_Follows :
        (o : Option StoredEntry) (x : StoredEntry)
        → Follows o
        → ((c : StoredEntry) → o ≡ some c → c.timestamp < x.timestamp)
        → e.timestamp ≤ x.timestamp
    above_Follows none x f above = absurd f
    above_Follows (some c) x f above = let less = above c refl in let le = f.1 in omega arith

    write-Follows :
        (db : Db) (k : Bytes) (x : StoredEntry) (raw : Option Bytes) (db' : Db)
        → write_if_newer api codec db k x raw ≡ ok db'
        → Follows (view laws coding db key)
        → From k x
        → (k ≡ key → Follows (decoded laws coding raw))
        → Follows (view laws coding db' key)
    write-Follows db k x raw db' w h m read = elim (write_if_newer-cases db k x raw db' w) [
      | inl same ↦ subst (λ d. Follows (view laws coding d key)) same h
      | inr (written, above) ↦
          let at_key = view-write_entry laws coding db k x db' key written in
          elim (Bool-cases (bytes_eq k key)) [
            | inr other ↦ rw (at_key, other) h
            | inl here ↦
                let same = bytes_eq→eq k key here in
                rw (at_key, here)
                  (
                    inr (subst (λ j. From j x) same m),
                    above_Follows (decoded laws coding raw) x (read same) above,
                  )
          ]
    ]

    advance-Follows :
        (db : Db) (c : Call)
        → Follows (view laws coding db key)
        → IsSound c
        → Follows (view laws coding (advance api codec db c).0 key)
          × IsSound (advance api codec db c).1
    unfolding advance write_result
    advance-Follows db (entered k x) h m = (h, read-IsSound db k x (api.get db k) refl h m)
    advance-Follows db (returned r) h m = (h, tt)
    advance-Follows db (has_read k x raw) h (m, read) =
        elim (Result-cases (write_if_newer api codec db k x raw)) [
          | inl (db', w) ↦ rw w (write-Follows db k x raw db' w h m read, tt)
          | inr (f, w) ↦ rw w (h, tt)
        ]

    interleave-Follows :
        (order : List ℕ) (s : Threads Db)
        → Follows (view laws coding s.db key)
        → ((i : ℕ) → IsSound (s.call i))
        → Follows (view laws coding (interleave api codec order s).db key)
    unfolding interleave take_turn
    interleave-Follows [] s h m = h
    interleave-Follows (i ∷ order) s h m =
        let next = advance-Follows s.db (s.call i) h (m i) in
        interleave-Follows order (take_turn api codec i s) next.0
          (λ j. elim (Bool-cases (i == j)) [ inl own ↦ rw own next.1 | inr other ↦ rw other (m j) ])

  called-IsSound :
      (From : Bytes → StoredEntry → Type 0) (key : Bytes) (e : StoredEntry) (c : Call)
      → IsOutside c
      → ((k : Bytes) (x : StoredEntry) → c ≡ entered k x → From k x)
      → IsSound From key e c
  called-IsSound From key e (entered k x) o from = from k x refl
  called-IsSound From key e (has_read k x raw) o from = absurd o
  called-IsSound From key e (returned r) o from = tt

  Follows-found :
      (From : Bytes → StoredEntry → Type 0) (key : Bytes) (e : StoredEntry) (o : Option StoredEntry)
      → Follows From key e o
      → (x : StoredEntry) × (o ≡ some x) × ((x ≡ e) ⊎ From key x) × (e.timestamp ≤ x.timestamp)
  Follows-found From key e none f = absurd f
  Follows-found From key e (some x) f = (x, refl, f.0, f.1)

  -- Let any number of threads call `put_if_newer`, of which none has read the database yet, and let
  -- their reads and writes interleave in any order, each allowed to fail. Then a key that the store
  -- holds an entry for keeps that entry or gets one that a thread was called to write there, and
  -- its timestamp never falls below that of the entry held at the start.
  pub interleave-never_older :
      (order : List ℕ) (s : Threads Db) (key : Bytes) (e : StoredEntry)
      → ((i : ℕ) → IsOutside (s.call i))
      → view laws coding s.db key ≡ some e
      → (x : StoredEntry) × (view laws coding (interleave api codec order s).db key ≡ some x)
        × ((x ≡ e) ⊎ ((i : ℕ) × (s.call i ≡ entered key x)))
        × (e.timestamp ≤ x.timestamp)
  interleave-never_older order s key e outside held =
      let From : Bytes → StoredEntry → Type 0 = λ k x. (i : ℕ) × (s.call i ≡ entered k x) in
      Follows-found From key e _ (
        interleave-Follows From key e order s
          (subst (Follows From key e) (sym held) (inl refl, omega arith))
          (λ i. called-IsSound From key e (s.call i) (outside i) (λ k x h. (i, h))))
