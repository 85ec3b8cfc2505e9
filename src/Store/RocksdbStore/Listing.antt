-- ===== src/Store/RocksdbStore/Listing.antt =====
-- What `RocksDbStore::iter_all` (src/store/rocksdb_store.rs) lists.
use mathlib.Core.Option
use mathlib.Core.Option.{some-injective}
use diynamo.Base.{
  Bytes, bytes_eq, bytes_eq→eq, bytes_eq_refl, Result, ok, err, ok-injective, Option, some, List,
  [], ◌∷◌, ◌≡◌, ◌↔◌, sym, ap, ◌∙◌, subst, In, map, Result-cases, inl, inr, Bool-cases,
}
use diynamo.Store.{VersionedValue}
use diynamo.Store.Database.{Database, IsDatabase, Bincode, IsBincode, Yields}
use diynamo.Store.Database.Ordered.{Entries, lookup, lookup_below, IsSorted}
use diynamo.Store.RocksdbStore.{StoredEntry, versioned, decode_item, iter_all}
use diynamo.Store.RocksdbStore.Lww.{view, decoded}
use diynamo.Store.RocksdbStore.Clear.{seek_all}

-- An iterator without an error.
abbrev pub IsRead : List (Result (Bytes × Bytes)) → Type 0
IsRead [] = Unit
IsRead (ok e ∷ items) = IsRead items
IsRead (err e ∷ items) = ⊥

abbrev Item : Type 0
Item = Result (Bytes × VersionedValue)

module _ {Db : Type 0} {api : Database Db} {codec : Bincode StoredEntry} (laws : IsDatabase api)
    (coding : IsBincode codec) where
  -- What the entries hold at a key.
  abbrev found_in : Bytes → Entries → Option VersionedValue
  found_in key es = Option.map versioned (decoded laws coding (lookup key es))

  decode_item-ok :
      (k b key : Bytes) (vv : VersionedValue)
      → decode_item api codec (ok (k, b)) ≡ ok (key, vv)
      → (k ≡ key) × (Option.map versioned (decoded laws coding (some b)) ≡ some vv)
  unfolding decode_item decoded
  decode_item-ok k b key vv h = elim (Result-cases (codec.deserialize b)) [
    | inr (x, e) ↦ cc (rw e at h)
    | inl (entry, e) ↦
        let same = ok-injective _ _ (rw e at h) in
        (
          ap (λ (x : Bytes × VersionedValue). x.0) same,
          rw (Option.map, e) (ap (λ (x : Bytes × VersionedValue). some x.1) same),
        )
  ]

  decode_item-found :
      (k b : Bytes) (vv : VersionedValue)
      → Option.map versioned (decoded laws coding (some b)) ≡ some vv
      → decode_item api codec (ok (k, b)) ≡ ok (k, vv)
  unfolding decode_item decoded
  decode_item-found k b vv h = elim (Result-cases (codec.deserialize b)) [
    | inr (x, e) ↦ cc (rw (Option.map, e) at h)
    | inl (entry, e) ↦
        rw e (ap (λ (v : VersionedValue). ok (k, v)) (some-injective _ _ (rw (Option.map, e) at h)))
  ]

  listed_sound :
      (items : List (Result (Bytes × Bytes))) (es : Entries) (key : Bytes) (vv : VersionedValue)
      → IsRead items
      → Yields items es
      → IsSorted es
      → In {A = Item} (ok (key, vv)) (map (decode_item api codec) items)
      → found_in key es ≡ some vv
  unfolding lookup decoded
  listed_sound [] es key vv r y s m = absurd m
  listed_sound (err x ∷ items) es key vv r y s m = absurd r
  listed_sound (ok e ∷ items) [] key vv r y s m = absurd y
  listed_sound (ok e ∷ items) ((j, b) ∷ es) key vv r (same, y) s (inl h) =
      let (at_key, found) =
        decode_item-ok j b key vv (
          sym
            (subst (λ (x : Bytes × Bytes). ok (key, vv) ≡ decode_item api codec (ok x)) same h)) in
      rw (at_key, bytes_eq_refl key) found
  listed_sound (ok e ∷ items) ((j, b) ∷ es) key vv r (same, y) s (inr m) =
      let later = listed_sound items es key vv r y s.1 m in
      elim (Bool-cases (bytes_eq j key)) [
        | inr other ↦ rw other later
        | inl here ↦
            let gone = lookup_below j es s.0 in cc (rw (← bytes_eq→eq j key here, gone) at later)
      ]

  listed_complete :
      (items : List (Result (Bytes × Bytes))) (es : Entries) (key : Bytes) (vv : VersionedValue)
      → IsRead items
      → Yields items es
      → found_in key es ≡ some vv
      → In {A = Item} (ok (key, vv)) (map (decode_item api codec) items)
  unfolding lookup decoded
  listed_complete [] [] key vv r y h = cc
  listed_complete [] (e ∷ es) key vv r y h = absurd y
  listed_complete (err x ∷ items) es key vv r y h = absurd r
  listed_complete (ok e ∷ items) [] key vv r y h = absurd y
  listed_complete (ok e ∷ items) ((j, b) ∷ es) key vv r (same, y) h =
      elim (Bool-cases (bytes_eq j key)) [
        | inr other ↦ inr (listed_complete items es key vv r y (rw other at h))
        | inl here ↦ inl (
            sym (
              ap (λ (x : Bytes × Bytes). decode_item api codec (ok x)) same
              ∙ rw (bytes_eq→eq j key here) (decode_item-found key b vv (rw here at h))))
      ]

  -- Where the iterator gives no error, `iter_all` lists a value and a timestamp for a key exactly
  -- when that is what the store holds at the key.
  pub iter_all_exact :
      (db : Db) (key : Bytes) (vv : VersionedValue)
      → IsRead (api.iterator db [])
      → In {A = Item} (ok (key, vv)) (iter_all api codec db)
        ↔ (Option.map versioned (view laws coding db key) ≡ some vv)
  unfolding iter_all view
  iter_all_exact db key vv r =
      let y = rw (seek_all (laws.entries db)) at (laws.iterator_lem db []) in
      (
        listed_sound (api.iterator db []) (laws.entries db) key vv r y (laws.entries_IsSorted db),
        listed_complete (api.iterator db []) (laws.entries db) key vv r y,
      )
