-- ===== src/Store/RocksdbStore/Clear.antt =====
-- What `RocksDbStore::clear_all` (src/store/rocksdb_store.rs) leaves.
use diynamo.Base.{
  Bytes, bytes_eq, Bool, false, ◌||◌, Result, ok, err, >>=-eq-ok, ok-injective, none, List, [], ◌∷◌,
  ◌≡◌, refl, sym, ap, ◌∙◌, arith, lex_lt, map, if◌then◌else◌, Result-cases, inl, inr, Bool-cases,
}
use diynamo.Store.Database.{Database, IsDatabase, Bincode, IsBincode, Yields}
use diynamo.Store.Database.Ordered.{Entries, lookup, seek, lookup-remove}
use diynamo.Store.RocksdbStore.{StoredEntry, collect_keys, delete_keys, clear_all}
use diynamo.Store.RocksdbStore.Lww.{view, decoded}

-- Whether a key is in the list.
is_key : Bytes → List Bytes → Bool
is_key j [] = false
is_key j (k ∷ ks) = bytes_eq k j || is_key j ks

lookup-none : (j : Bytes) (es : Entries) → is_key j (map (λ e. e.0) es) ≡ false → lookup j es ≡ none
unfolding is_key lookup
lookup-none j [] h = refl
lookup-none j ((k, v) ∷ es) h = ground (arith, lookup-none j es, h)

pub seek_all : (es : Entries) → seek [] es ≡ es
unfolding seek lex_lt
seek_all [] = refl
seek_all ((k, v) ∷ es) = refl

module _ {Db : Type 0} {api : Database Db} {codec : Bincode StoredEntry} (laws : IsDatabase api)
    (coding : IsBincode codec) where
  collect_keys-Yields :
      (items : List (Result (Bytes × Bytes))) (es : Entries) (keys : List Bytes)
      → Yields items es
      → collect_keys api codec items ≡ ok keys
      → keys ≡ map (λ e. e.0) es
  unfolding collect_keys
  collect_keys-Yields [] [] keys y h = sym (ok-injective _ _ h)
  collect_keys-Yields [] (e ∷ es) keys y h = absurd y
  collect_keys-Yields (err x ∷ items) es keys y h = cc
  collect_keys-Yields (ok e ∷ items) [] keys y h = absurd y
  collect_keys-Yields (ok e ∷ items) (e' ∷ es) keys (same, y) h =
      let (ks, c, d) = >>=-eq-ok _ _ h in
      sym (ok-injective _ _ d)
      ∙ ap (λ (x : List Bytes). e.0 ∷ x) (collect_keys-Yields items es ks y c)
      ∙ ap (λ (x : Bytes × Bytes). x.0 ∷ map (λ e. e.0) es) same

  lookup-delete_keys :
      (keys : List Bytes) (db : Db) (j : Bytes)
      → (delete_keys api codec db keys).0 ≡ ok tt
      → lookup j (laws.entries (delete_keys api codec db keys).1)
        ≡ (if is_key j keys then none else lookup j (laws.entries db))
  unfolding delete_keys is_key
  lookup-delete_keys [] db j h = refl
  lookup-delete_keys (k ∷ keys) db j h = elim (Result-cases (api.delete db k)) [
    | inr (x, e) ↦ cc (rw (e, delete_keys) at h)
    | inl (db', e) ↦
        let removed : lookup j (laws.entries db')
            ≡ (if bytes_eq k j then none else lookup j (laws.entries db)) =
          ap (lookup j) (laws.delete_lem db k db' e) ∙ lookup-remove k j (laws.entries db) in
        let rest = lookup-delete_keys keys db' j (rw (e, delete_keys) at h) in
        rw (e, delete_keys) (ground (arith, rest, removed))
  ]

  -- When `clear_all` succeeds, the store has no entry at any key.
  pub view-clear_all :
      (db : Db) (j : Bytes)
      → (clear_all api codec db).0 ≡ ok tt
      → view laws coding (clear_all api codec db).1 j ≡ none
  unfolding clear_all view decoded
  view-clear_all db j h = elim (Result-cases (collect_keys api codec (api.iterator db []))) [
    | inr (x, e) ↦ cc (rw (e, clear_all) at h)
    | inl (keys, e) ↦
        let listed = collect_keys-Yields _ _ keys (laws.iterator_lem db []) e in
        let deleted = lookup-delete_keys keys db j (rw (e, clear_all) at h) in
        let gone : lookup j (laws.entries (delete_keys api codec db keys).1) ≡ none =
          elim (Bool-cases (is_key j keys)) [
            | inl there ↦ rw there at deleted
            | inr absent ↦
                (rw absent at deleted)
                ∙ lookup-none j (laws.entries db)
                    (rw (listed, seek_all (laws.entries db)) at absent)
          ] in
        rw (e, clear_all) (rw gone refl)
  ]
