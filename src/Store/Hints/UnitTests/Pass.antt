-- ===== src/Store/Hints/UnitTests/Pass.antt =====
-- Why the unit tests of src/store/hints.rs pass.
use diynamo.Base.{
  ℕ, Bytes, codes, bytes_eq, contains, starts_with, lex_lt, map, true, false, ok, [], ◌≡◌, refl, ap,
  ◌∙◌,
}
use diynamo.Store.Database.Ordered.{Entries, insert, remove, seek}
use diynamo.Store.Database.{Database, IsDatabase, Bincode, IsBincode}
use diynamo.Store.Hints.{
  HintEntry, hint_key, hint_prefix, scan, store_hint, hints_for_node, delete_hint,
}
use diynamo.Store.Hints.UnitTests.{
  round_trip_single_hint, hints_for_node_only_returns_that_nodes_hints, delete_hint_removes_entry,
  store_hint_rejects_slash_in_target_id, hints_for_node_empty_when_none_stored,
}

-- A database and an encoding that never fail.
pub record IsTotal {Db : Type 0} {api : Database Db} (laws : IsDatabase api)
    (codec : Bincode HintEntry) : Type 0 where
  pub put_ok : (db : Db) (k v : Bytes) → (db' : Db) × (api.put db k v ≡ ok db')
  pub delete_ok : (db : Db) (k : Bytes) → (db' : Db) × (api.delete db k ≡ ok db')
  pub iterator_ok : (db : Db) (k : Bytes) → api.iterator db k ≡ map ok (seek k (laws.entries db))
  pub serialize_ok : (e : HintEntry) → (b : Bytes) × (codec.serialize e ≡ ok b)

module _ {Db : Type 0} {api : Database Db} {laws : IsDatabase api} {codec : Bincode HintEntry}
    (coding : IsBincode codec) (total : IsTotal laws codec) where
  store_hint-ok :
      (db : Db) (t k v : Bytes) (ts : ℕ)
      → contains t b'/' ≡ false
      → (db' : Db) × (b : Bytes) × (store_hint api codec db t k v ts ≡ ok db')
        × (laws.entries db' ≡ insert (hint_key t k) b (laws.entries db))
        × (codec.deserialize b ≡ ok (record { timestamp = ts; data' = v }))
  unfolding store_hint
  store_hint-ok db t k v ts plain =
      let (b, s) = total.serialize_ok (record { timestamp = ts; data' = v }) in
      let (db', p) = total.put_ok db (hint_key t k) b in
      (
        db',
        b,
        rw (plain, s, p) refl,
        laws.put_lem db (hint_key t k) b db' p,
        coding.round_trip _ b s,
      )

  hints_for_node-scan :
      (db : Db) (t : Bytes) (es : Entries)
      → laws.entries db ≡ es
      → hints_for_node api codec db t
        ≡ scan codec (hint_prefix t) (map ok (seek (hint_prefix t) es))
  unfolding hints_for_node
  hints_for_node-scan db t es e = rw (total.iterator_ok db (hint_prefix t), e) refl

  round_trip_passes : (db : Db) → laws.entries db ≡ [] → round_trip_single_hint api codec db ≡ true
  unfolding round_trip_single_hint hint_key insert scan seek lex_lt starts_with bytes_eq contains
  round_trip_passes db fresh =
      let (db₁, b, e, there, d) =
        store_hint-ok db (codes "n2") (codes "banana") (codes "yellow") 100 refl in
      rw (e, hints_for_node-scan db₁ (codes "n2") _ (there ∙ ap (insert _ b) fresh), d) refl

  only_returns_passes :
      (db : Db)
      → laws.entries db ≡ []
      → hints_for_node_only_returns_that_nodes_hints api codec db ≡ true
  unfolding hints_for_node_only_returns_that_nodes_hints hint_key insert scan seek lex_lt
      starts_with bytes_eq contains
  only_returns_passes db fresh =
      let (db₁, b₁, e₁, there₁, d₁) =
        store_hint-ok db (codes "n1") (codes "apple") (codes "red") 1 refl in
      let (db₂, b₂, e₂, there₂, d₂) =
        store_hint-ok db₁ (codes "n2") (codes "banana") (codes "yellow") 2 refl in
      let (db₃, b₃, e₃, there₃, d₃) =
        store_hint-ok db₂ (codes "n2") (codes "cherry") (codes "red") 3 refl in
      let two = there₂ ∙ ap (insert _ b₂) (there₁ ∙ ap (insert _ b₁) fresh) in
      let all = there₃ ∙ ap (insert _ b₃) two in
      rw
        (
          e₁,
          e₂,
          e₃,
          hints_for_node-scan db₃ (codes "n1") _ all,
          hints_for_node-scan db₃ (codes "n2") _ all,
          d₁,
          d₂,
          d₃,
        )
        refl

  delete_passes : (db : Db) → laws.entries db ≡ [] → delete_hint_removes_entry api codec db ≡ true
  unfolding delete_hint_removes_entry delete_hint hint_key insert remove scan seek lex_lt
      starts_with bytes_eq contains
  delete_passes db fresh =
      let (db₁, b, e, there, d) =
        store_hint-ok db (codes "n2") (codes "banana") (codes "yellow") 42 refl in
      let k = hint_key (codes "n2") (codes "banana") in
      let (db₂, e₂) = total.delete_ok db₁ k in
      let none_left =
        laws.delete_lem db₁ k db₂ e₂ ∙ ap (remove k) (there ∙ ap (insert _ b) fresh) in
      rw (e, e₂, hints_for_node-scan db₂ (codes "n2") _ none_left) refl

  empty_passes :
      (db : Db) → laws.entries db ≡ [] → hints_for_node_empty_when_none_stored api codec db ≡ true
  unfolding hints_for_node_empty_when_none_stored scan seek
  empty_passes db fresh = rw (hints_for_node-scan db (codes "n99") [] fresh) refl

  rejects_passes : (db : Db) → store_hint_rejects_slash_in_target_id api codec db ≡ true
  unfolding store_hint_rejects_slash_in_target_id store_hint contains
  rejects_passes db = refl

  -- The unit tests of the hint store pass on any database and with any encoding that keep their
  -- laws and never fail, from a store without entries: a hint is read back with its value and
  -- timestamp, each target's hints are returned to that target only, a deleted hint is gone, a
  -- target with a slash is refused, and a target without hints has none.
  pub hint_tests_pass :
      (db : Db)
      → laws.entries db ≡ []
      → (round_trip_single_hint api codec db ≡ true)
        × (hints_for_node_only_returns_that_nodes_hints api codec db ≡ true)
        × (delete_hint_removes_entry api codec db ≡ true)
        × (store_hint_rejects_slash_in_target_id api codec db ≡ true)
        × (hints_for_node_empty_when_none_stored api codec db ≡ true)
  hint_tests_pass db fresh = (
    round_trip_passes db fresh,
    only_returns_passes db fresh,
    delete_passes db fresh,
    rejects_passes db,
    empty_passes db fresh,
  )
