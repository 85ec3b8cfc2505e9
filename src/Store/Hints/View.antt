-- ===== src/Store/Hints/View.antt =====
-- The abstract view of the hint store (src/store/hints.rs): a map from targets and keys to hints.
use mathlib.Core.List.{append_assoc}
use diynamo.Base.{
  ℕ, Bytes, bytes_eq, starts_with-append, contains, ok, err, >>=-eq-ok, context-eq-ok, guard-eq-ok,
  Option, none, some, List, [], ◌∷◌, ◌++◌, ◌≡◌, ◌↔◌, refl, ap, ◌∙◌, arith, if◌then◌else◌, inl, inr,
  In, false, Option-cases, ◌&&◌,
}
use diynamo.Store.Database.{Database, IsDatabase, Bincode, IsBincode}
use diynamo.Store.Database.Ordered.{lookup, seek, seek-IsSorted, lookup-insert, lookup-remove}
use diynamo.Store.Hints.{HintEntry, hint_key, hint_prefix, hints_for_node, store_hint, delete_hint}
use diynamo.Store.Hints.Scan.{HintAt, seek-From, lookup-seek, scan_sound, scan_complete}

-- Two hint keys are equal only if the targets and the keys are, as no target contains a slash.
bytes_eq-hint_key :
    (t u k j : Bytes)
    → contains t b'/' ≡ false
    → contains u b'/' ≡ false
    → bytes_eq (hint_key t k) (hint_key u j) ≡ (bytes_eq t u && bytes_eq k j)
unfolding hint_key bytes_eq contains
bytes_eq-hint_key [] [] k j s r = refl
bytes_eq-hint_key [] (b ∷ u) k j s r = ground arith
bytes_eq-hint_key (a ∷ t) [] k j s r = ground arith
bytes_eq-hint_key (a ∷ t) (b ∷ u) k j s r = ground (arith, bytes_eq-hint_key t u k j)

module _ {Db : Type 0} {api : Database Db} (codec : Bincode HintEntry) (laws : IsDatabase api) where
  unfoldable pub decoded : Option Bytes → Option HintEntry
  decoded none = none
  decoded (some b) = elim (codec.deserialize b) [ ok e ↦ some e | err _ ↦ none ]

  -- The hint kept for a target at a key.
  unfoldable pub hint_view : Db → Bytes → Bytes → Option HintEntry
  unfolding decoded
  hint_view db target_id key = decoded (lookup (hint_key target_id key) (laws.entries db))

  prefix-key : (target_id key : Bytes) → hint_prefix target_id ++ key ≡ hint_key target_id key
  unfolding hint_key
  prefix-key target_id key = append_assoc target_id (b'/' ∷ []) key

  lookup-prefix :
      (db : Db) (target_id key : Bytes)
      → lookup (hint_prefix target_id ++ key) (seek (hint_prefix target_id) (laws.entries db))
        ≡ lookup (hint_key target_id key) (laws.entries db)
  lookup-prefix db target_id key =
      lookup-seek _ _ (laws.entries db) (starts_with-append (hint_prefix target_id) key)
      ∙ ap (λ k. lookup k (laws.entries db)) (prefix-key target_id key)

  HintAt-hint_view :
      (db : Db) (t k v : Bytes) (ts : ℕ)
      → HintAt codec (seek (hint_prefix t) (laws.entries db)) (hint_prefix t) (k, v, ts)
      → hint_view db t k ≡ some (record { timestamp = ts; data' = v })
  unfolding hint_view
  HintAt-hint_view db t k v ts (b, found, d) = ground (arith, lookup-prefix db t k, found, d)

  hint_view-HintAt :
      (db : Db) (t k v : Bytes) (ts : ℕ)
      → hint_view db t k ≡ some (record { timestamp = ts; data' = v })
      → HintAt codec (seek (hint_prefix t) (laws.entries db)) (hint_prefix t) (k, v, ts)
  unfolding hint_view
  hint_view-HintAt db t k v ts h = elim (Option-cases (lookup (hint_key t k) (laws.entries db))) [
    | inl n ↦ ground (arith, n)
    | inr (b, e) ↦ (b, lookup-prefix db t k ∙ e, ground (arith, e, h))
  ]

  -- What a successful `hints_for_node` returns are exactly the target's hints: a key, a value and a
  -- timestamp are listed exactly when the store keeps that value and timestamp for the target at the
  -- key.
  pub hints_for_node_exact :
      (db : Db) (target_id : Bytes) (rs : List (Bytes × Bytes × ℕ)) (key value : Bytes)
      (timestamp : ℕ)
      → hints_for_node api codec db target_id ≡ ok rs
      → In (key, value, timestamp) rs
        ↔ (hint_view db target_id key ≡ some (record { timestamp = timestamp; data' = value }))
  unfolding hints_for_node
  hints_for_node_exact db t rs key value timestamp h =
      let sorted = seek-IsSorted (hint_prefix t) (laws.entries db) (laws.entries_IsSorted db) in
      let from = seek-From (hint_prefix t) (laws.entries db) (laws.entries_IsSorted db) in
      let y = laws.iterator_lem db (hint_prefix t) in
      (
        λ m.
            HintAt-hint_view db t key value timestamp
              (scan_sound codec (hint_prefix t) _ _ rs _ y sorted h m),
        λ v.
            scan_complete codec (hint_prefix t) _ _ rs _ y sorted from h
              (hint_view-HintAt db t key value timestamp v),
      )

  -- After a successful `store_hint` the hint is found under its target and key, with its value and
  -- timestamp, whatever was there before; the hints of other keys and of other targets stay, for a
  -- target without a slash.
  pub hint_view-store_hint :
      IsBincode codec
      → (db : Db) (t k v : Bytes) (ts : ℕ) (db' : Db) (u j : Bytes) → contains u b'/' ≡ false
      → store_hint api codec db t k v ts ≡ ok db'
      → hint_view db' u j ≡ (
          if bytes_eq t u && bytes_eq k j
          then some (record { timestamp = ts; data' = v })
          else hint_view db u j)
  unfolding store_hint hint_view
  hint_view-store_hint coding db t k v ts db' u j r h =
      let (s, h') = guard-eq-ok _ _ _ h in
      let (b, e, p) = >>=-eq-ok _ _ h' in
      let d : codec.deserialize b ≡ ok (record { timestamp = ts; data' = v }) =
        coding.round_trip _ b (context-eq-ok _ _ e) in
      let p' : api.put db (hint_key t k) b ≡ ok db' = context-eq-ok _ _ p in
      rw
        (
          laws.put_lem db (hint_key t k) b db' p',
          lookup-insert (hint_key t k) (hint_key u j) b (laws.entries db),
          bytes_eq-hint_key t u k j s r,
        )
        (ground (arith, d))

  -- After a successful `delete_hint` the hint is gone, and the hints of other targets and keys stay,
  -- for targets without a slash.
  pub hint_view-delete_hint :
      (db : Db) (t k : Bytes) (db' : Db) (u j : Bytes)
      → contains t b'/' ≡ false
      → contains u b'/' ≡ false
      → delete_hint api codec db t k ≡ ok db'
      → hint_view db' u j ≡ (if bytes_eq t u && bytes_eq k j then none else hint_view db u j)
  unfolding delete_hint hint_view
  hint_view-delete_hint db t k db' u j s r h =
      let h' : api.delete db (hint_key t k) ≡ ok db' = context-eq-ok _ _ h in
      rw
        (
          laws.delete_lem db (hint_key t k) db' h',
          lookup-remove (hint_key t k) (hint_key u j) (laws.entries db),
          bytes_eq-hint_key t u k j s r,
        )
        (ground arith)
