-- ===== src/Network/Holds.antt =====
-- Which nodes hold a write, and the internal handlers of src/server/mod.rs.
pub mod Sent
pub mod Replicas
pub mod Durable
use diynamo.Base.{
  ℕ, ◌≤◌, Bytes, bytes_eq, bytes_eq_refl, bytes_eq_iff, contains, Bool, true, false, Result, ok,
  err, Option, none, some, ◌≡◌, ◌⊎◌, inl, inr, refl, sym, ap, ◌∙◌, subst, arith, if◌then◌else◌,
  ◌&&◌, leb, Bool-cases, Result-cases, guard-eq-ok,
}
use diynamo.Api.{PutVersionedBody, status_ok}
use diynamo.Server.{
  Node, Handled, answered, failed, written, put_kv_internal_versioned, put_hint_internal,
}
use diynamo.Store.Database.{Database, IsDatabase, Bincode, IsBincode}
use diynamo.Store.RocksdbStore.{StoredEntry, put_if_newer}
use diynamo.Store.RocksdbStore.Lww.{newer, view, view-put_if_newer}
use diynamo.Store.Hints.{HintEntry, store_hint}
use diynamo.Store.Hints.View.{hint_view, hint_view-store_hint}

newer-ge : (o : Option StoredEntry) (e : StoredEntry) → e.timestamp ≤ (newer o e).timestamp
unfolding newer
newer-ge none e = omega arith
newer-ge (some c) e = ground arith

newer-ge_old : (c e : StoredEntry) → c.timestamp ≤ (newer (some c) e).timestamp
unfolding newer
newer-ge_old c e = ground arith

-- The body of the requests that carry a write.
abbrev pub body : Bytes → ℕ → PutVersionedBody
body value ts = record { value = value; timestamp = ts }

module _ {Db : Type 0} {api : Database Db} {stored : Bincode StoredEntry}
    {hinted : Bincode HintEntry} (laws : IsDatabase api) (coding : IsBincode stored)
    (hint_coding : IsBincode hinted) (key value : Bytes) (ts : ℕ) where
  -- The local store has the write, or one at least as new.
  unfoldable pub StoreHolds : Db → Type 0
  StoreHolds db = (e : StoredEntry) × (view laws coding db key ≡ some e) × (ts ≤ e.timestamp)

  abbrev pub InStore : Node Db → Type 0
  InStore n = StoreHolds n.store

  -- The hint store has the write for some target.
  pub HintHolds : Db → Type 0
  HintHolds db =
      (target_id : Bytes) × (contains target_id b'/' ≡ false)
      × (hint_view hinted laws db target_id key ≡ some (record { timestamp = ts; data' = value }))

  unfoldable pub NodeHolds : Node Db → Type 0
  NodeHolds n = StoreHolds n.store ⊎ HintHolds n.hints

  pub StoreHolds-put_if_newer :
      (db db' : Db) → put_if_newer api stored db key value ts ≡ ok db' → StoreHolds db'
  unfolding StoreHolds
  StoreHolds-put_if_newer db db' h =
      let e = newer (view laws coding db key) (record { timestamp = ts; data' = value }) in
      let v = view-put_if_newer laws coding db key value ts db' key h in
      (e, rw (bytes_eq_refl key) at v, newer-ge (view laws coding db key) _)

  HintHolds-store_hint :
      (db db' : Db) (target_id : Bytes)
      → HintHolds db
      → store_hint api hinted db target_id key value ts ≡ ok db'
      → HintHolds db'
  unfolding HintHolds
  HintHolds-store_hint db db' target_id (t, s, v) h = (
    t,
    s,
    ground (
      arith,
      v,
      hint_view-store_hint hinted laws hint_coding db target_id key value ts db' t key s h,
    ),
  )

  HintHolds-stored :
      (db db' : Db) (target_id : Bytes)
      → store_hint api hinted db target_id key value ts ≡ ok db'
      → HintHolds db'
  unfolding HintHolds store_hint
  HintHolds-stored db db' target_id h =
      let (s, _) = guard-eq-ok _ _ _ h in
      let v =
        hint_view-store_hint hinted laws hint_coding db target_id key value ts db' target_id key s
          h in
      (target_id, s, rw (bytes_eq_refl target_id, bytes_eq_refl key) at v)

  pub put_versioned-holds :
      (n : Node Db) (s : ℕ)
      → (put_kv_internal_versioned api stored hinted key (body value ts) n).0 ≡ answered s
      → NodeHolds (put_kv_internal_versioned api stored hinted key (body value ts) n).1
  unfolding put_kv_internal_versioned NodeHolds
  put_versioned-holds n s h = elim (Bool-cases n.faults.block_internal) [
    | inl blocked ↦ ground (arith, blocked, h)
    | inr open_node ↦ elim (Result-cases (put_if_newer api stored n.store key value ts)) [
      | inl (db, e) ↦ rw (open_node, e) (inl (StoreHolds-put_if_newer n.store db e))
      | inr (x, e) ↦ ground (arith, open_node, e, h)
    ]
  ]

  pub NodeHolds-put_versioned :
      (n : Node Db)
      → NodeHolds n
      → NodeHolds (put_kv_internal_versioned api stored hinted key (body value ts) n).1
  unfolding put_kv_internal_versioned NodeHolds
  NodeHolds-put_versioned n h = elim (Bool-cases n.faults.block_internal) [
    | inl blocked ↦ rw blocked h
    | inr open_node ↦ elim (Result-cases (put_if_newer api stored n.store key value ts)) [
      | inl (db, e) ↦ rw (open_node, e) (inl (StoreHolds-put_if_newer n.store db e))
      | inr (x, e) ↦ rw (open_node, e) h
    ]
  ]

  pub put_hint-holds :
      (n : Node Db) (target_id : Bytes) (s : ℕ)
      → (put_hint_internal api stored hinted target_id key (body value ts) n).0 ≡ answered s
      → NodeHolds (put_hint_internal api stored hinted target_id key (body value ts) n).1
  unfolding put_hint_internal NodeHolds
  put_hint-holds n target_id s h = elim (Bool-cases n.faults.block_hints) [
    | inl blocked ↦ ground (arith, blocked, h)
    | inr open_node ↦ elim (Result-cases (store_hint api hinted n.hints target_id key value ts)) [
      | inl (db, e) ↦ rw (open_node, e) (inr (HintHolds-stored n.hints db target_id e))
      | inr (x, e) ↦ ground (arith, open_node, e, h)
    ]
  ]

  hints_kept :
      (n : Node Db) (db : Db) (target_id : Bytes)
      → NodeHolds n
      → store_hint api hinted n.hints target_id key value ts ≡ ok db
      → NodeHolds (record n { hints = db })
  unfolding NodeHolds
  hints_kept n db target_id (inl h) e = inl h
  hints_kept n db target_id (inr h) e = inr (HintHolds-store_hint n.hints db target_id h e)

  pub NodeHolds-put_hint :
      (n : Node Db) (target_id : Bytes)
      → NodeHolds n
      → NodeHolds (put_hint_internal api stored hinted target_id key (body value ts) n).1
  unfolding put_hint_internal NodeHolds
  NodeHolds-put_hint n target_id h = elim (Bool-cases n.faults.block_hints) [
    | inl blocked ↦ rw blocked h
    | inr open_node ↦ elim (Result-cases (store_hint api hinted n.hints target_id key value ts)) [
      | inl (db, e) ↦ rw (open_node, e) (hints_kept n db target_id h e)
      | inr (x, e) ↦ rw (open_node, e) h
    ]
  ]

  -- The refusals of the two handlers are server errors.
  pub put_versioned-failed :
      (n : Node Db) (s : ℕ)
      → (put_kv_internal_versioned api stored hinted key (body value ts) n).0 ≡ failed s
      → 500 ≤ s
  unfolding put_kv_internal_versioned
  put_versioned-failed n s h = ground arith

  pub put_hint-failed :
      (n : Node Db) (target_id : Bytes) (s : ℕ)
      → (put_hint_internal api stored hinted target_id key (body value ts) n).0 ≡ failed s
      → 500 ≤ s
  unfolding put_hint_internal
  put_hint-failed n target_id s h = ground arith

  pub StoreHolds-put_versioned :
      (n : Node Db)
      → StoreHolds n.store
      → StoreHolds (put_kv_internal_versioned api stored hinted key (body value ts) n).1.store
  unfolding put_kv_internal_versioned
  StoreHolds-put_versioned n h = elim (Bool-cases n.faults.block_internal) [
    | inl blocked ↦ rw blocked h
    | inr open_node ↦ elim (Result-cases (put_if_newer api stored n.store key value ts)) [
      | inl (db, e) ↦ rw (open_node, e) (StoreHolds-put_if_newer n.store db e)
      | inr (x, e) ↦ rw (open_node, e) h
    ]
  ]

  pub put_versioned-stores :
      (n : Node Db) (s : ℕ)
      → (put_kv_internal_versioned api stored hinted key (body value ts) n).0 ≡ answered s
      → StoreHolds (put_kv_internal_versioned api stored hinted key (body value ts) n).1.store
  unfolding put_kv_internal_versioned
  put_versioned-stores n s h = elim (Bool-cases n.faults.block_internal) [
    | inl blocked ↦ ground (arith, blocked, h)
    | inr open_node ↦ elim (Result-cases (put_if_newer api stored n.store key value ts)) [
      | inl (db, e) ↦ rw (open_node, e) (StoreHolds-put_if_newer n.store db e)
      | inr (x, e) ↦ ground (arith, open_node, e, h)
    ]
  ]
