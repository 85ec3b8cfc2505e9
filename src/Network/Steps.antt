-- ===== src/Network/Steps.antt =====
-- The steps of a cluster whose writes carry timestamps: the route table and the handlers of
-- src/server/mod.rs, the local branches of src/coordinator/mod.rs and src/coordinator/handoff.rs.
pub mod Sends
pub mod Puts
pub mod Gets
pub mod Handoffs
use diynamo.Base.{
  ℕ, ◌≤◌, Bytes, bytes_eq, bytes_eq→eq, subst, Bool, true, false, ok, some, ◌≡◌, sym, ◌∙◌, arith,
  Bool-cases, Result-cases, inl, inr,
}
use diynamo.Server.{Node, FaultFlags, put_kv_internal_versioned, put_hint_internal}
use diynamo.Store.Database.{Database, IsDatabase, Bincode, IsBincode}
use diynamo.Store.RocksdbStore.{StoredEntry, put_if_newer}
use diynamo.Store.RocksdbStore.Lww.{newer, view, view-put_if_newer}
use diynamo.Store.Hints.{HintEntry, store_hint}
use diynamo.Coordinator.Get.Quorum.{is_recent}
use diynamo.Network.{
  Transport, Cluster, Call, get_internal, put_internal, put_versioned, put_hint, set_node,
  count_message, dispatch,
}
use diynamo.Network.Holds.{StoreHolds, InStore}
use diynamo.Network.Holds.Sent.{Holds, Holds-set_node}
use diynamo.Network.Reads.{is_current}

-- The calls whose writes carry a timestamp: all but `PUT /internal/kv/:key`.
unfoldable pub is_timed : Call → Bool
is_timed (put_internal key body) = false
is_timed _ = true

module _ {Db : Type 0} (t : Transport) (api : Database Db) (stored : Bincode StoredEntry)
    (hinted : Bincode HintEntry) where
  -- What may happen between two moments: a server answers a call, a coordinator or a hand-off writes to
  -- its own store by `put_if_newer`, a server's hints or flags change, a message is counted.
  pub data Reaches (w : Cluster Db) : Cluster Db → Type 0 where
    now : Reaches w w
    serves :
        {w' : Cluster Db} (url : Bytes) (clock : ℕ) (call : Call)
        → Reaches w w'
        → is_timed call ≡ true
        → Reaches w (set_node w' url (dispatch t api stored hinted clock call (w'.node url)).1)
    writes :
        {w' : Cluster Db} (url key value : Bytes) (ts : ℕ) (db : Db)
        → Reaches w w'
        → put_if_newer api stored (w'.node url).store key value ts ≡ ok db
        → Reaches w (set_node w' url (record (w'.node url) { store = db }))
    changes :
        {w' : Cluster Db} (url : Bytes) (hints : Db) (faults : FaultFlags)
        → Reaches w w'
        → Reaches w (set_node w' url (record (w'.node url) { hints = hints; faults = faults }))
    counts : {w' : Cluster Db} → Reaches w w' → Reaches w (count_message w')

newer-newest : (ts : ℕ) (c e : StoredEntry) → ts ≤ c.timestamp → ts ≤ (newer (some c) e).timestamp
unfolding newer
newer-newest ts c e h = ground (arith, h)

module _ {Db : Type 0} {api : Database Db} {stored : Bincode StoredEntry}
    {hinted : Bincode HintEntry} (laws : IsDatabase api) (coding : IsBincode stored)
    (hint_coding : IsBincode hinted) (key value : Bytes) (ts : ℕ) where
  -- A write to any key keeps it.
  StoreHolds-put :
      (db db' : Db) (k v : Bytes) (s : ℕ)
      → put_if_newer api stored db k v s ≡ ok db'
      → StoreHolds laws coding hint_coding key value ts db
      → StoreHolds laws coding hint_coding key value ts db'
  unfolding StoreHolds
  StoreHolds-put db db' k v s h (c, there, le) =
      let seen = view-put_if_newer laws coding db k v s db' key h in
      elim (Bool-cases (bytes_eq k key)) [
        | inl same ↦
            let there' : view laws coding db k ≡ some c =
              subst (λ j. view laws coding db j ≡ some c) (sym (bytes_eq→eq k key same)) there in
            let e : StoredEntry = record { timestamp = s; data' = v } in
            (newer (some c) e, rw (same, there') at seen, newer-newest ts c e le)
        | inr other ↦ (c, (rw other at seen) ∙ there, le)
      ]

  pub StoreHolds-is_current :
      (db : Db)
      → StoreHolds laws coding hint_coding key value ts db
      → is_current laws coding key ts db ≡ true
  unfolding is_current is_recent StoreHolds
  StoreHolds-is_current db (e, there, le) = rw there (ground (arith, le))

module _ {Db : Type 0} (t : Transport) {api : Database Db} {stored : Bincode StoredEntry}
    {hinted : Bincode HintEntry} (laws : IsDatabase api) (coding : IsBincode stored)
    (hint_coding : IsBincode hinted) (key value : Bytes) (ts : ℕ) where
  -- So does any call that carries a timestamp.
  StoreHolds-dispatch :
      (clock : ℕ) (call : Call) (n : Node Db)
      → is_timed call ≡ true
      → StoreHolds laws coding hint_coding key value ts n.store
      → StoreHolds laws coding hint_coding key value ts
          (dispatch t api stored hinted clock call n).1.store
  unfolding dispatch is_timed put_kv_internal_versioned put_hint_internal
  StoreHolds-dispatch clock (get_internal k) n timed h = h
  StoreHolds-dispatch clock (put_internal k body) n timed h = cc
  StoreHolds-dispatch clock (put_versioned k body) n timed h =
      elim (Bool-cases n.faults.block_internal) [
        | inl blocked ↦ rw blocked h
        | inr open_node ↦
            elim (Result-cases (put_if_newer api stored n.store k body.value body.timestamp)) [
              | inl (db, e) ↦
                  rw (open_node, e)
                    (StoreHolds-put laws coding hint_coding key value ts n.store db k body.value
                      body.timestamp e h)
              | inr (x, e) ↦ rw (open_node, e) h
            ]
      ]
  StoreHolds-dispatch clock (put_hint target_id k body) n timed h =
      elim (Bool-cases n.faults.block_hints) [
        | inl blocked ↦ rw blocked h
        | inr open_node ↦
            elim (Result-cases
              (store_hint api hinted n.hints target_id k body.value body.timestamp)) [
                | inl (db, e) ↦ rw (open_node, e) h
                | inr (x, e) ↦ rw (open_node, e) h
              ]
      ]

  -- A server that has the write, or one at least as new, has one after any such steps.
  pub Reaches-StoreHolds :
      (w w' : Cluster Db) (u : Bytes)
      → Reaches t api stored hinted w w'
      → StoreHolds laws coding hint_coding key value ts (w.node u).store
      → StoreHolds laws coding hint_coding key value ts (w'.node u).store
  unfolding Holds count_message
  Reaches-StoreHolds w _ u now h = h
  Reaches-StoreHolds w _ u (serves {w'} url clock call r timed) h =
      Holds-set_node (InStore laws coding hint_coding key value ts) url u
        (dispatch t api stored hinted clock call (w'.node url)).1 w' (Reaches-StoreHolds w w' u r h)
        (StoreHolds-dispatch clock call (w'.node url) timed)
  Reaches-StoreHolds w _ u (writes {w'} url k v s db r e) h =
      Holds-set_node (InStore laws coding hint_coding key value ts) url u
        (record (w'.node url) { store = db }) w' (Reaches-StoreHolds w w' u r h)
        (StoreHolds-put laws coding hint_coding key value ts (w'.node url).store db k v s e)
  Reaches-StoreHolds w _ u (changes {w'} url hints faults r) h =
      Holds-set_node (InStore laws coding hint_coding key value ts) url u
        (record (w'.node url) { hints = hints; faults = faults }) w' (Reaches-StoreHolds w w' u r h)
        (λ b. b)
  Reaches-StoreHolds w _ u (counts {w'} r) h = Reaches-StoreHolds w w' u r h
