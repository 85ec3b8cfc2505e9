-- ===== src/Network/Taken.antt =====
-- A client's versioned writes (src/client/http.rs) to a server that takes them.
use diynamo.Base.{
  ℕ, Bytes, bytes_eq, bytes_eq→eq, bytes_eq_refl, Bool, true, ok, ◌≡◌, refl, inl, inr, Bool-cases,
}
use diynamo.Base.Utf8.{is_utf8}
use diynamo.Client.{KvClient, check_status, put_internal_versioned_bytes}
use diynamo.Store.Database.{Database, IsDatabase, Bincode, IsBincode}
use diynamo.Store.RocksdbStore.{StoredEntry}
use diynamo.Store.Hints.{HintEntry}
use diynamo.Server.{Node, put_kv_internal_versioned}
use diynamo.Network.{
  Transport, IsTransport, arrives, Cluster, set_node, count_message, send, status_response,
}
use diynamo.Network.Holds.{StoreHolds, StoreHolds-put_if_newer, body}
use diynamo.Network.Live.{Takes, Serving, put_arrives}

module _ {Db : Type 0} {t : Transport} {is_plain : Bytes → Bool} (routing : IsTransport t is_plain)
    {api : Database Db} {stored : Bincode StoredEntry} {hinted : Bincode HintEntry}
    (laws : IsDatabase api) (coding : IsBincode stored) (hint_coding : IsBincode hinted)
    (arriving : (m : ℕ) → t.fate m ≡ arrives) (Ready : Db → Type 0)
    (takes : (key value : Bytes) (ts : ℕ) → Takes api stored key value ts Ready)
    (c : KvClient) where
  -- The server takes writes.
  abbrev pub Up : Cluster Db → Type 0
  Up w = Serving Ready (w.node c.base_url)

  -- A write that the server takes.
  handled :
      (key value : Bytes) (ts : ℕ) (m : Node Db)
      → Serving Ready m
      → Serving Ready (put_kv_internal_versioned api stored hinted key (body value ts) m).1
        × StoreHolds laws coding hint_coding key value ts
            (put_kv_internal_versioned api stored hinted key (body value ts) m).1.store
        × (check_status "versioned internal put failed" (
              status_response t api stored hinted
                (put_kv_internal_versioned api stored hinted key (body value ts) m).0)
            ≡ ok tt)
  unfolding put_kv_internal_versioned status_response check_status
  handled key value ts m (open_node, ready) =
      let (db, e, ready') = takes key value ts m.store ready in
      rw (open_node, e)
        (
          (refl, ready'),
          StoreHolds-put_if_newer laws coding hint_coding key value ts m.store db e,
          refl,
        )

  module _ (key value : Bytes) (ts : ℕ) (plain : is_plain key ≡ true) where
    -- Whichever server takes writes still does.
    pub versioned-Up :
        (u : Bytes) (w : Cluster Db)
        → Serving Ready (w.node u)
        → Serving Ready
            ((put_internal_versioned_bytes (send t api stored hinted) c key value ts w).1.node u)
    unfolding put_internal_versioned_bytes set_node count_message
    versioned-Up u w up = elim (Bool-cases (is_utf8 key)) [
      | inr bad ↦ rw bad up
      | inl text ↦ elim (Bool-cases (is_utf8 value)) [
        | inr bad ↦ rw (text, bad) up
        | inl value_text ↦
            let sent =
              put_arrives routing api stored hinted arriving key value ts plain text value_text c
                w in
            elim (Bool-cases (bytes_eq c.base_url u)) [
              | inl here ↦
                  rw (sent, here)
                    (handled key value ts (w.node c.base_url)
                      (rw (← bytes_eq→eq c.base_url u here) at up)).0
              | inr there ↦ rw (sent, there) up
            ]
      ]
    ]

    module _ (text : is_utf8 key ≡ true) (value_text : is_utf8 value ≡ true) where
      -- It has the write.
      pub versioned-StoreHolds :
          (w : Cluster Db)
          → Up w
          → StoreHolds laws coding hint_coding key value ts
              ((put_internal_versioned_bytes (send t api stored hinted) c key value ts w).1.node
                c.base_url).store
      unfolding set_node count_message
      versioned-StoreHolds w u =
          rw
            (
              put_arrives routing api stored hinted arriving key value ts plain text value_text c w,
              bytes_eq_refl c.base_url,
            )
            (handled key value ts (w.node c.base_url) u).1

      -- The client hears of it.
      pub versioned-ok :
          (w : Cluster Db)
          → Up w
          → (put_internal_versioned_bytes (send t api stored hinted) c key value ts w).0 ≡ ok tt
      versioned-ok w u =
          rw (put_arrives routing api stored hinted arriving key value ts plain text value_text c w)
            (handled key value ts (w.node c.base_url) u).2
