-- ===== src/Network/Live.antt =====
-- When `ReplicatedStore::put` (src/coordinator/mod.rs) succeeds on the cluster.
use diynamo.Base.{
  ℕ, ◌≤◌, Bytes, bytes_eq, bytes_eq→eq, Bool, true, false, ok, ok-injective, List, length, take,
  ◌≡◌, refl, sym, subst, ◌∙◌, arith, All, Bool-cases, Result-cases, inl, inr, ltb,
}
use diynamo.Base.Bags.{count}
use diynamo.Base.Utf8.{is_utf8}
use diynamo.Client.{KvClient, with_http, send_with, check_status, put_internal_versioned_bytes}
use diynamo.Cluster.Types.{MemberInfo, internal_base_url}
use diynamo.Cluster.Ring.{HashRing, ring_order_for_key}
use diynamo.Store.Database.{Database, Bincode}
use diynamo.Store.RocksdbStore.{StoredEntry, put_if_newer}
use diynamo.Store.Hints.{HintEntry}
use diynamo.Server.{Node, put_kv_internal_versioned}
use diynamo.Coordinator.{ReplicatedStore, JoinSet}
use diynamo.Coordinator.Put.{
  WriteResult, write_task, local_write, remote_write, slice_and_write, put,
}
use diynamo.Coordinator.Put.Results.{IsJoinSet}
use diynamo.Coordinator.Put.Live.{NoPanic, Serves, replicate_write-succeeds}
use diynamo.Network.{
  Transport, IsTransport, arrives, Cluster, world, set_node, count_message, dispatch, serve,
  transmit, send, status_response,
}
use diynamo.Network.Holds.{body}
use diynamo.Network.Holds.Durable.{place, is_addressed}

module _ {Db : Type 0} (api : Database Db) (stored : Bincode StoredEntry) (key value : Bytes)
    (ts : ℕ) (Ready : Db → Type 0) where
  -- What a store that is ready does with the write.
  abbrev pub Takes : Type 0
  Takes =
      (db : Db)
      → Ready db
      → (db' : Db) × (put_if_newer api stored db key value ts ≡ ok db') × Ready db'

-- The server takes writes: internal requests are not blocked, and its store is ready for the write.
abbrev pub Serving : {Db : Type 0} → (Db → Type 0) → Node Db → Type 0
Serving Ready n = (n.faults.block_internal ≡ false) × Ready n.store

module _ {Db : Type 0} {t : Transport} {is_plain : Bytes → Bool} (routing : IsTransport t is_plain)
    (api : Database Db) (stored : Bincode StoredEntry) (hinted : Bincode HintEntry)
    (arriving : (n : ℕ) → t.fate n ≡ arrives) (key value : Bytes) (ts : ℕ)
    (plain : is_plain key ≡ true) (key_text : is_utf8 key ≡ true)
    (value_text : is_utf8 value ≡ true) where
  -- A client's put where no message is lost: the handler's answer, and what the handler does.
  pub put_arrives :
      (c : KvClient) (w : Cluster Db)
      → put_internal_versioned_bytes (send t api stored hinted) c key value ts w ≡ (
        check_status "versioned internal put failed" (
            status_response t api stored hinted
              (put_kv_internal_versioned api stored hinted key
                (body value ts)
                (w.node c.base_url)).0),
        set_node
            (count_message w)
            c.base_url
            (put_kv_internal_versioned api stored hinted key (body value ts) (w.node c.base_url)).1,
      )
  unfolding put_internal_versioned_bytes send_with send transmit serve dispatch count_message
  put_arrives c w =
      rw
        (
          key_text,
          value_text,
          arriving w.messages,
          routing.locate_put_versioned c key (body value ts) plain,
        )
        refl

  module _ (Ready : Db → Type 0) (takes : Takes api stored key value ts Ready)
      (self_id self_url : Bytes) (up : Bytes → Bool) where
    -- All servers that are up take writes.
    abbrev Fine : Cluster Db → Type 0
    Fine w = (u : Bytes) → up u ≡ true → Serving Ready (w.node u)

    Fine-set_node :
        (w : Cluster Db) (url : Bytes) (n : Node Db)
        → Fine w
        → (up url ≡ true → Serving Ready n)
        → Fine (set_node w url n)
    unfolding set_node
    Fine-set_node w url n f g u h = elim (Bool-cases (bytes_eq url u)) [
      | inl e ↦ rw e (g (rw (bytes_eq→eq url u e) h))
      | inr e ↦ rw e (f u h)
    ]

    handler-Serving :
        (n : Node Db)
        → Serving Ready n
        → Serving Ready (put_kv_internal_versioned api stored hinted key (body value ts) n).1
    unfolding put_kv_internal_versioned
    handler-Serving n (open_node, r) =
        let (db, e, r') = takes n.store r in rw (open_node, e) (refl, r')

    handler-answers :
        (n : Node Db)
        → Serving Ready n
        → check_status "versioned internal put failed" (
            status_response t api stored hinted
              (put_kv_internal_versioned api stored hinted key (body value ts) n).0)
          ≡ ok tt
    unfolding put_kv_internal_versioned check_status status_response
    handler-answers n (open_node, r) = let (db, e, r') = takes n.store r in rw (open_node, e) refl

    local-Fine :
        (w : Cluster Db)
        → Fine w
        → Fine
            (local_write (world t api stored hinted self_url) api stored self_id key value ts w).1
    unfolding local_write
    local-Fine w f =
        let n = w.node self_url in
        elim (Result-cases (put_if_newer api stored n.store key value ts)) [
          | inr (x, e) ↦ rw (e, local_write) f
          | inl (db, e) ↦
              rw (e, local_write)
                (Fine-set_node w self_url (record n { store = db }) f
                  (λ h.
                    let (open_node, r) = f self_url h in
                    let (db', e', r') = takes n.store r in
                    (open_node, subst Ready (ok-injective db' db (sym e' ∙ e)) r')))
        ]

    write_task-Serves :
        Serves
          (world t api stored hinted self_url)
          api
          stored
          self_id
          key
          value
          ts
          (is_addressed self_id self_url)
          (λ m. up (place m))
          Fine
    unfolding write_task remote_write count_message local_write
    write_task-Serves = record {
      keep = λ c w good f. elim (Bool-cases (bytes_eq c.id self_id)) [
        | inl self ↦ rw self (local-Fine w f)
        | inr peer ↦
            rw (peer, put_arrives (with_http (internal_base_url c)) w)
              (Fine-set_node (count_message w) (place c) _ f
                (λ h. handler-Serving (w.node (place c)) (f (place c) h)))
      ];
      succeeds = λ c w good h f. elim (Bool-cases (bytes_eq c.id self_id)) [
        | inl self ↦
            let here : place c ≡ self_url =
              bytes_eq→eq (place c) self_url (ground (arith, self, good)) in
            let (db, e, r') = takes (w.node self_url).store (f self_url (rw (← here) h)).1 in
            rw (self, local_write, e) refl
        | inr peer ↦
            rw (peer, put_arrives (with_http (internal_base_url c)) w)
              (handler-answers (w.node (place c)) (f (place c) h))
      ];
    }

-- A write succeeds if the cluster is well enough: no message is lost, no task panics, the key and
-- the value are text, and of the preferred members at least `w` have servers that do not block
-- internal requests and whose stores take the write, however often it comes. `Ready` tells the
-- stores that do.
pub put_succeeds :
    {Ring Db : Type 0} {t : Transport} {is_plain : Bytes → Bool} (routing : IsTransport t is_plain)
    (api : Database Db) (stored : Bincode StoredEntry) (hinted : Bincode HintEntry)
    {tasks : JoinSet MemberInfo WriteResult} (joining : IsJoinSet tasks) (no_panic : NoPanic tasks)
    (self : ReplicatedStore Ring) (self_url key value : Bytes) (ring_api : HashRing Ring)
    (all : List MemberInfo) (w : Cluster Db) (Ready : Db → Type 0) (up : Bytes → Bool)
    → ((n : ℕ) → t.fate n ≡ arrives)
    → is_plain key ≡ true
    → is_utf8 key ≡ true
    → is_utf8 value ≡ true
    → Takes api stored key value (t.clock w.messages) Ready
    → ring_order_for_key ring_api self.ring key ≡ ok all
    → self.n ≤ length all
    → All (λ m. is_addressed self.self_id self_url m ≡ true) all
    → ((u : Bytes) → up u ≡ true → Serving Ready (w.node u))
    → self.w ≤ count (λ m. up (place m)) (take self.n all)
    → (put (world t api stored hinted self_url) api stored tasks self key value ring_api w).0
      ≡ ok tt
unfolding put slice_and_write count_message
put_succeeds {t = t} routing api stored hinted joining no_panic self self_url key value ring_api all
      w Ready up arriving plain key_text value_text takes order long addressed serving enough =
    let fits : ltb (length all) self.n ≡ false = ground (arith, long) in
    rw (order, fits)
      (replicate_write-succeeds joining no_panic self
        (write_task-Serves routing api stored hinted arriving key value (t.clock w.messages) plain
          key_text value_text Ready takes self.self_id self_url up)
        all (count_message w) addressed serving enough)
