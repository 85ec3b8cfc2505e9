-- ===== src/Network/Healed/Replies.antt =====
-- What the reads of `get` (src/coordinator/mod.rs) are answered on the cluster, where no message is lost.
use diynamo.Base.{
  ℕ, Bytes, bytes_eq, bytes_eq→eq, Bool, true, false, Result, ok, Option, none, some, List, [], ◌∷◌,
  ◌≡◌, refl, sym, ap, subst, ◌∙◌, arith, In, Bool-cases, inl, inr,
}
use diynamo.Base.Utf8.{is_utf8}
use diynamo.Client.{KvClient, with_http, get_internal_versioned, send_with, read_internal_response}
use diynamo.Cluster.Types.{MemberInfo, internal_base_url}
use diynamo.Cluster.Ring.{HashRing}
use diynamo.Server.{Node, get_response, local_answer, get_kv_internal}
use diynamo.Store.{VersionedValue}
use diynamo.Store.Database.{Database, IsDatabase, Bincode, IsBincode}
use diynamo.Store.RocksdbStore
use diynamo.Store.RocksdbStore.{StoredEntry, versioned}
use diynamo.Store.Hints.{HintEntry}
use diynamo.Coordinator.{ReplicatedStore, JoinSet}
use diynamo.Coordinator.Get.{ReadResult, read_task, run_reads}
use diynamo.Network.{
  Transport, IsTransport, arrives, Cluster, count_message, json_response, dispatch, serve, transmit,
  send, world,
}
use diynamo.Network.Holds.Durable.{place, is_addressed}
use diynamo.Network.Reads.{IsFrozen, reads-IsFaithful}

-- What is found is text.
abbrev pub IsText : Option VersionedValue → Type 0
IsText none = Unit
IsText (some v) = is_utf8 v.data' ≡ true

module _ {Db : Type 0} (api : Database Db) (stored : Bincode StoredEntry) (key : Bytes) where
  -- The server answers a read of the key with what its store finds.
  abbrev pub Answers : Node Db → Option VersionedValue → Type 0
  Answers n found =
      (n.faults.block_internal ≡ false)
      × (RocksdbStore.get api stored n.store key ≡ ok found)
      × IsText found

  module _ (t : Transport) (hinted : Bincode HintEntry) where
    get_kv_internal-Answers :
        (n : Node Db) (found : Option VersionedValue)
        → Answers n found
        → read_internal_response
            (json_response t api stored hinted (get_kv_internal api stored hinted key n))
          ≡ ok found
    unfolding read_internal_response json_response get_kv_internal local_answer get_response
    get_kv_internal-Answers n none (open_node, e, x) = rw (open_node, e) refl
    get_kv_internal-Answers n (some v) (open_node, e, x) = rw (open_node, e, x) refl

module _ {Db : Type 0} {t : Transport} {is_plain : Bytes → Bool} (routing : IsTransport t is_plain)
    (api : Database Db) (stored : Bincode StoredEntry) (hinted : Bincode HintEntry)
    (arriving : (n : ℕ) → t.fate n ≡ arrives) (key : Bytes) (plain : is_plain key ≡ true)
    (text : is_utf8 key ≡ true) where
  remote-Answers :
      (c : KvClient) (w : Cluster Db) (found : Option VersionedValue)
      → Answers api stored key (w.node c.base_url) found
      → (get_internal_versioned (send t api stored hinted) c key w).0 ≡ ok found
  unfolding get_internal_versioned send_with send transmit serve dispatch count_message
  remote-Answers c w found a =
      rw (text, arriving w.messages, routing.locate_get c key plain)
        (get_kv_internal-Answers api stored key t hinted (w.node c.base_url) found a)

  module _ {Ring : Type 0} (ring_api : HashRing Ring) (tasks : JoinSet MemberInfo ReadResult)
      (self : ReplicatedStore Ring) (self_url : Bytes) where
    read_task-Answers :
        (m : MemberInfo) (w : Cluster Db) (found : Option VersionedValue)
        → is_addressed self.self_id self_url m ≡ true
        → Answers api stored key (w.node (place m)) found
        → (read_task ring_api (world t api stored hinted self_url) api stored tasks self key m w).0
          ≡ ok found
    unfolding read_task
    read_task-Answers m w found good a = elim (Bool-cases (bytes_eq m.id self.self_id)) [
      | inl own ↦
          let here : place m ≡ self_url =
            bytes_eq→eq (place m) self_url (ground (arith, own, good)) in
          rw own (rw (← here) a.1)
      | inr peer ↦ rw peer (remote-Answers (with_http (internal_base_url m)) w found a)
    ]

    -- The read of a member that is asked answers with what its server finds.
    pub run_reads-In :
        (laws : IsDatabase api) (coding : IsBincode stored) (w : Cluster Db) (m : MemberInfo)
        (found : Option VersionedValue)
        → is_addressed self.self_id self_url m ≡ true
        → Answers api stored key (w.node (place m)) found
        → (ms : List MemberInfo) (w' : Cluster Db) → IsFrozen w w'
        → In m ms
        → In {A = ReadResult}
            (internal_base_url m, ok found)
            (run_reads ring_api
              (world t api stored hinted self_url)
              api
              stored
              tasks
              self
              key
              ms
              w').0
    unfolding run_reads
    run_reads-In laws coding w m found good a [] w' f i = absurd i
    run_reads-In laws coding w m found good a (x ∷ ms) w' f (inl e) = inl (
        ap (λ (r : Result (Option VersionedValue)). (internal_base_url m, r))
          (sym (
            read_task-Answers m w' found good
              (subst (λ (n : Node Db). Answers api stored key n found) (sym (f (place m))) a)))
        ∙ ap
            (λ (y : MemberInfo). (
              internal_base_url y,
              (read_task ring_api (world t api stored hinted self_url) api stored tasks self key y
                  w').0,
            ))
            e)
    run_reads-In laws coding w m found good a (x ∷ ms) w' f (inr i) = inr (
        run_reads-In laws coding w m found good a ms _
          ((reads-IsFaithful routing hinted laws coding key 0 plain ring_api tasks self self_url
              w).keep
            x w' f)
          i)

    pub run_reads-IsFrozen :
        (laws : IsDatabase api) (coding : IsBincode stored) (w : Cluster Db) (ms : List MemberInfo)
        (w' : Cluster Db)
        → IsFrozen w w'
        → IsFrozen w
            (run_reads ring_api
              (world t api stored hinted self_url)
              api
              stored
              tasks
              self
              key
              ms
              w').1
    unfolding run_reads
    run_reads-IsFrozen laws coding w [] w' f = f
    run_reads-IsFrozen laws coding w (x ∷ ms) w' f = run_reads-IsFrozen laws coding w ms _ (
        (reads-IsFaithful routing hinted laws coding key 0 plain ring_api tasks self self_url
            w).keep
          x w' f)
