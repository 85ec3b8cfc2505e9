-- ===== src/Network/Reads.antt =====
-- What `ReplicatedStore::get` (src/coordinator/mod.rs) reads on the cluster.
use diynamo.Base.{
  ℕ, ◌+◌, ◌≤◌, ◌<◌, Bytes, bytes_eq, bytes_eq→eq, bytes_eq_refl, Bool, true, false, Result, ok,
  ok-injective, err, Result-cases, Option, none, some, List, ◌≡◌, refl, subst, arith, All,
  Bool-cases, inl, inr,
}
use mathlib.Core.Option
use diynamo.Base.Bags.{count}
use diynamo.Base.Utf8.{is_utf8}
use diynamo.Api.{Response}
use diynamo.Client.{
  KvClient, with_http, get_request, internal_kv_url, send_with, read_internal_response,
  get_internal_versioned,
}
use diynamo.Cluster.Types.{MemberInfo, internal_base_url}
use diynamo.Cluster.Ring.{HashRing, preference_list_for_key}
use diynamo.Cluster.Ring.Prefix.{length-preference_list}
use diynamo.Server.{Node, get_response, local_answer, get_kv_internal}
use diynamo.Store.{VersionedValue}
use diynamo.Store.Database.{Database, IsDatabase, Bincode, IsBincode}
use diynamo.Store.RocksdbStore
use diynamo.Store.RocksdbStore.{StoredEntry, versioned}
use diynamo.Store.RocksdbStore.Lww.{view, get-view}
use diynamo.Store.Hints.{HintEntry}
use diynamo.Coordinator.{ReplicatedStore, JoinSet}
use diynamo.Coordinator.Put.Results.{IsJoinSet}
use diynamo.Coordinator.Get.{ReadResult, Repair, read_task, get}
use diynamo.Coordinator.Get.Quorum.{is_recent, is_stale_answer, IsFaithful, read_members-recent}
use diynamo.Network.{
  Transport, IsTransport, Fate, arrives, lost_request, lost_reply, Cluster, set_node, count_message,
  json_response, dispatch, serve, transmit, send, world,
}
use diynamo.Network.Holds.Durable.{place, is_addressed}

module _ {Db : Type 0} {api : Database Db} {stored : Bincode StoredEntry} (laws : IsDatabase api)
    (coding : IsBincode stored) (key : Bytes) (ts : ℕ) where
  -- The local store has, at the key, an entry at least as new as the timestamp.
  unfoldable pub is_current : Db → Bool
  is_current db = is_recent ts (Option.map versioned (view laws coding db key))

  -- A read of the local store answers with what it has.
  get-is_current :
      (db : Db)
      → is_current db ≡ true
      → is_stale_answer ts (RocksdbStore.get api stored db key) ≡ false
  unfolding is_current is_stale_answer
  get-is_current db c = elim (Result-cases (RocksdbStore.get api stored db key)) [
    | inr (x, e) ↦ rw e refl
    | inl (found, e) ↦ rw (e, get-view laws coding db key found e, c) refl
  ]

  -- What the client reads off the handler's answer is no staler than what the store answered.
  local_answer-is_stale :
      (t : Transport) (hinted : Bincode HintEntry) (r : Result (Option VersionedValue))
      → is_stale_answer ts r ≡ false
      → is_stale_answer ts (
          read_internal_response
            (json_response t api stored hinted (local_answer api stored hinted r)))
        ≡ false
  unfolding is_stale_answer is_recent read_internal_response json_response local_answer get_response
  local_answer-is_stale t hinted (err e) h = refl
  local_answer-is_stale t hinted (ok none) h = cc
  local_answer-is_stale t hinted (ok (some v)) h = elim (Bool-cases (is_utf8 v.data')) [
    | inl text ↦ rw text h
    | inr binary ↦ rw binary refl
  ]

  get_kv_internal-is_stale :
      (t : Transport) (hinted : Bincode HintEntry) (n : Node Db)
      → is_current n.store ≡ true
      → is_stale_answer ts (
          read_internal_response
            (json_response t api stored hinted (get_kv_internal api stored hinted key n)))
        ≡ false
  unfolding is_stale_answer read_internal_response json_response get_kv_internal
  get_kv_internal-is_stale t hinted n c = elim (Bool-cases n.faults.block_internal) [
    | inl blocked ↦ rw blocked refl
    | inr open_node ↦ rw open_node (
        local_answer-is_stale t hinted (RocksdbStore.get api stored n.store key)
          (get-is_current n.store c))
  ]

-- The servers are as they were.
abbrev pub IsFrozen : {Db : Type 0} → Cluster Db → Cluster Db → Type 0
IsFrozen w w' = (u : Bytes) → w'.node u ≡ w.node u

IsFrozen-set_node :
    {Db : Type 0} (w w' : Cluster Db) (url : Bytes)
    → IsFrozen w w'
    → IsFrozen w (set_node w' url (w'.node url))
unfolding set_node
IsFrozen-set_node w w' url f u = elim (Bool-cases (bytes_eq url u)) [
  | inl e ↦ rw (← bytes_eq→eq url u e, bytes_eq_refl url) (f url)
  | inr e ↦ rw e (f u)
]

module _ {Db : Type 0} {t : Transport} {is_plain : Bytes → Bool} (routing : IsTransport t is_plain)
    {api : Database Db} {stored : Bincode StoredEntry} (hinted : Bincode HintEntry)
    (laws : IsDatabase api) (coding : IsBincode stored) (key : Bytes) (ts : ℕ)
    (plain : is_plain key ≡ true) where
  transmit-IsFrozen :
      (f : Fate) (c : KvClient) (w w' : Cluster Db)
      → IsFrozen w w'
      → IsFrozen w (transmit t api stored hinted f (get_request (internal_kv_url c key)) w').1
  unfolding transmit serve dispatch
  transmit-IsFrozen arrives c w w' h =
      rw (routing.locate_get c key plain) (IsFrozen-set_node w w' c.base_url h)
  transmit-IsFrozen lost_request c w w' h = h
  transmit-IsFrozen lost_reply c w w' h =
      rw (routing.locate_get c key plain) (IsFrozen-set_node w w' c.base_url h)

  transmit-is_current :
      (f : Fate) (c : KvClient) (w' : Cluster Db) (response : Response)
      → is_current laws coding key ts (w'.node c.base_url).store ≡ true
      → (transmit t api stored hinted f (get_request (internal_kv_url c key)) w').0 ≡ ok response
      → is_stale_answer ts (read_internal_response response) ≡ false
  unfolding transmit serve dispatch
  transmit-is_current arrives c w' response cur e =
      let r = get_kv_internal-is_stale laws coding key ts t hinted (w'.node c.base_url) cur in
      let e' = ok-injective _ _ (rw (routing.locate_get c key plain) at e) in
      subst (λ (x : Response). is_stale_answer ts (read_internal_response x) ≡ false) e' r
  transmit-is_current lost_request c w' response cur e = cc
  transmit-is_current lost_reply c w' response cur e = cc

  send-IsFrozen :
      (c : KvClient) (w w' : Cluster Db)
      → IsFrozen w w'
      → IsFrozen w (send t api stored hinted (get_request (internal_kv_url c key)) w').1
  unfolding send count_message
  send-IsFrozen c w w' h = transmit-IsFrozen (t.fate w'.messages) c w (count_message w') h

  remote-IsFrozen :
      (c : KvClient) (w w' : Cluster Db)
      → IsFrozen w w'
      → IsFrozen w (get_internal_versioned (send t api stored hinted) c key w').1
  unfolding get_internal_versioned send_with
  remote-IsFrozen c w w' h = elim (Bool-cases (is_utf8 key)) [
    | inr bad ↦ rw bad h
    | inl good ↦
        elim (Result-cases (send t api stored hinted (get_request (internal_kv_url c key)) w').0) [
          | inl (response, e) ↦ rw (good, e) (send-IsFrozen c w w' h)
          | inr (x, e) ↦ rw (good, e) (send-IsFrozen c w w' h)
        ]
  ]

  remote-is_current :
      (c : KvClient) (w' : Cluster Db)
      → is_current laws coding key ts (w'.node c.base_url).store ≡ true
      → is_stale_answer ts (get_internal_versioned (send t api stored hinted) c key w').0 ≡ false
  unfolding get_internal_versioned send_with send is_stale_answer count_message
  remote-is_current c w' cur = elim (Bool-cases (is_utf8 key)) [
    | inr bad ↦ rw bad refl
    | inl good ↦
        elim (Result-cases (send t api stored hinted (get_request (internal_kv_url c key)) w').0) [
          | inl (response, e) ↦
              rw (good, e)
                (unfold is_stale_answer in
                  transmit-is_current (t.fate w'.messages) c (count_message w') response cur e)
          | inr (x, e) ↦ rw (good, e) refl
        ]
  ]

  module _ {Ring : Type 0} (ring_api : HashRing Ring) (tasks : JoinSet MemberInfo ReadResult)
      (self : ReplicatedStore Ring) (self_url : Bytes) (w : Cluster Db) where
    -- The member's server has an entry at least as new as the timestamp.
    abbrev pub member_is_current : MemberInfo → Bool
    member_is_current m = is_current laws coding key ts (w.node (place m)).store

    pub reads-IsFaithful :
        IsFaithful ring_api
          (world t api stored hinted self_url)
          api
          stored
          tasks
          self
          key
          ts
          (is_addressed self.self_id self_url)
          member_is_current
          (IsFrozen w)
    unfolding read_task
    reads-IsFaithful = record {
      keep = λ m w' f. elim (Bool-cases (bytes_eq m.id self.self_id)) [
        | inl own ↦ rw own f
        | inr peer ↦ rw peer (remote-IsFrozen (with_http (internal_base_url m)) w w' f)
      ];
      answers = λ m w' f a c. elim (Bool-cases (bytes_eq m.id self.self_id)) [
        | inl own ↦
            let here : place m ≡ self_url =
              bytes_eq→eq (place m) self_url (ground (arith, own, a)) in
            rw own (
              get-is_current laws coding key ts (w'.node self_url).store
                (rw (f self_url, ← here) c))
        | inr peer ↦
            rw peer (remote-is_current (with_http (internal_base_url m)) w' (rw (f (place m)) c))
      ];
    }

-- Suppose that a read of a key succeeds, for a key that stands in a URL's path as it is, and that
-- the coordinator's own member, if it is preferred for the key, has the coordinator's URL. If, when
-- the read starts, the servers of at least `w` of the key's preferred members have in their local
-- stores an entry at least as new as `ts`, and `w + r > n`, then the read finds a value, and that
-- value is at least as new as `ts`: whatever messages are lost, in whatever order the tasks run and
-- whichever of them panic.
pub read_quorum :
    {Ring Db : Type 0} {t : Transport} {is_plain : Bytes → Bool} (routing : IsTransport t is_plain)
    {api : Database Db} {stored : Bincode StoredEntry} (hinted : Bincode HintEntry)
    (laws : IsDatabase api) (coding : IsBincode stored) {tasks : JoinSet MemberInfo ReadResult}
    (joining : IsJoinSet tasks) (self : ReplicatedStore Ring) (self_url key : Bytes) (ts quorum : ℕ)
    (ring_api : HashRing Ring) (pref_list : List MemberInfo) (w : Cluster Db)
    (found : Option VersionedValue) (repairs : List Repair)
    → preference_list_for_key ring_api self.ring key self.n ≡ ok pref_list
    → is_plain key ≡ true
    → All (λ m. is_addressed self.self_id self_url m ≡ true) pref_list
    → quorum ≤ count (λ m. is_current laws coding key ts (w.node (place m)).store) pref_list
    → self.n < quorum + self.r
    → (get ring_api (world t api stored hinted self_url) api stored tasks self key w).0
      ≡ ok (found, repairs)
    → (v : VersionedValue) × (found ≡ some v) × (ts ≤ v.timestamp)
unfolding get
read_quorum routing hinted laws coding {tasks = tasks} joining self self_url key ts quorum ring_api
      pref_list w found repairs p plain addressed enough overlap e =
    read_members-recent
      (reads-IsFaithful routing hinted laws coding key ts plain ring_api tasks self self_url w)
      joining pref_list w found repairs (λ u. refl) addressed
      (omega
        (arith, enough, overlap, length-preference_list ring_api self.ring key self.n pref_list p))
      (rw p at e)
