-- ===== src/Network/Runs/Sessions.antt =====
-- A client's write and a later read through the public handlers of src/server/mod.rs.
use diynamo.Base.{
  ℕ, ◌+◌, ◌≤◌, ◌<◌, Bytes, Bool, true, Error, quorum_failed, message, panicked, Result, ok, err,
  Result-cases, Option, some, List, ◌≡◌, refl, arith, length, All, Bool-cases, inl, inr, ◌≢◌, subst,
}
use diynamo.Base.Utf8.{is_utf8}
use diynamo.Api.{PutBody, GetResponse, status_not_found}
use diynamo.Cluster.Types.{MemberInfo}
use diynamo.Cluster.Ring.{HashRing, ring_order_for_key, preference_list_for_key}
use diynamo.Server.{FaultFlags, Handled, answered, failed, map_store_error, get_response}
use diynamo.Server.Public.{put_status, get_answer, put_kv, get_kv}
use diynamo.Store.{VersionedValue}
use diynamo.Store.Database.{Database, IsDatabase, Bincode, IsBincode}
use diynamo.Store.RocksdbStore.{StoredEntry}
use diynamo.Store.Hints.{HintEntry}
use diynamo.Coordinator.{ReplicatedStore, JoinSet, World}
use diynamo.Coordinator.Put.Results.{IsJoinSet}
use diynamo.Coordinator.Put.{WriteResult}
use diynamo.Coordinator.Put
use diynamo.Coordinator.Get.{ReadResult, Repair}
use diynamo.Coordinator.Get
use diynamo.Network.{Transport, IsTransport, Cluster, world}
use diynamo.Network.Holds.Durable.{is_addressed}
use diynamo.Network.Steps.{Reaches}
use diynamo.Network.Strict.{write_then_read}

-- The answer to a read is no older than the timestamp: it is not "not found", and a value comes with at least
-- this timestamp. Any other failure is allowed.
pub record IsFresh (ts : ℕ) (answer : Handled GetResponse) : Type 0 where
  pub exists : answer ≢ failed status_not_found
  pub recent : (body : GetResponse) → answer ≡ answered body → ts ≤ body.timestamp

failed-IsFresh : (ts : ℕ) (status : ℕ) → 500 ≤ status → IsFresh ts (failed status)
failed-IsFresh ts status h = record {
  exists = λ e. absurd (ground (arith, e, h));
  recent = λ body e. cc;
}

map_store_error-IsFresh : (ts : ℕ) (e : Error) → IsFresh ts (failed (map_store_error e))
unfolding map_store_error
map_store_error-IsFresh ts (quorum_failed a b) = failed-IsFresh ts 503 (omega arith)
map_store_error-IsFresh ts (message m) = failed-IsFresh ts 500 (omega arith)
map_store_error-IsFresh ts (panicked m) = failed-IsFresh ts 500 (omega arith)

get_response-IsFresh :
    (ts : ℕ) (v : VersionedValue) → ts ≤ v.timestamp → IsFresh ts (get_response (some v))
unfolding get_response
get_response-IsFresh ts v h = elim (Bool-cases (is_utf8 v.data')) [
  | inl text ↦ rw text (record { exists = λ e. cc; recent = λ body e. ground (arith, e, h) })
  | inr binary ↦ rw binary (failed-IsFresh ts 500 (omega arith))
]

get_answer-IsFresh :
    (ts : ℕ) (r : Result (Option VersionedValue × List Repair))
    → ((found : Option VersionedValue) (repairs : List Repair)
        → r ≡ ok (found, repairs)
        → (v : VersionedValue) × (found ≡ some v) × (ts ≤ v.timestamp))
    → IsFresh ts (get_answer r).0
unfolding get_answer
get_answer-IsFresh ts (err e) h = map_store_error-IsFresh ts e
get_answer-IsFresh ts (ok (found, repairs)) h =
    let (v, e, le) = h found repairs refl in rw e (get_response-IsFresh ts v le)

-- A write that is answered has succeeded, and the handler did what the coordinator did.
put_kv-put :
    {Ring Db W : Type 0} (ring_api : HashRing Ring) (w : World Db W) (api : Database Db)
    (codec : Bincode StoredEntry) (self : ReplicatedStore Ring)
    (tasks : JoinSet MemberInfo WriteResult) (flags : FaultFlags) (key : Bytes) (body : PutBody)
    (s : W) (status : ℕ)
    → (put_kv ring_api w api codec self tasks flags key body s).0 ≡ answered status
    → ((Put.put w api codec tasks self key body.value ring_api s).0 ≡ ok tt)
      × ((put_kv ring_api w api codec self tasks flags key body s).1
          ≡ (Put.put w api codec tasks self key body.value ring_api s).1)
unfolding put_kv put_status
put_kv-put ring_api w api codec self tasks flags key body s status h =
    elim (Bool-cases flags.block_public) [
      | inl blocked ↦ cc (rw blocked at h)
      | inr open_node ↦
          elim (Result-cases (Put.put w api codec tasks self key body.value ring_api s).0) [
            | inl (u, e) ↦ rw (open_node, e) (refl, refl)
            | inr (x, e) ↦ cc (rw (open_node, e) at h)
          ]
    ]

-- Suppose that a client's write is answered, of a key whose ring order has no more members than the
-- writer's `n`, so that all of them are preferred. Then whatever steps the servers of the cluster take
-- afterwards, in any order and with any messages lost, a client's read of the key through any node is
-- not answered "not found", and a value that it is answered has a timestamp no older than the write's,
-- if the same members are preferred for the reader and `w + r > n` for the writer's `w` and the
-- reader's `r` and `n`. A step handles one message whose writes carry timestamps, makes one
-- `put_if_newer` on some server's own store, or changes hints or flags; a `put_if_newer` is one step,
-- its read and its write with none between them. Keys and ids are to stand in a URL's path as they
-- are, and each coordinator's own member is to have the coordinator's URL.
pub put_kv-get_kv :
    {Ring Db : Type 0} {t : Transport} {is_plain : Bytes → Bool} (routing : IsTransport t is_plain)
    {api : Database Db} {stored : Bincode StoredEntry} {hinted : Bincode HintEntry}
    (laws : IsDatabase api) (coding : IsBincode stored) (hint_coding : IsBincode hinted)
    {writes : JoinSet MemberInfo WriteResult} {reads : JoinSet MemberInfo ReadResult}
    (joining_writes : IsJoinSet writes) (joining_reads : IsJoinSet reads) (ring_api : HashRing Ring)
    (writer reader : ReplicatedStore Ring) (writer_url reader_url key : Bytes) (body : PutBody)
    (writer_flags reader_flags : FaultFlags) (all : List MemberInfo) (before after : Cluster Db)
    (status : ℕ)
    → is_plain key ≡ true
    → ring_order_for_key ring_api writer.ring key ≡ ok all
    → length all ≤ writer.n
    → All (λ m. is_addressed writer.self_id writer_url m ≡ true) all
    → (put_kv ring_api
        (world t api stored hinted writer_url)
        api
        stored
        writer
        writes
        writer_flags
        key
        body
        before).0
      ≡ answered status
    → Reaches t api stored hinted
        (put_kv ring_api
          (world t api stored hinted writer_url)
          api
          stored
          writer
          writes
          writer_flags
          key
          body
          before).1
        after
    → preference_list_for_key ring_api reader.ring key reader.n ≡ ok all
    → All (λ m. is_addressed reader.self_id reader_url m ≡ true) all
    → reader.n < writer.w + reader.r
    → IsFresh
        (t.clock before.messages)
        (get_kv ring_api
          (world t api stored hinted reader_url)
          api
          stored
          reader
          reads
          reader_flags
          key
          after).0.0
unfolding get_kv
put_kv-get_kv {t = t} routing {api = api} {stored = stored} {hinted = hinted} laws coding
      hint_coding {writes = writes} {reads = reads} joining_writes joining_reads ring_api writer
      reader writer_url reader_url key body writer_flags reader_flags all before after status plain
      order small addressed written steps p addressed' overlap =
    let ts = t.clock before.messages in
    let (done, same) =
      put_kv-put ring_api (world t api stored hinted writer_url) api stored writer writes
        writer_flags key body before status written in
    let since = subst (λ w. Reaches t api stored hinted w after) same steps in
    elim (Bool-cases reader_flags.block_public) [
      | inl blocked ↦ rw blocked (failed-IsFresh ts 503 (omega arith))
      | inr open_node ↦ rw open_node (
          get_answer-IsFresh ts
            (Get.get ring_api (world t api stored hinted reader_url) api stored reads reader key
              after).0
            (λ found repairs e.
              write_then_read routing laws coding hint_coding joining_writes joining_reads ring_api
                writer reader writer_url reader_url key body.value all before after found repairs
                plain order small addressed done since p addressed' overlap e))
    ]
