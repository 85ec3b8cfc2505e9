-- ===== src/Network/Strict.antt =====
-- `ReplicatedStore::put` and then `ReplicatedStore::get` (src/coordinator/mod.rs) on one cluster.
use diynamo.Base.{
  ℕ, ◌+◌, ◌≤◌, ◌<◌, Bytes, Bool, true, ok, ◌≡◌, refl, List, [], ◌∷◌, length, All, Bool-cases, inl,
  inr, ltb, arith, Option, some,
}
use diynamo.Base.Bags.{count, SubBag}
use diynamo.Cluster.Types.{MemberInfo}
use diynamo.Cluster.Ring.{HashRing, ring_order_for_key, preference_list_for_key}
use diynamo.Store.{VersionedValue}
use diynamo.Store.Database.{Database, IsDatabase, Bincode, IsBincode}
use diynamo.Store.RocksdbStore.{StoredEntry}
use diynamo.Store.Hints.{HintEntry}
use diynamo.Coordinator.{ReplicatedStore, JoinSet}
use diynamo.Coordinator.Put.{WriteResult, slice_and_write, put}
use diynamo.Coordinator.Put.Results.{IsJoinSet}
use diynamo.Coordinator.Put.Strict.{strict_holders}
use diynamo.Coordinator.Get.{ReadResult, Repair, get}
use diynamo.Network.{Transport, IsTransport, Cluster, world, count_message}
use diynamo.Network.Holds.{StoreHolds, InStore, StoreHolds-put_if_newer}
use diynamo.Network.Holds.Durable.{place, is_addressed, Accepts, Writes-cluster}
use diynamo.Network.Holds.Replicas.{put_versioned-InStore}
use diynamo.Network.Holds.Sent.{Holds}
use diynamo.Network.Reads.{is_current, read_quorum}
use diynamo.Network.Steps.{Reaches, Reaches-StoreHolds, StoreHolds-is_current}

count-All :
    {A : Type 0} (p : A → Bool) (xs : List A) → All (λ x. p x ≡ true) xs → count p xs ≡ length xs
unfolding count
count-All p [] a = refl
count-All p (x ∷ xs) a = rw a.0 (omega (arith, count-All p xs a.1))

All-map :
    {A : Type 0} {P Q : A → Type 0} (f : (x : A) → P x → Q x) (xs : List A) → All P xs → All Q xs
All-map f [] a = tt
All-map f (x ∷ xs) a = (f x a.0, All-map f xs a.1)

module _ {Ring Db : Type 0} {t : Transport} {is_plain : Bytes → Bool}
    (routing : IsTransport t is_plain) {api : Database Db} {stored : Bincode StoredEntry}
    {hinted : Bincode HintEntry} (laws : IsDatabase api) (coding : IsBincode stored)
    (hint_coding : IsBincode hinted) {tasks : JoinSet MemberInfo WriteResult}
    (joining : IsJoinSet tasks) (self : ReplicatedStore Ring) (self_url key value : Bytes) where
  InStore-Accepts :
      (ts : ℕ)
      → Accepts routing api stored hinted
          (InStore laws coding hint_coding key value ts)
          key
          value
          ts
  InStore-Accepts ts = record {
    stores = λ n db e. StoreHolds-put_if_newer laws coding hint_coding key value ts n.store db e;
    versioned = put_versioned-InStore routing laws coding hint_coding key value ts;
  }

  -- The members whose local stores are current after a `put` without candidates for hints.
  strict_put_holders :
      (ring_api : HashRing Ring) (all : List MemberInfo) (w : Cluster Db)
      → ring_order_for_key ring_api self.ring key ≡ ok all
      → length all ≤ self.n
      → is_plain key ≡ true
      → All (λ m. is_addressed self.self_id self_url m ≡ true) all
      → (put (world t api stored hinted self_url) api stored tasks self key value ring_api w).0
        ≡ ok tt
      → (ms : List MemberInfo) × SubBag ms all
        × (self.w ≤ length ms)
        × All
            (λ m.
              StoreHolds laws coding hint_coding key value
                (t.clock w.messages)
                ((put
                    (world t api stored hinted self_url)
                    api
                    stored
                    tasks
                    self
                    key
                    value
                    ring_api
                    w).1.node
                  (place m)).store)
            ms
  unfolding put slice_and_write
  strict_put_holders ring_api all w order small plain addressed e =
      elim (Bool-cases (ltb (length all) self.n)) [
        | inl short ↦ cc (rw (order, short) at e)
        | inr long ↦
            rw (order, long)
              (unfold Holds in
                strict_holders joining self
                  (Writes-cluster (InStore-Accepts (t.clock w.messages)) self.self_id self_url
                    plain)
                  all (count_message w) small addressed (rw (order, long) at e))
      ]

-- Suppose that a coordinator's `put` reports success for a key whose ring order has no more members
-- than `n`, so that all of them are preferred and none is left to take a hint, and that afterwards
-- some coordinator's `get` of the key succeeds, with the same members preferred, and `w + r > n`
-- for the writer's `w` and the reader's `r` and `n`. Between the two, servers may answer any calls
-- whose writes carry timestamps, coordinators and hand-offs may write to their own stores, and
-- hints and flags may change. Then the read finds a value that is at least as new as the write,
-- whatever messages were lost and in whatever order the tasks ran. The key is to stand in a URL's
-- path as it is, and each coordinator's own member to have the coordinator's URL.
pub write_then_read :
    {Ring Db : Type 0} {t : Transport} {is_plain : Bytes → Bool} (routing : IsTransport t is_plain)
    {api : Database Db} {stored : Bincode StoredEntry} {hinted : Bincode HintEntry}
    (laws : IsDatabase api) (coding : IsBincode stored) (hint_coding : IsBincode hinted)
    {writes : JoinSet MemberInfo WriteResult} {reads : JoinSet MemberInfo ReadResult}
    (joining_writes : IsJoinSet writes) (joining_reads : IsJoinSet reads) (ring_api : HashRing Ring)
    (writer reader : ReplicatedStore Ring) (writer_url reader_url key value : Bytes)
    (all : List MemberInfo) (before after : Cluster Db) (found : Option VersionedValue)
    (repairs : List Repair)
    → is_plain key ≡ true
    → ring_order_for_key ring_api writer.ring key ≡ ok all
    → length all ≤ writer.n
    → All (λ m. is_addressed writer.self_id writer_url m ≡ true) all
    → (put
        (world t api stored hinted writer_url)
        api
        stored
        writes
        writer
        key
        value
        ring_api
        before).0
      ≡ ok tt
    → Reaches t api stored hinted
        (put
          (world t api stored hinted writer_url)
          api
          stored
          writes
          writer
          key
          value
          ring_api
          before).1
        after
    → preference_list_for_key ring_api reader.ring key reader.n ≡ ok all
    → All (λ m. is_addressed reader.self_id reader_url m ≡ true) all
    → reader.n < writer.w + reader.r
    → (get ring_api (world t api stored hinted reader_url) api stored reads reader key after).0
      ≡ ok (found, repairs)
    → (v : VersionedValue) × (found ≡ some v) × (t.clock before.messages ≤ v.timestamp)
write_then_read {t = t} routing {hinted = hinted} laws coding hint_coding joining_writes
      joining_reads ring_api writer reader writer_url reader_url key value all before after found
      repairs plain order small addressed written r p addressed' overlap e =
    let ts = t.clock before.messages in
    let (ms, sub, len, held) =
      strict_put_holders routing laws coding hint_coding joining_writes writer writer_url key value
        ring_api all before order small plain addressed written in
    let current = λ (m : MemberInfo). is_current laws coding key ts (after.node (place m)).store in
    let held' : All (λ m. current m ≡ true) ms =
      All-map
        (λ m h.
          StoreHolds-is_current laws coding hint_coding key value ts (after.node (place m)).store
            (Reaches-StoreHolds t laws coding hint_coding key value ts _ after (place m) r h))
        ms held in
    read_quorum routing hinted laws coding joining_reads reader reader_url key ts writer.w ring_api
      all after found repairs p plain addressed'
      (omega (arith, sub current, count-All current ms held', len)) overlap e
