-- ===== src/Tests/Liveness.antt =====
-- A write that succeeds while one of three servers is down.
use diynamo.Base.{
  ok, Bytes, codes, bytes_eq, not, List, [], none, some, ◌∷◌, ◌≡◌, ◌⊎◌, inl, inr, refl, arith,
  if◌then◌else◌,
}
use diynamo.Base.Bags.{count}
use diynamo.Base.Dict.{get}
use diynamo.Base.Utf8.{is_utf8, decimal_u16}
use diynamo.Cluster.Types.{base_url, internal_base_url, http_base_url}
use diynamo.Client.{with_http}
use diynamo.Cluster.Ring.{member_for, collect_members, owners_of, refuse_empty, ring_order_for_key}
use diynamo.Store.Database.Ordered.{lookup, insert, insert-IsSorted}
use diynamo.Store.RocksdbStore.{put_if_newer}
use diynamo.Store.Memory.{Memory, empty, memory}
use diynamo.Server.{no_faults, kill_http}
use diynamo.Coordinator.{ReplicatedStore}
use diynamo.Coordinator.Put.{put}
use diynamo.Network.{Cluster, world}
use diynamo.Network.Live.{Takes, put_succeeds}
use diynamo.Tests.Fixtures.{stored_codec, hint_codec, listed, members, ring_of}
use diynamo.Tests.Routes.{healthy, healthy-IsTransport}
use diynamo.Tests.Writes.{in_order, in_order-IsJoinSet, in_order-NoPanic, url}

abbrev third : Bytes
third = codes "http://h:3"

abbrev two_up : Cluster Memory
two_up = record {
  node = λ u. record {
    store = empty;
    hints = empty;
    faults = if bytes_eq third u then kill_http no_faults else no_faults;
  };
  messages = 0;
}

abbrev self : ReplicatedStore (List Bytes)
self = record { self_id = codes "a"; ring = ring_of 3; n = 3; w = 2; r = 2 }

-- Empty, or with the write.
abbrev Ready : Memory → Type 0
Ready db = (db.items ≡ []) ⊎ (db.items ≡ (codes "k", 5 ∷ codes "y") ∷ [])

takes : Takes memory stored_codec (codes "k") (codes "y") 5 Ready
unfolding put_if_newer lookup insert bytes_eq
takes db (inl e) =
    let absent : lookup (codes "k") db.items ≡ none = rw e refl in
    (
      record {
        items = insert (codes "k") (5 ∷ codes "y") db.items;
        sorted = insert-IsSorted (codes "k") (5 ∷ codes "y") db.items db.sorted;
      },
      rw absent refl,
      inr (rw e refl),
    )
takes db (inr e) =
    let present : lookup (codes "k") db.items ≡ some (5 ∷ codes "y") = rw e refl in
    (db, rw present refl, inr e)

put_succeeds_example :
    (put
      (world healthy memory stored_codec hint_codec url)
      memory
      stored_codec
      in_order
      self
      (codes "k")
      (codes "y")
      listed
      two_up).0
    ≡ ok tt
unfolding ring_order_for_key owners_of refuse_empty collect_members member_for get is_utf8 bytes_eq
    internal_base_url with_http base_url decimal_u16 http_base_url count
put_succeeds_example =
    put_succeeds healthy-IsTransport memory stored_codec hint_codec in_order-IsJoinSet
      in_order-NoPanic self url (codes "k") (codes "y") listed members two_up Ready
      (λ u. not (bytes_eq third u)) (λ n. refl) refl refl refl takes refl (omega arith)
      (refl, (refl, (refl, tt))) (λ u h. (ground (arith, h), inl refl)) (omega arith)
