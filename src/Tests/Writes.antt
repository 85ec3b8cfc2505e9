-- ===== src/Tests/Writes.antt =====
-- A write of which one message is lost: it succeeds with a hint.
use diynamo.Base.{
  ℕ, err, quorum_failed, ◌⊎◌, ◌↔◌, true, false, ◌≤◌, Bytes, contains, codes, bytes_eq, some, List,
  [], ◌∷◌, ◌≡◌, refl, map, ap, arith, length, All,
}
use diynamo.Base.Bags.{SubBag}
use diynamo.Base.Dict.{get}
use diynamo.Base.Utf8.{is_utf8, decimal_u16}
use diynamo.Cluster.Types.{MemberInfo, base_url, internal_base_url, http_base_url}
use diynamo.Cluster.Ring.{member_for, collect_members, owners_of, refuse_empty, ring_order_for_key}
use diynamo.Client.{
  with_http, put_internal_versioned_bytes, send_with, check_status, hint_url,
  internal_kv_versioned_url, put_hint_versioned_bytes, put_request,
}
use diynamo.Store.Database.Ordered.{lookup, insert}
use diynamo.Store.RocksdbStore.{put_if_newer}
use diynamo.Store.Hints.{hint_key, store_hint}
use diynamo.Store.Memory.{Memory, empty, memory, memory-IsDatabase}
use diynamo.Server.{failed, no_faults, put_hint_internal, put_kv_internal_versioned, written}
use diynamo.Coordinator.{ReplicatedStore, JoinSet}
use diynamo.Coordinator.Put.{
  contains_id, count_results, write_task, local_write, remote_write, run_tasks, hint_slots,
  hint_write, try_candidates, check_quorum, replicate_write, slice_and_write, put,
}
use diynamo.Coordinator.Put.Live.{NoPanic}
use diynamo.Coordinator.Put.Results.{joined_results, IsJoinSet}
use diynamo.Network.{
  Cluster, world, count_message, send, transmit, dispatch, serve, set_node, status_response,
}
use diynamo.Network.Holds.{NodeHolds}
use diynamo.Network.Holds.Durable.{place}
use diynamo.Network.Puts.{put_durable, put_kv_durable}
use diynamo.Server.Public.{put_kv, put_status, put_kv-unavailable_iff}
use diynamo.Tests.Fixtures.{
  stored_codec, stored_codec-IsBincode, hint_codec, hint_codec-IsBincode, listed, members, ring_of,
}
use diynamo.Tests.Routes.{route, second_lost, transport, transport-IsTransport}

-- Tasks act and are joined in the order in which they were spawned.
abbrev pub in_order : {R : Type 0} → JoinSet MemberInfo R
in_order = record { schedule = λ ts. ts; joined = map some }

-- The coordinator is the first member.
abbrev self : ReplicatedStore (List Bytes)
self = record { self_id = codes "a"; ring = ring_of 2; n = 2; w = 2; r = 2 }

abbrev pub url : Bytes
url = codes "http://h:1"

abbrev pub cluster : Cluster Memory
cluster = record {
  node = λ u. record { store = empty; hints = empty; faults = no_faults };
  messages = 0;
}

pub joined_results-some : {R : Type 0} (rs : List R) → joined_results (map some rs) ≡ rs
unfolding joined_results
joined_results-some [] = refl
joined_results-some (r ∷ rs) = ap (◌∷◌ r) (joined_results-some rs)

pub in_order-IsJoinSet : {R : Type 0} → IsJoinSet (in_order {R = R})
in_order-IsJoinSet = record {
  schedule_lem = λ ts p. refl;
  joined_lem = λ rs p. rw (joined_results-some rs) (omega arith);
}

pub in_order-NoPanic : {R : Type 0} → NoPanic (in_order {R = R})
in_order-NoPanic rs p = rw (joined_results-some rs) refl

put_durable_example :
    (ms : List MemberInfo) × SubBag ms members
    × (2 ≤ length ms)
    × All
        (λ m.
          NodeHolds memory-IsDatabase stored_codec-IsBincode hint_codec-IsBincode
            (codes "k")
            (codes "y")
            5
            ((put
                (world transport memory stored_codec hint_codec url)
                memory
                stored_codec
                in_order
                self
                (codes "k")
                (codes "y")
                listed
                cluster).1.node
              (place m)))
        ms
unfolding ring_order_for_key owners_of refuse_empty collect_members member_for get is_utf8 bytes_eq
    internal_base_url with_http base_url decimal_u16 put slice_and_write replicate_write
    check_quorum count_results run_tasks write_task local_write put_if_newer lookup insert
    count_message remote_write put_internal_versioned_bytes send_with send transmit second_lost
    contains check_status hint_url internal_kv_versioned_url put_hint_versioned_bytes put_request
    http_base_url contains_id hint_slots hint_write try_candidates dispatch serve set_node
    status_response put_hint_internal put_kv_internal_versioned written hint_key store_hint route
put_durable_example =
    put_durable transport-IsTransport memory-IsDatabase stored_codec-IsBincode hint_codec-IsBincode
      in_order-IsJoinSet self url (codes "k") (codes "y") listed members cluster refl refl
      (refl, (refl, (refl, tt))) (refl, (refl, (refl, tt))) refl

put_kv_durable_example :
    (ms : List MemberInfo) × SubBag ms members
    × (2 ≤ length ms)
    × All
        (λ m.
          NodeHolds memory-IsDatabase stored_codec-IsBincode hint_codec-IsBincode
            (codes "k")
            (codes "y")
            5
            ((put_kv listed
                (world transport memory stored_codec hint_codec url)
                memory
                stored_codec
                self
                in_order
                no_faults
                (codes "k")
                (record { value = codes "y" })
                cluster).1.node
              (place m)))
        ms
unfolding ring_order_for_key owners_of refuse_empty collect_members member_for get is_utf8 bytes_eq
    internal_base_url with_http base_url decimal_u16 put put_kv put_status slice_and_write
    replicate_write check_quorum count_results run_tasks write_task local_write put_if_newer lookup
    insert count_message remote_write put_internal_versioned_bytes send_with send transmit
    second_lost contains check_status hint_url internal_kv_versioned_url put_hint_versioned_bytes
    put_request http_base_url contains_id hint_slots hint_write try_candidates dispatch serve
    set_node status_response put_hint_internal put_kv_internal_versioned written hint_key store_hint
    route
put_kv_durable_example =
    put_kv_durable transport-IsTransport memory-IsDatabase stored_codec-IsBincode
      hint_codec-IsBincode in_order-IsJoinSet self url (codes "k") (codes "y") listed members
      no_faults 200 cluster refl refl (refl, (refl, (refl, tt))) (refl, (refl, (refl, tt))) refl

put_kv-unavailable_iff_example :
    ((put_kv listed
        (world transport memory stored_codec hint_codec url)
        memory
        stored_codec
        self
        in_order
        no_faults
        (codes "k")
        (record { value = codes "y" })
        cluster).0
      ≡ failed 503)
    ↔ ((false ≡ true)
        ⊎ ((acks : ℕ) × (required : ℕ) × ((put
                (world transport memory stored_codec hint_codec url)
                memory
                stored_codec
                in_order
                self
                (codes "k")
                (codes "y")
                listed
                cluster).0
              ≡ err (quorum_failed acks required))))
put_kv-unavailable_iff_example =
    put_kv-unavailable_iff listed (world transport memory stored_codec hint_codec url) memory
      stored_codec self in_order no_faults (codes "k") (record { value = codes "y" }) cluster
