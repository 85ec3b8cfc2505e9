-- ===== src/Tests/Quorums.antt =====
-- A write to two members, and the read behind it, of which one message is lost.
use diynamo.Base.{
  Result, ◌≤◌, Bytes, contains, codes, bytes_eq, some, List, [], ◌∷◌, ◌≡◌, refl, arith, take, ℕ,
}
use diynamo.Base.Bags.{count}
use diynamo.Base.Dict.{get}
use diynamo.Base.Utf8.{is_utf8, decimal_u16}
use diynamo.Cluster.Types.{MemberInfo, base_url, internal_base_url, http_base_url}
use diynamo.Cluster.Ring.{
  member_for, collect_members, owners_of, refuse_empty, ring_order_for_key, preference_list_for_key,
}
use diynamo.Client.{
  with_http, put_internal_versioned_bytes, send_with, check_status, internal_kv_versioned_url,
  put_request, get_internal_versioned, get_request, internal_kv_url,
}
use diynamo.Store.{VersionedValue}
use diynamo.Store.Database.Ordered.{lookup, insert}
use diynamo.Store.RocksdbStore.{put_if_newer}
use diynamo.Store.RocksdbStore
use diynamo.Store.RocksdbStore.Lww.{view, decoded}
use diynamo.Store.Memory.{Memory, memory, memory-IsDatabase}
use diynamo.Server.{put_kv_internal_versioned, written}
use diynamo.Coordinator.{ReplicatedStore, World}
use diynamo.Coordinator.Put.Outcomes.{acknowledgements}
use diynamo.Coordinator.Put.{
  contains_id, count_results, write_task, local_write, remote_write, run_tasks, hint_slots,
  hint_write, try_candidates, check_quorum, replicate_write, slice_and_write, put,
}
use diynamo.Coordinator.Get as Get
use diynamo.Coordinator.Get.{
  ReadResult, Repair, read_task, run_reads, read_members, collect_responses, resolve_read,
  winner_of, present, max_of, max_by_timestamp, spawn_repairs, repairs_for, needs_repair,
}
use diynamo.Coordinator.Get.Quorum.{is_recent}
use diynamo.Network.{
  Cluster, world, count_message, send, transmit, dispatch, serve, set_node, status_response,
}
use diynamo.Network.Reads.{is_current, read_quorum}
use diynamo.Network.Steps.{now}
use diynamo.Network.Strict.{write_then_read}
use diynamo.Tests.Fixtures.{
  stored_codec, stored_codec-IsBincode, hint_codec, hint_codec-IsBincode, listed, members, ring_of,
}
use diynamo.Tests.Routes.{route, later_lost, early_transport, early_transport-IsTransport}
use diynamo.Tests.Writes.{in_order, in_order-IsJoinSet, cluster, url}

abbrev two : List MemberInfo
two = take 2 members

abbrev pair : ReplicatedStore (List Bytes)
pair = record {
  self_id = codes "a";
  ring = record (ring_of 2) { ring = codes "a" ∷ codes "b" ∷ [] };
  n = 2;
  w = 2;
  r = 1;
}

abbrev written_cluster : Cluster Memory
written_cluster =
    (put (world early_transport memory stored_codec hint_codec url) memory stored_codec in_order
      pair (codes "k") (codes "y") listed cluster).1

write_then_read_example :
    (v : VersionedValue) × (some (record { timestamp = 5; data' = codes "y" }) ≡ some v)
    × (5 ≤ v.timestamp)
unfolding ring_order_for_key preference_list_for_key owners_of refuse_empty collect_members
    member_for get is_utf8 bytes_eq internal_base_url with_http base_url decimal_u16 put
    slice_and_write replicate_write check_quorum count_results run_tasks write_task local_write
    put_if_newer lookup insert count_message remote_write put_internal_versioned_bytes send_with
    send transmit later_lost contains check_status internal_kv_versioned_url put_request
    http_base_url contains_id hint_slots hint_write try_candidates dispatch serve set_node
    status_response put_kv_internal_versioned written route Get.get read_task run_reads read_members
    collect_responses resolve_read winner_of present max_of max_by_timestamp spawn_repairs
    repairs_for needs_repair RocksdbStore.get get_internal_versioned get_request internal_kv_url
write_then_read_example =
    write_then_read early_transport-IsTransport memory-IsDatabase stored_codec-IsBincode
      hint_codec-IsBincode in_order-IsJoinSet in_order-IsJoinSet listed pair pair url url
      (codes "k") (codes "y") two cluster written_cluster
      (some (record { timestamp = 5; data' = codes "y" })) [] refl refl (omega arith)
      (refl, (refl, tt)) refl now refl (refl, (refl, tt)) (omega arith) refl

read_quorum_example :
    (v : VersionedValue) × (some (record { timestamp = 5; data' = codes "y" }) ≡ some v)
    × (5 ≤ v.timestamp)
unfolding ring_order_for_key preference_list_for_key owners_of refuse_empty collect_members
    member_for get is_utf8 bytes_eq internal_base_url with_http base_url decimal_u16 put
    slice_and_write replicate_write check_quorum count_results run_tasks write_task local_write
    put_if_newer lookup insert count_message remote_write put_internal_versioned_bytes send_with
    send transmit later_lost contains check_status internal_kv_versioned_url put_request
    http_base_url contains_id hint_slots hint_write try_candidates dispatch serve set_node
    status_response put_kv_internal_versioned written route Get.get read_task run_reads read_members
    collect_responses resolve_read winner_of present max_of max_by_timestamp spawn_repairs
    repairs_for needs_repair RocksdbStore.get get_internal_versioned get_request internal_kv_url
    is_current is_recent view decoded count memory-IsDatabase
read_quorum_example =
    read_quorum early_transport-IsTransport hint_codec memory-IsDatabase stored_codec-IsBincode
      in_order-IsJoinSet pair url (codes "k") 5 2 listed two written_cluster
      (some (record { timestamp = 5; data' = codes "y" })) [] refl refl (refl, (refl, tt))
      (omega arith) (omega arith) refl

abbrev network : World Memory (Cluster Memory)
network = world early_transport memory stored_codec hint_codec url

abbrev outcome : Result (Unit {0})
outcome = (put network memory stored_codec in_order pair (codes "k") (codes "y") listed cluster).0

abbrev acks : ℕ
acks =
    acknowledgements network memory stored_codec in_order pair (codes "k") (codes "y")
      (network.now_millis cluster).0 two (network.now_millis cluster).1
