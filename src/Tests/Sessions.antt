-- ===== src/Tests/Sessions.antt =====
-- A client's write, a read, a delivery round, and a client's read behind them.
use diynamo.Server.Public.{put_kv, put_status, get_kv}
use diynamo.Server.{no_faults}
use diynamo.Network.Runs.{starts, gets, delivers, hand_over, Runs-Reaches}
use diynamo.Network.Runs.Sessions.{IsFresh, put_kv-get_kv}
use diynamo.Cluster.Membership.{Memberlist, all_joined}
use diynamo.Store.Hints.{hints_for_node, scan}
use diynamo.Store.Database.Ordered.{seek}
use diynamo.Base.{true, Bytes, contains, codes, bytes_eq, List, [], ◌∷◌, refl, arith, take, ℕ, ok}
use diynamo.Base.Dict.{get}
use diynamo.Base.Utf8.{is_utf8, decimal_u16}
use diynamo.Cluster.Types.{MemberInfo, base_url, internal_base_url, http_base_url}
use diynamo.Cluster.Ring.{
  member_for, collect_members, owners_of, refuse_empty, ring_order_for_key, preference_list_for_key,
}
use diynamo.Client.{
  with_http, put_internal_versioned_bytes, send_with, check_status, internal_kv_versioned_url,
  put_request, get_internal_versioned, get_request, internal_kv_url,
}
use diynamo.Store.Database.Ordered.{lookup, insert}
use diynamo.Store.RocksdbStore.{put_if_newer}
use diynamo.Store.RocksdbStore
use diynamo.Store.Memory.{Memory, memory, memory-IsDatabase}
use diynamo.Server.{put_kv_internal_versioned, written}
use diynamo.Coordinator.{ReplicatedStore}
use diynamo.Coordinator.Put.{
  contains_id, count_results, write_task, local_write, remote_write, run_tasks, hint_slots,
  hint_write, try_candidates, check_quorum, replicate_write, slice_and_write, put,
}
use diynamo.Coordinator.Get as Get
use diynamo.Coordinator.Get.{
  ReadResult, Repair, read_task, run_reads, read_members, collect_responses, resolve_read,
  winner_of, present, max_of, max_by_timestamp, spawn_repairs, repairs_for, needs_repair,
}
use diynamo.Network.{
  Cluster, world, count_message, send, transmit, dispatch, serve, set_node, status_response,
}
use diynamo.Network.Steps.{Reaches}
use diynamo.Tests.Fixtures.{
  stored_codec, stored_codec-IsBincode, hint_codec, hint_codec-IsBincode, listed, members, ring_of,
}
use diynamo.Tests.Routes.{route, later_lost, early_transport, early_transport-IsTransport}
use diynamo.Tests.Writes.{in_order, in_order-IsJoinSet, cluster, url}

abbrev two : List MemberInfo
two = take 2 members

abbrev pair : ReplicatedStore (List Bytes)
pair = record {
  self_id = codes "a";
  ring = record (ring_of 2) { ring = codes "a" ∷ codes "b" ∷ [] };
  n = 2;
  w = 2;
  r = 1;
}

-- A gossip library that knows of no member.
abbrev alone : Memberlist ℕ ℕ (Cluster Memory)
alone = record {
  with_delegate = λ id bind m w. (ok (1, 2), w);
  join_many = λ h seeds w. (all_joined seeds, w);
  online_members = λ h w. ([], w);
  members = λ h w. ([], w);
  leave = λ h ms w. (ok true, w);
  shutdown = λ h w. (ok tt, w);
}

abbrev written_cluster : Cluster Memory
written_cluster =
    (put_kv listed (world early_transport memory stored_codec hint_codec url) memory stored_codec
      pair in_order no_faults (codes "k") (record { value = codes "y" }) cluster).1

abbrev read_cluster : Cluster Memory
read_cluster =
    (Get.get listed (world early_transport memory stored_codec hint_codec url) memory stored_codec
      in_order pair (codes "k") written_cluster).1

-- The hints for `b` are delivered.
abbrev after : Cluster Memory
after =
    hand_over early_transport memory stored_codec hint_codec (ok tt) url (codes "b")
      (codes "http://h:2") read_cluster

put_kv-get_kv_example :
    IsFresh 5
      (get_kv listed
        (world early_transport memory stored_codec hint_codec url)
        memory
        stored_codec
        pair
        in_order
        no_faults
        (codes "k")
        after).0.0
unfolding ring_order_for_key preference_list_for_key owners_of refuse_empty collect_members
    member_for get is_utf8 bytes_eq internal_base_url with_http base_url decimal_u16 put
    slice_and_write replicate_write check_quorum count_results run_tasks write_task local_write
    put_if_newer lookup insert count_message remote_write put_internal_versioned_bytes send_with
    send transmit later_lost contains check_status internal_kv_versioned_url put_request
    http_base_url contains_id hint_slots hint_write try_candidates dispatch serve set_node
    status_response put_kv_internal_versioned written route Get.get read_task run_reads read_members
    collect_responses resolve_read winner_of present max_of max_by_timestamp spawn_repairs
    repairs_for needs_repair RocksdbStore.get get_internal_versioned get_request internal_kv_url
    put_kv put_status hints_for_node scan seek
put_kv-get_kv_example =
    put_kv-get_kv early_transport-IsTransport memory-IsDatabase stored_codec-IsBincode
      hint_codec-IsBincode in_order-IsJoinSet in_order-IsJoinSet listed pair pair url url
      (codes "k") (record { value = codes "y" }) no_faults no_faults two cluster after 200 refl refl
      (omega arith) (refl, (refl, tt)) refl
      (Runs-Reaches early_transport-IsTransport memory stored_codec hint_codec listed alone
        written_cluster
        (delivers (ok tt) url (codes "b") (codes "http://h:2")
          (gets in_order pair url (codes "k") starts refl) tt))
      refl (refl, (refl, tt)) (omega arith)

Runs-Reaches_example : Reaches early_transport memory stored_codec hint_codec written_cluster after
unfolding ring_order_for_key preference_list_for_key owners_of refuse_empty collect_members
    member_for get is_utf8 bytes_eq internal_base_url with_http base_url decimal_u16 put
    slice_and_write replicate_write check_quorum count_results run_tasks write_task local_write
    put_if_newer lookup insert count_message remote_write put_internal_versioned_bytes send_with
    send transmit later_lost contains check_status internal_kv_versioned_url put_request
    http_base_url contains_id hint_slots hint_write try_candidates dispatch serve set_node
    status_response put_kv_internal_versioned written route Get.get read_task run_reads read_members
    collect_responses resolve_read winner_of present max_of max_by_timestamp spawn_repairs
    repairs_for needs_repair RocksdbStore.get get_internal_versioned get_request internal_kv_url
    put_kv put_status hints_for_node scan seek
Runs-Reaches_example =
    Runs-Reaches early_transport-IsTransport memory stored_codec hint_codec listed alone
      written_cluster
      (delivers (ok tt) url (codes "b") (codes "http://h:2")
        (gets in_order pair url (codes "k") starts refl) tt)
