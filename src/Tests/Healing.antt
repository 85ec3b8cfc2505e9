-- ===== src/Tests/Healing.antt =====
-- A read that finds a value on one of two members, and the repair of the other.
use diynamo.Network.Healed.{read_repair_heals}
use diynamo.Network.Holds.{StoreHolds}
use diynamo.Coordinator.Get.{run_repairs}
use diynamo.Store.Memory.{empty}
use diynamo.Server.{no_faults}
use diynamo.Tests.Returning.{Ready, takes}
use diynamo.Tests.Routes.{healthy, healthy-IsTransport}
use diynamo.Base.{inl, inr, none, if◌then◌else◌, Bytes, codes, bytes_eq, List, [], ◌∷◌, refl, take}
use diynamo.Base.Dict.{get}
use diynamo.Base.Utf8.{is_utf8, decimal_u16}
use diynamo.Cluster.Types.{MemberInfo, base_url, internal_base_url, http_base_url}
use diynamo.Cluster.Ring.{
  member_for, collect_members, owners_of, refuse_empty, preference_list_for_key,
}
use diynamo.Client.{
  read_internal_response, with_http, send_with, get_internal_versioned, get_request,
  internal_kv_url,
}
use diynamo.Store.{VersionedValue}
use diynamo.Store.Database.Ordered.{lookup}
use diynamo.Store.RocksdbStore.{put_if_newer}
use diynamo.Store.RocksdbStore
use diynamo.Store.Memory.{Memory, memory, memory-IsDatabase}
use diynamo.Server.{get_kv_internal}
use diynamo.Coordinator.{ReplicatedStore}
use diynamo.Coordinator.Get as Get
use diynamo.Coordinator.Get.{
  ReadResult, Repair, read_task, run_reads, read_members, collect_responses, resolve_read,
  winner_of, present, max_of, max_by_timestamp, spawn_repairs, repairs_for, needs_repair,
}
use diynamo.Network.{
  Cluster, json_response, world, count_message, send, transmit, dispatch, serve, set_node,
}
use diynamo.Tests.Fixtures.{
  member, stored_codec, stored_codec-IsBincode, hint_codec, hint_codec-IsBincode, listed, members,
  ring_of,
}
use diynamo.Tests.Routes.{route}
use diynamo.Tests.Writes.{in_order, in_order-IsJoinSet, in_order-NoPanic, url}

abbrev two : List MemberInfo
two = take 2 members

abbrev pair : ReplicatedStore (List Bytes)
pair = record {
  self_id = codes "a";
  ring = record (ring_of 2) { ring = codes "a" ∷ codes "b" ∷ [] };
  n = 2;
  w = 2;
  r = 2;
}

abbrev one_entry : Memory
one_entry = record { items = (codes "k", 5 ∷ codes "y") ∷ []; sorted = (tt, tt) }

abbrev b_url : Bytes
b_url = codes "http://h:2"

-- The server of `b` has nothing.
abbrev behind : Cluster Memory
behind = record {
  node = λ u. record {
    store = if bytes_eq b_url u then empty else one_entry;
    hints = empty;
    faults = no_faults;
  };
  messages = 0;
}

abbrev value : VersionedValue
value = record { timestamp = 5; data' = codes "y" }

read_repair_heals_example :
    StoreHolds memory-IsDatabase stored_codec-IsBincode hint_codec-IsBincode
      (codes "k")
      (codes "y")
      5
      ((run_repairs listed
          (world healthy memory stored_codec hint_codec url)
          memory
          stored_codec
          in_order
          pair
          (codes "k")
          ((b_url, value) ∷ [])
          (Get.get listed
            (world healthy memory stored_codec hint_codec url)
            memory
            stored_codec
            in_order
            pair
            (codes "k")
            behind).1).node
        b_url).store
unfolding preference_list_for_key owners_of refuse_empty collect_members member_for get is_utf8
    bytes_eq internal_base_url with_http base_url decimal_u16 lookup count_message send_with send
    transmit http_base_url dispatch serve set_node route Get.get read_task run_reads read_members
    collect_responses resolve_read winner_of present max_of max_by_timestamp spawn_repairs
    repairs_for needs_repair RocksdbStore.get get_internal_versioned get_request internal_kv_url
    read_internal_response json_response get_kv_internal
read_repair_heals_example =
    read_repair_heals healthy-IsTransport memory-IsDatabase stored_codec-IsBincode
      hint_codec-IsBincode in_order-IsJoinSet in_order-NoPanic pair url (codes "k") listed two
      behind value ((b_url, value) ∷ []) ((b_url, value) ∷ []) Ready (member (codes "b") 2) none
      (λ n. refl) refl refl refl takes refl (refl, (refl, tt)) refl (λ x i. i) (inr (inl refl))
      (refl, refl, tt) (refl, tt)
