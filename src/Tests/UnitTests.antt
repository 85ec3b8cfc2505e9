-- ===== src/Tests/UnitTests.antt =====
-- The unit tests on concrete parameters.
use mathlib.Core.List.{Permᴰ}
use mathlib.Core.List.Permᴰ
use diynamo.Base.{Bytes, List, [], ◌∷◌, ◌≡◌, refl, true}
use diynamo.Store.Database.Ordered.{insert, insert-IsSorted, remove, remove-IsSorted}
use diynamo.Store.Memory.{empty, memory, memory-IsDatabase}
use diynamo.Store.Hints.UnitTests.{
  round_trip_single_hint, hints_for_node_only_returns_that_nodes_hints, delete_hint_removes_entry,
  store_hint_rejects_slash_in_target_id, hints_for_node_empty_when_none_stored,
}
use diynamo.Store.Hints.UnitTests.Pass.{IsTotal, hint_tests_pass}
use diynamo.Cluster.Ring.UnitTests.{
  same_key_same_preference_list, preference_list_members_are_cluster_members,
  preference_list_truncated_to_requested_n, from_roster_rejects_smaller_than_n,
  ring_order_returns_all_nodes_and_pref_list_is_prefix,
}
use diynamo.Cluster.Ring.UnitTests.Pass.{ring_tests_pass}
use diynamo.Tests.SortedRing.{by_id, by_id-IsHashRing, by_id-IsOrderFree}
use diynamo.Tests.Fixtures.{hint_codec, hint_codec-IsBincode}

memory-IsTotal : IsTotal memory-IsDatabase hint_codec
unfolding memory-IsDatabase
memory-IsTotal = record {
  put_ok = λ db k v. (
    record { items = insert k v db.items; sorted = insert-IsSorted k v db.items db.sorted },
    refl,
  );
  delete_ok = λ db k.
      (record { items = remove k db.items; sorted = remove-IsSorted k db.items db.sorted }, refl);
  iterator_ok = λ db k. refl;
  serialize_ok = λ e. (e.timestamp ∷ e.data', refl);
}

hint_tests_pass_example :
    (round_trip_single_hint memory hint_codec empty ≡ true)
    × (hints_for_node_only_returns_that_nodes_hints memory hint_codec empty ≡ true)
    × (delete_hint_removes_entry memory hint_codec empty ≡ true)
    × (store_hint_rejects_slash_in_target_id memory hint_codec empty ≡ true)
    × (hints_for_node_empty_when_none_stored memory hint_codec empty ≡ true)
unfolding memory-IsDatabase
hint_tests_pass_example = hint_tests_pass hint_codec-IsBincode memory-IsTotal empty refl

-- The other map yields its first two keys the other way round.
abbrev swapped : List Bytes → List Bytes
swapped [] = []
swapped (x ∷ []) = x ∷ []
swapped (x ∷ y ∷ xs) = y ∷ x ∷ xs

swapped-Permᴰ : (ids : List Bytes) → Permᴰ ids (swapped ids)
swapped-Permᴰ [] = Permᴰ.nil
swapped-Permᴰ (x ∷ []) = Permᴰ.refl (x ∷ [])
swapped-Permᴰ (x ∷ y ∷ xs) = Permᴰ.swap refl refl

ring_tests_pass_example :
    (same_key_same_preference_list by_id swapped ≡ true)
    × (preference_list_members_are_cluster_members by_id ≡ true)
    × (preference_list_truncated_to_requested_n by_id ≡ true)
    × (from_roster_rejects_smaller_than_n by_id ≡ true)
    × (ring_order_returns_all_nodes_and_pref_list_is_prefix by_id ≡ true)
ring_tests_pass_example = ring_tests_pass by_id-IsHashRing by_id-IsOrderFree swapped swapped-Permᴰ
