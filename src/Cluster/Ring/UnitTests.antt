-- ===== src/Cluster/Ring/UnitTests.antt =====
-- The unit tests of src/cluster/ring.rs, over any hash ring. A test is true if it passes; an error that is
-- unwrapped fails it.
pub mod Pass
use diynamo.Base.{
  ℕ, Bytes, codes, bytes_eq, length, take, drop, map, Bool, true, false, not, ◌&&◌, ◌||◌, ◌==◌,
  Result, ok, err, ◌>>=◌, List, [], ◌∷◌,
}
use diynamo.Config.{ClusterMember}
use diynamo.Cluster.Types.{MemberInfo}
use diynamo.Cluster.Ring.{
  HashRing, CoordinatorRing, from_roster, preference_list_for_key, ring_order_for_key,
}

-- the test's `member`
abbrev pub member : Bytes → ℕ → ℕ → ClusterMember
member id gossip_port forward_port = record {
  id = id;
  gossip_addr = record { ip = codes "127.0.0.1"; port = gossip_port };
  forward_port = forward_port;
}

abbrev pub three_node_roster : List ClusterMember
three_node_roster =
    member (codes "n1") 7946 8081
    ∷ member (codes "n2") 7947 8082
    ∷ member (codes "n3") 7948 8083
    ∷ []

abbrev pub five_node_roster : List ClusterMember
five_node_roster =
    member (codes "n1") 7946 8081
    ∷ member (codes "n2") 7947 8082
    ∷ member (codes "n3") 7948 8083
    ∷ member (codes "n4") 7949 8084
    ∷ member (codes "n5") 7950 8085
    ∷ []

-- `unwrap` and `assert!`
abbrev pub passes : Result Bool → Bool
passes (ok b) = b
passes (err e) = false

-- `assert_eq!` on lists of ids
unfoldable pub same_ids : List Bytes → List Bytes → Bool
same_ids [] [] = true
same_ids [] (y ∷ ys) = false
same_ids (x ∷ xs) [] = false
same_ids (x ∷ xs) (y ∷ ys) = bytes_eq x y && same_ids xs ys

-- `contains`
unfoldable pub among : List Bytes → Bytes → Bool
among [] id = false
among (j ∷ ids) id = bytes_eq j id || among ids id

-- `for … in … { assert!(..) }`
unfoldable pub all_of : (Bytes → Bool) → List Bytes → Bool
all_of p [] = true
all_of p (x ∷ xs) = p x && all_of p xs

abbrev pub ids_of : List MemberInfo → List Bytes
ids_of = map (λ m. m.id)

is_empty : List Bytes → Bool
is_empty [] = true
is_empty (x ∷ xs) = false

module _ {Ring : Type 0} (api : HashRing Ring) where
  -- The two rings are built from two maps, of which the second yields its keys in another order.
  unfoldable pub same_key_same_preference_list : (List Bytes → List Bytes) → Bool
  unfolding same_ids
  same_key_same_preference_list other_order = passes (do
    ring1 ← from_roster api three_node_roster 3 1
    ring2 ← from_roster (record api { key_order = other_order }) three_node_roster 3 1
    list1 ← preference_list_for_key api ring1 (codes "apple") 3
    list2 ← preference_list_for_key api ring2 (codes "apple") 3
    ok (same_ids (ids_of list1) (ids_of list2)))

  unfoldable pub preference_list_members_are_cluster_members : Bool
  unfolding among all_of is_empty
  preference_list_members_are_cluster_members = passes (do
    ring ← from_roster api three_node_roster 3 1
    list ← preference_list_for_key api ring (codes "banana") 3
    ok (
        not (is_empty (ids_of list))
        && all_of (among (codes "n1" ∷ codes "n2" ∷ codes "n3" ∷ [])) (ids_of list)))

  unfoldable pub preference_list_truncated_to_requested_n : Bool
  preference_list_truncated_to_requested_n = passes (do
    ring ← from_roster api three_node_roster 3 1
    list ← preference_list_for_key api ring (codes "cherry") 1
    ok (length list == 1))

  abbrev is_err : Result (CoordinatorRing Ring) → Bool
  is_err (ok ring) = false
  is_err (err e) = true

  unfoldable pub from_roster_rejects_smaller_than_n : Bool
  from_roster_rejects_smaller_than_n =
      is_err
        (from_roster api (member (codes "n1") 7946 8081 ∷ member (codes "n2") 7947 8082 ∷ []) 3 1)

  unfoldable pub ring_order_returns_all_nodes_and_pref_list_is_prefix : Bool
  unfolding same_ids among all_of
  ring_order_returns_all_nodes_and_pref_list_is_prefix = passes (do
    ring ← from_roster api five_node_roster 3 1
    order ← ring_order_for_key api ring (codes "apple")
    plist ← preference_list_for_key api ring (codes "apple") 3
    ok (
        (length order == 5)
        && same_ids (take 3 (ids_of order)) (ids_of plist)
        && all_of (λ id. not (among (ids_of plist) id)) (drop 3 (ids_of order))))
