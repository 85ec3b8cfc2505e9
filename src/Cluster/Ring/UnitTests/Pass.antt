-- ===== src/Cluster/Ring/UnitTests/Pass.antt =====
-- Why the unit tests of src/cluster/ring.rs pass.
use mathlib.Core.List.{Permᴰ}
use diynamo.Base.{
  ℕ, zero, suc, ◌<◌, ◌≤◌, Bytes, bytes_eq_iff, bytes_eq_refl, codes, length, take, ◌-◌, drop, map,
  true, false, not, ok, List, [], ◌∷◌, ◌≡◌, ◌≢◌, refl, ap, arith, In, All, Distinct, inl, inr, ltb,
}
use diynamo.Base.Utf8.{is_utf8}
use diynamo.Config.{ClusterMember}
use diynamo.Cluster.Types.{MemberInfo, from_cluster_member}
use diynamo.Cluster.Ring.{
  HashRing, IsHashRing, IsOrderFree, CoordinatorRing, collect_roster, from_roster,
  preference_list_for_key, ring_order_for_key,
}
use diynamo.Cluster.Ring.Order.{
  preference_list-again, roster_ids, member_ids, IsFrom, ring_order_complete,
}
use diynamo.Cluster.Ring.Prefix.{preference_list-take}
use diynamo.Cluster.Ring.UnitTests.{
  same_key_same_preference_list, three_node_roster, five_node_roster, same_ids, among, all_of,
  ids_of, is_empty, preference_list_members_are_cluster_members,
  preference_list_truncated_to_requested_n, from_roster_rejects_smaller_than_n,
  ring_order_returns_all_nodes_and_pref_list_is_prefix,
}

same_ids_refl : (ids : List Bytes) → same_ids ids ids ≡ true
unfolding same_ids
same_ids_refl [] = refl
same_ids_refl (x ∷ xs) = rw (bytes_eq_refl x, same_ids_refl xs) refl

map-take : (n : ℕ) (ms : List MemberInfo) → ids_of (take n ms) ≡ take n (ids_of ms)
map-take zero ms = refl
map-take (suc n) [] = refl
map-take (suc n) (m ∷ ms) = ap (◌∷◌ m.id) (map-take n ms)

among-In : (id : Bytes) (ids : List Bytes) → In id ids → among ids id ≡ true
unfolding among
among-In id [] i = absurd i
among-In id (j ∷ ids) (inl e) = rw (← e, bytes_eq_refl id) refl
among-In id (j ∷ ids) (inr i) = ground (arith, among-In id ids i)

roster-In : (c : ClusterMember) (cs : List ClusterMember) → In c cs → In c.id (roster_ids cs)
roster-In c [] i = absurd i
roster-In c (d ∷ cs) (inl e) = inl (ap (λ (x : ClusterMember). x.id) e)
roster-In c (d ∷ cs) (inr i) = inr (roster-In c cs i)

from_roster-among :
    (cs : List ClusterMember) (n : ℕ) (ms : List MemberInfo)
    → All (IsFrom cs) ms
    → all_of (among (roster_ids cs)) (ids_of (take n ms)) ≡ true
unfolding all_of from_cluster_member
from_roster-among cs zero ms a = refl
from_roster-among cs (suc n) [] a = refl
from_roster-among cs (suc n) (m ∷ ms) ((c, i, e), a) =
    let known : among (roster_ids cs) m.id ≡ true =
      rw e (among-In c.id (roster_ids cs) (roster-In c cs i)) in
    rw (known, from_roster-among cs n ms a) refl

-- What comes behind the first ids is not one of them.
None : List Bytes → List Bytes → Type 0
None ids = All (λ id. among ids id ≡ false)

widen : (x : Bytes) (ids ys : List Bytes) → All (λ y. x ≢ y) ys → None ids ys → None (x ∷ ids) ys
unfolding among None
widen x ids [] a b = tt
widen x ids (y ∷ ys) a b = (ground (arith, bytes_eq_iff x y, a.0, b.0), widen x ids ys a.1 b.1)

All-drop : (P : Bytes → Type 0) (n : ℕ) (xs : List Bytes) → All P xs → All P (drop n xs)
All-drop P zero xs a = a
All-drop P (suc n) [] a = tt
All-drop P (suc n) (x ∷ xs) a = All-drop P n xs a.1

None-nil : (xs : List Bytes) → None [] xs
unfolding among None
None-nil [] = tt
None-nil (x ∷ xs) = (refl, None-nil xs)

apart : (n : ℕ) (xs : List Bytes) → Distinct xs → None (take n xs) (drop n xs)
unfolding None
apart zero xs d = None-nil xs
apart (suc n) [] d = tt
apart (suc n) (x ∷ xs) d =
    widen x (take n xs) (drop n xs) (All-drop (λ y. x ≢ y) n xs d.0) (apart n xs d.1)

all_of-None : (ids xs : List Bytes) → None ids xs → all_of (λ id. not (among ids id)) xs ≡ true
unfolding all_of None
all_of-None ids [] a = refl
all_of-None ids (x ∷ xs) a = rw (a.0, all_of-None ids xs a.1) refl

not_empty :
    (n : ℕ) (ms : List MemberInfo) → 0 < length ms → is_empty (ids_of (take (suc n) ms)) ≡ false
unfolding is_empty
not_empty n [] h = absurd (omega arith)
not_empty n (m ∷ ms) h = refl

length-take_one : (ms : List MemberInfo) → 0 < length ms → length (take 1 ms) ≡ 1
length-take_one [] h = absurd (omega arith)
length-take_one (m ∷ ms) h = refl

length-ids_of : (ms : List MemberInfo) → length (ids_of ms) ≡ length ms
length-ids_of [] = refl
length-ids_of (m ∷ ms) = ap suc (length-ids_of ms)

three_Distinct : Distinct (roster_ids three_node_roster)
three_Distinct = ground arith

five_Distinct : Distinct (roster_ids five_node_roster)
five_Distinct = ground arith

key_text :
    (is_utf8 (codes "apple") ≡ true)
    × (is_utf8 (codes "banana") ≡ true)
    × (is_utf8 (codes "cherry") ≡ true)
unfolding is_utf8
key_text = (refl, refl, refl)

from_roster-total :
    {Ring : Type 0} (api : HashRing Ring) (roster : List ClusterMember) (n vnodes : ℕ)
    → 0 < length roster
    → n ≤ length roster
    → (ring : CoordinatorRing Ring) × (from_roster api roster n vnodes ≡ ok ring)
unfolding from_roster
from_roster-total api [] n vnodes h fits = absurd (omega arith)
from_roster-total api (c ∷ cs) n vnodes h fits =
    let long : ltb (length (c ∷ cs)) n ≡ false = ground (arith, fits) in
    (
      record {
        members_by_id = collect_roster (c ∷ cs) [];
        ring =
            api.batch_add (api.new (length (c ∷ cs) - 1) vnodes)
              (api.key_order (map (λ e. e.0) (collect_roster (c ∷ cs) [])));
        n = n;
      },
      rw long refl,
    )

module _ {Ring : Type 0} {api : HashRing Ring} (laws : IsHashRing api) where
  -- A roster's ring with a key's ring order, of which each preference list is the front.
  on_roster :
      (roster : List ClusterMember) (n : ℕ) (key : Bytes)
      → 0 < length roster
      → n ≤ length roster
      → Distinct (roster_ids roster)
      → is_utf8 key ≡ true
      → (ring : CoordinatorRing Ring) × (from_roster api roster n 1 ≡ ok ring)
        × (all : List MemberInfo) × (ring_order_for_key api ring key ≡ ok all)
        × ((k : ℕ) → preference_list_for_key api ring key k ≡ ok (take k all))
        × (length all ≡ length roster)
        × Distinct (member_ids all)
        × All (IsFrom roster) all
  on_roster roster n key some_member fits dis text =
      let (ring, built) = from_roster-total api roster n 1 some_member fits in
      let (all, found, len, long, apart', from) =
        ring_order_complete laws roster n 1 ring key built dis (omega arith) text in
      (
        ring,
        built,
        all,
        found,
        λ k. preference_list-take api ring key k all found,
        len,
        apart',
        from,
      )

  members_passes : preference_list_members_are_cluster_members api ≡ true
  unfolding preference_list_members_are_cluster_members
  members_passes =
      let (ring, built, all, found, front, len, apart', from) =
        on_roster three_node_roster 3 (codes "banana") (omega arith) (omega arith) three_Distinct
          key_text.1 in
      rw
        (
          built,
          front 3,
          not_empty 2 all (omega (arith, len)),
          from_roster-among three_node_roster 3 all from,
        )
        refl

  truncated_passes : preference_list_truncated_to_requested_n api ≡ true
  unfolding preference_list_truncated_to_requested_n
  truncated_passes =
      let (ring, built, all, found, front, len, apart', from) =
        on_roster three_node_roster 3 (codes "cherry") (omega arith) (omega arith) three_Distinct
          key_text.2 in
      rw (built, front 1, length-take_one all (omega (arith, len))) refl

  rejects_passes : from_roster_rejects_smaller_than_n api ≡ true
  unfolding from_roster_rejects_smaller_than_n from_roster
  rejects_passes = refl

  ring_order_passes : ring_order_returns_all_nodes_and_pref_list_is_prefix api ≡ true
  unfolding ring_order_returns_all_nodes_and_pref_list_is_prefix
  ring_order_passes =
      let (ring, built, all, found, front, len, apart', from) =
        on_roster five_node_roster 3 (codes "apple") (omega arith) (omega arith) five_Distinct
          key_text.0 in
      let behind =
        all_of-None (take 3 (ids_of all)) (drop 3 (ids_of all)) (apart 3 (ids_of all) apart') in
      rw (built, found, front 3, len, map-take 3 all, same_ids_refl (take 3 (ids_of all)), behind)
        refl

  same_preference_list_passes :
      (free : IsOrderFree api) (other_order : List Bytes → List Bytes)
      → ((ids : List Bytes) → Permᴰ ids (other_order ids))
      → same_key_same_preference_list api other_order ≡ true
  unfolding same_key_same_preference_list
  same_preference_list_passes free other_order drawn =
      let (ring, built, all, found, front, len, apart', from) =
        on_roster three_node_roster 3 (codes "apple") (omega arith) (omega arith) three_Distinct
          key_text.0 in
      let (ring', built') =
        from_roster-total (record api { key_order = other_order }) three_node_roster 3 1
          (omega arith) (omega arith) in
      let again =
        preference_list-again laws free other_order three_node_roster 3 1 3 ring ring'
          (codes "apple") drawn three_Distinct built built' in
      rw (built, built', again, front 3, same_ids_refl (ids_of (take 3 all))) refl

  -- The unit tests of the ring pass, whatever hash ring it stands on and whatever orders the maps of
  -- the rosters have, if the hash ring keeps its documented promises and a key's owners do not depend
  -- on the order in which nodes are added: from one roster come the same preference lists, of members
  -- of the roster and as many as are asked for, a roster of fewer than `n` is rejected, and the ring
  -- order lists all nodes, the preference list first and no node twice.
  pub ring_tests_pass :
      (free : IsOrderFree api) (other_order : List Bytes → List Bytes)
      → ((ids : List Bytes) → Permᴰ ids (other_order ids))
      → (same_key_same_preference_list api other_order ≡ true)
        × (preference_list_members_are_cluster_members api ≡ true)
        × (preference_list_truncated_to_requested_n api ≡ true)
        × (from_roster_rejects_smaller_than_n api ≡ true)
        × (ring_order_returns_all_nodes_and_pref_list_is_prefix api ≡ true)
  ring_tests_pass free other_order drawn = (
    same_preference_list_passes free other_order drawn,
    members_passes,
    truncated_passes,
    rejects_passes,
    ring_order_passes,
  )
