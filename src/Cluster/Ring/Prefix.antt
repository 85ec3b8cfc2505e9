-- ===== src/Cluster/Ring/Prefix.antt =====
-- `preference_list_for_key` and `ring_order_for_key` (src/cluster/ring.rs).
use diynamo.Base.{
  length, ◌≤◌, ℕ, zero, suc, Bytes, take, ok, >>=-eq-ok, List, [], ◌∷◌, ◌≡◌, refl, sym, arith,
  ok-injective,
}
use diynamo.Cluster.Types.{MemberInfo}
use diynamo.Cluster.Ring.{
  HashRing, CoordinatorRing, member_for, collect_members, owners_of, preference_list_for_key,
  ring_order_for_key,
}

-- A collected list is collected member by member.
pub collect_members-cons :
    (d : List (Bytes × MemberInfo)) (id : Bytes) (ids : List Bytes) (ms : List MemberInfo)
    → collect_members d (id ∷ ids) ≡ ok ms
    → (m : MemberInfo) × (rest : List MemberInfo) × (member_for d id ≡ ok m)
      × (collect_members d ids ≡ ok rest)
      × (ms ≡ m ∷ rest)
unfolding collect_members
collect_members-cons d id ids ms h =
    let (m, found, h') = >>=-eq-ok _ _ h in
    let (rest, r, e) = >>=-eq-ok _ _ h' in (m, rest, found, r, sym (ok-injective _ _ e))

collect_members-take :
    (d : List (Bytes × MemberInfo)) (n : ℕ) (ids : List Bytes) (ms : List MemberInfo)
    → collect_members d ids ≡ ok ms
    → collect_members d (take n ids) ≡ ok (take n ms)
unfolding collect_members
collect_members-take d zero ids ms h = refl
collect_members-take d (suc n) [] ms h = ground arith
collect_members-take d (suc n) (id ∷ ids) ms h =
    let (m, rest, found, r, e) = collect_members-cons d id ids ms h in
    rw (e, found, collect_members-take d n ids rest r)

module _ {Ring : Type 0} (api : HashRing Ring) where
  -- Where the ring order of a key is known, its preference list for `n` is the first `n` members of
  -- that order.
  pub preference_list-take :
      (ring : CoordinatorRing Ring) (key : Bytes) (n : ℕ) (all : List MemberInfo)
      → ring_order_for_key api ring key ≡ ok all
      → preference_list_for_key api ring key n ≡ ok (take n all)
  unfolding preference_list_for_key ring_order_for_key
  preference_list-take ring key n all h =
      let (owners, o, c) = >>=-eq-ok (owners_of api ring key) _ h in
      rw o (collect_members-take ring.members_by_id n owners all c)

length-take : {A : Type 0} (n : ℕ) (xs : List A) → length (take n xs) ≤ n
length-take zero xs = omega arith
length-take (suc n) [] = omega arith
length-take (suc n) (x ∷ xs) = omega (arith, length-take n xs)

length-collect_members :
    (d : List (Bytes × MemberInfo)) (ids : List Bytes) (ms : List MemberInfo)
    → collect_members d ids ≡ ok ms
    → length ms ≡ length ids
unfolding collect_members
length-collect_members d [] ms h = ground (arith, h)
length-collect_members d (id ∷ ids) ms h =
    let (m, rest, found, r, e) = collect_members-cons d id ids ms h in
    rw e (omega (arith, length-collect_members d ids rest r))

-- A preference list has at most as many members as were asked for.
pub length-preference_list :
    {Ring : Type 0} (api : HashRing Ring) (ring : CoordinatorRing Ring) (key : Bytes) (n : ℕ)
    (ms : List MemberInfo)
    → preference_list_for_key api ring key n ≡ ok ms
    → length ms ≤ n
unfolding preference_list_for_key
length-preference_list api ring key n ms h =
    let (owners, o, c) = >>=-eq-ok (owners_of api ring key) _ h in
    omega
      (arith, length-collect_members ring.members_by_id (take n owners) ms c, length-take n owners)
