-- ===== src/Cluster/Ring.antt =====
-- src/cluster/ring.rs: the ring of nodes behind a key's preference list. The hash ring itself
-- (crate hashring_coordinator) is a parameter.
pub mod Order
pub mod Prefix
pub mod UnitTests
use mathlib.Core.List.{Permᴰ}
use diynamo.Base.{
  ℕ, suc, ◌-◌, ◌+◌, ◌<◌, ◌≤◌, Bytes, length, take, map, Result, ok, err, message, ◌>>=◌, Option,
  none, some, String, List, [], ◌∷◌, ◌≡◌, ltb, leb, if◌then◌else◌, All, In, Distinct,
}
use diynamo.Base.Dict.{get, insert}
use diynamo.Base.Utf8.{is_utf8}
use diynamo.Config.{ClusterMember}
use diynamo.Cluster.Types.{MemberInfo, from_cluster_member}

-- `HashRing::new(replicas, vnodes)`, `batch_add` and `get`, on node ids (a `RingNode` is its id).
-- `key_order` is the order in which the `HashMap` that `from_roster` fills yields its keys: it is
-- drawn at random, so that each call of `from_roster` has a `HashRing` with an order of its own.
pub record HashRing (Ring : Type 0) : Type 0 where
  pub key_order : List Bytes → List Bytes
  pub new : ℕ → ℕ → Ring
  pub batch_add : Ring → List Bytes → Ring
  pub get_owners : Ring → Bytes → List Bytes

-- The documented promise of `get` on a ring with at least one position for each node: it returns
-- different nodes of the ring, as many as `replicas + 1` and the ring allow; and of a map: it yields
-- each of its keys once.
pub record IsHashRing {Ring : Type 0} (api : HashRing Ring) : Type 0 where
  pub key_order-perm : (ids : List Bytes) → Permᴰ ids (api.key_order ids)
  pub owners_Distinct :
      (replicas vnodes : ℕ) (ids : List Bytes) (key : Bytes)
      → Distinct ids
      → Distinct (api.get_owners (api.batch_add (api.new replicas vnodes) ids) key)
  pub owners_In :
      (replicas vnodes : ℕ) (ids : List Bytes) (key : Bytes)
      → All (λ o. In o ids) (api.get_owners (api.batch_add (api.new replicas vnodes) ids) key)
  pub owners_length :
      (replicas vnodes : ℕ) (ids : List Bytes) (key : Bytes)
      → 0 < vnodes
      → Distinct ids
      → length ids ≤ replicas + 1
      → length (api.get_owners (api.batch_add (api.new replicas vnodes) ids) key) ≡ length ids

-- The promise of consistent hashing that a key's owners depend on the nodes alone, and not on the
-- order in which they are added.
abbrev pub IsOrderFree : {Ring : Type 0} → HashRing Ring → Type 0
IsOrderFree api =
    (replicas vnodes : ℕ) (ids ids' : List Bytes) (key : Bytes)
    → Distinct ids
    → Permᴰ ids ids'
    → api.get_owners (api.batch_add (api.new replicas vnodes) ids) key
      ≡ api.get_owners (api.batch_add (api.new replicas vnodes) ids') key

-- `CoordinatorRing`
pub record CoordinatorRing (Ring : Type 0) : Type 0 where
  pub members_by_id : List (Bytes × MemberInfo)
  pub ring : Ring
  pub n : ℕ

-- The `collect` of the roster into a map: a later entry replaces one with the same id.
unfoldable pub collect_roster :
    List ClusterMember → List (Bytes × MemberInfo) → List (Bytes × MemberInfo)
collect_roster [] d = d
collect_roster (c ∷ cs) d = collect_roster cs (insert c.id (from_cluster_member c) d)

-- `members_by_id.get(&node.id).with_context(..)`
unfoldable pub member_for : List (Bytes × MemberInfo) → Bytes → Result MemberInfo
member_for d id = elim (get id d) [
  | none ↦ err (message "ring node missing from roster")
  | some m ↦ ok m
]

-- The `map` and `collect` of a list of nodes into members: the first missing id is an error.
unfoldable pub collect_members : List (Bytes × MemberInfo) → List Bytes → Result (List MemberInfo)
collect_members d [] = ok []
collect_members d (id ∷ ids) = do m ← member_for d id; ms ← collect_members d ids; ok (m ∷ ms)

-- `str::from_utf8(key).context(..)`
abbrev pub check_utf8 : String → Bytes → Result Bytes
check_utf8 msg s = if is_utf8 s then ok s else err (message msg)

-- `if owners.is_empty() { bail!(..) }`
unfoldable pub refuse_empty : List Bytes → Result (List Bytes)
refuse_empty [] = err (message "hash ring returned no nodes for key")
refuse_empty (o ∷ os) = ok (o ∷ os)

module _ {Ring : Type 0} (api : HashRing Ring) where
  -- `CoordinatorRing::from_roster`
  unfoldable pub from_roster : List ClusterMember → ℕ → ℕ → Result (CoordinatorRing Ring)
  unfolding collect_roster
  from_roster [] n vnodes = err (message "cluster roster is empty")
  from_roster (c ∷ cs) n vnodes =
      let members_by_id = collect_roster (c ∷ cs) [] in
      if ltb (length (c ∷ cs)) n
      then err (message "roster must have at least n members")
      else ok (record {
        members_by_id = members_by_id;
        ring =
            api.batch_add (api.new (length (c ∷ cs) - 1) vnodes)
              (api.key_order (map (λ e. e.0) members_by_id));
        n = n;
      })

  -- `ring.get`, refused if empty
  unfoldable pub owners_of : CoordinatorRing Ring → Bytes → Result (List Bytes)
  owners_of ring key = do
    key_str ← check_utf8 "key must be valid UTF-8" key
    refuse_empty (api.get_owners ring.ring key_str)

  -- `CoordinatorRing::preference_list_for_key`
  unfoldable pub preference_list_for_key :
      CoordinatorRing Ring → Bytes → ℕ → Result (List MemberInfo)
  preference_list_for_key ring key n = do
    owners ← owners_of ring key
    collect_members ring.members_by_id (take n owners)

  -- `CoordinatorRing::ring_order_for_key`
  unfoldable pub ring_order_for_key : CoordinatorRing Ring → Bytes → Result (List MemberInfo)
  ring_order_for_key ring key = do
    owners ← owners_of ring key
    collect_members ring.members_by_id owners
