-- ===== src/Cluster/Ring/Order.antt =====
-- `ring_order_for_key` (src/cluster/ring.rs) on a ring that is built from a roster.
use mathlib.Core.List.{Permᴰ}
use mathlib.Core.List.Permᴰ
use mathlib.Core.List.{append_assoc, append-nil}
use diynamo.Base.{
  Distinct-perm, In-perm, length-perm, All-imp, ℕ, suc, ◌-◌, ◌<◌, ◌≤◌, Bytes, bytes_eq,
  bytes_eq_iff, length, map, ok, guard-eq-ok, none, List, [], ◌∷◌, ◌++◌, ◌≡◌, ◌≢◌, refl, sym, ap,
  ap₂, ◌∙◌, subst, arith, ok-injective, All, In, Distinct, inl, inr, true, ltb, Bool-cases,
}
use diynamo.Base.Dict.{get, insert, get-insert}
use diynamo.Base.Utf8.{is_utf8}
use diynamo.Config.{ClusterMember}
use diynamo.Cluster.Types.{MemberInfo, from_cluster_member}
use diynamo.Cluster.Ring.{
  HashRing, IsHashRing, IsOrderFree, preference_list_for_key, CoordinatorRing, collect_roster,
  member_for, collect_members, owners_of, refuse_empty, from_roster, ring_order_for_key,
}

abbrev pub roster_ids : List ClusterMember → List Bytes
roster_ids = map (λ c. c.id)

abbrev pub member_ids : List MemberInfo → List Bytes
member_ids = map (λ m. m.id)

abbrev entry : ClusterMember → Bytes × MemberInfo
entry c = (c.id, from_cluster_member c)

-- No id of the roster is in the map yet.
abbrev Fresh : List (Bytes × MemberInfo) → List ClusterMember → Type 0
Fresh d cs = All (λ c. get c.id d ≡ none) cs

insert-fresh :
    (k : Bytes) (v : MemberInfo) (d : List (Bytes × MemberInfo))
    → get k d ≡ none
    → insert k v d ≡ d ++ (k, v) ∷ []
unfolding get insert
insert-fresh k v [] h = refl
insert-fresh k v ((j, w) ∷ d) h = ground (arith, insert-fresh k v d)

Fresh-insert :
    (k : Bytes) (v : MemberInfo) (d : List (Bytes × MemberInfo)) (cs : List ClusterMember)
    → All (λ j. k ≢ j) (roster_ids cs)
    → Fresh d cs
    → Fresh (insert k v d) cs
Fresh-insert k v d [] n f = tt
Fresh-insert k v d (c ∷ cs) n f = (
  ground (arith, get-insert k c.id v d, bytes_eq_iff k c.id, n.0, f.0),
  Fresh-insert k v d cs n.1 f.1,
)

collect_roster-map :
    (cs : List ClusterMember) (d : List (Bytes × MemberInfo))
    → Distinct (roster_ids cs)
    → Fresh d cs
    → collect_roster cs d ≡ d ++ map entry cs
unfolding collect_roster
collect_roster-map [] d dis f = sym (append-nil d)
collect_roster-map (c ∷ cs) d dis f =
    collect_roster-map cs (insert c.id (from_cluster_member c) d) dis.1
      (Fresh-insert c.id (from_cluster_member c) d cs dis.0 f.1)
    ∙ rw (insert-fresh c.id (from_cluster_member c) d f.0)
        (append_assoc d (entry c ∷ []) (map entry cs))

member_for-In :
    (id : Bytes) (cs : List ClusterMember)
    → In id (roster_ids cs)
    → (c : ClusterMember) × In c cs
      × (c.id ≡ id)
      × (member_for (map entry cs) id ≡ ok (from_cluster_member c))
unfolding member_for get bytes_eq from_cluster_member
member_for-In id [] i = absurd i
member_for-In id (c ∷ cs) i = elim (Bool-cases (bytes_eq c.id id)) [
  | inl e ↦ (c, inl refl, (bytes_eq_iff c.id id).0 e, rw e)
  | inr e ↦ elim i [
    | inl here ↦ absurd (ground (arith, here, bytes_eq_iff c.id id))
    | inr later ↦ let (c', i', e', f) = member_for-In id cs later in (c', inr i', e', rw e f)
  ]
]

abbrev pub IsFrom : List ClusterMember → MemberInfo → Type 0
IsFrom cs m = (c : ClusterMember) × In c cs × (m ≡ from_cluster_member c)

from_id : (c : ClusterMember) → (from_cluster_member c).id ≡ c.id
unfolding from_cluster_member
from_id c = refl

collect_members-total :
    (cs : List ClusterMember) (ids : List Bytes)
    → All (λ o. In o (roster_ids cs)) ids
    → (ms : List MemberInfo) × (collect_members (map entry cs) ids ≡ ok ms)
      × (member_ids ms ≡ ids)
      × All (IsFrom cs) ms
unfolding collect_members
collect_members-total cs [] a = ([], refl, refl, tt)
collect_members-total cs (id ∷ ids) a =
    let (c, i, e, f) = member_for-In id cs a.0 in
    let (ms, r, same, from) = collect_members-total cs ids a.1 in
    (from_cluster_member c ∷ ms, rw (f, r), ap₂ ◌∷◌ (from_id c ∙ e) same, ((c, i, refl), from))

map-entry-ids : (cs : List ClusterMember) → map (λ e. e.0) (map entry cs) ≡ roster_ids cs
map-entry-ids [] = refl
map-entry-ids (c ∷ cs) = ap (◌∷◌ c.id) (map-entry-ids cs)

length-roster_ids : (cs : List ClusterMember) → length (roster_ids cs) ≡ length cs
length-roster_ids [] = refl
length-roster_ids (c ∷ cs) = ap suc (length-roster_ids cs)

length-member_ids : (ms : List MemberInfo) → length (member_ids ms) ≡ length ms
length-member_ids [] = refl
length-member_ids (m ∷ ms) = ap suc (length-member_ids ms)

refuse_empty_ok : (os : List Bytes) → 0 < length os → refuse_empty os ≡ ok os
unfolding refuse_empty
refuse_empty_ok [] h = absurd (omega arith)
refuse_empty_ok (o ∷ os) h = refl

All-none : (cs : List ClusterMember) → Fresh [] cs
unfolding get
All-none [] = tt
All-none (c ∷ cs) = (refl, All-none cs)

-- What `from_roster` builds from different ids.
abbrev IsBuilt :
    {Ring : Type 0} → HashRing Ring → List ClusterMember → ℕ → ℕ → CoordinatorRing Ring → Type 0
IsBuilt api roster n vnodes ring =
    (0 < length roster)
    × (n ≤ length roster)
    × (ring.members_by_id ≡ map entry roster)
    × (ring.ring
        ≡ api.batch_add (api.new (length roster - 1) vnodes) (api.key_order (roster_ids roster)))

from_roster-IsBuilt :
    {Ring : Type 0} (api : HashRing Ring) (roster : List ClusterMember) (n vnodes : ℕ)
    (ring : CoordinatorRing Ring)
    → from_roster api roster n vnodes ≡ ok ring
    → Distinct (roster_ids roster)
    → IsBuilt api roster n vnodes ring
unfolding from_roster
from_roster-IsBuilt api [] n vnodes ring h dis = cc
from_roster-IsBuilt api (c ∷ cs) n vnodes ring h dis =
    let (fits, e) = guard-eq-ok (ltb (length (c ∷ cs)) n) _ _ h in
    let built : collect_roster (c ∷ cs) [] ≡ map entry (c ∷ cs) =
      collect_roster-map (c ∷ cs) [] dis (All-none (c ∷ cs)) in
    let e' = sym (ok-injective _ _ e) in
    (
      omega arith,
      ground (arith, fits),
      ap (λ (r : CoordinatorRing _). r.members_by_id) e' ∙ built,
      ap (λ (r : CoordinatorRing _). r.ring) e'
          ∙ ap
              (λ d.
                api.batch_add (api.new (length (c ∷ cs) - 1) vnodes)
                  (api.key_order (map (λ e. e.0) d)))
              built
          ∙ ap (λ ids. api.batch_add (api.new (length (c ∷ cs) - 1) vnodes) (api.key_order ids))
              (map-entry-ids (c ∷ cs)),
    )

module _ {Ring : Type 0} {api : HashRing Ring} (laws : IsHashRing api) where
  -- On a ring built from a roster of different ids, with at least one position a node, the ring
  -- order of every key in UTF-8 exists, lists every member of the roster exactly once, and has
  -- at least `n` members.
  pub ring_order_complete :
      (roster : List ClusterMember) (n vnodes : ℕ) (ring : CoordinatorRing Ring) (key : Bytes)
      → from_roster api roster n vnodes ≡ ok ring
      → Distinct (roster_ids roster)
      → 0 < vnodes
      → is_utf8 key ≡ true
      → (all : List MemberInfo) × (ring_order_for_key api ring key ≡ ok all)
        × (length all ≡ length roster)
        × (n ≤ length all)
        × Distinct (member_ids all)
        × All (IsFrom roster) all
  unfolding ring_order_for_key owners_of
  ring_order_complete roster n vnodes ring key h dis pos utf8 =
      let (some_member, fits, built, same_ring) =
        from_roster-IsBuilt api roster n vnodes ring h dis in
      let replicas : ℕ = length roster - 1 in
      let drawn = laws.key_order-perm (roster_ids roster) in
      let ids = api.key_order (roster_ids roster) in
      let distinct = Distinct-perm drawn dis in
      let len = sym (length-perm drawn) ∙ length-roster_ids roster in
      let owners = api.get_owners (api.batch_add (api.new replicas vnodes) ids) key in
      let count : length owners ≡ length ids =
        laws.owners_length replicas vnodes ids key pos distinct (omega arith) in
      let (all, found, same, from) = collect_members-total roster owners (
        All-imp (λ o i. In-perm o (Permᴰ.symm drawn) i) owners
          (laws.owners_In replicas vnodes ids key)) in
      let count_all : length all ≡ length roster =
        omega (arith, length-member_ids all, ap (length {A = Bytes}) same, count, len) in
      (
        all,
        rw (utf8, same_ring, built, refuse_empty_ok owners (omega arith)) found,
        count_all,
        omega arith,
        subst Distinct (sym same) (laws.owners_Distinct replicas vnodes ids key distinct),
        from,
      )

  -- Two rings that are built from one roster give the same preference lists, if owners do not depend
  -- on the order in which nodes are added.
  pub preference_list-again :
      (free : IsOrderFree api) (again : List Bytes → List Bytes) (roster : List ClusterMember)
      (n vnodes k : ℕ) (ring ring' : CoordinatorRing Ring) (key : Bytes)
      → ((ids : List Bytes) → Permᴰ ids (again ids))
      → Distinct (roster_ids roster)
      → from_roster api roster n vnodes ≡ ok ring
      → from_roster (record api { key_order = again }) roster n vnodes ≡ ok ring'
      → preference_list_for_key api ring' key k ≡ preference_list_for_key api ring key k
  unfolding preference_list_for_key owners_of
  preference_list-again free again roster n vnodes k ring ring' key drawn dis h h' =
      let (pos, fits, built, same) = from_roster-IsBuilt api roster n vnodes ring h dis in
      let (pos', fits', built', same') =
        from_roster-IsBuilt (record api { key_order = again }) roster n vnodes ring' h' dis in
      let ids = roster_ids roster in
      let first = laws.key_order-perm ids in
      let owners =
        free (length roster - 1) vnodes (api.key_order ids) (again ids) key
          (Distinct-perm first dis) (Permᴰ.trans (Permᴰ.symm first) (drawn ids)) in
      elim (Bool-cases (is_utf8 key)) [
        | inl text ↦ rw (text, built, built', same, same', owners) refl
        | inr binary ↦ rw binary refl
      ]
