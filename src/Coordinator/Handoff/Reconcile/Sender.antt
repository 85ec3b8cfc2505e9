-- ===== src/Coordinator/Handoff/Reconcile/Sender.antt =====
-- The designated sender of a key in `reconcile_keys` (src/coordinator/handoff.rs).
use diynamo.Base.{
  ℕ, Bytes, bytes_eq, bytes_eq_iff, bytes_eq_refl, bytes_eq→eq, true, not, ◌&&◌, ok, some, List, [],
  ◌∷◌, ◌≡◌, ◌≢◌, ◌↔◌, sym, ◌∙◌, subst, arith, In, inl, inr, All, Bool-cases,
}
use mathlib.Core.Bool.{false≢true}
use diynamo.Cluster.Types.{MemberInfo}
use diynamo.Cluster.Ring.{HashRing, CoordinatorRing, preference_list_for_key}
use diynamo.Coordinator.Handoff.Reconcile.{contains_id, designated, is_self, sends_by, sends_key}

-- Online, and not the returning node.
abbrev pub IsEligible : List Bytes → Bytes → Bytes → Type 0
IsEligible online_ids node_id id = (id ≢ node_id) × (contains_id online_ids id ≡ true)

IsEligible-test :
    (online_ids : List Bytes) (node_id id : Bytes)
    → (not (bytes_eq id node_id) && contains_id online_ids id) ≡ true
    → IsEligible online_ids node_id id
IsEligible-test online_ids node_id id h =
    (λ e. ground (arith, h, e, bytes_eq_iff id node_id), ground (arith, h))

test_eligible :
    (online_ids : List Bytes) (node_id id : Bytes)
    → IsEligible online_ids node_id id
    → (not (bytes_eq id node_id) && contains_id online_ids id) ≡ true
test_eligible online_ids node_id id (n, o) = ground (arith, n, o, bytes_eq_iff id node_id)

designated-IsEligible :
    (online_ids : List Bytes) (node_id : Bytes) (pref_list : List MemberInfo) (s : Bytes)
    → designated online_ids node_id pref_list ≡ some s
    → IsEligible online_ids node_id s
unfolding designated
designated-IsEligible online_ids node_id [] s h = cc
designated-IsEligible online_ids node_id (m ∷ pref_list) s h =
    elim (Bool-cases (not (bytes_eq m.id node_id) && contains_id online_ids m.id)) [
      | inl yes' ↦
          let eq : some m.id ≡ some s = rw yes' at h in
          let same : m.id ≡ s = cc in
          subst (IsEligible online_ids node_id) same (IsEligible-test online_ids node_id m.id yes')
      | inr no' ↦ designated-IsEligible online_ids node_id pref_list s (rw no' at h)
    ]

designated-exists :
    (online_ids : List Bytes) (node_id : Bytes) (pref_list : List MemberInfo) (m : MemberInfo)
    → In m pref_list
    → IsEligible online_ids node_id m.id
    → (s : Bytes) × (designated online_ids node_id pref_list ≡ some s)
unfolding designated
designated-exists online_ids node_id [] m i e = absurd i
designated-exists online_ids node_id (c ∷ pref_list) m i e =
    elim (Bool-cases (not (bytes_eq c.id node_id) && contains_id online_ids c.id)) [
      | inl yes' ↦ (c.id, rw yes')
      | inr no' ↦ elim i [
        | inl here ↦ absurd (
            false≢true (
              sym no'
              ∙ test_eligible online_ids node_id c.id
                  (subst (λ (x : MemberInfo). IsEligible online_ids node_id x.id) here e)))
        | inr later ↦ rw no' (designated-exists online_ids node_id pref_list m later e)
      ]
    ]

module _ {Ring : Type 0} (ring_api : HashRing Ring) (ring : CoordinatorRing Ring)
    (online_ids : List Bytes) (node_id : Bytes) (n : ℕ) where
  -- If some preferred node of a key other than the returning one is online, then of all nodes that
  -- decide with the same ring and the same online members, exactly one is designated to send the key; it
  -- is online, and is not the returning node. A node pushes only keys that its own store lists, so
  -- that a designated sender without the key pushes nothing.
  pub sends_key_unique :
      (key : Bytes) (pref_list : List MemberInfo) (m : MemberInfo)
      → preference_list_for_key ring_api ring key n ≡ ok pref_list
      → In m pref_list
      → IsEligible online_ids node_id m.id
      → (s : Bytes) × IsEligible online_ids node_id s
        × ((self_id : Bytes)
            → (sends_key ring_api ring online_ids self_id node_id n key ≡ true) ↔ (self_id ≡ s))
  unfolding sends_key sends_by is_self
  sends_key_unique key pref_list m p i e =
      let (s, d) = designated-exists online_ids node_id pref_list m i e in
      (
        s,
        designated-IsEligible online_ids node_id pref_list s d,
        λ self_id. rw (p, d) (λ h. sym (bytes_eq→eq s self_id h), λ h. rw h (bytes_eq_refl s)),
      )

  -- If the returning node is not among the preferred nodes of a key and the first of these is
  -- online, then that first node is still designated to send the key to the returning node, which does not
  -- replicate it.
  pub sends_key-stranger :
      (key : Bytes) (m : MemberInfo) (ms : List MemberInfo)
      → preference_list_for_key ring_api ring key n ≡ ok (m ∷ ms)
      → All (λ x. x.id ≢ node_id) (m ∷ ms)
      → contains_id online_ids m.id ≡ true
      → sends_key ring_api ring online_ids m.id node_id n key ≡ true
  unfolding sends_key sends_by is_self designated
  sends_key-stranger key m ms p others online =
      rw (p, test_eligible online_ids node_id m.id (others.0, online)) (bytes_eq_refl m.id)
