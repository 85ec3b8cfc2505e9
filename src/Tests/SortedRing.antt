-- ===== src/Tests/SortedRing.antt =====
-- A hash ring that gives every key all nodes in the order of their ids.
use mathlib.Core.List.{Permᴰ}
use mathlib.Core.List.Permᴰ
use diynamo.Base.{
  Bytes, List, [], ◌∷◌, map, ◌≡◌, ◌≢◌, refl, sym, ap, subst, All, All-imp, In, In-perm, Distinct,
  Distinct-perm, length-perm, Bool-cases, inl, inr, lex_lt,
}
use diynamo.Cluster.Types.{MemberInfo}
use diynamo.Cluster.Ring.{HashRing, IsHashRing, IsOrderFree}
use diynamo.Cluster.Printer.{DistinctIds, insert_by_id, sort_by_id, sort_by_id-perm}
use diynamo.Tests.Fixtures.{member}

abbrev members_of : List Bytes → List MemberInfo
members_of = map (λ id. member id 1)

abbrev ids_of : List MemberInfo → List Bytes
ids_of = map (λ m. m.id)

abbrev sorted : List Bytes → List Bytes
sorted ids = ids_of (sort_by_id (members_of ids))

abbrev pub by_id : HashRing (List Bytes)
by_id = record {
  key_order = λ ids. ids;
  new = λ replicas vnodes. [];
  batch_add = λ ring ids. sorted ids;
  get_owners = λ ring key. ring;
}

map-perm : {A B : Type 0} (f : A → B) {xs ys : List A} → Permᴰ xs ys → Permᴰ (map f xs) (map f ys)
map-perm f Permᴰ.nil = Permᴰ.nil
map-perm f (Permᴰ.cons e p) = Permᴰ.cons (ap f e) (map-perm f p)
map-perm f (Permᴰ.swap e g) = Permᴰ.swap (ap f e) (ap f g)
map-perm f (Permᴰ.trans p q) = Permᴰ.trans (map-perm f p) (map-perm f q)

insert_by_id-Permᴰ : (m : MemberInfo) (ms : List MemberInfo) → Permᴰ (m ∷ ms) (insert_by_id m ms)
unfolding insert_by_id
insert_by_id-Permᴰ m [] = Permᴰ.refl (m ∷ [])
insert_by_id-Permᴰ m (x ∷ xs) = elim (Bool-cases (lex_lt x.id m.id)) [
  | inl below ↦
      rw below (Permᴰ.trans (Permᴰ.swap refl refl) (Permᴰ.cons refl (insert_by_id-Permᴰ m xs)))
  | inr over ↦ rw over (Permᴰ.refl (m ∷ x ∷ xs))
]

sort_by_id-Permᴰ : (ms : List MemberInfo) → Permᴰ ms (sort_by_id ms)
unfolding sort_by_id
sort_by_id-Permᴰ [] = Permᴰ.nil
sort_by_id-Permᴰ (m ∷ ms) =
    Permᴰ.trans (Permᴰ.cons refl (sort_by_id-Permᴰ ms)) (insert_by_id-Permᴰ m (sort_by_id ms))

ids_of-members_of : (ids : List Bytes) → ids_of (members_of ids) ≡ ids
ids_of-members_of [] = refl
ids_of-members_of (id ∷ ids) = ap (◌∷◌ id) (ids_of-members_of ids)

sorted-Permᴰ : (ids : List Bytes) → Permᴰ ids (sorted ids)
sorted-Permᴰ ids =
    subst (λ xs. Permᴰ xs (sorted ids)) (ids_of-members_of ids)
      (map-perm (λ m. m.id) (sort_by_id-Permᴰ (members_of ids)))

All-apart :
    (id : Bytes) (ids : List Bytes) → All (λ j. id ≢ j) ids → All (λ m. id ≢ m.id) (members_of ids)
All-apart id [] a = tt
All-apart id (j ∷ ids) a = (a.0, All-apart id ids a.1)

Distinct-DistinctIds : (ids : List Bytes) → Distinct ids → DistinctIds (members_of ids)
Distinct-DistinctIds [] d = tt
Distinct-DistinctIds (id ∷ ids) d = (All-apart id ids d.0, Distinct-DistinctIds ids d.1)

among_self : (ids : List Bytes) → All (λ o. In o ids) ids
among_self [] = tt
among_self (id ∷ ids) = (inl refl, All-imp (λ o i. inr i) ids (among_self ids))

pub by_id-IsOrderFree : IsOrderFree by_id
by_id-IsOrderFree replicas vnodes ids ids' key d p =
    ap ids_of (sort_by_id-perm (map-perm (λ id. member id 1) p) (Distinct-DistinctIds ids d))

pub by_id-IsHashRing : IsHashRing by_id
by_id-IsHashRing = record {
  key_order-perm = Permᴰ.refl;
  owners_Distinct = λ replicas vnodes ids key d. Distinct-perm (sorted-Permᴰ ids) d;
  owners_In = λ replicas vnodes ids key.
      All-imp (λ o i. In-perm o (Permᴰ.symm (sorted-Permᴰ ids)) i) (sorted ids)
        (among_self (sorted ids));
  owners_length = λ replicas vnodes ids key p d l. sym (length-perm (sorted-Permᴰ ids));
}
