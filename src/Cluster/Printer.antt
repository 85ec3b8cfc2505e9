-- ===== src/Cluster/Printer.antt =====
-- src/cluster/printer.rs: the line that shows the live members.
pub mod UnitTests
use mathlib.Core.List.{Permᴰ}
use diynamo.Base.{
  Bytes, codes, join, List, [], ◌∷◌, ◌++◌, map, length, true, false, lex_lt, lex_lt_trans,
  lex_lt_total, lex_lt_irrefl, bytes_eq, bytes_eq→eq, if◌then◌else◌, ◌≡◌, ◌≢◌, inl, inr, refl, sym,
  ap, subst, ◌∙◌, All, Bool-cases, ℕ, zero, suc, All-perm,
}
use diynamo.Base.Utf8.{decimal}
use diynamo.Cluster.Types.{MemberInfo, display}

-- `slice::sort_by` on the ids, which is stable: a member goes before those whose ids are not smaller.
unfoldable pub insert_by_id : MemberInfo → List MemberInfo → List MemberInfo
insert_by_id m [] = m ∷ []
insert_by_id m (x ∷ xs) = if lex_lt x.id m.id then x ∷ insert_by_id m xs else m ∷ x ∷ xs

unfoldable pub sort_by_id : List MemberInfo → List MemberInfo
unfolding insert_by_id
sort_by_id [] = []
sort_by_id (m ∷ ms) = insert_by_id m (sort_by_id ms)

-- the text of a sorted list
unfoldable pub format_sorted : List MemberInfo → Bytes
format_sorted [] = codes "[live] 0 members"
format_sorted (m ∷ ms) =
    codes "[live] "
    ++ decimal (length (m ∷ ms))
    ++ codes " members: "
    ++ join (codes ", ") (map display (m ∷ ms))

unfoldable pub format_live_set : List MemberInfo → Bytes
unfolding format_sorted sort_by_id
format_live_set members = format_sorted (sort_by_id members)

lex_lt_asym : (s t : Bytes) → lex_lt s t ≡ true → lex_lt t s ≡ false
lex_lt_asym s t h = elim (Bool-cases (lex_lt t s)) [
  | inr no' ↦ no'
  | inl yes' ↦ cc (lex_lt_trans s t s h yes', lex_lt_irrefl s)
]

insert-in-order :
    (a b : MemberInfo) (xs : List MemberInfo)
    → lex_lt a.id b.id ≡ true
    → insert_by_id a (insert_by_id b xs) ≡ insert_by_id b (insert_by_id a xs)
unfolding insert_by_id
insert-in-order a b [] h = rw (h, lex_lt_asym a.id b.id h) refl
insert-in-order a b (x ∷ xs) h =
    let back = lex_lt_asym a.id b.id h in
    elim (Bool-cases (lex_lt x.id a.id)) [
      | inl below ↦
          rw (below, lex_lt_trans x.id a.id b.id below h, below)
            (ap (◌∷◌ x) (insert-in-order a b xs h))
      | inr above ↦ elim (Bool-cases (lex_lt x.id b.id)) [
        | inl below ↦ rw (below, above, h, below) refl
        | inr over ↦ rw (over, above, back, h, over) refl
      ]
    ]

insert_by_id-swap :
    (a b : MemberInfo) (xs : List MemberInfo)
    → a.id ≢ b.id
    → insert_by_id a (insert_by_id b xs) ≡ insert_by_id b (insert_by_id a xs)
insert_by_id-swap a b xs d = elim (Bool-cases (lex_lt a.id b.id)) [
  | inl h ↦ insert-in-order a b xs h
  | inr h ↦ elim (Bool-cases (bytes_eq b.id a.id)) [
    | inl e ↦ absurd (d (sym (bytes_eq→eq b.id a.id e)))
    | inr e ↦ sym (insert-in-order b a xs (lex_lt_total a.id b.id e h))
  ]
]

-- No two members with one id.
abbrev pub DistinctIds : List MemberInfo → Type 0
DistinctIds [] = Unit
DistinctIds (m ∷ ms) = All (λ x. m.id ≢ x.id) ms × DistinctIds ms

DistinctIds-perm : {xs ys : List MemberInfo} → Permᴰ xs ys → DistinctIds xs → DistinctIds ys
DistinctIds-perm Permᴰ.nil d = tt
DistinctIds-perm (Permᴰ.cons e p) d = (rw (← e) (All-perm _ p d.0), DistinctIds-perm p d.1)
DistinctIds-perm (Permᴰ.swap {a} {b} {a'} {b'} {l} e f) d =
    subst (λ x. DistinctIds (x ∷ b' ∷ l)) f
      (subst (λ y. DistinctIds (b ∷ y ∷ l)) e ((λ q. d.0.0 (sym q), d.1.0), (d.0.1, d.1.1)))
DistinctIds-perm (Permᴰ.trans p q) d = DistinctIds-perm q (DistinctIds-perm p d)

pub sort_by_id-perm :
    {xs ys : List MemberInfo} → Permᴰ xs ys → DistinctIds xs → sort_by_id xs ≡ sort_by_id ys
unfolding sort_by_id
sort_by_id-perm Permᴰ.nil d = refl
sort_by_id-perm (Permᴰ.cons e p) d = rw (e, sort_by_id-perm p d.1) refl
sort_by_id-perm (Permᴰ.swap {a} {b} {a'} {b'} {l} e f) d =
    rw (← e, ← f) (insert_by_id-swap a b (sort_by_id l) d.0.0)
sort_by_id-perm (Permᴰ.trans p q) d = sort_by_id-perm p d ∙ sort_by_id-perm q (DistinctIds-perm p d)

-- The line does not depend on the order in which the gossip library lists the members, if their ids
-- are different.
pub format_live_set-perm :
    {xs ys : List MemberInfo}
    → Permᴰ xs ys
    → DistinctIds xs
    → format_live_set xs ≡ format_live_set ys
unfolding format_live_set
format_live_set-perm p d = rw (sort_by_id-perm p d) refl

-- The first rounds of `run_live_set_printer`: what they print. `tick` waits for the next tick of
-- the interval.
unfoldable pub run_live_set_printer :
    {W : Type 0} → (W → List MemberInfo × W) → (W → W) → ℕ → W → List Bytes × W
run_live_set_printer online_members tick zero w = ([], w)
run_live_set_printer online_members tick (suc rounds) w =
    let (members, w') = online_members (tick w) in
    let (lines, w'') = run_live_set_printer online_members tick rounds w' in
    (format_live_set members ∷ lines, w'')
