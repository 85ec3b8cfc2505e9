-- ===== src/Coordinator/Get/Repairs.antt =====
-- The replicas that `ReplicatedStore::get` (src/coordinator/mod.rs) repairs, and with what.
use diynamo.Base.{
  ℕ, ◌<◌, Bytes, length, Option, none, some, List, [], ◌∷◌, ◌≡◌, ◌↔◌, refl, sym, ap, subst, arith,
  In, inl, inr, err, quorum_failed, Bool-cases, true, Option-cases,
}
use diynamo.Store.{VersionedValue}
use diynamo.Coordinator.Get.{
  ReadResponse, Repair, needs_repair, repairs_for, winner_of, spawn_repairs, resolve_read,
}

-- A replica's answer is missing, or older than the value.
abbrev pub Stale : VersionedValue → Option VersionedValue → Type 0
Stale winner none = Unit
Stale winner (some v) = v.timestamp < winner.timestamp

pub needs_repair-Stale :
    (winner : VersionedValue) (opt : Option VersionedValue)
    → needs_repair winner.timestamp opt ≡ true
    → Stale winner opt
unfolding needs_repair
needs_repair-Stale winner none h = tt
needs_repair-Stale winner (some v) h = ground arith

Stale-needs_repair :
    (winner : VersionedValue) (opt : Option VersionedValue)
    → Stale winner opt
    → needs_repair winner.timestamp opt ≡ true
unfolding needs_repair
Stale-needs_repair winner none h = refl
Stale-needs_repair winner (some v) h = ground arith

-- The answer behind a repair.
abbrev IsDue : VersionedValue → List ReadResponse → Repair → Type 0
IsDue winner responses (url, v) =
    (v ≡ winner) × ((opt : Option VersionedValue) × In (url, opt) responses × Stale winner opt)

IsDue-later :
    (winner : VersionedValue) (url : Bytes) (opt : Option VersionedValue) (rest : List ReadResponse)
    (x : Repair)
    → IsDue winner rest x
    → IsDue winner ((url, opt) ∷ rest) x
IsDue-later winner url opt rest x (same, (o, i, s)) = (same, (o, inr i, s))

repairs_for_sound :
    (winner : VersionedValue) (responses : List ReadResponse) (x : Repair)
    → In x (repairs_for winner responses)
    → IsDue winner responses x
unfolding repairs_for
repairs_for_sound winner [] x m = absurd m
repairs_for_sound winner ((url, opt) ∷ rest) x m =
    elim (Bool-cases (needs_repair winner.timestamp opt)) [
      | inl need ↦ elim (rw need at m) [
        | inl e ↦ (
          ap (λ (y : Repair). y.1) e,
          (opt, inl (ap (λ (y : Repair). (y.0, opt)) e), needs_repair-Stale winner opt need),
        )
        | inr later ↦ IsDue-later winner url opt rest x (repairs_for_sound winner rest x later)
      ]
      | inr up_to_date ↦
          IsDue-later winner url opt rest x (repairs_for_sound winner rest x (rw up_to_date at m))
    ]

repairs_for_complete :
    (winner : VersionedValue) (responses : List ReadResponse) (url : Bytes)
    (opt : Option VersionedValue)
    → In (url, opt) responses
    → Stale winner opt
    → In (url, winner) (repairs_for winner responses)
unfolding repairs_for
repairs_for_complete winner [] url opt m s = absurd m
repairs_for_complete winner ((u, o) ∷ rest) url opt (inl e) s =
    let e₀ : url ≡ u = ap (λ (r : ReadResponse). r.0) e in
    let e₁ : opt ≡ o = ap (λ (r : ReadResponse). r.1) e in
    rw (Stale-needs_repair winner o (subst (Stale winner) e₁ s))
      (inl (ap (λ (y : Bytes). (y, winner)) e₀))
repairs_for_complete winner ((u, o) ∷ rest) url opt (inr m) s =
    let later = repairs_for_complete winner rest url opt m s in
    elim (Bool-cases (needs_repair winner.timestamp o)) [
      | inl need ↦ rw need (inr later)
      | inr fresh ↦ rw fresh later
    ]

-- A read spawns a repair for a replica exactly when that replica answered and its answer was missing
-- or older than the winner; what it pushes is the winner.
pub spawn_repairs_iff :
    (responses : List ReadResponse) (url : Bytes) (v : VersionedValue)
    → In (url, v) (spawn_repairs (winner_of responses) responses) ↔ (
        (winner_of responses ≡ some v)
        × ((opt : Option VersionedValue) × In (url, opt) responses × Stale v opt))
unfolding spawn_repairs
spawn_repairs_iff responses url v = elim (Option-cases (winner_of responses)) [
  | inl n ↦ rw n (λ m. absurd m, λ h. cc (h.0))
  | inr (winner, e) ↦ rw e (
    λ m.
        let (same, due) = repairs_for_sound winner responses (url, v) m in
        (
          ap some (sym same),
          subst (λ x. (opt : Option VersionedValue) × In (url, opt) responses × Stale x opt)
              (sym same) due,
        ),
    λ h.
        let same : winner ≡ v = cc (h.0) in
        let (opt, i, s) = h.1 in
        subst (λ x. In (url, v) (repairs_for x responses)) (sym same)
          (repairs_for_complete v responses url opt i s),
  )
]

-- Phases 2 to 4 fail exactly when fewer than `r` replicas answered, with the number that did.
pub resolve_read-err_iff :
    (r : ℕ) (responses : List ReadResponse)
    → (resolve_read r responses ≡ err (quorum_failed (length responses) r)) ↔ (length responses < r)
unfolding resolve_read
resolve_read-err_iff r responses = ground arith
