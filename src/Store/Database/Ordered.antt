-- ===== src/Store/Database/Ordered.antt =====
-- Ordered association lists from byte strings to byte strings: what a database holds.
use diynamo.Base.{
  Bytes, Option, none, some, List, [], ◌∷◌, ◌≡◌, refl, true, arith, All, bytes_eq, bytes_eq_iff,
  sym, lex_lt, lex_lt_trans, lex_lt_total, if◌then◌else◌, inl, inr, Bool-cases, lex_lt_irrefl,
}

abbrev pub Entries : Type 0
Entries = List (Bytes × Bytes)

unfoldable pub lookup : Bytes → Entries → Option Bytes
lookup k [] = none
lookup k ((j, v) ∷ m) = if bytes_eq j k then some v else lookup k m

unfoldable pub insert : Bytes → Bytes → Entries → Entries
insert k v [] = (k, v) ∷ []
insert k v ((j, w) ∷ m) =
    if bytes_eq j k
    then (k, v) ∷ m
    else if lex_lt k j
    then (k, v) ∷ (j, w) ∷ m
    else (j, w) ∷ insert k v m

unfoldable pub remove : Bytes → Entries → Entries
remove k [] = []
remove k ((j, w) ∷ m) = let rest = remove k m in if bytes_eq j k then rest else (j, w) ∷ rest

-- Skip to the first key that is at least `k`.
unfoldable pub seek : Bytes → Entries → Entries
seek k [] = []
seek k ((j, w) ∷ m) = if lex_lt j k then seek k m else (j, w) ∷ m

abbrev pub IsSorted : Entries → Type 0
IsSorted [] = Unit
IsSorted ((k, v) ∷ m) = All (λ e. lex_lt k e.0 ≡ true) m × IsSorted m

pub lookup-insert :
    (k j v : Bytes) (m : Entries)
    → lookup j (insert k v m) ≡ (if bytes_eq k j then some v else lookup j m)
unfolding lookup insert
lookup-insert k j v [] = refl
lookup-insert k j v ((i, w) ∷ m) =
    ground (arith, bytes_eq_iff i k, bytes_eq_iff i j, bytes_eq_iff k j, lookup-insert k j v m)

pub lookup-remove :
    (k j : Bytes) (m : Entries)
    → lookup j (remove k m) ≡ (if bytes_eq k j then none else lookup j m)
unfolding lookup remove
lookup-remove k j [] = ground arith
lookup-remove k j ((i, w) ∷ m) =
    ground (arith, bytes_eq_iff i k, bytes_eq_iff i j, bytes_eq_iff k j, lookup-remove k j m)

module _ (k : Bytes) where
  All-insert :
      (x v : Bytes) (m : Entries)
      → lex_lt k x ≡ true
      → All (λ e. lex_lt k e.0 ≡ true) m
      → All (λ e. lex_lt k e.0 ≡ true) (insert x v m)
  unfolding insert
  All-insert x v [] h a = (h, tt)
  All-insert x v ((j, w) ∷ m) h a = elim (Bool-cases (bytes_eq j x)) [
    | inl e ↦ rw e (h, a.1)
    | inr e ↦ rw e (elim (Bool-cases (lex_lt x j)) [
      | inl l ↦ rw l (h, a)
      | inr l ↦ rw l (a.0, All-insert x v m h a.1)
    ])
  ]

  All-remove :
      (x : Bytes) (m : Entries)
      → All (λ e. lex_lt k e.0 ≡ true) m
      → All (λ e. lex_lt k e.0 ≡ true) (remove x m)
  unfolding remove
  All-remove x [] a = tt
  All-remove x ((j, w) ∷ m) a = elim (Bool-cases (bytes_eq j x)) [
    | inl e ↦ rw e (All-remove x m a.1)
    | inr e ↦ rw e (a.0, All-remove x m a.1)
  ]

All-lex_lt_trans :
    (k j : Bytes) (m : Entries)
    → lex_lt k j ≡ true
    → All (λ e. lex_lt j e.0 ≡ true) m
    → All (λ e. lex_lt k e.0 ≡ true) m
All-lex_lt_trans k j [] h a = tt
All-lex_lt_trans k j (e ∷ m) h a = (lex_lt_trans k j e.0 h a.0, All-lex_lt_trans k j m h a.1)

pub insert-IsSorted : (k v : Bytes) (m : Entries) → IsSorted m → IsSorted (insert k v m)
unfolding insert
insert-IsSorted k v [] s = (tt, tt)
insert-IsSorted k v ((j, w) ∷ m) s = elim (Bool-cases (bytes_eq j k)) [
  | inl e ↦ rw e (rw (sym ((bytes_eq_iff j k).0 e)) s)
  | inr e ↦ rw e (elim (Bool-cases (lex_lt k j)) [
    | inl l ↦ rw l ((l, All-lex_lt_trans k j m l s.0), s)
    | inr l ↦ rw l (All-insert j k v m (lex_lt_total k j e l) s.0, insert-IsSorted k v m s.1)
  ])
]

pub remove-IsSorted : (k : Bytes) (m : Entries) → IsSorted m → IsSorted (remove k m)
unfolding remove
remove-IsSorted k [] s = tt
remove-IsSorted k ((j, w) ∷ m) s = elim (Bool-cases (bytes_eq j k)) [
  | inl e ↦ rw e (remove-IsSorted k m s.1)
  | inr e ↦ rw e (All-remove j k m s.0, remove-IsSorted k m s.1)
]

pub seek-IsSorted : (k : Bytes) (m : Entries) → IsSorted m → IsSorted (seek k m)
unfolding seek
seek-IsSorted k [] s = tt
seek-IsSorted k ((j, w) ∷ m) s = elim (Bool-cases (lex_lt j k)) [
  | inl l ↦ rw l (seek-IsSorted k m s.1)
  | inr l ↦ rw l s
]

-- A key below all others is not among them.
pub lookup_below :
    (k : Bytes) (es : Entries) → All (λ e. lex_lt k e.0 ≡ true) es → lookup k es ≡ none
unfolding lookup
lookup_below k [] a = refl
lookup_below k ((j, w) ∷ es) a =
    ground (arith, lookup_below k es a.1, bytes_eq_iff j k, lex_lt_irrefl k, a.0)
