-- ===== src/Store/Hints/Scan.antt =====
-- The prefix scan of `hints_for_node` (src/store/hints.rs).
use diynamo.Base.{
  ℕ, Bytes, bytes_eq, starts_with, lex_lt, starts_with-append, starts_with_contiguous,
  starts_with-lex_lt, bytes_eq_refl, bytes_eq→eq, ◌⊎◌, ok-injective, lex_lt_trans, length, drop,
  Result, ok, err, >>=-eq-ok, context-eq-ok, none, some, List, [], ◌∷◌, ◌++◌, ◌≡◌, refl, sym, subst,
  arith, inl, inr, In, All, Bool-cases, true, false, bytes_eq_iff,
}
use diynamo.Store.Database.{Bincode, Yields}
use diynamo.Store.Database.Ordered.{lookup_below, Entries, lookup, seek, IsSorted}
use diynamo.Store.Hints.{HintEntry, scan}

drop-append : (p s : Bytes) → drop (length p) (p ++ s) ≡ s
drop-append [] s = refl
drop-append (a ∷ p) s = drop-append p s

append-drop : (p k : Bytes) → starts_with k p ≡ true → p ++ drop (length p) k ≡ k
unfolding starts_with
append-drop [] k h = refl
append-drop (b ∷ p) [] h = cc
append-drop (b ∷ p) (a ∷ k) h = ground (arith, append-drop p k)

-- Seeking to a prefix skips no key that starts with it.
pub lookup-seek :
    (p k : Bytes) (es : Entries) → starts_with k p ≡ true → lookup k (seek p es) ≡ lookup k es
unfolding lookup seek
lookup-seek p k [] h = refl
lookup-seek p k ((j, w) ∷ es) h =
    ground (arith, lookup-seek p k es h, bytes_eq_iff j k, starts_with-lex_lt k p)

-- Every key is at least the prefix.
abbrev pub From : Bytes → Entries → Type 0
From p es = All (λ e. lex_lt e.0 p ≡ false) es

From_of_lt : (p k j : Bytes) → lex_lt k p ≡ false → lex_lt k j ≡ true → lex_lt j p ≡ false
From_of_lt p k j h l = ground (arith, lex_lt_trans k j p)

All-From :
    (p k : Bytes) (es : Entries)
    → lex_lt k p ≡ false
    → All (λ e. lex_lt k e.0 ≡ true) es
    → From p es
All-From p k [] h a = tt
All-From p k (e ∷ es) h a = (From_of_lt p k e.0 h a.0, All-From p k es h a.1)

pub seek-From : (p : Bytes) (es : Entries) → IsSorted es → From p (seek p es)
unfolding seek
seek-From p [] s = tt
seek-From p ((j, w) ∷ es) s = elim (Bool-cases (lex_lt j p)) [
  | inl l ↦ rw l (seek-From p es s.1)
  | inr l ↦ rw l (l, All-From p j es l s.0)
]

-- Behind a key that is past the prefix there is no key with the prefix.
lookup_past :
    (p k key : Bytes) (es : Entries)
    → lex_lt k p ≡ false
    → starts_with k p ≡ false
    → All (λ e. lex_lt k e.0 ≡ true) es
    → lookup (p ++ key) es ≡ none
unfolding lookup
lookup_past p k key [] h n a = refl
lookup_past p k key ((j, w) ∷ es) h n a = ground (
  arith,
  lookup_past p k key es h n a.1,
  bytes_eq_iff j (p ++ key),
  starts_with_contiguous p k j h n a.0,
  starts_with-append p key,
)

abbrev pub HintAt : Bincode HintEntry → Entries → Bytes → Bytes × Bytes × ℕ → Type 0
HintAt codec es p (key, value, timestamp) =
    (b : Bytes) × (lookup (p ++ key) es ≡ some b)
    × (codec.deserialize b ≡ ok (record { timestamp = timestamp; data' = value }))

module _ (codec : Bincode HintEntry) (p : Bytes) where
  HintAt-head :
      (k v : Bytes) (es : Entries) (hint : HintEntry)
      → starts_with k p ≡ true
      → codec.deserialize v ≡ ok hint
      → HintAt codec ((k, v) ∷ es) p (drop (length p) k, hint.data', hint.timestamp)
  unfolding lookup
  HintAt-head k v es hint w d = (v, rw (append-drop p k w, bytes_eq_refl k), d)

  HintAt-tail :
      (k v : Bytes) (es : Entries) (x : Bytes × Bytes × ℕ)
      → All (λ e. lex_lt k e.0 ≡ true) es
      → HintAt codec es p x
      → HintAt codec ((k, v) ∷ es) p x
  unfolding lookup
  HintAt-tail k v es (key, value, timestamp) a (b, found, d) =
      (b, ground (arith, lookup_below k es a, bytes_eq_iff k (p ++ key)), d)

  HintAt-cases :
      (k v : Bytes) (es : Entries) (hint : HintEntry) (x : Bytes × Bytes × ℕ)
      → codec.deserialize v ≡ ok hint
      → HintAt codec ((k, v) ∷ es) p x
      → (x ≡ (drop (length p) k, hint.data', hint.timestamp)) ⊎ HintAt codec es p x
  unfolding lookup
  HintAt-cases k v es hint (key, value, timestamp) d (b, found, d') =
      elim (Bool-cases (bytes_eq k (p ++ key))) [
        | inl e ↦
            let e' : k ≡ p ++ key = bytes_eq→eq k (p ++ key) e in
            let b' : v ≡ b = ground (arith, found, e) in
            inl (rw (e', drop-append p key) (ground (arith, d, d', b')))
        | inr e ↦ inr (b, ground (arith, found, e), d')
      ]

  HintAt-past :
      (k v : Bytes) (es : Entries) (x : Bytes × Bytes × ℕ)
      → lex_lt k p ≡ false
      → starts_with k p ≡ false
      → All (λ e. lex_lt k e.0 ≡ true) es
      → HintAt codec ((k, v) ∷ es) p x
      → ⊥
  unfolding lookup
  HintAt-past k v es (key, value, timestamp) h n a (b, found, d) = ground (
    arith,
    found,
    lookup_past p k key es h n a,
    bytes_eq_iff k (p ++ key),
    starts_with-append p key,
  )

  -- One round of the scan at a key with the prefix.
  scan_step :
      (k v : Bytes) (items : List (Result (Bytes × Bytes))) (rs : List (Bytes × Bytes × ℕ))
      → starts_with k p ≡ true
      → scan codec p (ok (k, v) ∷ items) ≡ ok rs
      → (hint : HintEntry) × (results : List (Bytes × Bytes × ℕ)) × (codec.deserialize v ≡ ok hint)
        × (scan codec p items ≡ ok results)
        × (rs ≡ (drop (length p) k, hint.data', hint.timestamp) ∷ results)
  unfolding scan
  scan_step k v items rs w h =
      let h' = rw w at h in
      let (hint, d, h'') = >>=-eq-ok _ _ h' in
      let (results, r, e) = >>=-eq-ok _ _ h'' in
      (hint, results, context-eq-ok _ _ d, r, sym (ok-injective _ _ e))

  scan_stop :
      (k v : Bytes) (items : List (Result (Bytes × Bytes))) (rs : List (Bytes × Bytes × ℕ))
      → starts_with k p ≡ false
      → scan codec p (ok (k, v) ∷ items) ≡ ok rs
      → rs ≡ []
  unfolding scan
  scan_stop k v items rs w h = ground arith

  -- What the scan returns is stored.
  pub scan_sound :
      (items : List (Result (Bytes × Bytes))) (es : Entries) (rs : List (Bytes × Bytes × ℕ))
      (x : Bytes × Bytes × ℕ)
      → Yields items es
      → IsSorted es
      → scan codec p items ≡ ok rs
      → In x rs
      → HintAt codec es p x
  unfolding scan
  scan_sound [] es rs x y s h m = absurd (subst (In x) (sym (ok-injective _ _ h)) m)
  scan_sound (err e ∷ items) es rs x y s h m = cc
  scan_sound (ok e ∷ items) [] rs x y s h m = absurd y
  scan_sound (ok (k, v) ∷ items) (e' ∷ es) rs x y s h m =
      subst (λ e. IsSorted (e ∷ es) → HintAt codec (e ∷ es) p x) y.0
        (λ s'. elim (Bool-cases (starts_with k p)) [
          | inl w ↦
              let (hint, results, d, r, e) = scan_step k v items rs w h in
              elim (subst (In x) e m) [
                | inl here ↦
                    subst (HintAt codec ((k, v) ∷ es) p) (sym here) (HintAt-head k v es hint w d)
                | inr later ↦
                    HintAt-tail k v es x s'.0 (scan_sound items es results x y.1 s'.1 r later)
              ]
          | inr w ↦ absurd (subst (In x) (scan_stop k v items rs w h) m)
        ])
        s

  -- What is stored under the prefix is returned.
  pub scan_complete :
      (items : List (Result (Bytes × Bytes))) (es : Entries) (rs : List (Bytes × Bytes × ℕ))
      (x : Bytes × Bytes × ℕ)
      → Yields items es
      → IsSorted es
      → From p es
      → scan codec p items ≡ ok rs
      → HintAt codec es p x
      → In x rs
  unfolding scan lookup
  scan_complete [] [] rs x y s f h (b, found, d) = cc
  scan_complete [] (e ∷ es) rs x y s f h a = absurd y
  scan_complete (err e ∷ items) es rs x y s f h a = cc
  scan_complete (ok e ∷ items) [] rs x y s f h a = absurd y
  scan_complete (ok (k, v) ∷ items) (e' ∷ es) rs x y s f h a =
      subst (λ e. IsSorted (e ∷ es) → From p (e ∷ es) → HintAt codec (e ∷ es) p x → In x rs) y.0
        (λ s' f' a'. elim (Bool-cases (starts_with k p)) [
          | inl w ↦
              let (hint, results, d, r, e) = scan_step k v items rs w h in
              subst (In x) (sym e) (elim (HintAt-cases k v es hint x d a') [
                | inl here ↦ inl here
                | inr later ↦ inr (scan_complete items es results x y.1 s'.1 f'.1 r later)
              ])
          | inr w ↦ absurd (HintAt-past k v es x f'.0 w s'.0 a')
        ])
        s f a
