-- ===== src/Base/ByteStrings.antt =====
-- Byte strings: equality, the lexicographic order, prefixes.
use Prim.Native.Nat.{ℕ}
use Prim.Native.Char.{code}
use Prim.Native.String.{String}
use mathlib.Core.Path.{◌≡◌, refl}
use mathlib.Core.Logic.{◌↔◌}
use mathlib.Core.Bool.{Bool, true, false, ◌&&◌, ◌||◌}
use mathlib.Core.List.{List, [], ◌∷◌, ◌++◌}
use native.Mathlib.Omega.{arith}
use diynamo.Base.Tests.{◌==◌, ltb}

-- A `Vec<u8>`, a `&[u8]`, or the bytes of a `String`.
abbrev pub Bytes : Type 0
Bytes = List ℕ

-- The bytes of an ASCII literal.
abbrev pub codes : String → Bytes
codes String.[] = []
codes (String.◌∷◌ c s) = code c ∷ codes s

unfoldable pub bytes_eq : Bytes → Bytes → Bool
bytes_eq [] [] = true
bytes_eq (a ∷ s) (b ∷ t) = (a == b) && bytes_eq s t
bytes_eq _ _ = false

pub bytes_eq→eq : (s t : Bytes) → bytes_eq s t ≡ true → s ≡ t
unfolding bytes_eq
bytes_eq→eq [] [] h = refl
bytes_eq→eq [] (b ∷ t) h = cc
bytes_eq→eq (a ∷ s) [] h = cc
bytes_eq→eq (a ∷ s) (b ∷ t) h = ground (arith, bytes_eq→eq s t)

pub bytes_eq_refl : (s : Bytes) → bytes_eq s s ≡ true
unfolding bytes_eq
bytes_eq_refl [] = refl
bytes_eq_refl (a ∷ s) = ground (arith, bytes_eq_refl s)

pub bytes_eq_iff : (s t : Bytes) → (bytes_eq s t ≡ true) ↔ (s ≡ t)
bytes_eq_iff s t = (bytes_eq→eq s t, λ e. rw e (bytes_eq_refl t))

-- `slice::starts_with`.
unfoldable pub starts_with : Bytes → Bytes → Bool
starts_with s [] = true
starts_with [] (b ∷ p) = false
starts_with (a ∷ s) (b ∷ p) = (a == b) && starts_with s p

-- `[String]::join`.
unfoldable pub join : Bytes → List Bytes → Bytes
join separator [] = []
join separator (s ∷ []) = s
join separator (s ∷ t ∷ rest) = s ++ (separator ++ join separator (t ∷ rest))

-- The bytewise order in which the database iterates.
unfoldable pub lex_lt : Bytes → Bytes → Bool
lex_lt s [] = false
lex_lt [] (b ∷ t) = true
lex_lt (a ∷ s) (b ∷ t) = ltb a b || ((a == b) && lex_lt s t)

-- Whether a byte occurs, as in `str::contains` of an ASCII character.
unfoldable pub contains : Bytes → ℕ → Bool
contains [] c = false
contains (a ∷ s) c = (a == c) || contains s c

pub starts_with-append : (p s : Bytes) → starts_with (p ++ s) p ≡ true
unfolding starts_with
starts_with-append [] s = refl
starts_with-append (a ∷ p) s = ground (arith, starts_with-append p s)

pub lex_lt_trans : (s t u : Bytes) → lex_lt s t ≡ true → lex_lt t u ≡ true → lex_lt s u ≡ true
unfolding lex_lt
lex_lt_trans s t [] h k = cc
lex_lt_trans s [] (c ∷ u) h k = cc
lex_lt_trans [] (b ∷ t) (c ∷ u) h k = refl
lex_lt_trans (a ∷ s) (b ∷ t) (c ∷ u) h k = ground (arith, lex_lt_trans s t u)

pub lex_lt_irrefl : (s : Bytes) → lex_lt s s ≡ false
unfolding lex_lt
lex_lt_irrefl [] = refl
lex_lt_irrefl (a ∷ s) = ground (arith, lex_lt_irrefl s)

pub lex_lt_total : (s t : Bytes) → bytes_eq t s ≡ false → lex_lt s t ≡ false → lex_lt t s ≡ true
unfolding lex_lt bytes_eq
lex_lt_total [] [] h k = cc
lex_lt_total [] (b ∷ t) h k = cc
lex_lt_total (a ∷ s) [] h k = refl
lex_lt_total (a ∷ s) (b ∷ t) h k = ground (arith, lex_lt_total s t)

-- A string that starts with `p` is not before `p`.
pub starts_with-lex_lt : (s p : Bytes) → starts_with s p ≡ true → lex_lt s p ≡ false
unfolding lex_lt starts_with
starts_with-lex_lt s [] h = refl
starts_with-lex_lt [] (b ∷ p) h = cc
starts_with-lex_lt (a ∷ s) (b ∷ p) h = ground (arith, starts_with-lex_lt s p)

-- The strings that start with `p` are contiguous: behind one that is not before `p` and does not
-- start with `p`, none does.
pub starts_with_contiguous :
    (p k j : Bytes)
    → lex_lt k p ≡ false
    → starts_with k p ≡ false
    → lex_lt k j ≡ true
    → starts_with j p ≡ false
unfolding lex_lt starts_with
starts_with_contiguous [] k j h n l = cc
starts_with_contiguous (b ∷ p) [] j h n l = cc
starts_with_contiguous (b ∷ p) (a ∷ k) [] h n l = cc
starts_with_contiguous (b ∷ p) (a ∷ k) (c ∷ j) h n l = ground (arith, starts_with_contiguous p k j)
