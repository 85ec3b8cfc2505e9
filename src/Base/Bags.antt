-- ===== src/Base/Bags.antt =====
-- Lists compared as bags: how many elements pass each test.
use Prim.Native.Nat.{ℕ, zero, suc, ◌+◌, ◌≤◌, ◌<◌}
use mathlib.Core.Path.{◌≡◌, refl}
use mathlib.Core.Bool.{Bool, true, not}
use mathlib.Core.Logic.{inl, inr}
use mathlib.Core.List.{List, [], ◌∷◌, ◌++◌}
use native.Mathlib.Omega.{arith}
use diynamo.Base.Tests.{if◌then◌else◌, Bool-cases}
use diynamo.Base.Lists.{length, take, drop, In}

module _ {A : Type 0} where
  unfoldable pub count : (A → Bool) → List A → ℕ
  count p [] = 0
  count p (x ∷ xs) = if p x then suc (count p xs) else count p xs

  -- Every element of the first list is one of the second, at most as often.
  abbrev pub SubBag : List A → List A → Type 0
  SubBag xs ys = (p : A → Bool) → count p xs ≤ count p ys

  pub count-append : (p : A → Bool) (xs ys : List A) → count p (xs ++ ys) ≡ count p xs + count p ys
  unfolding count
  count-append p [] ys = omega arith
  count-append p (x ∷ xs) ys = ground (arith, count-append p xs ys)

  pub count-take-drop :
      (p : A → Bool) (n : ℕ) (xs : List A) → count p (take n xs) + count p (drop n xs) ≡ count p xs
  unfolding count
  count-take-drop p zero xs = omega arith
  count-take-drop p (suc n) [] = omega arith
  count-take-drop p (suc n) (x ∷ xs) = ground (arith, count-take-drop p n xs)

  pub count-not : (p : A → Bool) (xs : List A) → count p xs + count (λ x. not (p x)) xs ≡ length xs
  unfolding count
  count-not p [] = omega arith
  count-not p (x ∷ xs) = ground (arith, count-not p xs)

  pub In-count : (p : A → Bool) (a : A) (xs : List A) → In a xs → p a ≡ true → 0 < count p xs
  unfolding count
  In-count p a [] i h = absurd i
  In-count p a (x ∷ xs) (inl e) h = rw (← e, h) (omega arith)
  In-count p a (x ∷ xs) (inr i) h = ground (arith, In-count p a xs i h)

  pub count-In : (p : A → Bool) (xs : List A) → 0 < count p xs → (a : A) × In a xs × (p a ≡ true)
  unfolding count
  count-In p [] h = absurd (omega arith)
  count-In p (x ∷ xs) h = elim (Bool-cases (p x)) [
    | inl here ↦ (x, inl refl, here)
    | inr later ↦ let (a, i, e) = count-In p xs (rw later at h) in (a, inr i, e)
  ]
