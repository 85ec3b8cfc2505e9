-- ===== src/Base/Exec.antt =====
-- Fallible code that acts on a world: the effects made before an error stay.
use diynamo.Base.Errors.{Result, ok, err}

abbrev pub Exec {ℓ} : Type ℓ → Type ℓ → Type ℓ
Exec W A = W → Result A × W

-- Goes on with the value, or ends with the error.
abbrev pub continue {ℓ} : {W A B : Type ℓ} → Result A → (A → Exec W B) → Exec W B
continue (ok a) f w = f a w
continue (err e) f w = (err e, w)

infixl 5 ◌>>=◌ ◌>>◌
abbrev pub ◌>>=◌ {ℓ} : {W A B : Type ℓ} → Exec W A → (A → Exec W B) → Exec W B
◌>>=◌ m f w = continue (m w).0 f (m w).1

abbrev pub ◌>>◌ {ℓ} : {W A B : Type ℓ} → Exec W A → Exec W B → Exec W B
m >> k = m >>= λ _. k

-- A pure step.
abbrev pub lift {ℓ} : {W A : Type ℓ} → Result A → Exec W A
lift r w = (r, w)
