-- ===== src/Base/Errors.antt =====
-- `anyhow::Result`, and stateful code that may fail.
use Prim.Native.Nat.{ℕ}
use Prim.Native.String.{String}
use mathlib.Core.Path.{◌≡◌, refl}
use mathlib.Core.Logic.{◌⊎◌, inl, inr}
use mathlib.Core.Bool.{Bool, true, false}
use diynamo.Base.Tests.{if◌then◌else◌}

-- `quorum_failed` is the typed error that the server downcasts to; `message` stands for every
-- other error, with its outermost context; `panicked` is an unwinding panic.
pub data Error : Type 0 where
  quorum_failed : ℕ → ℕ → Error
  message : String → Error
  panicked : String → Error

pub data Result {ℓ} (A : Type ℓ) : Type ℓ where
  ok : A → Result A
  err : Error → Result A

infixl 5 ◌>>=◌
abbrev pub ◌>>=◌ {ℓ κ} : {X : Type ℓ} {Y : Type κ} → Result X → (X → Result Y) → Result Y
err e >>= rest = err e
ok x >>= rest = rest x

-- `.context(msg)`, `.with_context(|| msg)`: the error's outermost message becomes `msg`.
abbrev pub context {ℓ} : {A : Type ℓ} → String → Result A → Result A
context msg (ok a) = ok a
context msg (err e) = err (message msg)

-- A chain that succeeds has an intermediate value.
pub >>=-eq-ok {ℓ κ} :
    {X : Type ℓ} {Y : Type κ} {last : Y} (first : Result X) (rest : X → Result Y)
    → (first >>= rest) ≡ ok last
    → (x : X) × (first ≡ ok x) × (rest x ≡ ok last)
>>=-eq-ok (err _) rest done = cc
>>=-eq-ok (ok x) rest done = (x, refl, done)

pub context-eq-ok {ℓ} :
    {A : Type ℓ} (msg : String) (m : Result A) {a : A} → context msg m ≡ ok a → m ≡ ok a
context-eq-ok msg (ok a) h = h
context-eq-ok msg (err e) h = cc

pub ok-injective {ℓ} : {A : Type ℓ} (a b : A) → ok a ≡ ok b → a ≡ b
ok-injective a b h = cc

-- Inversion of a guard that returns an error.
pub guard-eq-ok {ℓ} :
    {A : Type ℓ} (b : Bool) (e : Error) (m : Result A) {a : A}
    → (if b then err e else m) ≡ ok a
    → (b ≡ false) × (m ≡ ok a)
guard-eq-ok true e m h = cc
guard-eq-ok false e m h = (refl, h)

pub Result-cases {ℓ} :
    {A : Type ℓ} (r : Result A) → ((a : A) × (r ≡ ok a)) ⊎ ((e : Error) × (r ≡ err e))
Result-cases (ok a) = inl (a, refl)
Result-cases (err e) = inr (e, refl)
