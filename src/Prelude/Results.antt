-- ===== src/Prelude/Results.antt =====
-- Go's `(value, error)`: a value, or an error with its text.
use mathlib.Core.List.{List}
use mathlib.Core.Option.{some}
use mathlib.Core.Logic.{◌⊎◌, inl, inr}
use mathlib.Core.Path.{◌≡◌, refl}
use Prim.Native.Nat.{ℕ}

pub data Result {ℓ} (A : Type ℓ) : Type ℓ where
  ok : A → Result A
  err : List ℕ → Result A

infixl 5 ◌>>=◌
abbrev pub ◌>>=◌ {ℓ κ} : {A : Type ℓ} {B : Type κ} → Result A → (A → Result B) → Result B
ok a >>= f = f a
err e >>= f = err e

pub Result-cases {ℓ} :
    {A : Type ℓ} (r : Result A) → ((a : A) × (r ≡ ok a)) ⊎ ((e : List ℕ) × (r ≡ err e))
Result-cases (ok a) = inl (a, refl)
Result-cases (err e) = inr (e, refl)

-- The first error of two results.
abbrev pub keep_first {ℓ} : {A : Type ℓ} → Result A → Result A → Result A
keep_first result r = elim result [ err message ↦ err message | ok x ↦ r ]

pub keep_first-ok {ℓ} :
    {A : Type ℓ} (result r : Result A) (a : A)
    → keep_first result r ≡ ok a
    → ((x : A) × (result ≡ ok x)) × (r ≡ ok a)
keep_first-ok (ok x) r a e = ((x, refl), e)
keep_first-ok (err message) r a e = absurd cc

-- A chain that succeeds has succeeded at its first step.
pub Result-then {ℓ κ} :
    {A : Type ℓ} {B : Type κ} (r : Result A) (f : A → Result B) (b : B)
    → (r >>= f) ≡ ok b
    → (a : A) × (r ≡ ok a) × (f a ≡ ok b)
Result-then (ok a) f b e = (a, refl, e)
Result-then (err message) f b e = absurd cc

pub some_inj : {A : Type 0} {a b : A} → some a ≡ some b → a ≡ b
some_inj e = cc

pub ok_inj : {A : Type 0} {a b : A} → ok a ≡ ok b → a ≡ b
ok_inj e = cc
