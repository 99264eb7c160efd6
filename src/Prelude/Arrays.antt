-- ===== src/Prelude/Arrays.antt =====
-- Lists as arrays: reads and writes by an index.
use Prim.Native.Nat.{ℕ, zero, suc, ◌≤◌}
use mathlib.Core.Path.{◌≡◌, refl, ap}
use mathlib.Core.List.{List, [], ◌∷◌, ◌++◌}
use mathlib.Core.Option.{Option, none, some}
use native.Mathlib.Omega.{arith}
use registry_k8s_io.Prelude.Lists.{length}

module _ {ℓ} {A : Type ℓ} where
  abbrev pub get_elem? : List A → ℕ → Option A
  get_elem? [] i = none
  get_elem? (x ∷ xs) zero = some x
  get_elem? (x ∷ xs) (suc i) = get_elem? xs i

  abbrev pub set : List A → ℕ → A → List A
  set [] i v = []
  set (x ∷ xs) zero v = v ∷ xs
  set (x ∷ xs) (suc i) v = x ∷ set xs i v

  abbrev pub take : ℕ → List A → List A
  take zero xs = []
  take (suc n) [] = []
  take (suc n) (x ∷ xs) = x ∷ take n xs

  pub get_elem?-append_length :
      (xs ys : List A) (y : A) (i : ℕ) → i ≡ length xs → get_elem? (xs ++ y ∷ ys) i ≡ some y
  get_elem?-append_length [] ys y zero h = refl
  get_elem?-append_length [] ys y (suc i) h = absurd (omega arith)
  get_elem?-append_length (x ∷ xs) ys y zero h = absurd (omega arith)
  get_elem?-append_length (x ∷ xs) ys y (suc i) h = get_elem?-append_length xs ys y i (omega arith)

  pub length-set : (xs : List A) (i : ℕ) (v : A) → length (set xs i v) ≡ length xs
  length-set [] i v = refl
  length-set (x ∷ xs) zero v = refl
  length-set (x ∷ xs) (suc i) v = ap suc (length-set xs i v)

  -- A write at or before an element that is written again.
  pub set-append :
      (xs ys : List A) (y : A) (i : ℕ)
      → i ≤ length xs
      → set (xs ++ y ∷ ys) i y ≡ set xs i y ++ y ∷ ys
  set-append [] ys y zero h = refl
  set-append [] ys y (suc i) h = absurd (omega arith)
  set-append (x ∷ xs) ys y zero h = refl
  set-append (x ∷ xs) ys y (suc i) h = ap (λ l. x ∷ l) (set-append xs ys y i (omega arith))

  pub take-append : (xs ys : List A) (n : ℕ) → n ≤ length xs → take n (xs ++ ys) ≡ take n xs
  take-append xs ys zero h = refl
  take-append [] ys (suc n) h = absurd (omega arith)
  take-append (x ∷ xs) ys (suc n) h = ap (λ l. x ∷ l) (take-append xs ys n (omega arith))

  pub take-set :
      (xs : List A) (y : A) (n : ℕ)
      → n ≤ length xs
      → take (suc n) (set xs n y ++ y ∷ []) ≡ take n xs ++ y ∷ []
  take-set [] y zero h = refl
  take-set [] y (suc n) h = absurd (omega arith)
  take-set (x ∷ xs) y zero h = refl
  take-set (x ∷ xs) y (suc n) h = ap (λ l. x ∷ l) (take-set xs y n (omega arith))
