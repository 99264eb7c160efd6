-- ===== src/Prelude/GoMap.antt =====
-- Go's maps, as association lists with one entry for each key. Go fixes no order of iteration:
-- a theorem about a loop over a map ranges over every list of its entries.
use mathlib.Core.Path.{◌≡◌, refl}
use mathlib.Core.Option.{Option, none, some}
use mathlib.Core.List.{List, [], ◌∷◌}
use native.Mathlib.Omega.{arith}
use Prim.Native.Nat.{◌+◌}
use registry_k8s_io.Prelude.Texts.{Comparable}
use registry_k8s_io.Prelude.Lists.{length}
use registry_k8s_io.Prelude.Tests.{if◌then◌else◌}

module _ {ℓ κ} {K : Type ℓ} {V : Type κ} ⦃e : Comparable K⦄ where
  unfoldable pub lookup : K → List (K × V) → Option V
  lookup k [] = none
  lookup k ((j, v) ∷ m) = if e.equal j k then some v else lookup k m

  unfoldable pub store : K → V → List (K × V) → List (K × V)
  store k v [] = (k, v) ∷ []
  store k v ((j, w) ∷ m) = if e.equal j k then (k, v) ∷ m else (j, w) ∷ store k v m

  pub lookup-store :
      (k j : K) (v : V) (m : List (K × V))
      → lookup j (store k v m) ≡ (if e.equal k j then some v else lookup j m)
  unfolding lookup store
  lookup-store k j v [] = refl
  lookup-store k j v ((i, w) ∷ m) =
      ground (arith, e.equal_iff k j, e.equal_iff i k, e.equal_iff i j, lookup-store k j v m)

  -- A new key makes the map longer by one.
  pub length-store_new :
      (k : K) (v : V) (m : List (K × V)) → lookup k m ≡ none → length (store k v m) ≡ length m + 1
  unfolding lookup store
  length-store_new k v [] h = refl
  length-store_new k v ((i, w) ∷ m) h = ground (arith, length-store_new k v m)
