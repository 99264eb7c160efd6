-- ===== src/Cidrs/Mapping.antt =====
-- A Go map from values to their prefixes, in one order of its iteration, and the pairs that a pair
-- of nested loops over it visits.
use mathlib.Core.List.{Memᴰ}
use registry_k8s_io.Netip.{Addr, Prefix, IsValid, bits, contains}
use registry_k8s_io.Prelude.{◌≡◌, ◌↔◌, true, List, [], ◌∷◌, ◌++◌, All}

abbrev pub Mapping {ℓ} : Type ℓ → Type ℓ
Mapping V = List (V × List Prefix)

module _ {ℓ} {V : Type ℓ} where
  -- The pairs of one value.
  unfoldable pub pairs : V → List Prefix → List (Prefix × V)
  pairs v [] = []
  pairs v (cidr ∷ cidrs) = (cidr, v) ∷ pairs v cidrs

  unfoldable pub entries : Mapping V → List (Prefix × V)
  unfolding pairs
  entries [] = []
  entries ((v, cidrs) ∷ m) = pairs v cidrs ++ entries m

  -- Another order of the same pairs.
  abbrev pub SameEntries : List (Prefix × V) → List (Prefix × V) → Type ℓ
  SameEntries l k = (x : Prefix × V) → Memᴰ x l ↔ Memᴰ x k

  -- All prefixes that contain the address have one value.
  abbrev pub Agree : Addr → List (Prefix × V) → Type ℓ
  Agree ip l =
      (x y : Prefix × V)
      → Memᴰ x l
      → Memᴰ y l
      → contains x.0 ip ≡ true
      → contains y.0 ip ≡ true
      → x.1 ≡ y.1

  -- Those of one length have one value.
  abbrev pub AgreeByLength : Addr → List (Prefix × V) → Type ℓ
  AgreeByLength ip l =
      (x y : Prefix × V)
      → Memᴰ x l
      → Memᴰ y l
      → contains x.0 ip ≡ true
      → contains y.0 ip ≡ true
      → bits x.0 ≡ bits y.0
      → x.1 ≡ y.1

  abbrev pub AllValid : List (Prefix × V) → Type 0
  AllValid l = All (λ (x : Prefix × V). IsValid x.0) l
