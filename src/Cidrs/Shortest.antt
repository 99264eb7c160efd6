-- ===== src/Cidrs/Shortest.antt =====
-- What a mapper promises, without a trie: the last inserted among the shortest prefixes that
-- contain the address.
use registry_k8s_io.Netip.{Addr, Prefix, bits, contains}
use registry_k8s_io.Prelude.{
  ◌≤◌, ◌≡◌, refl, ap, arith, true, false, Option, none, some, List, [], ◌∷◌, ◌++◌, All, ltb,
  if◌then◌else◌, ◌⊎◌, inl, inr, All-imp, Option-cases,
}
use mathlib.Core.List.{Memᴰ}
use native.Mathlib.Nat.{le_trans, le_of_eq}

module _ {ℓ} {V : Type ℓ} where
  -- Of an earlier pair and what is chosen of the later ones: the earlier only if it is shorter.
  abbrev pub earlier : Prefix × V → Option (Prefix × V) → Option (Prefix × V)
  earlier first none = some first
  earlier first (some later) = if ltb (bits first.0) (bits later.0) then some first else some later

  unfoldable pub shortest : Addr → List (Prefix × V) → Option (Prefix × V)
  shortest ip [] = none
  shortest ip ((p, v) ∷ rest) =
      let later = shortest ip rest in if contains p ip then earlier (p, v) later else later

  -- Of what is chosen so far and a new pair: the old only if it is shorter.
  abbrev pub replaced : Option (Prefix × V) → Prefix × V → Option (Prefix × V)
  replaced none new = some new
  replaced (some old) new = if ltb (bits old.0) (bits new.0) then some old else some new

  pub shortest-append :
      (ip : Addr) (l : List (Prefix × V)) (p : Prefix) (v : V)
      → shortest ip (l ++ (p, v) ∷ [])
        ≡ (if contains p ip then replaced (shortest ip l) (p, v) else shortest ip l)
  unfolding shortest
  shortest-append ip [] p v = refl
  shortest-append ip ((q, w) ∷ l) p v = ground (arith, shortest-append ip l p v)

  -- A chosen pair is the first, or the one chosen of the rest.
  shortest-cons :
      (ip : Addr) (p : Prefix) (v : V) (l : List (Prefix × V)) (b : Prefix × V)
      → shortest ip ((p, v) ∷ l) ≡ some b
      → (b ≡ (p, v)) ⊎ (shortest ip l ≡ some b)
  unfolding shortest
  shortest-cons ip p v l b e = ground arith

  -- It is in the list, contains the address, and no prefix that does is shorter.
  pub shortest-mem :
      (ip : Addr) (l : List (Prefix × V)) (b : Prefix × V) → shortest ip l ≡ some b → Memᴰ b l
  unfolding shortest
  shortest-mem ip [] b e = cc
  shortest-mem ip ((p, v) ∷ l) b e = elim (shortest-cons ip p v l b e) [
    | inl first ↦ Memᴰ.head first
    | inr later ↦ Memᴰ.tail (shortest-mem ip l b later)
  ]

  pub shortest-contains :
      (ip : Addr) (l : List (Prefix × V)) (b : Prefix × V)
      → shortest ip l ≡ some b
      → contains b.0 ip ≡ true
  unfolding shortest
  shortest-contains ip [] b e = cc
  shortest-contains ip ((p, v) ∷ l) b e = ground (arith, shortest-contains ip l b)

  pub shortest-eq-none :
      (ip : Addr) (l : List (Prefix × V))
      → shortest ip l ≡ none
      → All (λ e. contains e.0 ip ≡ false) l
  unfolding shortest
  shortest-eq-none ip [] e = tt
  shortest-eq-none ip ((p, v) ∷ l) e = ground (arith, shortest-eq-none ip l)

  -- The bound that a later choice gives holds for the pair that is chosen over it.
  shortest-cons_le :
      (ip : Addr) (p : Prefix) (v : V) (l : List (Prefix × V)) (b c : Prefix × V)
      → shortest ip ((p, v) ∷ l) ≡ some b
      → shortest ip l ≡ some c
      → (bits b.0 ≤ bits c.0) × (contains p ip ≡ true → bits b.0 ≤ bits p)
  unfolding shortest
  shortest-cons_le ip p v l b c e f = ground arith

  pub shortest-least :
      (ip : Addr) (l : List (Prefix × V)) (b : Prefix × V)
      → shortest ip l ≡ some b
      → All (λ e. contains e.0 ip ≡ true → bits b.0 ≤ bits e.0) l
  shortest-least ip [] b e = tt
  shortest-least ip ((p, v) ∷ l) b e = elim (Option-cases (shortest ip l)) [
    | inl nothing ↦ (
      λ _. alone nothing (shortest-cons ip p v l b e),
      All-imp l (λ (q, w) outside inside. cc) (shortest-eq-none ip l nothing),
    )
    | inr (c, later) ↦
        let (below, here) = shortest-cons_le ip p v l b c e later in
        (
          here,
          All-imp l (λ x least inside. le_trans below (least inside)) (shortest-least ip l c later),
        )
  ]
    where
      alone : shortest ip l ≡ none → (b ≡ (p, v)) ⊎ (shortest ip l ≡ some b) → bits b.0 ≤ bits p
      alone nothing (inl first) = le_of_eq (ap (λ (x : Prefix × V). bits x.0) first)
      alone nothing (inr later) = cc
