-- ===== src/Ranges2go/Dedupe.antt =====
-- pkg/net/cloudcidrs/internal/ranges2go/prefix_helpers.go: `dedupeSortedPrefixes` with its writes. A
-- list is the memory of the slice, and none a panic by an index that is out of range.
use registry_k8s_io.Netip.{Prefix}
use registry_k8s_io.Prelude.{
  ℕ, zero, suc, ◌+◌, ◌-◌, ◌≤◌, ◌≡◌, ◌∙◌, refl, sym, ap, arith, false, not, Bool-cases, inl, inr,
  ltb, leb, Option, none, some, List, [], ◌∷◌, ◌++◌, append-nil, append_assoc, length,
  length-append, text_beq, if◌then◌else◌,
}
use registry_k8s_io.Prelude.Arrays.{
  get_elem?, set, take, get_elem?-append_length, length-set, set-append, take-append, take-set,
}
use registry_k8s_io.Ranges2go.{PrefixText, dedupe_from, dedupe_sorted_prefixes}

-- `s[j] = p`
abbrev write : List Prefix → ℕ → Prefix → Option (List Prefix)
write s j p = if ltb j (length s) then some (set s j p) else none

module _ (c : PrefixText) where
  -- One round of the loop: the memory and `j` after it.
  unfoldable pub dedupe_round : ℕ → ℕ → List Prefix → Option (List Prefix × ℕ)
  dedupe_round i j s = elim (get_elem? s i) [
    | none ↦ none
    | some p ↦ elim (get_elem? s (i - 1)) [
      | none ↦ none
      | some previous ↦
          if not (text_beq (c.string p) (c.string previous))
          then elim (write s j p) [ none ↦ none | some s' ↦ some (s', j + 1) ]
          else some (s, j)
    ]
  ]

  -- The loop, by the rounds that are left.
  unfoldable pub dedupe_loop : ℕ → ℕ → ℕ → List Prefix → Option (List Prefix × ℕ)
  unfolding dedupe_round
  dedupe_loop zero i j s = some (s, j)
  dedupe_loop (suc rounds) i j s = elim (dedupe_round i j s) [
    | none ↦ none
    | some (s', j') ↦ dedupe_loop rounds (i + 1) j' s'
  ]

  -- The memory after the call, and the length of the slice that is returned.
  unfoldable pub dedupe_in_place : List Prefix → Option (List Prefix × ℕ)
  unfolding dedupe_loop
  dedupe_in_place s =
      if leb (length s) 1 then some (s, length s) else dedupe_loop (length s - 1) 1 1 s

  round_lem :
      (front rest : List Prefix) (previous p : Prefix) (i j : ℕ)
      → i ≡ length front + 1
      → j ≤ i
      → dedupe_round i j (front ++ previous ∷ p ∷ rest) ≡ (
          if not (text_beq (c.string p) (c.string previous))
          then some (set (front ++ previous ∷ []) j p ++ p ∷ rest, j + 1)
          else some ((front ++ previous ∷ []) ++ p ∷ rest, j))
  unfolding dedupe_round
  round_lem front rest previous p i j h k =
      rw (sym (append_assoc front (previous ∷ []) (p ∷ rest))) (
        rw (dedupe_round, read, read_previous)
          (ground (
            arith,
            set-append (front ++ previous ∷ []) rest p j (omega (arith, seen)),
            length-append (front ++ previous ∷ []) (p ∷ rest),
            seen,
          )))
    where
      seen : length (front ++ previous ∷ []) ≡ i
      seen = omega (arith, length-append front (previous ∷ []))

      read : get_elem? ((front ++ previous ∷ []) ++ p ∷ rest) i ≡ some p
      read = get_elem?-append_length (front ++ previous ∷ []) rest p i (sym seen)

      read_previous : get_elem? ((front ++ previous ∷ []) ++ p ∷ rest) (i - 1) ≡ some previous
      read_previous =
          ap (λ l. get_elem? l (i - 1)) (append_assoc front (previous ∷ []) (p ∷ rest))
          ∙ get_elem?-append_length front (p ∷ rest) previous (i - 1) (omega arith)

  -- What the loop leaves, of the memory from `previous` on.
  abbrev Left : List Prefix → ℕ → Prefix → List Prefix → Option (List Prefix × ℕ) → Type 0
  Left seen j previous rest r =
      (memory : List Prefix) × (k : ℕ) × (r ≡ some (memory, k))
      × (k ≤ length memory)
      × (length memory ≡ length seen + length rest)
      × (take k memory ≡ take j seen ++ dedupe_from c previous rest)

  dedupe_loop-Left :
      (rest front : List Prefix) (previous : Prefix) (i j : ℕ)
      → i ≡ length front + 1
      → j ≤ i
      → Left
          (front ++ previous ∷ [])
          j
          previous
          rest
          (dedupe_loop (length rest) i j (front ++ previous ∷ rest))
  unfolding dedupe_loop dedupe_from
  dedupe_loop-Left [] front previous i j h k = (
    front ++ previous ∷ [],
    j,
    refl,
    omega (arith, length-append front (previous ∷ [])),
    omega arith,
    sym (append-nil (take j (front ++ previous ∷ []))),
  )
  dedupe_loop-Left (p ∷ rest) front previous i j h k =
      elim (Bool-cases (text_beq (c.string p) (c.string previous))) [
        | inl same ↦
            let step : dedupe_round i j (front ++ previous ∷ p ∷ rest)
                ≡ some ((front ++ previous ∷ []) ++ p ∷ rest, j) =
              round_lem front rest previous p i j h k ∙ ground (arith, same) in
            let (memory, n, e, fits, size, t) =
              dedupe_loop-Left rest (front ++ previous ∷ []) p (i + 1) j (omega (arith, seen))
                (omega arith) in
            (
              memory,
              n,
              rw (dedupe_loop, step) e,
              fits,
              omega (arith, size, length-append (front ++ previous ∷ []) (p ∷ [])),
              rw same (
                  t
                  ∙ ap (λ l. l ++ dedupe_from c p rest)
                      (take-append (front ++ previous ∷ []) (p ∷ []) j (omega (arith, seen)))),
            )
        | inr other ↦
            let step : dedupe_round i j (front ++ previous ∷ p ∷ rest)
                ≡ some (set (front ++ previous ∷ []) j p ++ p ∷ rest, j + 1) =
              round_lem front rest previous p i j h k ∙ ground (arith, other) in
            let (memory, n, e, fits, size, t) =
              dedupe_loop-Left rest (set (front ++ previous ∷ []) j p) p (i + 1) (j + 1)
                (omega (arith, seen, length-set (front ++ previous ∷ []) j p)) (omega arith) in
            let one_more : j + 1 ≡ suc j = omega arith in
            (
              memory,
              n,
              rw (dedupe_loop, step) e,
              fits,
              omega (
                arith,
                size,
                length-append (set (front ++ previous ∷ []) j p) (p ∷ []),
                length-set (front ++ previous ∷ []) j p,
              ),
              rw other (
                  t
                  ∙ ap (λ l. l ++ dedupe_from c p rest)
                      (ap (λ (m : ℕ). take m (set (front ++ previous ∷ []) j p ++ p ∷ [])) one_more
                        ∙ take-set (front ++ previous ∷ []) p j (omega (arith, seen)))
                  ∙ append_assoc (take j (front ++ previous ∷ [])) (p ∷ []) (dedupe_from c p rest)),
            )
      ]
    where
      seen : length (front ++ previous ∷ []) ≡ i
      seen = omega (arith, length-append front (previous ∷ []))

  -- The call reads and writes no index out of range, for any slice; and the slice that it returns, which
  -- is the front of its own memory, has the prefixes that differ from the one before them in the slice
  -- as it was, though the loop compares with what it may have written.
  pub dedupe_in_place-eq-dedupe :
      (s : List Prefix)
      → (memory : List Prefix) × (k : ℕ) × (dedupe_in_place s ≡ some (memory, k))
        × (k ≤ length memory)
        × (length memory ≡ length s)
        × (take k memory ≡ dedupe_sorted_prefixes c s)
  unfolding dedupe_in_place dedupe_sorted_prefixes dedupe_from
  dedupe_in_place-eq-dedupe [] = ([], 0, refl, omega arith, refl, refl)
  dedupe_in_place-eq-dedupe (p ∷ []) = (p ∷ [], 1, refl, omega arith, refl, refl)
  dedupe_in_place-eq-dedupe (p ∷ q ∷ rest) =
      let (memory, k, e, fits, size, t) =
        dedupe_loop-Left (q ∷ rest) [] p 1 1 (omega arith) (omega arith) in
      (memory, k, rw (long, one_less) e, fits, omega (arith, size), t)
    where
      long : leb (length (p ∷ q ∷ rest)) 1 ≡ false
      long = ground arith

      one_less : length (p ∷ q ∷ rest) - 1 ≡ length (q ∷ rest)
      one_less = omega arith
