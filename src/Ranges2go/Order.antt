-- ===== src/Ranges2go/Order.antt =====
-- pkg/net/cloudcidrs/internal/ranges2go/prefix_helpers.go: sorting and dropping repetitions.
use registry_k8s_io.Netip.{Prefix}
use registry_k8s_io.Prelude.{
  ◌≡◌, ◌∙◌, subst, refl, arith, Bool, true, false, ◌||◌, any, All, All-imp, List, [], ◌∷◌, ◌++◌,
  Text, text_beq, text_beq_iff, Bool-cases, inl, inr,
}
use registry_k8s_io.Ranges2go.{
  PrefixText, text_ltb, insert_sorted, sort_slice, dedupe_from, dedupe_sorted_prefixes,
}

pub text_ltb_trans :
    (s t u : Text) → text_ltb s t ≡ true → text_ltb t u ≡ true → text_ltb s u ≡ true
unfolding text_ltb
text_ltb_trans [] [] u h k = cc
text_ltb_trans [] (y ∷ t) [] h k = cc
text_ltb_trans [] (y ∷ t) (z ∷ u) h k = refl
text_ltb_trans (x ∷ s) [] u h k = cc
text_ltb_trans (x ∷ s) (y ∷ t) [] h k = cc
text_ltb_trans (x ∷ s) (y ∷ t) (z ∷ u) h k = ground (arith, text_ltb_trans s t u)

pub text_ltb_total :
    (s t : Text) → text_ltb s t ≡ false → text_beq t s ≡ false → text_ltb t s ≡ true
unfolding text_ltb text_beq
text_ltb_total [] [] h k = cc
text_ltb_total [] (y ∷ t) h k = cc
text_ltb_total (x ∷ s) [] h k = refl
text_ltb_total (x ∷ s) (y ∷ t) h k = ground (arith, text_ltb_total s t)

pub text_ltb_asym : (s t : Text) → text_ltb s t ≡ true → text_ltb t s ≡ false
unfolding text_ltb
text_ltb_asym [] [] h = cc
text_ltb_asym [] (y ∷ t) h = refl
text_ltb_asym (x ∷ s) [] h = cc
text_ltb_asym (x ∷ s) (y ∷ t) h = ground (arith, text_ltb_asym s t)

text_ltb_le : (s t u : Text) → text_ltb t s ≡ false → text_ltb u t ≡ false → text_ltb u s ≡ false
unfolding text_ltb
text_ltb_le [] [] [] h k = refl
text_ltb_le [] [] (z ∷ u) h k = refl
text_ltb_le [] (y ∷ t) [] h k = cc
text_ltb_le [] (y ∷ t) (z ∷ u) h k = refl
text_ltb_le (x ∷ s) [] u h k = cc
text_ltb_le (x ∷ s) (y ∷ t) [] h k = cc
text_ltb_le (x ∷ s) (y ∷ t) (z ∷ u) h k = ground (arith, text_ltb_le s t u)

text_beq_sym : (s t : Text) → text_beq s t ≡ false → text_beq t s ≡ false
text_beq_sym s t h = ground (arith, text_beq_iff s t, text_beq_iff t s)

module _ (c : PrefixText) where
  -- Whether a string is that of a listed prefix.
  unfoldable pub listed : Text → List Prefix → Bool
  listed s l = any (λ p. text_beq (c.string p) s) l

  pub listed-append :
      (s : Text) (l : List Prefix) (p : Prefix)
      → listed s (l ++ p ∷ []) ≡ text_beq (c.string p) s || listed s l
  unfolding listed
  listed-append s [] p = refl
  listed-append s (q ∷ l) p = ground (arith, listed-append s l p)

  listed-insert_sorted :
      (s : Text) (p : Prefix) (l : List Prefix)
      → listed s (insert_sorted c p l) ≡ text_beq (c.string p) s || listed s l
  unfolding listed insert_sorted
  listed-insert_sorted s p [] = refl
  listed-insert_sorted s p (q ∷ l) = ground (arith, listed-insert_sorted s p l)

  listed-sort_slice : (s : Text) (l : List Prefix) → listed s (sort_slice c l) ≡ listed s l
  unfolding listed sort_slice
  listed-sort_slice s [] = refl
  listed-sort_slice s (p ∷ l) =
      ground (arith, listed-insert_sorted s p (sort_slice c l), listed-sort_slice s l)

  listed-dedupe_from :
      (s : Text) (previous : Prefix) (l : List Prefix)
      → text_beq (c.string previous) s || listed s (dedupe_from c previous l)
        ≡ text_beq (c.string previous) s || listed s l
  unfolding listed dedupe_from
  listed-dedupe_from s previous [] = refl
  listed-dedupe_from s previous (p ∷ l) =
      ground (arith, listed-dedupe_from s p l, text_beq_iff (c.string p) (c.string previous))

  listed-dedupe : (s : Text) (l : List Prefix) → listed s (dedupe_sorted_prefixes c l) ≡ listed s l
  unfolding listed dedupe_sorted_prefixes
  listed-dedupe s [] = refl
  listed-dedupe s (p ∷ l) = listed-dedupe_from s p l

  pub listed-flattened :
      (s : Text) (l : List Prefix)
      → listed s (dedupe_sorted_prefixes c (sort_slice c l)) ≡ listed s l
  listed-flattened s l = listed-dedupe s (sort_slice c l) ∙ listed-sort_slice s l

  -- Each string is not less than those before it.
  abbrev Sorted : List Prefix → Type 0
  Sorted [] = Unit
  Sorted (p ∷ l) = All (λ q. text_ltb (c.string q) (c.string p) ≡ false) l × Sorted l

  -- Each string is greater than those before it.
  abbrev pub Ascending : List Prefix → Type 0
  Ascending [] = Unit
  Ascending (p ∷ l) = All (λ q. text_ltb (c.string p) (c.string q) ≡ true) l × Ascending l

  All-insert_sorted :
      (P : Prefix → Type 0) (p : Prefix) (l : List Prefix)
      → P p
      → All P l
      → All P (insert_sorted c p l)
  unfolding insert_sorted
  All-insert_sorted P p [] h k = (h, tt)
  All-insert_sorted P p (q ∷ l) h k = elim (Bool-cases (text_ltb (c.string q) (c.string p))) [
    | inl less ↦ rw less (k.0, All-insert_sorted P p l h k.1)
    | inr other ↦ rw other (h, k)
  ]

  insert_sorted-Sorted : (p : Prefix) (l : List Prefix) → Sorted l → Sorted (insert_sorted c p l)
  unfolding insert_sorted
  insert_sorted-Sorted p [] h = (tt, tt)
  insert_sorted-Sorted p (q ∷ l) h = elim (Bool-cases (text_ltb (c.string q) (c.string p))) [
    | inl less ↦ rw less (
      All-insert_sorted (λ r. text_ltb (c.string r) (c.string q) ≡ false) p l
          (text_ltb_asym (c.string q) (c.string p) less) h.0,
      insert_sorted-Sorted p l h.1,
    )
    | inr other ↦ rw other (
      (other, All-imp l (λ r k. text_ltb_le (c.string p) (c.string q) (c.string r) other k) h.0),
      h,
    )
  ]

  sort_slice-Sorted : (l : List Prefix) → Sorted (sort_slice c l)
  unfolding sort_slice
  sort_slice-Sorted [] = tt
  sort_slice-Sorted (p ∷ l) = insert_sorted-Sorted p (sort_slice c l) (sort_slice-Sorted l)

  dedupe_from-Ascending :
      (previous : Prefix) (l : List Prefix)
      → Sorted (previous ∷ l)
      → Ascending (previous ∷ dedupe_from c previous l)
  unfolding dedupe_from
  dedupe_from-Ascending previous [] h = (tt, tt)
  dedupe_from-Ascending previous (p ∷ l) h =
      let (above, ascending) = dedupe_from-Ascending p l h.1 in
      elim (Bool-cases (text_beq (c.string p) (c.string previous))) [
        | inl same ↦ rw same (
          All-imp (dedupe_from c p l)
              (λ q k.
                subst (λ t. text_ltb t (c.string q) ≡ true)
                  ((text_beq_iff (c.string p) (c.string previous)).0 same) k)
              above,
          ascending,
        )
        | inr other ↦
            let less =
              text_ltb_total (c.string p) (c.string previous) h.0.0
                (text_beq_sym (c.string p) (c.string previous) other) in
            rw other (
              (
                less,
                All-imp (dedupe_from c p l)
                    (λ q k. text_ltb_trans (c.string previous) (c.string p) (c.string q) less k)
                    above,
              ),
              (above, ascending),
            )
      ]

  dedupe-Ascending : (l : List Prefix) → Sorted l → Ascending (dedupe_sorted_prefixes c l)
  unfolding dedupe_sorted_prefixes
  dedupe-Ascending [] h = tt
  dedupe-Ascending (p ∷ l) h = dedupe_from-Ascending p l h

  pub flattened-Ascending :
      (l : List Prefix) → Ascending (dedupe_sorted_prefixes c (sort_slice c l))
  flattened-Ascending l = dedupe-Ascending (sort_slice c l) (sort_slice-Sorted l)
