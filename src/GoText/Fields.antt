-- ===== src/GoText/Fields.antt =====
-- strings.FieldsFunc: the maximal runs of bytes that are no separators.
use registry_k8s_io.Prelude.{
  ℕ, ◌≡◌, refl, ap, Bool, true, false, List, [], ◌∷◌, ◌++◌, Text, All, if◌then◌else◌, Bool-cases,
  inl, inr, append-nil, append_assoc, ◌≢◌,
}

-- The loop, with the run that is being read.
unfoldable pub fields_from : (ℕ → Bool) → Text → Text → List Text
fields_from sep [] [] = []
fields_from sep (x ∷ run) [] = (x ∷ run) ∷ []
fields_from sep [] (c ∷ s) = fields_from sep (if sep c then [] else c ∷ []) s
fields_from sep (x ∷ run) (c ∷ s) = elim (sep c) [
  | true ↦ (x ∷ run) ∷ fields_from sep [] s
  | false ↦ fields_from sep ((x ∷ run) ++ c ∷ []) s
]

unfoldable pub fields_func : (ℕ → Bool) → Text → List Text
unfolding fields_from
fields_func sep s = fields_from sep [] s

module _ (sep : ℕ → Bool) where
  -- A text without separators.
  abbrev pub IsWord : Text → Type 0
  IsWord w = All (λ c. sep c ≡ false) w

  -- A separator ends the run before it.
  fields_from-append :
      (run s t : Text) (c : ℕ)
      → sep c ≡ true
      → fields_from sep run (s ++ c ∷ t) ≡ fields_from sep run s ++ fields_from sep [] t
  unfolding fields_from
  fields_from-append [] [] t c h = ap (λ (b : Bool). fields_from sep (if b then [] else c ∷ []) t) h
  fields_from-append (x ∷ run) [] t c h = rw (h, fields_from) refl
  fields_from-append [] (b ∷ s) t c h = fields_from-append (if sep b then [] else b ∷ []) s t c h
  fields_from-append (x ∷ run) (b ∷ s) t c h = elim (Bool-cases (sep b)) [
    | inl ends ↦ rw (ends, fields_from) (ap (λ l. (x ∷ run) ∷ l) (fields_from-append [] s t c h))
    | inr goes_on ↦ rw (goes_on, fields_from) (fields_from-append (x ∷ run ++ b ∷ []) s t c h)
  ]

  fields_from-word :
      (x : ℕ) (run w : Text) → IsWord w → fields_from sep (x ∷ run) w ≡ (x ∷ run ++ w) ∷ []
  unfolding fields_from
  fields_from-word x run [] h = rw append-nil
  fields_from-word x run (c ∷ w) h =
      rw (h.0, fields_from) (rw (fields_from-word x (run ++ c ∷ []) w h.1, append_assoc))

  -- A non-empty text without separators is one field.
  pub fields_func-word : (w : Text) → IsWord w → w ≢ [] → fields_func sep w ≡ w ∷ []
  unfolding fields_func
  fields_func-word [] h ne = absurd (ne refl)
  fields_func-word (c ∷ w) h ne = rw (h.0, fields_from) (fields_from-word c [] w h.1)

  pub fields_func-append :
      (s t : Text) (c : ℕ)
      → sep c ≡ true
      → fields_func sep (s ++ c ∷ t) ≡ fields_func sep s ++ fields_func sep t
  unfolding fields_func
  fields_func-append s t c h = fields_from-append [] s t c h
