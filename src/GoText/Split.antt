-- ===== src/GoText/Split.antt =====
-- strings.Split at one byte.
use registry_k8s_io.Prelude.{
  ℕ, ◌≡◌, refl, true, false, eqb, eqb_iff, List, [], ◌∷◌, ◌++◌, append_assoc, append-nil, Text, All,
}

-- The parts, with the one that is being read.
split_run : ℕ → Text → Text → List Text
split_run b run [] = run ∷ []
split_run b run (c ∷ s) = elim (eqb c b) [
  | true ↦ run ∷ split_run b [] s
  | false ↦ split_run b (run ++ c ∷ []) s
]

unfoldable pub split : Text → ℕ → List Text
unfolding split_run
split s b = split_run b [] s

-- A text without the byte.
abbrev pub IsWhole : ℕ → Text → Type 0
IsWhole b s = All (λ c. eqb c b ≡ false) s

split_run-IsWhole : (b : ℕ) (run s : Text) → IsWhole b s → split_run b run s ≡ (run ++ s) ∷ []
unfolding split_run
split_run-IsWhole b run [] h = rw append-nil
split_run-IsWhole b run (c ∷ s) h =
    rw (h.0, split_run) (rw (split_run-IsWhole b (run ++ c ∷ []) s h.1, append_assoc))

split_run-append :
    (b : ℕ) (run s t : Text)
    → IsWhole b s
    → IsWhole b t
    → split_run b run (s ++ b ∷ t) ≡ (run ++ s) ∷ t ∷ []
unfolding split_run
split_run-append b run [] t hs ht =
    rw ((eqb_iff b b).1 refl, split_run, append-nil, split_run-IsWhole b [] t ht)
split_run-append b run (c ∷ s) t hs ht =
    rw (hs.0, split_run) (rw (split_run-append b (run ++ c ∷ []) s t hs.1 ht, append_assoc))

pub split-append :
    (b : ℕ) (s t : Text) → IsWhole b s → IsWhole b t → split (s ++ b ∷ t) b ≡ s ∷ t ∷ []
unfolding split
split-append b s t hs ht = split_run-append b [] s t hs ht
