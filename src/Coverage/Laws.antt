-- ===== src/Coverage/Laws.antt =====
-- hack/tools/require-coverage/main.go: what it takes to pass.
use mathlib.Core.Bool.{false≢true}
use mathlib.Core.List.{Memᴰ}
use registry_k8s_io.Coverage.{
  known_failing_files, ProfileBlock, Profile, is_known_failing, count_statements, is_below,
  check_profile, check_profiles, passed, not_covered, must_be_removed, require_coverage,
}
use registry_k8s_io.Prelude.{
  any, sym, text_beq, text_beq_iff, All-imp, ℕ, ◌+◌, ◌≤◌, ◌≡◌, ◌↔◌, ◌∙◌, refl, arith, Bool, true,
  false, Bool-cases, not, ◌&&◌, ◌||◌, ltb, eqb, all, All, List, [], ◌∷◌, ◌++◌, Text, ok, inl, inr,
  if◌then◌else◌,
}

-- A block has no statements, or was run.
abbrev pub block_covered : ProfileBlock → Bool
block_covered block = eqb block.num_stmt 0 || ltb 0 block.count

abbrev pub all_covered : Profile → Bool
all_covered profile = all block_covered profile.blocks

count_statements-below :
    (blocks : List ProfileBlock) (total covered : ℕ)
    → covered ≤ total
    → ((count_statements blocks total covered).1 ≤ (count_statements blocks total covered).0)
      × (ltb (count_statements blocks total covered).1 (count_statements blocks total covered).0
          ≡ not (all block_covered blocks && eqb covered total))
unfolding count_statements
count_statements-below [] total covered h = (h, ground arith)
count_statements-below (block ∷ blocks) total covered h = elim (Bool-cases (ltb 0 block.count)) [
  | inl run ↦
      rw (count_statements, run)
        (let (le, same) =
            count_statements-below blocks (total + block.num_stmt) (covered + block.num_stmt)
              (omega arith) in
          (le, same ∙ ground arith))
  | inr missed ↦
      rw (count_statements, missed)
        (let (le, same) =
            count_statements-below blocks (total + block.num_stmt) covered (omega arith) in
          (le, same ∙ ground arith))
]

is_below-all_covered : (profile : Profile) → is_below profile ≡ not (all_covered profile)
unfolding is_below
is_below-all_covered profile =
    ground (arith, (count_statements-below profile.blocks 0 0 (omega arith)).1)

-- Nothing has failed, and nothing is to be removed.
unfoldable good : Bool × List Text → Bool
good (failed_any, []) = not failed_any
good (failed_any, file ∷ files) = false

good-append :
    (failed_any : Bool) (l : List Text) (file : Text) → good (failed_any, l ++ file ∷ []) ≡ false
unfolding good
good-append failed_any [] file = refl
good-append failed_any (x ∷ l) file = refl

good-failed : (l : List Text) → good (true, l) ≡ false
unfolding good
good-failed [] = refl
good-failed (x ∷ l) = refl

IsAcceptable : Profile → Type 0
IsAcceptable profile = all_covered profile ≡ not (is_known_failing profile.file_name)

good-check_profile :
    (profile : Profile) (s : Bool × List Text)
    → (good (check_profile profile s) ≡ true) ↔ ((good s ≡ true) × IsAcceptable profile)
unfolding check_profile IsAcceptable
good-check_profile profile (failed_any, l) =
    ground (
      arith,
      is_below-all_covered profile,
      good-append failed_any l profile.file_name,
      good-failed l,
    )

good-check_profiles :
    (profiles : List Profile) (s : Bool × List Text)
    → (good (check_profiles profiles s) ≡ true) ↔ ((good s ≡ true) × All IsAcceptable profiles)
unfolding check_profiles
good-check_profiles [] s = ((λ h. (h, tt)), λ h. h.0)
good-check_profiles (profile ∷ profiles) s =
    let (there, back) = good-check_profiles profiles (check_profile profile s) in
    let (there', back') = good-check_profile profile s in
    (
      (λ h. let (a, b) = there h in let (x, y) = there' a in (x, (y, b))),
      λ (x, (y, b)). back (back' (x, y), b),
    )

good-passed :
    (profiles : List Profile)
    → (require_coverage (ok profiles) ≡ passed)
      ↔ (good (check_profiles profiles (false, [])) ≡ true)
unfolding require_coverage good
good-passed profiles = go (check_profiles profiles (false, []))
  where
    go :
        (r : Bool × List Text)
        → ((if r.0
              then not_covered
              else elim r.1 [ [] ↦ passed | file ∷ files ↦ must_be_removed (file ∷ files) ])
            ≡ passed)
          ↔ (good r ≡ true)
    go (true, []) = ((λ e. cc), λ e. cc)
    go (true, x ∷ l) = ((λ e. cc), λ e. cc)
    go (false, []) = ((λ e. refl), λ e. refl)
    go (false, x ∷ l) = ((λ e. cc), λ e. cc)

any-text_beq : (t : Text) (l : List Text) → (any (λ f. text_beq f t) l ≡ true) ↔ Memᴰ t l
any-text_beq t [] = ((λ e. cc), λ m. elim m [ ])
any-text_beq t (x ∷ l) = (
  λ h. elim (Bool-cases (text_beq x t)) [
    | inl same ↦ Memᴰ.head (sym ((text_beq_iff x t).0 same))
    | inr other ↦ Memᴰ.tail ((any-text_beq t l).0 (ground arith))
  ],
  λ m. elim m [
    | Memᴰ.head e ↦ ground (arith, (text_beq_iff x t).1 (sym e))
    | Memᴰ.tail m' ↦ ground (arith, (any-text_beq t l).1 m')
  ],
)

-- A file whose blocks are all covered, if and only if it is not in the list.
abbrev pub IsAsListed : Profile → Type 0
IsAsListed profile = (all_covered profile ≡ true) ↔ ¬ Memᴰ profile.file_name known_failing_files

IsAcceptable-IsAsListed : (profile : Profile) → IsAcceptable profile ↔ IsAsListed profile
unfolding IsAcceptable is_known_failing
IsAcceptable-IsAsListed profile =
    go (all_covered profile) (is_known_failing profile.file_name)
      (any-text_beq profile.file_name known_failing_files)
  where
    go :
        (covered known : Bool)
        → (known ≡ true) ↔ Memᴰ profile.file_name known_failing_files
        → (covered ≡ not known) ↔ ((covered ≡ true) ↔ ¬ Memᴰ profile.file_name known_failing_files)
    go true true m = ((λ e. cc), λ h. absurd (h.0 refl (m.0 refl)))
    go true false m = ((λ e. ((λ _ x. absurd (false≢true (m.1 x))), λ _. refl)), λ h. refl)
    go false true m = ((λ e. ((λ e'. cc), λ n. absurd (n (m.0 refl)))), λ h. refl)
    go false false m = ((λ e. cc), λ h. h.1 (λ x. false≢true (m.1 x)))

-- The check passes exactly where a file is not in the list of those that are known to fail if and
-- only if each of its blocks has no statements or was run, for each file.
pub require_coverage-passed :
    (profiles : List Profile) → (require_coverage (ok profiles) ≡ passed) ↔ All IsAsListed profiles
unfolding good
require_coverage-passed profiles =
    let (there, back) = good-passed profiles in
    let (there', back') = good-check_profiles profiles (false, []) in
    (
      (λ h. All-imp profiles (λ p. (IsAcceptable-IsAsListed p).0) (there' (there h)).1),
      λ h. back (back' (refl, All-imp profiles (λ p. (IsAcceptable-IsAsListed p).1) h)),
    )
