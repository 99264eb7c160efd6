-- ===== src/Coverage.antt =====
-- hack/tools/require-coverage/main.go: the check of the tests' coverage. Each file's coverage is a
-- quotient of two counts times 100, in floating point; below 2^53 it is less than 100 exactly where
-- the first count is less than the second, and for two zeros it is no number and not less.
pub mod Laws
use registry_k8s_io.Prelude.{
  ℕ, ◌+◌, Bool, true, false, ltb, any, List, [], ◌∷◌, ◌++◌, Text, codes, text_beq, Result, ok, err,
  if◌then◌else◌,
}

-- `cover.ProfileBlock` and `cover.Profile`
pub record ProfileBlock : Type 0 where
  pub num_stmt : ℕ
  pub count : ℕ

pub record Profile : Type 0 where
  pub file_name : Text
  pub blocks : List ProfileBlock

abbrev pub known_failing_files : List Text
known_failing_files =
    codes "k8s.io/registry.k8s.io/pkg/net/cloudcidrs/internal/ranges2go/main.go"
    ∷ codes "k8s.io/registry.k8s.io/pkg/net/cloudcidrs/internal/ranges2go/gen.go"
    ∷ codes "k8s.io/registry.k8s.io/cmd/geranos/main.go"
    ∷ codes "k8s.io/registry.k8s.io/cmd/geranos/ratelimitroundtrip.go"
    ∷ codes "k8s.io/registry.k8s.io/cmd/geranos/s3uploader.go"
    ∷ codes "k8s.io/registry.k8s.io/cmd/geranos/schemav1.go"
    ∷ codes "k8s.io/registry.k8s.io/cmd/geranos/walkimages.go"
    ∷ codes "k8s.io/registry.k8s.io/cmd/archeio/main.go"
    ∷ []

unfoldable pub is_known_failing : Text → Bool
is_known_failing file = any (λ f. text_beq f file) known_failing_files

-- The loop of `coverPercent`: all statements, and those that are covered.
unfoldable pub count_statements : List ProfileBlock → ℕ → ℕ → ℕ × ℕ
count_statements [] total covered = (total, covered)
count_statements (block ∷ blocks) total covered =
    count_statements blocks (total + block.num_stmt)
      (if ltb 0 block.count then covered + block.num_stmt else covered)

-- `coverPercent(profile) < 100.0`
unfoldable pub is_below : Profile → Bool
unfolding count_statements
is_below profile = let (total, covered) = count_statements profile.blocks 0 0 in ltb covered total

-- The loop of `main`: whether any file failed, and the files that are to be removed from the list.
unfoldable pub check_profile : Profile → Bool × List Text → Bool × List Text
check_profile profile (failed_any, need_to_remove) =
    if is_below profile
    then (if is_known_failing profile.file_name
        then (failed_any, need_to_remove)
        else (true, need_to_remove))
    else (if is_known_failing profile.file_name
        then (failed_any, need_to_remove ++ profile.file_name ∷ [])
        else (failed_any, need_to_remove))

unfoldable pub check_profiles : List Profile → Bool × List Text → Bool × List Text
check_profiles [] s = s
check_profiles (profile ∷ profiles) s = check_profiles profiles (check_profile profile s)

-- How `main` ends: it returns, or it exits with -1 after one of its two messages, or it panics.
pub data Outcome : Type 0 where
  passed : Outcome
  not_covered : Outcome
  must_be_removed : List Text → Outcome
  panicked : Outcome

unfoldable pub require_coverage : Result (List Profile) → Outcome
require_coverage (err message) = panicked
require_coverage (ok profiles) =
    let (failed_any, need_to_remove) = check_profiles profiles (false, []) in
    if failed_any
    then not_covered
    else elim need_to_remove [ [] ↦ passed | file ∷ files ↦ must_be_removed (file ∷ files) ]
