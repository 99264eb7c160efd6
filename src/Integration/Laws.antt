-- ===== src/Integration/Laws.antt =====
-- internal/integration/paths.go: which directory is found.
use mathlib.Core.List.{reverse, reverse-cons}
use registry_k8s_io.GoText.Paths.{slashed, joined}
use registry_k8s_io.GoText.Paths.Laws.{IsPlain}
use registry_k8s_io.GoText.Paths.Directories.{dir, rooted-last, dir-rooted, dir_root}
use registry_k8s_io.Integration.{no_root, has_module, walk_upwards, module_root_dir}
use registry_k8s_io.Prelude.{
  ℕ, zero, suc, ◌+◌, ◌<◌, ◌≤◌, ◌≡◌, ◌≢◌, ◌∙◌, refl, ap, arith, Bool, false, Bool-cases, inl, inr,
  some, List, [], ◌∷◌, length, length-append, All, All-reverse, Text, text_beq, text_beq_iff,
  Result, ok, err, if◌then◌else◌,
}

-- A rooted path, by its segments from the last to the first, and the directories from it upwards.
abbrev pub path_of : List Text → Text
path_of segments = b'/' ∷ joined (reverse segments)

abbrev pub upwards : List Text → List Text
upwards [] = path_of [] ∷ []
upwards (s ∷ l) = path_of (s ∷ l) ∷ upwards l

-- The first directory of a list that has a module file.
abbrev pub first_module : (Text → Bool) → List Text → Result Text
first_module exists [] = err no_root
first_module exists (d ∷ l) = if has_module exists d then ok d else first_module exists l

dir-path_of : (s : Text) (l : List Text) → All IsPlain (s ∷ l) → dir (path_of (s ∷ l)) ≡ path_of l
dir-path_of s l h =
    ap (λ x. dir (b'/' ∷ joined x)) (reverse-cons s l)
    ∙ dir-rooted (reverse l) s (All-reverse IsPlain l h.1) h.0

length-rooted : (l : List Text) → length (b'/' ∷ joined l) ≤ length (slashed l) + 1
unfolding joined slashed
length-rooted [] = omega arith
length-rooted (x ∷ l) = omega arith

length-path_of :
    (s : Text) (l : List Text)
    → length (path_of (s ∷ l)) ≡ length (slashed (reverse l)) + suc (length s)
length-path_of s l =
    ap (λ x. length (b'/' ∷ joined x)) (reverse-cons s l)
    ∙ ap length (rooted-last (reverse l) s)
    ∙ length-append (slashed (reverse l)) (b'/' ∷ s)

length-not_empty : (s : Text) → s ≢ [] → 0 < length s
length-not_empty [] h = absurd (h refl)
length-not_empty (c ∷ s) h = omega arith

path_of-longer :
    (s : Text) (l : List Text)
    → All IsPlain (s ∷ l)
    → text_beq (path_of l) (path_of (s ∷ l)) ≡ false
path_of-longer s l h = elim (Bool-cases (text_beq (path_of l) (path_of (s ∷ l)))) [
  | inl same ↦ absurd (
      omega (
        arith,
        ap length ((text_beq_iff (path_of l) (path_of (s ∷ l))).0 same),
        length-path_of s l,
        length-rooted (reverse l),
        length-not_empty s h.0.not_empty,
      ))
  | inr other ↦ other
]

dir-path_of_root : dir (path_of []) ≡ path_of []
unfolding joined
dir-path_of_root = dir_root

walk_upwards-eq-first_module :
    (exists : Text → Bool) (fuel : ℕ) (segments : List Text)
    → All IsPlain segments
    → length segments < fuel
    → walk_upwards exists fuel (path_of segments) ≡ some (first_module exists (upwards segments))
unfolding walk_upwards
walk_upwards-eq-first_module exists zero segments h k = absurd (omega arith)
walk_upwards-eq-first_module exists (suc fuel) [] h k =
    elim (Bool-cases (has_module exists (path_of []))) [
      | inl found ↦ rw (walk_upwards, found) refl
      | inr missing ↦
          rw
            (
              walk_upwards,
              missing,
              dir-path_of_root,
              (text_beq_iff (path_of []) (path_of [])).1 refl,
            )
            refl
    ]
walk_upwards-eq-first_module exists (suc fuel) (s ∷ l) h k =
    elim (Bool-cases (has_module exists (path_of (s ∷ l)))) [
      | inl found ↦ rw (walk_upwards, found) refl
      | inr missing ↦
          rw (walk_upwards, missing, dir-path_of s l h, path_of-longer s l h)
            (walk_upwards-eq-first_module exists fuel l h.1 (omega arith))
    ]

-- Where the working directory is rooted and has plain segments, the loop ends after at most one
-- round for each directory from there up to the root, both of them counted: the result is the first
-- of these with a module file, or the error if none has one.
pub module_root_dir-eq-first_module :
    (exists : Text → Bool) (fuel : ℕ) (segments : List Text)
    → All IsPlain segments
    → length segments < fuel
    → module_root_dir exists fuel (ok (path_of segments))
      ≡ some (first_module exists (upwards segments))
unfolding module_root_dir
module_root_dir-eq-first_module exists fuel segments h k =
    walk_upwards-eq-first_module exists fuel segments h k
