-- ===== src/GoText/Regex.antt =====
-- The part of Go's regexp that the program uses: sequences of character classes, with and without
-- a star, matched with backtracking, longest runs first.
pub mod Laws
use registry_k8s_io.Prelude.{
  ℕ, Bool, true, false, eqb, Option, none, some, or_else, List, [], ◌∷◌, ◌++◌, map, Text, ◌≡◌,
  if◌then◌else◌,
}

-- A class of bytes, or its repetition.
pub data Atom : Type 0 where
  one : (ℕ → Bool) → Atom
  many : (ℕ → Bool) → Atom

-- The atoms of a literal text.
abbrev pub literal : Text → List Atom
literal [] = []
literal (c ∷ s) = one (λ x. eqb x c) ∷ literal s

-- What it means that a text is matched, with no order of search in it.
pub data Matches : List Atom → Text → Type 0 where
  done : Matches [] []
  byte :
      {p : ℕ → Bool} {re : List Atom} {c : ℕ} {s : Text}
      → p c ≡ true
      → Matches re s
      → Matches (one p ∷ re) (c ∷ s)
  leave : {p : ℕ → Bool} {re : List Atom} {s : Text} → Matches re s → Matches (many p ∷ re) s
  take :
      {p : ℕ → Bool} {re : List Atom} {c : ℕ} {s : Text}
      → p c ≡ true
      → Matches (many p ∷ re) s
      → Matches (many p ∷ re) (c ∷ s)

module _ {ℓ} {R : Type ℓ} where
  -- One more byte of the class first, and then the rest of the expression.
  unfoldable pub run_many : (ℕ → Bool) → (Text → Option R) → Text → Option R
  run_many p k [] = k []
  run_many p k (c ∷ s) =
      let longer = run_many p k s in if p c then or_else longer (k (c ∷ s)) else k (c ∷ s)

  -- Matches a beginning of the text, and goes on with `k` on what is left.
  unfoldable pub run : List Atom → (Text → Option R) → Text → Option R
  unfolding run_many
  run [] k s = k s
  run (one p ∷ re) k [] = none
  run (one p ∷ re) k (c ∷ s) = if p c then run re k s else none
  run (many p ∷ re) k s = run_many p (run re k) s

-- `$`
unfoldable pub at_end {ℓ} : {R : Type ℓ} → R → Text → Option R
at_end r [] = some r
at_end r (c ∷ s) = none

-- `FindStringSubmatch` of `^before(group)$`: the text of the group.
unfoldable pub find_submatch : List Atom → List Atom → Text → Option Text
unfolding run at_end
find_submatch before group s = run before (λ t. run group (at_end t) t) s

-- `MatchString` of `^re$`.
unfoldable pub match_string : List Atom → Text → Bool
unfolding run at_end
match_string re s = elim (run re (at_end true) s) [ some _ ↦ true | none ↦ false ]
