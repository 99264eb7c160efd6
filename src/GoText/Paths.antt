-- ===== src/GoText/Paths.antt =====
-- path.Join and path.Clean of Go, on the segments between slashes.
pub mod Laws
pub mod Directories
use registry_k8s_io.Prelude.{
  ℕ, ◌≡◌, Bool, true, false, ◌||◌, eqb, List, [], ◌∷◌, ◌++◌, Text, codes, text_beq, if◌then◌else◌,
}
use mathlib.Core.List.{reverse}

-- The segments of a text: the run that is being read, and those to come.
split_from : Text → Text → List Text
split_from run [] = run ∷ []
split_from run (c ∷ s) = elim (eqb c b'/') [
  | true ↦ run ∷ split_from [] s
  | false ↦ split_from (run ++ c ∷ []) s
]

unfoldable pub split_slash : Text → List Text
unfolding split_from
split_slash s = split_from [] s

-- Each segment behind a slash.
unfoldable pub slashed : List Text → Text
slashed [] = []
slashed (s ∷ l) = b'/' ∷ (s ++ slashed l)

-- The segments with slashes between them.
unfoldable pub joined : List Text → Text
unfolding slashed
joined [] = []
joined (s ∷ l) = s ++ slashed l

abbrev pub dot : Text
dot = b'.' ∷ []

abbrev pub dot_dot : Text
dot_dot = b'.' ∷ b'.' ∷ []

-- `..` takes the last segment away; at the root it does nothing, and before a relative path's
-- first segment it stays.
back_up : Bool → List Text → List Text
back_up rooted [] = if rooted then [] else dot_dot ∷ []
back_up rooted (s ∷ stack) = if text_beq s dot_dot then dot_dot ∷ s ∷ stack else stack

-- One segment; the stack holds the segments kept, the last one on top.
resolve : Bool → List Text → Text → List Text
unfolding back_up
resolve rooted stack s =
    if text_beq s [] || text_beq s dot
    then stack
    else if text_beq s dot_dot
    then back_up rooted stack
    else s ∷ stack

resolve_all : Bool → List Text → List Text → List Text
resolve_all rooted stack [] = stack
resolve_all rooted stack (s ∷ l) = resolve_all rooted (resolve rooted stack s) l

-- The segments that `Clean` keeps.
unfoldable pub clean_segments : Bool → Text → List Text
unfolding resolve_all resolve
clean_segments rooted s = reverse (resolve_all rooted [] (split_slash s))

abbrev pub is_rooted : Text → Bool
is_rooted [] = false
is_rooted (c ∷ s) = eqb c b'/'

-- A relative path of no segments is `.`, and the rooted one is `/`.
unfoldable pub render : Bool → List Text → Text
unfolding joined
render true l = b'/' ∷ joined l
render false [] = dot
render false (s ∷ l) = joined (s ∷ l)

unfoldable pub clean : Text → Text
unfolding clean_segments render
clean s = render (is_rooted s) (clean_segments (is_rooted s) s)

-- The elements with slashes between them; those before the first non-empty one are left out.
unfoldable pub join_elements : List Text → Text
unfolding slashed
join_elements [] = []
join_elements ([] ∷ l) = join_elements l
join_elements ((c ∷ s) ∷ l) = (c ∷ s) ++ slashed l

-- `path.Join`: empty if all elements are.
unfoldable pub join : List Text → Text
unfolding join_elements clean
join l = if text_beq (join_elements l) [] then [] else clean (join_elements l)
