-- ===== src/GoText/Prefixes.antt =====
-- strings.HasPrefix and strings.TrimPrefix.
use registry_k8s_io.Prelude.{
  ◌≡◌, refl, ap₂, arith, Bool, true, false, ◌&&◌, eqb, [], ◌∷◌, ◌++◌, Text, if◌then◌else◌,
}

unfoldable pub has_prefix : Text → Text → Bool
has_prefix s [] = true
has_prefix [] (x ∷ p) = false
has_prefix (c ∷ s) (x ∷ p) = eqb c x && has_prefix s p

-- What follows a prefix.
unfoldable pub drop_prefix : Text → Text → Text
drop_prefix s [] = s
drop_prefix [] (x ∷ p) = []
drop_prefix (c ∷ s) (x ∷ p) = drop_prefix s p

unfoldable pub trim_prefix : Text → Text → Text
unfolding has_prefix drop_prefix
trim_prefix s p = if has_prefix s p then drop_prefix s p else s

pub has_prefix-append : (p s : Text) → has_prefix (p ++ s) p ≡ true
unfolding has_prefix
has_prefix-append [] s = refl
has_prefix-append (x ∷ p) s = ground (arith, has_prefix-append p s)

pub drop_prefix-append : (p s : Text) → drop_prefix (p ++ s) p ≡ s
unfolding drop_prefix
drop_prefix-append [] s = refl
drop_prefix-append (x ∷ p) s = drop_prefix-append p s

pub trim_prefix-append : (p s : Text) → trim_prefix (p ++ s) p ≡ s
unfolding trim_prefix
trim_prefix-append p s = rw (has_prefix-append p s) (drop_prefix-append p s)

-- A text with the prefix is the prefix and what follows.
pub append-drop_prefix : (s p : Text) → has_prefix s p ≡ true → s ≡ p ++ drop_prefix s p
unfolding has_prefix drop_prefix
append-drop_prefix s [] h = refl
append-drop_prefix [] (x ∷ p) h = cc
append-drop_prefix (c ∷ s) (x ∷ p) h =
    ap₂ ◌∷◌ (ground arith) (append-drop_prefix s p (ground arith))
