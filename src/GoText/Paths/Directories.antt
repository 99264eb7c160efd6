-- ===== src/GoText/Paths/Directories.antt =====
-- path.Dir, which filepath.Dir is on Unix: what comes before the last slash, cleaned.
use registry_k8s_io.GoText.Paths.{
  split_from, split_slash, slashed, joined, resolve, resolve_all, clean_segments, render, clean,
}
use registry_k8s_io.GoText.Paths.Laws.{IsPlain, NoSlash, clean_segments-slashed}
use registry_k8s_io.Prelude.{
  ◌≡◌, refl, sym, ap, ◌∙◌, arith, ◌&&◌, not, eqb, List, [], ◌∷◌, ◌++◌, append-nil, append_assoc,
  Text, text_beq, All, if◌then◌else◌,
}

-- The text up to its last slash, with the slash.
unfoldable pub up_to_slash : Text → Text
up_to_slash [] = []
up_to_slash (c ∷ s) =
    let rest = up_to_slash s in if text_beq rest [] && not (eqb c b'/') then [] else c ∷ rest

unfoldable pub dir : Text → Text
unfolding up_to_slash clean
dir p = clean (up_to_slash p)

up_to_slash_of_NoSlash : (s : Text) → NoSlash s → up_to_slash s ≡ []
unfolding up_to_slash text_beq
up_to_slash_of_NoSlash [] h = refl
up_to_slash_of_NoSlash (c ∷ s) h = ground (arith, up_to_slash_of_NoSlash s h.1)

up_to_slash-append : (t s : Text) → NoSlash s → up_to_slash (t ++ b'/' ∷ s) ≡ t ++ b'/' ∷ []
unfolding up_to_slash text_beq
up_to_slash-append [] s h = rw (up_to_slash, up_to_slash_of_NoSlash s h) refl
up_to_slash-append (c ∷ []) s h = rw (up_to_slash, up_to_slash-append [] s h) refl
up_to_slash-append (c ∷ d ∷ t) s h = rw (up_to_slash, up_to_slash-append (d ∷ t) s h) refl

slashed-last : (l : List Text) (s : Text) → slashed (l ++ s ∷ []) ≡ slashed l ++ b'/' ∷ s
unfolding slashed
slashed-last [] s = ap (λ t. b'/' ∷ t) (append-nil s)
slashed-last (x ∷ l) s =
    ap (λ t. b'/' ∷ (x ++ t)) (slashed-last l s)
    ∙ ap (λ t. b'/' ∷ t) (sym (append_assoc x (slashed l) (b'/' ∷ s)))

pub rooted-last : (l : List Text) (s : Text) → b'/' ∷ joined (l ++ s ∷ []) ≡ slashed l ++ b'/' ∷ s
unfolding joined slashed
rooted-last [] s = ap (λ t. b'/' ∷ t) (append-nil s)
rooted-last (x ∷ l) s = slashed-last (x ∷ l) s

clean-slashed : (l : List Text) → All IsPlain l → clean (slashed l ++ b'/' ∷ []) ≡ b'/' ∷ joined l
unfolding clean render slashed
clean-slashed [] h =
    unfold clean_segments split_slash split_from resolve_all resolve text_beq joined in refl
clean-slashed (x ∷ l) h = ap (λ segments. b'/' ∷ joined segments) (clean_segments-slashed (x ∷ l) h)

-- The directory of a rooted path of plain segments is the path without the last one.
pub dir-rooted :
    (l : List Text) (s : Text)
    → All IsPlain l
    → IsPlain s
    → dir (b'/' ∷ joined (l ++ s ∷ [])) ≡ b'/' ∷ joined l
unfolding dir
dir-rooted l s h k =
    ap (λ t. clean (up_to_slash t)) (rooted-last l s)
    ∙ ap clean (up_to_slash-append (slashed l) s k.no_slash)
    ∙ clean-slashed l h

pub dir_root : dir (b'/' ∷ []) ≡ b'/' ∷ []
unfolding dir up_to_slash clean clean_segments render split_slash split_from resolve_all resolve
    text_beq joined
dir_root = refl
