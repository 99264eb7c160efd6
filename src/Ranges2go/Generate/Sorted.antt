-- ===== src/Ranges2go/Generate/Sorted.antt =====
-- pkg/net/cloudcidrs/internal/ranges2go/gen.go: `sort.Strings` and the order of its input.
use mathlib.Core.List.{Permᴰ}
use registry_k8s_io.Prelude.{◌≡◌, ◌∙◌, ap₂, refl, arith, List, [], ◌∷◌, Text, text_beq_iff}
use registry_k8s_io.Ranges2go.Generate.{insert_string, sort_strings}
use registry_k8s_io.Ranges2go.Order.{text_ltb_trans, text_ltb_total, text_ltb_asym}

insert_string_comm :
    (s t : Text) (l : List Text)
    → insert_string s (insert_string t l) ≡ insert_string t (insert_string s l)
unfolding insert_string
insert_string_comm s t [] = ground (arith, text_ltb_total s t, text_ltb_asym s t, text_beq_iff t s)
insert_string_comm s t (x ∷ l) = ground (
  arith,
  insert_string_comm s t l,
  text_ltb_total s t,
  text_ltb_asym s t,
  text_beq_iff t s,
  text_ltb_trans x s t,
  text_ltb_trans x t s,
  text_ltb_trans s t x,
  text_ltb_trans t s x,
)

-- One order of the strings and another are sorted to the same list.
pub sort_strings-eq-sort_strings :
    {l l' : List Text} → Permᴰ l l' → sort_strings l ≡ sort_strings l'
unfolding sort_strings
sort_strings-eq-sort_strings Permᴰ.nil = refl
sort_strings-eq-sort_strings (Permᴰ.cons e p) = ap₂ insert_string e (sort_strings-eq-sort_strings p)
sort_strings-eq-sort_strings (Permᴰ.swap {a = a} {b = b} {l = l} e e') =
    insert_string_comm a b (sort_strings l)
    ∙ ap₂ (λ x y. insert_string x (insert_string y (sort_strings l))) e' e
sort_strings-eq-sort_strings (Permᴰ.trans p q) =
    sort_strings-eq-sort_strings p ∙ sort_strings-eq-sort_strings q
