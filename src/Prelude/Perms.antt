-- ===== src/Prelude/Perms.antt =====
-- Permutations of lists that are taken apart: what has ended, what is under way, and what waits.
use mathlib.Core.List.{List, [], ◌∷◌, ◌++◌, Permᴰ, append_assoc}
use mathlib.Core.List.Permᴰ
use mathlib.Core.Path.{sym, subst}
use registry_k8s_io.Prelude.Lists.{All}

module _ {A : Type 0} (all : List A) where
  pub perm_start :
      (ended active rest : List A) (x : A)
      → Permᴰ (ended ++ (active ++ x ∷ rest)) all
      → Permᴰ (ended ++ ((x ∷ active) ++ rest)) all
  perm_start ended active rest x p =
      Permᴰ.trans (Permᴰ.append_left ended (Permᴰ.symm (Permᴰ.middle x active rest))) p

  pub perm_end :
      (ended before after waiting : List A) (x : A)
      → Permᴰ (ended ++ ((before ++ x ∷ after) ++ waiting)) all
      → Permᴰ ((ended ++ x ∷ []) ++ ((before ++ after) ++ waiting)) all
  perm_end ended before after waiting x p =
      Permᴰ.trans
        (subst (λ l. Permᴰ l (ended ++ ((before ++ x ∷ after) ++ waiting)))
          (sym (append_assoc ended (x ∷ []) ((before ++ after) ++ waiting)))
          (Permᴰ.append_left ended
            (Permᴰ.append_right waiting (Permᴰ.symm (Permᴰ.middle x before after)))))
        p

pub All-Permᴰ : {A : Type 0} (P : A → Type 0) {l l' : List A} → Permᴰ l l' → All P l → All P l'
All-Permᴰ P Permᴰ.nil h = tt
All-Permᴰ P (Permᴰ.cons e p) h = (subst P e h.0, All-Permᴰ P p h.1)
All-Permᴰ P (Permᴰ.swap e e') h = (subst P e' h.1.0, (subst P e h.0, h.1.1))
All-Permᴰ P (Permᴰ.trans p q) h = All-Permᴰ P q (All-Permᴰ P p h)
