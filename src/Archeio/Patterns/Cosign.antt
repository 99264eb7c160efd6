-- ===== src/Archeio/Patterns/Cosign.antt =====
-- cmd/archeio/internal/app/handlers.go: which paths the expression for signatures matches.
use mathlib.Core.Bool.{false≢true}
use registry_k8s_io.Archeio.Patterns.{any_byte, hex_digit, repeated, re_cosign_tag, is_cosign_tag}
use registry_k8s_io.GoText.Regex.{many, literal, Matches, done, byte, match_string}
use registry_k8s_io.GoText.Regex.Laws.{
  match_string_iff, Matches-append, Matches-split, Matches-literal, Matches-literal_eq,
  Matches-many, Matches-many-All,
}
use registry_k8s_io.Prelude.{
  ℕ, zero, suc, ◌≡◌, ◌↔◌, ◌⊎◌, inl, inr, refl, sym, ap, ap₂, ◌∙◌, subst, arith, Bool, true, false,
  ◌||◌, length, [], ◌∷◌, ◌++◌, append_assoc, Text, codes, All,
}

-- `/v2/<name>/manifests/sha256-<hash>.<ending>`
pub record IsTagPath (ending path : Text) : Type 0 where
  pub name : Text
  pub hash : Text
  pub whole :
      path ≡ codes "/v2/" ++ (name ++ (codes "/manifests/sha256-" ++ (hash ++ codes "." ++ ending)))
  pub one_line : All (λ c. any_byte c ≡ true) name
  pub hash_length : length hash ≡ 64
  pub hash_class : All (λ c. hex_digit c ≡ true) hash

repeated_sound :
    (n : ℕ) (p : ℕ → Bool) (s : Text)
    → Matches (repeated n p) s
    → (length s ≡ n) × All (λ c. p c ≡ true) s
repeated_sound zero p s done = (refl, tt)
repeated_sound (suc n) p s (byte e m) = let (l, h) = repeated_sound n p _ m in (ap suc l, (e, h))

repeated_complete :
    (n : ℕ) (p : ℕ → Bool) (s : Text)
    → length s ≡ n
    → All (λ c. p c ≡ true) s
    → Matches (repeated n p) s
repeated_complete zero p [] l h = done
repeated_complete zero p (c ∷ s) l h = cc
repeated_complete (suc n) p [] l h = cc
repeated_complete (suc n) p (c ∷ s) l h = byte h.0 (repeated_complete n p s (omega arith) h.1)

tag_sound : (ending path : Text) → Matches (re_cosign_tag ending) path → IsTagPath ending path
unfolding re_cosign_tag
tag_sound ending path m =
    let (a, t, w, ma, mt) = Matches-split (literal (codes "/v2/")) path m in
    let (name, u, w', mn, mu) = Matches-split (many any_byte ∷ []) t mt in
    let (b, v, w'', mb, mv) = Matches-split (literal (codes "/manifests/sha256-")) u mu in
    let (hash, e, w''', mh, me) = Matches-split (repeated 64 hex_digit) v mv in
    let (l, c) = repeated_sound 64 hex_digit hash mh in
    record {
      name = name;
      hash = hash;
      whole =
          w
          ∙ ap₂ ◌++◌ (Matches-literal_eq (codes "/v2/") ma) (
              w'
              ∙ ap (λ x. name ++ x)
                  (w''
                    ∙ ap₂ ◌++◌ (Matches-literal_eq (codes "/manifests/sha256-") mb) (
                        w'''
                        ∙ ap (λ x. hash ++ x) (Matches-literal_eq (codes "." ++ ending) me)
                        ∙ sym (append_assoc hash (codes ".") ending))));
      one_line = Matches-many-All mn;
      hash_length = l;
      hash_class = c;
    }

tag_complete : (ending path : Text) → IsTagPath ending path → Matches (re_cosign_tag ending) path
unfolding re_cosign_tag
tag_complete ending path i =
    subst (Matches (re_cosign_tag ending))
      (ap (λ x. codes "/v2/" ++ (i.name ++ (codes "/manifests/sha256-" ++ x)))
          (sym (append_assoc i.hash (codes ".") ending))
        ∙ sym i.whole)
      (Matches-append (Matches-literal (codes "/v2/")) (
        Matches-append (Matches-many any_byte i.name i.one_line) (
          Matches-append (Matches-literal (codes "/manifests/sha256-")) (
            Matches-append (repeated_complete 64 hex_digit i.hash i.hash_length i.hash_class)
              (Matches-literal (codes "." ++ ending))))))

tag_iff :
    (ending path : Text) → (match_string (re_cosign_tag ending) path ≡ true) ↔ IsTagPath ending path
tag_iff ending path =
    let (sound, complete) = match_string_iff (re_cosign_tag ending) path in
    (λ e. tag_sound ending path (sound e), λ i. complete (tag_complete ending path i))

or_iff :
    {P Q : Type 0} (a b : Bool) → ((a ≡ true) ↔ P) → ((b ≡ true) ↔ Q) → ((a || b) ≡ true) ↔ (P ⊎ Q)
or_iff true b p q = (λ h. inl (p.0 refl), λ h. refl)
or_iff false b p q =
    (λ h. inr (q.0 h), λ h. elim h [ inl x ↦ absurd (false≢true (p.1 x)) | inr y ↦ q.1 y ])

-- The expression for signatures matches exactly the paths
-- `/v2/<name>/manifests/sha256-<hash>.sig` and `.att` whose hash is of 64 hexadecimal digits and
-- whose name has no line break.
pub is_cosign_tag_iff :
    (path : Text)
    → (is_cosign_tag path ≡ true) ↔ (IsTagPath (codes "sig") path ⊎ IsTagPath (codes "att") path)
unfolding is_cosign_tag
is_cosign_tag_iff path = or_iff _ _ (tag_iff (codes "sig") path) (tag_iff (codes "att") path)
