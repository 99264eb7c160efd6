-- ===== src/Archeio/Patterns/Laws.antt =====
-- cmd/archeio/internal/app/handlers.go: which paths the two expressions match.
use registry_k8s_io.Archeio.Patterns.{
  any_byte, not_slash, encoded, some_of, re_blob_front, re_blob_digest, blob_digest,
}
use registry_k8s_io.GoText.Regex.{many, literal, Matches, byte, find_submatch}
use registry_k8s_io.GoText.Regex.Laws.{
  find_submatch_sound, find_submatch_complete, Matches-append, Matches-split, Matches-literal,
  Matches-literal_eq, Matches-many, Matches-many-All,
}
use registry_k8s_io.Prelude.{
  ℕ, ◌≡◌, ◌≢◌, ◌↔◌, refl, sym, ap, ap₂, ◌∙◌, subst, arith, Bool, true, [], ◌∷◌, ◌++◌, append_assoc,
  none, some, Option-cases, inl, inr, Text, codes, All, All-append, All-imp,
}

-- `<algorithm>:<encoded>`, the digest of a blob path.
pub record IsDigest (d : Text) : Type 0 where
  pub algorithm : Text
  pub hash : Text
  pub whole : d ≡ algorithm ++ (b':' ∷ hash)
  pub algorithm_not_empty : algorithm ≢ []
  pub algorithm_class : All (λ c. not_slash c ≡ true) algorithm
  pub hash_not_empty : hash ≢ []
  pub hash_class : All (λ c. encoded c ≡ true) hash

-- `/v2/<name>/blobs/<digest>`
pub record IsBlobPath (path d : Text) : Type 0 where
  pub name : Text
  pub whole : path ≡ codes "/v2/" ++ (name ++ (codes "/blobs/" ++ d))
  pub one_line : All (λ c. any_byte c ≡ true) name
  pub digest : IsDigest d

some_of_sound :
    {p : ℕ → Bool} {s : Text} → Matches (some_of p) s → (s ≢ []) × All (λ c. p c ≡ true) s
some_of_sound (byte e m) = (λ q. cc, (e, Matches-many-All m))

some_of_complete :
    (p : ℕ → Bool) (s : Text) → s ≢ [] → All (λ c. p c ≡ true) s → Matches (some_of p) s
some_of_complete p [] ne h = absurd (ne refl)
some_of_complete p (c ∷ s) ne h = byte h.0 (Matches-many p s h.1)

digest_sound : (d : Text) → Matches re_blob_digest d → IsDigest d
unfolding re_blob_digest
digest_sound d m =
    let (a, t, w, ma, mt) = Matches-split (some_of not_slash) d m in
    let (colon, h, w', mc, mh) = Matches-split (literal (codes ":")) t mt in
    let (ne, ca) = some_of_sound ma in
    let (ne', ch) = some_of_sound mh in
    record {
      algorithm = a;
      hash = h;
      whole =
          w
          ∙ ap (λ x. a ++ x)
              (w' ∙ ap (λ x. x ++ h) (Matches-literal_eq (codes ":") mc) ∙ unfold codes in refl);
      algorithm_not_empty = ne;
      algorithm_class = ca;
      hash_not_empty = ne';
      hash_class = ch;
    }

digest_complete : (d : Text) → IsDigest d → Matches re_blob_digest d
unfolding re_blob_digest codes
digest_complete d i = subst (Matches re_blob_digest) (sym i.whole) (
    Matches-append (some_of_complete not_slash i.algorithm i.algorithm_not_empty i.algorithm_class)
      (Matches-append (Matches-literal (b':' ∷ []))
        (some_of_complete encoded i.hash i.hash_not_empty i.hash_class)))

front_sound :
    (f : Text)
    → Matches re_blob_front f
    → (name : Text) × (f ≡ codes "/v2/" ++ (name ++ codes "/blobs/"))
      × All (λ c. any_byte c ≡ true) name
unfolding re_blob_front
front_sound f m =
    let (a, t, w, ma, mt) = Matches-split (literal (codes "/v2/")) f m in
    let (name, b, w', mn, mb) = Matches-split (many any_byte ∷ []) t mt in
    (
      name,
      w
          ∙ ap₂ ◌++◌ (Matches-literal_eq (codes "/v2/") ma)
              (w' ∙ ap (λ x. name ++ x) (Matches-literal_eq (codes "/blobs/") mb)),
      Matches-many-All mn,
    )

front_complete :
    (name : Text)
    → All (λ c. any_byte c ≡ true) name
    → Matches re_blob_front (codes "/v2/" ++ (name ++ codes "/blobs/"))
unfolding re_blob_front
front_complete name h =
    Matches-append (Matches-literal (codes "/v2/"))
      (Matches-append (Matches-many any_byte name h) (Matches-literal (codes "/blobs/")))

abbrev pub NoByte : ℕ → Text → Type 0
NoByte b s = All (λ c. c ≢ b) s

-- What stands behind the last slash is unique.
not-inside : (x d : Text) → NoByte b'/' (x ++ (b'/' ∷ d)) → ⊥
not-inside [] d h = h.0 refl
not-inside (c ∷ x) d h = not-inside x d h.1

pub last_unique :
    (x y d e : Text) → NoByte b'/' d → NoByte b'/' e → x ++ (b'/' ∷ d) ≡ y ++ (b'/' ∷ e) → d ≡ e
last_unique [] [] d e hd he q = cc
last_unique [] (c ∷ y) d e hd he q =
    absurd (not-inside y e (subst (NoByte b'/') (let t : d ≡ y ++ (b'/' ∷ e) = cc in t) hd))
last_unique (c ∷ x) [] d e hd he q =
    absurd (not-inside x d (subst (NoByte b'/') (let t : e ≡ x ++ (b'/' ∷ d) = cc in t) he))
last_unique (b ∷ x) (c ∷ y) d e hd he q = last_unique x y d e hd he (cc)

IsDigest-NoByte : (d : Text) → IsDigest d → NoByte b'/' d
IsDigest-NoByte d i = subst (NoByte b'/') (sym i.whole) (
    All-append (λ c. c ≢ b'/') i.algorithm (b':' ∷ i.hash)
      (All-imp i.algorithm (λ c h. ground arith) i.algorithm_class)
      (omega arith, All-imp i.hash (λ c h. ground arith) i.hash_class))

blob_digest_sound : (path d : Text) → blob_digest path ≡ some d → IsBlobPath path d
unfolding blob_digest
blob_digest_sound path d e =
    let (front, w, mf, md) = find_submatch_sound re_blob_front re_blob_digest path d e in
    let (name, wf, line) = front_sound front mf in
    record {
      name = name;
      whole =
          w
          ∙ ap (λ x. x ++ d) wf
          ∙ append_assoc (codes "/v2/") (name ++ codes "/blobs/") d
          ∙ ap (λ x. codes "/v2/" ++ x) (append_assoc name (codes "/blobs/") d);
      one_line = line;
      digest = digest_sound d md;
    }

-- What stands before the last slash of a blob path.
before_digest : {path d : Text} → IsBlobPath path d → Text
before_digest i = codes "/v2/" ++ (i.name ++ codes "/blobs")

IsBlobPath-last : {path d : Text} (i : IsBlobPath path d) → path ≡ before_digest i ++ (b'/' ∷ d)
unfolding before_digest
IsBlobPath-last {d} i =
    i.whole
    ∙ unfold codes in
      (ap (λ x. codes "/v2/" ++ x) (sym (append_assoc i.name (codes "/blobs") (b'/' ∷ d)))
        ∙ sym (append_assoc (codes "/v2/") (i.name ++ codes "/blobs") (b'/' ∷ d)))

IsBlobPath-unique : {path d e : Text} → IsBlobPath path d → IsBlobPath path e → d ≡ e
IsBlobPath-unique {d} {e} i j =
    last_unique (before_digest i) (before_digest j) d e (IsDigest-NoByte d i.digest)
      (IsDigest-NoByte e j.digest) (sym (IsBlobPath-last i) ∙ IsBlobPath-last j)

blob_digest-ne-none : {path d : Text} → IsBlobPath path d → blob_digest path ≢ none
unfolding blob_digest
blob_digest-ne-none {path} {d} i =
    subst (λ p. find_submatch re_blob_front re_blob_digest p ≢ none)
      (ap (λ x. x)
        (append_assoc (codes "/v2/") (i.name ++ codes "/blobs/") d
          ∙ ap (λ x. codes "/v2/" ++ x) (append_assoc i.name (codes "/blobs/") d)
          ∙ sym i.whole))
      (find_submatch_complete (front_complete i.name i.one_line) (digest_complete d i.digest))

-- The captured group is the digest exactly of the paths `/v2/<name>/blobs/<algorithm>:<hash>`.
pub blob_digest_iff : (path d : Text) → (blob_digest path ≡ some d) ↔ IsBlobPath path d
blob_digest_iff path d = (
  blob_digest_sound path d,
  λ i. elim (Option-cases (blob_digest path)) [
    | inl missed ↦ absurd (blob_digest-ne-none i missed)
    | inr (e, found) ↦ found ∙ ap some (IsBlobPath-unique (blob_digest_sound path e found) i)
  ],
)
