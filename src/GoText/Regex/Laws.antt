-- ===== src/GoText/Regex/Laws.antt =====
-- The matcher finds a match exactly where there is one.
use registry_k8s_io.GoText.Regex.{
  Atom, one, many, Matches, done, byte, leave, take, run_many, run, at_end, find_submatch,
  match_string, literal,
}
use registry_k8s_io.Prelude.{
  ℕ, ◌≡◌, ◌≢◌, ◌↔◌, ◌⊎◌, inl, inr, refl, sym, ap, ap₂, subst, All, ◌∙◌, arith, Bool, true, Option,
  none, some, or_else, List, [], ◌∷◌, ◌++◌, append-nil, Text, Bool-cases, Option-cases,
}

-- A split of a text into a matched beginning and a rest that the continuation accepts.
pub record Split {ℓ} {R : Type ℓ} (re : List Atom) (k : Text → Option R) (s : Text) (r : R)
    : Type ℓ where
  pub front : Text
  pub rest : Text
  pub whole : s ≡ front ++ rest
  pub matched : Matches re front
  pub accepted : k rest ≡ some r

module _ {ℓ} {R : Type ℓ} where
  or_else-cases : (a b : Option R) {r : R} → or_else a b ≡ some r → (a ≡ some r) ⊎ (b ≡ some r)
  or_else-cases none b e = inr e
  or_else-cases (some x) b e = inl e

  -- A run of a class, and the split that the rest of the expression makes after it.
  Split-leave :
      {p : ℕ → Bool} {re : List Atom} {k : Text → Option R} {s : Text} {r : R}
      → Split re k s r
      → Split (many p ∷ re) k s r
  Split-leave d = record {
    front = d.front;
    rest = d.rest;
    whole = d.whole;
    matched = leave d.matched;
    accepted = d.accepted;
  }

  Split-take :
      {p : ℕ → Bool} {re : List Atom} {k : Text → Option R} {c : ℕ} {s : Text} {r : R}
      → p c ≡ true
      → Split (many p ∷ re) k s r
      → Split (many p ∷ re) k (c ∷ s) r
  Split-take {c} h d = record {
    front = c ∷ d.front;
    rest = d.rest;
    whole = ap (λ t. c ∷ t) d.whole;
    matched = take h d.matched;
    accepted = d.accepted;
  }

  run_many_sound :
      (p : ℕ → Bool) (re : List Atom) (k : Text → Option R)
      → ((t : Text) (r : R) → run re k t ≡ some r → Split re k t r)
      → (s : Text) (r : R) → run_many p (run re k) s ≡ some r
      → Split (many p ∷ re) k s r
  unfolding run_many
  run_many_sound p re k ih [] r e = Split-leave (ih [] r e)
  run_many_sound p re k ih (c ∷ s) r e = elim (Bool-cases (p c)) [
    | inl inside ↦
        elim (or_else-cases (run_many p (run re k) s) (run re k (c ∷ s))
          (rw (inside, run_many) at e)) [
            | inl longer ↦ Split-take inside (run_many_sound p re k ih s r longer)
            | inr here ↦ Split-leave (ih (c ∷ s) r here)
          ]
    | inr outside ↦ Split-leave (ih (c ∷ s) r (rw (outside, run_many) at e))
  ]

  pub run_sound :
      (re : List Atom) (k : Text → Option R) (s : Text) (r : R)
      → run re k s ≡ some r
      → Split re k s r
  unfolding run
  run_sound [] k s r e = record { front = []; rest = s; whole = refl; matched = done; accepted = e }
  run_sound (one p ∷ re) k [] r e = cc
  run_sound (one p ∷ re) k (c ∷ s) r e =
      let inside : p c ≡ true = ground arith in
      let d = run_sound re k s r (ground arith) in
      record {
        front = c ∷ d.front;
        rest = d.rest;
        whole = ap (λ t. c ∷ t) d.whole;
        matched = byte inside d.matched;
        accepted = d.accepted;
      }
  run_sound (many p ∷ re) k s r e = run_many_sound p re k (run_sound re k) s r e

  or_else-ne-none_left : (a b : Option R) → a ≢ none → or_else a b ≢ none
  or_else-ne-none_left none b h = absurd (h refl)
  or_else-ne-none_left (some x) b h = λ e. cc

  or_else-ne-none_right : (a b : Option R) → b ≢ none → or_else a b ≢ none
  or_else-ne-none_right none b h = h
  or_else-ne-none_right (some x) b h = λ e. cc

  run_many_here :
      (p : ℕ → Bool) (k : Text → Option R) (s : Text) → k s ≢ none → run_many p k s ≢ none
  unfolding run_many
  run_many_here p k [] h = h
  run_many_here p k (c ∷ s) h = elim (Bool-cases (p c)) [
    | inl inside ↦ rw (inside, run_many) (or_else-ne-none_right (run_many p k s) (k (c ∷ s)) h)
    | inr outside ↦ rw (outside, run_many) h
  ]

  pub run_complete :
      {re : List Atom} {f : Text} (k : Text → Option R) (t : Text)
      → Matches re f
      → k t ≢ none
      → run re k (f ++ t) ≢ none
  unfolding run
  run_complete k t done h = h
  run_complete k t (byte e m) h = rw e (run_complete k t m h)
  run_complete {f} k t (leave {p} {re} m) h =
      run_many_here p (run re k) (f ++ t) (run_complete k t m h)
  run_complete k t (take {p} {re} {c} {s} e m) h =
      rw (e, run_many) (or_else-ne-none_left _ _ (run_complete k t m h))

at_end-eq-some {ℓ} : {R : Type ℓ} (r q : R) (t : Text) → at_end r t ≡ some q → (t ≡ []) × (r ≡ q)
unfolding at_end
at_end-eq-some r q [] e = (refl, ground arith)
at_end-eq-some r q (c ∷ t) e = cc

module _ {ℓ} {R : Type ℓ} where
  -- An anchored expression matches the whole text.
  anchored_sound :
      (re : List Atom) (r q : R) (s : Text) → run re (at_end r) s ≡ some q → Matches re s × (r ≡ q)
  anchored_sound re r q s e =
      let d = run_sound re (at_end r) s q e in
      let (ended, same) = at_end-eq-some r q d.rest d.accepted in
      (
        subst (Matches re) (sym (d.whole ∙ ap (λ t. d.front ++ t) ended ∙ append-nil d.front))
            d.matched,
        same,
      )

  anchored_complete :
      {re : List Atom} {s : Text} (r : R) → Matches re s → run re (at_end r) s ≢ none
  unfolding at_end
  anchored_complete {re} {s} r m =
      subst (λ t. run re (at_end r) t ≢ none) (append-nil s)
        (run_complete (at_end r) [] m (λ e. cc))

pub match_string_iff : (re : List Atom) (s : Text) → (match_string re s ≡ true) ↔ Matches re s
unfolding match_string
match_string_iff re s = elim (Option-cases (run re (at_end true) s)) [
  | inl missed ↦ rw (missed, match_string) (λ e. cc, λ m. absurd (anchored_complete true m missed))
  | inr (q, found) ↦ rw (found, match_string) (λ e. (anchored_sound re true q s found).0, λ m. refl)
]

-- The text of the group ends the text, behind a match of what stands before the group.
pub find_submatch_sound :
    (before group : List Atom) (s g : Text)
    → find_submatch before group s ≡ some g
    → (front : Text) × (s ≡ front ++ g) × Matches before front × Matches group g
unfolding find_submatch
find_submatch_sound before group s g e =
    let d = run_sound before (λ t. run group (at_end t) t) s g e in
    let (m, same) = anchored_sound group d.rest g d.rest d.accepted in
    (d.front, d.whole ∙ ap (λ t. d.front ++ t) same, d.matched, subst (Matches group) same m)

pub find_submatch_complete :
    {before group : List Atom} {front g : Text}
    → Matches before front
    → Matches group g
    → find_submatch before group (front ++ g) ≢ none
unfolding find_submatch
find_submatch_complete {group} {g} mf mg =
    run_complete (λ t. run group (at_end t) t) g mf (anchored_complete g mg)

-- Literals and repetitions.
module _ where
  pub Matches-append :
      {re re' : List Atom} {s t : Text}
      → Matches re s
      → Matches re' t
      → Matches (re ++ re') (s ++ t)
  Matches-append done n = n
  Matches-append (byte e m) n = byte e (Matches-append m n)
  Matches-append (leave m) n = leave (Matches-append m n)
  Matches-append (take e m) n = take e (Matches-append m n)

  pub Matches-split :
      (re : List Atom) {re' : List Atom} (u : Text)
      → Matches (re ++ re') u
      → (s : Text) × (t : Text) × (u ≡ s ++ t) × Matches re s × Matches re' t
  Matches-split [] u m = ([], u, refl, done, m)
  Matches-split (one p ∷ re) [] m = elim m [ ]
  Matches-split (one p ∷ re) (c ∷ u) (byte e m) =
      let (s, t, w, a, b) = Matches-split re u m in (c ∷ s, t, ap (λ x. c ∷ x) w, byte e a, b)
  Matches-split (many p ∷ re) u (leave m) =
      let (s, t, w, a, b) = Matches-split re u m in (s, t, w, leave a, b)
  Matches-split (many p ∷ re) (c ∷ u) (take e m) =
      let (s, t, w, a, b) = Matches-split (many p ∷ re) u m in
      (c ∷ s, t, ap (λ x. c ∷ x) w, take e a, b)

  pub Matches-literal : (s : Text) → Matches (literal s) s
  Matches-literal [] = done
  Matches-literal (c ∷ s) = byte (ground arith) (Matches-literal s)

  pub Matches-literal_eq : (s : Text) {t : Text} → Matches (literal s) t → t ≡ s
  Matches-literal_eq [] done = refl
  Matches-literal_eq (x ∷ s) (byte e m) = ap₂ ◌∷◌ (ground arith) (Matches-literal_eq s m)

  pub Matches-many : (p : ℕ → Bool) (s : Text) → All (λ c. p c ≡ true) s → Matches (many p ∷ []) s
  Matches-many p [] h = leave done
  Matches-many p (c ∷ s) h = take h.0 (Matches-many p s h.1)

  pub Matches-many-All :
      {p : ℕ → Bool} {s : Text} → Matches (many p ∷ []) s → All (λ c. p c ≡ true) s
  Matches-many-All (leave done) = tt
  Matches-many-All (take e m) = (e, Matches-many-All m)
