-- ===== src/GoText/Paths/Laws.antt =====
-- Cleaned paths: no segment leads out of the root, and plain segments are kept.
use mathlib.Core.List.{reverse, reverse-append, reverse-reverse, reverse-cons}
use registry_k8s_io.GoText.Paths.{
  split_from, split_slash, slashed, joined, dot, dot_dot, back_up, resolve, resolve_all,
  clean_segments, render, clean, join_elements, join,
}
use registry_k8s_io.Prelude.{
  ◌≡◌, ◌≢◌, refl, ap, ◌∙◌, arith, true, false, ◌||◌, eqb, List, [], ◌∷◌, ◌++◌, append-nil,
  append_assoc, Text, text_beq, text_beq_iff, All, All-append, All-reverse, Bool-cases, inl, inr,
}

abbrev pub NoSlash : Text → Type 0
NoSlash s = All (λ c. eqb c b'/' ≡ false) s

-- A segment that names a child: not empty, not `.` or `..`, and without slashes.
pub record IsPlain (s : Text) : Type 0 where
  pub not_empty : s ≢ []
  pub not_dot : s ≢ dot
  pub not_dot_dot : s ≢ dot_dot
  pub no_slash : NoSlash s

split_from-append :
    (run s t : Text) → split_from run (s ++ b'/' ∷ t) ≡ split_from run s ++ split_from [] t
unfolding split_from
split_from-append run [] t = refl
split_from-append run (c ∷ s) t = elim (Bool-cases (eqb c b'/')) [
  | inl slash ↦ rw (slash, split_from) (ap (λ l. run ∷ l) (split_from-append [] s t))
  | inr other ↦ rw (other, split_from) (split_from-append (run ++ c ∷ []) s t)
]

split_slash-append : (s t : Text) → split_slash (s ++ b'/' ∷ t) ≡ split_slash s ++ split_slash t
unfolding split_slash
split_slash-append s t = split_from-append [] s t

split_from-word : (run s : Text) → NoSlash s → split_from run s ≡ (run ++ s) ∷ []
unfolding split_from
split_from-word run [] h = rw append-nil
split_from-word run (c ∷ s) h =
    rw (h.0, split_from) (rw (split_from-word (run ++ c ∷ []) s h.1, append_assoc))

split_slash-word : (s : Text) → NoSlash s → split_slash s ≡ s ∷ []
unfolding split_slash
split_slash-word s h = split_from-word [] s h

split_slash-behind :
    (s : Text) (l : List Text) → NoSlash s → All IsPlain l → split_slash (s ++ slashed l) ≡ s ∷ l
unfolding slashed
split_slash-behind s [] n h = rw append-nil (split_slash-word s n)
split_slash-behind s (t ∷ l) n (p, h) =
    split_slash-append s (t ++ slashed l)
    ∙ rw (split_slash-word s n, split_slash-behind t l p.no_slash h)

split_slash-slashed : (l : List Text) → All IsPlain l → split_slash (slashed l) ≡ [] ∷ l
split_slash-slashed l h = split_slash-behind [] l tt h

split_slash-joined :
    (s : Text) (l : List Text) → All IsPlain (s ∷ l) → split_slash (joined (s ∷ l)) ≡ s ∷ l
unfolding joined
split_slash-joined s l (p, h) = split_slash-behind s l p.no_slash h

-- The segments of any text have no slash.
split_from-NoSlash : (run s : Text) → NoSlash run → All NoSlash (split_from run s)
unfolding split_from
split_from-NoSlash run [] h = (h, tt)
split_from-NoSlash run (c ∷ s) h = elim (Bool-cases (eqb c b'/')) [
  | inl slash ↦ rw (slash, split_from) (h, split_from-NoSlash [] s tt)
  | inr other ↦
      rw (other, split_from)
        (split_from-NoSlash (run ++ c ∷ []) s
          (All-append (λ x. eqb x b'/' ≡ false) run (c ∷ []) h (other, tt)))
]

back_up-IsPlain : (stack : List Text) → All IsPlain stack → All IsPlain (back_up true stack)
unfolding back_up
back_up-IsPlain [] h = tt
back_up-IsPlain (s ∷ stack) (p, h) = ground (arith, text_beq_iff s dot_dot, p.not_dot_dot)

resolve-IsPlain :
    (stack : List Text) (s : Text)
    → All IsPlain stack
    → NoSlash s
    → All IsPlain (resolve true stack s)
unfolding resolve
resolve-IsPlain stack s h n = elim (Bool-cases (text_beq s [] || text_beq s dot)) [
  | inl skipped ↦ rw (skipped, resolve) h
  | inr kept ↦ elim (Bool-cases (text_beq s dot_dot)) [
    | inl up ↦ rw (kept, up, resolve) (back_up-IsPlain stack h)
    | inr down ↦
        rw (kept, down, resolve)
          (
            record {
              not_empty = λ e. ground (arith, text_beq_iff s []);
              not_dot = λ e. ground (arith, text_beq_iff s dot);
              not_dot_dot = λ e. ground (arith, text_beq_iff s dot_dot);
              no_slash = n;
            },
            h,
          )
  ]
]

resolve_all-IsPlain :
    (stack l : List Text)
    → All IsPlain stack
    → All NoSlash l
    → All IsPlain (resolve_all true stack l)
unfolding resolve_all
resolve_all-IsPlain stack [] h n = h
resolve_all-IsPlain stack (s ∷ l) h (k, n) =
    resolve_all-IsPlain (resolve true stack s) l (resolve-IsPlain stack s h k) n

resolve_of_IsPlain : (stack : List Text) (s : Text) → IsPlain s → resolve true stack s ≡ s ∷ stack
unfolding resolve
resolve_of_IsPlain stack s p = ground (
  arith,
  text_beq_iff s [],
  text_beq_iff s dot,
  text_beq_iff s dot_dot,
  p.not_empty,
  p.not_dot,
  p.not_dot_dot,
)

resolve_all-append :
    (stack l k : List Text)
    → resolve_all true stack (l ++ k) ≡ resolve_all true (resolve_all true stack l) k
unfolding resolve_all
resolve_all-append stack [] k = refl
resolve_all-append stack (s ∷ l) k = resolve_all-append (resolve true stack s) l k

-- Plain segments are pushed one by one.
resolve_all_of_IsPlain :
    (stack l : List Text) → All IsPlain l → resolve_all true stack l ≡ reverse l ++ stack
unfolding resolve_all
resolve_all_of_IsPlain stack [] h = refl
resolve_all_of_IsPlain stack (s ∷ l) (p, h) =
    rw (resolve_of_IsPlain stack s p)
      (resolve_all_of_IsPlain (s ∷ stack) l h ∙ simp (reverse-cons, append_assoc))

-- Whatever the text, the cleaned rooted path holds no `.`, `..`, empty segment or inner slash.
pub clean_segments-IsPlain : (s : Text) → All IsPlain (clean_segments true s)
unfolding clean_segments split_slash
clean_segments-IsPlain s =
    All-reverse IsPlain (resolve_all true [] (split_slash s))
      (resolve_all-IsPlain [] (split_slash s) tt (split_from-NoSlash [] s tt))

resolve_all-joined :
    (stack l : List Text)
    → All IsPlain l
    → resolve_all true stack (split_slash (joined l)) ≡ reverse l ++ stack
unfolding resolve_all text_beq
resolve_all-joined stack [] h = unfold joined split_slash split_from resolve in refl
resolve_all-joined stack (s ∷ l) h =
    rw (split_slash-joined s l h) (resolve_all_of_IsPlain stack (s ∷ l) h)

resolve_all-slashed :
    (stack l : List Text)
    → All IsPlain l
    → resolve_all true stack (split_slash (slashed l)) ≡ reverse l ++ stack
unfolding resolve_all text_beq
resolve_all-slashed stack l h =
    rw (split_slash-slashed l h) (unfold resolve in (resolve_all_of_IsPlain stack l h))

-- A slash behind plain segments adds none.
pub clean_segments-slashed :
    (l : List Text) → All IsPlain l → clean_segments true (slashed l ++ b'/' ∷ []) ≡ l
unfolding clean_segments
clean_segments-slashed l h =
    rw
      (
        split_slash-append (slashed l) [],
        resolve_all-append [] (split_slash (slashed l)) (split_slash []),
        resolve_all-slashed [] l h,
      )
      (unfold split_slash split_from resolve_all resolve text_beq in
        (simp (append-nil, reverse-reverse)))

-- The segments of a first element, and of a second and a third that are plain.
clean_segments-three :
    (a : Text) (p q : List Text)
    → All IsPlain p
    → All IsPlain q
    → clean_segments true (a ++ (b'/' ∷ (joined p ++ (b'/' ∷ slashed q))))
      ≡ clean_segments true a ++ (p ++ q)
unfolding clean_segments
clean_segments-three a p q hp hq =
    rw
      (
        split_slash-append a (joined p ++ (b'/' ∷ slashed q)),
        split_slash-append (joined p) (slashed q),
        resolve_all-append [] (split_slash a) (split_slash (joined p) ++ split_slash (slashed q)),
        resolve_all-append (resolve_all true [] (split_slash a)) (split_slash (joined p))
            (split_slash (slashed q)),
        resolve_all-joined (resolve_all true [] (split_slash a)) p hp,
        resolve_all-slashed (reverse p ++ resolve_all true [] (split_slash a)) q hq,
      )
      (simp (reverse-append, reverse-reverse, append_assoc))

-- A rooted first element that is not empty decides the shape of what is joined.
join-rooted :
    (a : Text) (l : List Text)
    → join ((b'/' ∷ a) ∷ l) ≡ b'/' ∷ joined (clean_segments true ((b'/' ∷ a) ++ slashed l))
unfolding join clean join_elements render text_beq
join-rooted a l = refl

-- `path.Join` of a rooted element and of plain segments keeps the segments in order.
pub join-plain :
    (a : Text) (p q : List Text)
    → All IsPlain p
    → All IsPlain q
    → join ((b'/' ∷ a) ∷ joined p ∷ slashed q ∷ [])
      ≡ b'/' ∷ joined (clean_segments true (b'/' ∷ a) ++ (p ++ q))
unfolding slashed
join-plain a p q hp hq =
    join-rooted a (joined p ∷ slashed q ∷ [])
    ∙ rw (append-nil (slashed q))
        (ap (λ l. b'/' ∷ joined l) (clean_segments-three (b'/' ∷ a) p q hp hq))

-- Whatever is joined behind a rooted element, the path is rooted and its segments are plain.
pub join-IsPlain :
    (a : Text) (l : List Text)
    → (segments : List Text) × (join ((b'/' ∷ a) ∷ l) ≡ b'/' ∷ joined segments)
      × All IsPlain segments
join-IsPlain a l =
    (clean_segments true ((b'/' ∷ a) ++ slashed l), join-rooted a l, clean_segments-IsPlain _)
