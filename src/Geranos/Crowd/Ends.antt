-- ===== src/Geranos/Crowd/Ends.antt =====
-- cmd/geranos: a run ends, and does not wait for ever before.
use mathlib.Core.Bool.{false≢true}
use mathlib.Core.WellFounded.{Acc}
use registry_k8s_io.Geranos.Crowd.{
  Goroutine, Crowd, IsOver, call, start_crowd, CrowdStep, CrowdReach,
}
use registry_k8s_io.Geranos.Store.{Head, Service}
use registry_k8s_io.Geranos.Threads.{Thread, finished, head_call, put_call}
use registry_k8s_io.Geranos.Uploader.{Registry, S3Uploader}
use registry_k8s_io.Geranos.Walk.{Client, Job}
use registry_k8s_io.Prelude.{
  some_inj, ◌≡◌, ◌⊎◌, inl, inr, refl, sym, ap, ◌∙◌, subst, arith, true, false, Bool-cases, some,
  List, [], ◌∷◌, ◌++◌, length, Text, Result,
}

-- What a thread may be after its next call.
abbrev Child : {A : Type 0} → Thread A → Thread A → Type 0
Child thread' (finished a) = ⊥
Child thread' (head_call bucket key next) = (answer : Head) × (thread' ≡ next answer)
Child thread' (put_call i next) = (answer : Result (Unit {0})) × (thread' ≡ next answer)

-- Goroutines after one of them has made a call or has ended.
abbrev Shorter : List Goroutine → List Goroutine → Type 0
Shorter l' [] = ⊥
Shorter l' (x ∷ l) =
    ((thread' : Thread (Result (Unit {0}))) × Child thread' x.1 × (l' ≡ (x.0, thread') ∷ l))
    ⊎ ((l' ≡ l) ⊎ ((k : List Goroutine) × Shorter k l × (l' ≡ x ∷ k)))

cons-Acc :
    (job : Job) (thread : Thread (Result (Unit {0}))) (l : List Goroutine)
    → Acc Shorter l
    → Acc Shorter ((job, thread) ∷ l)
cons-Acc job (finished a) l (Acc.intro _ smaller) = Acc.intro _ (λ l' st. elim st [
  | inl (thread', none_left, q) ↦ absurd none_left
  | inr (inl q) ↦ subst (Acc Shorter) (sym q) (Acc.intro l smaller)
  | inr (inr (k, s, q)) ↦ subst (Acc Shorter) (sym q) (cons-Acc job (finished a) k (smaller k s))
])
cons-Acc job (head_call bucket key next) l (Acc.intro _ smaller) = Acc.intro _ (λ l' st. elim st [
  | inl (thread', (answer, e), q) ↦
      subst (Acc Shorter) (sym (q ∙ ap (λ t. (job, t) ∷ l) e))
        (cons-Acc job (next answer) l (Acc.intro l smaller))
  | inr (inl q) ↦ subst (Acc Shorter) (sym q) (Acc.intro l smaller)
  | inr (inr (k, s, q)) ↦
      subst (Acc Shorter) (sym q) (cons-Acc job (head_call bucket key next) k (smaller k s))
])
cons-Acc job (put_call i next) l (Acc.intro _ smaller) = Acc.intro _ (λ l' st. elim st [
  | inl (thread', (answer, e), q) ↦
      subst (Acc Shorter) (sym (q ∙ ap (λ t. (job, t) ∷ l) e))
        (cons-Acc job (next answer) l (Acc.intro l smaller))
  | inr (inl q) ↦ subst (Acc Shorter) (sym q) (Acc.intro l smaller)
  | inr (inr (k, s, q)) ↦
      subst (Acc Shorter) (sym q) (cons-Acc job (put_call i next) k (smaller k s))
])

goroutines-Acc : (l : List Goroutine) → Acc Shorter l
goroutines-Acc [] = Acc.intro _ (λ l' st. absurd st)
goroutines-Acc ((job, thread) ∷ l) = cons-Acc job thread l (goroutines-Acc l)

advance-Shorter :
    (before after : List Goroutine) (job : Job) (thread thread' : Thread (Result (Unit {0})))
    → Child thread' thread
    → Shorter (before ++ (job, thread') ∷ after) (before ++ (job, thread) ∷ after)
advance-Shorter [] after job thread thread' h = inl (thread', h, refl)
advance-Shorter (x ∷ before) after job thread thread' h = inr (
    inr (before ++ (job, thread') ∷ after, advance-Shorter before after job thread thread' h, refl))

finish-Shorter :
    (before after : List Goroutine) (x : Goroutine)
    → Shorter (before ++ after) (before ++ x ∷ after)
finish-Shorter [] after x = inr (inl refl)
finish-Shorter (y ∷ before) after x =
    inr (inr (before ++ after, finish-Shorter before after x, refl))

module _ (S : Service) (g : Registry) (u : S3Uploader) (bucket : Text) (c : Client)
    (jobs : List Job) (walked : Result (Unit {0})) where
  call-Child :
      (thread thread' : Thread (Result (Unit {0}))) (s s' : S.State)
      → call S thread s ≡ some (thread', s')
      → Child thread' thread
  unfolding call
  call-Child (finished a) thread' s s' e = absurd cc
  call-Child (head_call bucket' key next) thread' s s' e = (
    (S.head_object s bucket' key).0,
    sym (ap (λ (r : Thread (Result (Unit {0})) × S.State). r.0) (some_inj e)),
  )
  call-Child (put_call i next) thread' s s' e =
      ((S.upload s i).0, sym (ap (λ (r : Thread (Result (Unit {0})) × S.State). r.0) (some_inj e)))

  -- One step later.
  abbrev pub Later : Crowd S.State → Crowd S.State → Type 0
  Later v t = CrowdStep S g u bucket c jobs walked t v

  -- After the walk only the goroutines that are left take steps.
  walked-Acc :
      (active : List Goroutine)
      → Acc Shorter active
      → (t : Crowd S.State) → t.walking ≡ false
      → t.active ≡ active
      → Acc Later t
  walked-Acc active (Acc.intro _ smaller) t w a = Acc.intro t (λ v st. elim st [
    | CrowdStep.start job rest w' e room q ↦ absurd (false≢true (sym w ∙ w'))
    | CrowdStep.advance before after job thread thread' state' e e' q ↦
        walked-Acc (before ++ (job, thread') ∷ after)
          (smaller _ (
            subst (Shorter (before ++ (job, thread') ∷ after)) (sym e ∙ a) (
              advance-Shorter before after job thread thread'
                (call-Child thread thread' t.state state' e'))))
          v (ap (λ (x : Crowd S.State). x.walking) q ∙ w) (ap (λ (x : Crowd S.State). x.active) q)
    | CrowdStep.finish before after job r e q ↦
        walked-Acc (before ++ after)
          (smaller _ (
            subst (Shorter (before ++ after)) (sym e ∙ a)
              (finish-Shorter before after (job, finished r))))
          v (ap (λ (x : Crowd S.State). x.walking) q ∙ w) (ap (λ (x : Crowd S.State). x.active) q)
    | CrowdStep.walk_ends w' e q ↦ absurd (false≢true (sym w ∙ w'))
  ])

  -- Before, if each start of a job that waits leads to an end.
  walking-Acc :
      (waiting : List Job) (active : List Goroutine)
      → Acc Shorter active
      → ((job : Job) (rest : List Job)
          → waiting ≡ job ∷ rest
          → (v : Crowd S.State) → v.waiting ≡ rest
          → Acc Later v)
      → (t : Crowd S.State) → t.waiting ≡ waiting
      → t.active ≡ active
      → Acc Later t
  walking-Acc waiting active (Acc.intro _ smaller) started t h a = Acc.intro t (λ v st. elim st [
    | CrowdStep.start job rest w' e room q ↦
        started job rest (sym h ∙ e) v (ap (λ (x : Crowd S.State). x.waiting) q)
    | CrowdStep.advance before after job thread thread' state' e e' q ↦
        walking-Acc waiting (before ++ (job, thread') ∷ after)
          (smaller _ (
            subst (Shorter (before ++ (job, thread') ∷ after)) (sym e ∙ a) (
              advance-Shorter before after job thread thread'
                (call-Child thread thread' t.state state' e'))))
          started v (ap (λ (x : Crowd S.State). x.waiting) q ∙ h)
          (ap (λ (x : Crowd S.State). x.active) q)
    | CrowdStep.finish before after job r e q ↦
        walking-Acc waiting (before ++ after)
          (smaller _ (
            subst (Shorter (before ++ after)) (sym e ∙ a)
              (finish-Shorter before after (job, finished r))))
          started v (ap (λ (x : Crowd S.State). x.waiting) q ∙ h)
          (ap (λ (x : Crowd S.State). x.active) q)
    | CrowdStep.walk_ends w' e q ↦
        walked-Acc active (Acc.intro active smaller) v (ap (λ (x : Crowd S.State). x.walking) q)
          (ap (λ (x : Crowd S.State). x.active) q ∙ a)
  ])

  waiting-Acc : (waiting : List Job) (t : Crowd S.State) → t.waiting ≡ waiting → Acc Later t
  waiting-Acc [] t h =
      walking-Acc [] t.active (goroutines-Acc t.active) (λ job rest e v h'. absurd (cc)) t h refl
  waiting-Acc (j ∷ l) t h =
      walking-Acc (j ∷ l) t.active (goroutines-Acc t.active)
        (λ job rest e v h'. waiting-Acc l v (h' ∙ tail_eq e)) t h refl
    where
      tail_eq : {x y : Job} {k k' : List Job} → x ∷ k ≡ y ∷ k' → k' ≡ k
      tail_eq e = cc

  -- Every sequence of steps comes to an end, whatever the service answers and however the calls of the
  -- jobs interleave.
  pub crowd-Acc : (t : Crowd S.State) → Acc Later t
  crowd-Acc t = waiting-Acc t.waiting t refl

  walk_has_ended :
      (s : S.State) (t : Crowd S.State)
      → CrowdReach S g u bucket c jobs walked s t
      → t.walking ≡ false
      → t.waiting ≡ []
  unfolding start_crowd
  walk_has_ended s t (CrowdReach.begin q) h =
      absurd (false≢true (sym h ∙ ap (λ (x : Crowd S.State). x.walking) q))
  walk_has_ended s t (CrowdReach.next r (CrowdStep.start job rest w e room q)) h =
      absurd (false≢true (sym h ∙ ap (λ (x : Crowd S.State). x.walking) q ∙ w))
  walk_has_ended s t
        (CrowdReach.next {t = t'} r
          (CrowdStep.advance before after job thread thread' state' e e' q))
        h =
      ap (λ (x : Crowd S.State). x.waiting) q
      ∙ walk_has_ended s t' r (sym (ap (λ (x : Crowd S.State). x.walking) q) ∙ h)
  walk_has_ended s t (CrowdReach.next {t = t'} r (CrowdStep.finish before after job r' e q)) h =
      ap (λ (x : Crowd S.State). x.waiting) q
      ∙ walk_has_ended s t' r (sym (ap (λ (x : Crowd S.State). x.walking) q) ∙ h)
  walk_has_ended s t (CrowdReach.next r (CrowdStep.walk_ends w e q)) h =
      ap (λ (x : Crowd S.State). x.waiting) q ∙ e

  -- A group that is not over can take a step: the walk has a job to start and room for it, or a
  -- goroutine has a call to make or has ended, or the walk ends.
  pub crowd-continues :
      (s : S.State) (t : Crowd S.State)
      → CrowdReach S g u bucket c jobs walked s t
      → IsOver t ⊎ ((v : Crowd S.State) × CrowdStep S g u bucket c jobs walked t v)
  unfolding call
  crowd-continues s t r = go t.active refl t.waiting refl (Bool-cases t.walking)
    where
      go :
          (active : List Goroutine)
          → t.active ≡ active
          → (waiting : List Job) → t.waiting ≡ waiting
          → (t.walking ≡ true) ⊎ (t.walking ≡ false)
          → IsOver t ⊎ ((v : Crowd S.State) × CrowdStep S g u bucket c jobs walked t v)
      go ((job, finished x) ∷ rest) a waiting e w = inr (_, CrowdStep.finish [] rest job x a refl)
      go ((job, head_call b k next) ∷ rest) a waiting e w =
          inr (_, CrowdStep.advance [] rest job (head_call b k next) _ _ a refl refl)
      go ((job, put_call i next) ∷ rest) a waiting e w =
          inr (_, CrowdStep.advance [] rest job (put_call i next) _ _ a refl refl)
      go [] a [] e (inl w) = inr (_, CrowdStep.walk_ends w e refl)
      go [] a (job ∷ rest) e (inl w) =
          inr (_, CrowdStep.start job rest w e (omega (arith, ap length a)) refl)
      go [] a waiting e (inr w) = inl (w, walk_has_ended s t r w, a)
