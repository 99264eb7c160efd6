-- ===== src/Geranos/Crowd/Laws.antt =====
-- cmd/geranos: a run in which the calls of the jobs interleave.
use mathlib.Core.Bool.{false≢true}
use mathlib.Core.List.{Permᴰ}
use mathlib.Core.List.Permᴰ
use registry_k8s_io.Geranos.Crowd.{
  Goroutine, Crowd, IsOver, call, start_crowd, CrowdStep, CrowdReach,
}
use registry_k8s_io.Geranos.Main.{World, s3_bucket}
use registry_k8s_io.Geranos.Main.Laws.{IsFaithful, IsCopied, Consistent, Keeps, Same-Consistent}
use registry_k8s_io.Geranos.Store.{Service, IsLawful}
use registry_k8s_io.Geranos.Threads.{Thread, finished, head_call, put_call}
use registry_k8s_io.Geranos.Threads.Jobs.{job_thread-IsSafe}
use registry_k8s_io.Geranos.Threads.Safety.{IsSafe, IsSafe-later}
use registry_k8s_io.Geranos.Uploader.{key_for_layer, Registry, S3Uploader}
use registry_k8s_io.Geranos.Walk.{Client, Job}
use registry_k8s_io.Prelude.{
  some_inj, map-append, ◌≡◌, sym, ap, ap₂, ◌∙◌, subst, Bool, false, some, List, [], ◌∷◌, ◌++◌, map,
  append-nil, All, All-imp, All-append, All-split, Text, Result, ok, err, keep_first-ok,
}
use registry_k8s_io.Prelude.Perms.{perm_start, perm_end, All-Permᴰ}

module _ (w : World) (c : Client) (g : Registry) (S : Service)
    (stored : S.State → Text → Text → Bool) (L : IsLawful S stored) (layers_of : Text → List Text)
    (u : S3Uploader) (jobs : List Job) (walked : Result (Unit {0})) where
  abbrev Safe : Goroutine → S.State → Type 0
  Safe (job, thread) s =
      IsSafe w c g S stored L layers_of u
        (λ _ t. u.dry_run ≡ false → IsCopied w c g S stored L layers_of u job t) thread s

  abbrev Kept : S.State → S.State → Type 0
  Kept s t = Keeps w c g S stored L layers_of u s t

  abbrev Fine : S.State → Type 0
  Fine s = Consistent w c g S stored L layers_of u s

  -- What one call does for its thread.
  call-Safe :
      (job : Job) (thread thread' : Thread (Result (Unit {0}))) (s s' : S.State)
      → Safe (job, thread) s
      → Fine s
      → call S thread s ≡ some (thread', s')
      → Kept s s' × Fine s' × Safe (job, thread') s'
  unfolding call IsSafe
  call-Safe job (finished a) thread' s s' h o e = absurd cc
  call-Safe job (head_call bucket key next) thread' s s' h o e =
      subst
        (λ (r : Thread (Result (Unit {0})) × S.State). Kept s r.1 × Fine r.1 × Safe (job, r.0) r.1)
        (some_inj e)
        (
          (λ b j x. L.head_keeps s bucket key b j ∙ x),
          Same-Consistent w c g S stored L layers_of u s _ (λ b j. L.head_keeps s bucket key b j) o,
          h s (λ b j x. x) o,
        )
  call-Safe job (put_call i next) thread' s s' h o e =
      let (o', h') = h s (λ b j x. x) o in
      subst
        (λ (r : Thread (Result (Unit {0})) × S.State). Kept s r.1 × Fine r.1 × Safe (job, r.0) r.1)
        (some_inj e) ((λ b j x. L.upload_keeps s i b j x), o', h')

  abbrev Copied : S.State → Job → Type 0
  Copied s job = u.dry_run ≡ false → IsCopied w c g S stored L layers_of u job s

  Copied-later : (s t : S.State) (l : List Job) → Kept s t → All (Copied s) l → All (Copied t) l
  Copied-later s t l k h =
      All-imp l
        (λ job x real desc layers e e'.
          All-imp (layers_of job.digest) (λ d y. k s3_bucket (key_for_layer d) y)
            (x real desc layers e e'))
        h

  Safe-later :
      (s t : S.State) (l : List Goroutine)
      → Kept s t
      → All (λ x. Safe x s) l
      → All (λ x. Safe x t) l
  Safe-later s t l k h =
      All-imp l (λ (job, thread) x. IsSafe-later w c g S stored L layers_of u _ thread s t k x) h

  finished-Copied :
      (job : Job) (r : Result (Unit {0})) (s : S.State)
      → Safe (job, finished r) s
      → Fine s
      → r ≡ ok tt
      → Copied s job
  unfolding IsSafe
  finished-Copied job (ok x) s h o e = h s (λ b j y. y) o
  finished-Copied job (err message) s h o e = absurd cc

  abbrev job_of : Goroutine → Job
  job_of (job, thread) = job

  -- What holds at every moment: the jobs that have ended, those that run, and those that wait are the
  -- jobs of the walk.
  record IsSound (s : S.State) (t : Crowd S.State) : Type 0 where
    fine : Fine t.state
    kept : Kept s t.state
    safe : All (λ x. Safe x t.state) t.active
    faithful : All (IsFaithful w c g S stored L layers_of u) t.waiting
    ended : List Job
    complete : Permᴰ (ended ++ (map job_of t.active ++ t.waiting)) jobs
    copied : t.result ≡ ok tt → All (Copied t.state) ended
    walk_ok : t.result ≡ ok tt → t.walking ≡ false → walked ≡ ok tt

  start-IsSound :
      (s : S.State)
      → All (IsFaithful w c g S stored L layers_of u) jobs
      → Fine s
      → IsSound s (start_crowd S g u s3_bucket c jobs walked s)
  unfolding start_crowd
  start-IsSound s f o = record {
    fine = o;
    kept = λ b j x. x;
    safe = tt;
    faithful = f;
    ended = [];
    complete = Permᴰ.refl jobs;
    copied = λ _. tt;
    walk_ok = λ _ h. absurd (false≢true (sym h));
  }

  step-IsSound :
      (s : S.State) (t v : Crowd S.State)
      → IsSound s t
      → CrowdStep S g u s3_bucket c jobs walked t v
      → IsSound s v
  step-IsSound s t v i (CrowdStep.start job rest w' e room q) = subst (IsSound s) (sym q) (record {
    fine = i.fine;
    kept = i.kept;
    safe = (job_thread-IsSafe w c g S stored L layers_of u job t.state faithful'.0, i.safe);
    faithful = faithful'.1;
    ended = i.ended;
    complete =
        perm_start jobs i.ended (map job_of t.active) rest job
          (subst (λ x. Permᴰ (i.ended ++ (map job_of t.active ++ x)) jobs) e i.complete);
    copied = i.copied;
    walk_ok = i.walk_ok;
  })
    where
      faithful' : All (IsFaithful w c g S stored L layers_of u) (job ∷ rest)
      faithful' = subst (All (IsFaithful w c g S stored L layers_of u)) e i.faithful
  step-IsSound s t v i (CrowdStep.advance before after job thread thread' state' e e' q) =
      let safe : All (λ x. Safe x t.state) (before ++ (job, thread) ∷ after) =
        subst (All (λ x. Safe x t.state)) e i.safe in
      let parts = All-split (λ x. Safe x t.state) before ((job, thread) ∷ after) safe in
      let (k, o, now) = call-Safe job thread thread' t.state state' parts.1.0 i.fine e' in
      subst (IsSound s) (sym q) (record {
        fine = o;
        kept = λ b j x. k b j (i.kept b j x);
        safe =
            All-append (λ x. Safe x state') before ((job, thread') ∷ after)
              (Safe-later t.state state' before k parts.0)
              (now, Safe-later t.state state' after k parts.1.1);
        faithful = i.faithful;
        ended = i.ended;
        complete =
            subst (λ x. Permᴰ (i.ended ++ (x ++ t.waiting)) jobs)
              (ap (map job_of) e
                ∙ map-append job_of before ((job, thread) ∷ after)
                ∙ sym (map-append job_of before ((job, thread') ∷ after)))
              i.complete;
        copied = λ h. Copied-later t.state state' i.ended k (i.copied h);
        walk_ok = i.walk_ok;
      })
  step-IsSound s t v i (CrowdStep.finish before after job r e q) =
      let safe : All (λ x. Safe x t.state) (before ++ (job, finished r) ∷ after) =
        subst (All (λ x. Safe x t.state)) e i.safe in
      let parts = All-split (λ x. Safe x t.state) before ((job, finished r) ∷ after) safe in
      subst (IsSound s) (sym q) (record {
        fine = i.fine;
        kept = i.kept;
        safe = All-append (λ x. Safe x t.state) before after parts.0 parts.1.1;
        faithful = i.faithful;
        ended = i.ended ++ job ∷ [];
        complete =
            subst (λ x. Permᴰ ((i.ended ++ job ∷ []) ++ (x ++ t.waiting)) jobs)
              (sym (map-append job_of before after))
              (perm_end jobs i.ended (map job_of before) (map job_of after) t.waiting job (
                subst (λ x. Permᴰ (i.ended ++ (x ++ t.waiting)) jobs)
                  (ap (map job_of) e ∙ map-append job_of before ((job, finished r) ∷ after))
                  i.complete));
        copied = λ h.
            let ((_, a), b) = keep_first-ok t.result r tt h in
            All-append (Copied t.state) i.ended (job ∷ []) (i.copied a)
              (finished-Copied job r t.state parts.1.0 i.fine b, tt);
        walk_ok = λ h. let ((_, a), b) = keep_first-ok t.result r tt h in i.walk_ok a;
      })
  step-IsSound s t v i (CrowdStep.walk_ends w' e q) = subst (IsSound s) (sym q) (record {
    fine = i.fine;
    kept = i.kept;
    safe = i.safe;
    faithful = i.faithful;
    ended = i.ended;
    complete = i.complete;
    copied = λ h. let ((_, a), b) = keep_first-ok t.result walked tt h in i.copied a;
    walk_ok = λ h _. (keep_first-ok t.result walked tt h).1;
  })

  reach-IsSound :
      (s : S.State) (t : Crowd S.State)
      → CrowdReach S g u s3_bucket c jobs walked s t
      → All (IsFaithful w c g S stored L layers_of u) jobs
      → Fine s
      → IsSound s t
  reach-IsSound s t (CrowdReach.begin q) f o = subst (IsSound s) (sym q) (start-IsSound s f o)
  reach-IsSound s t (CrowdReach.next {t = t'} r step) f o =
      step-IsSound s t' t (reach-IsSound s t' r f o) step

  -- At every moment of a run over a lawful service, however the calls of its jobs interleave,
  -- nothing that was stored at the start is lost, and whenever the record of an image is stored
  -- its layers are: if that was so at the start and the jobs are faithful. So a run that is broken
  -- off leaves such a state too.
  pub crowd-Consistent :
      (s : S.State) (t : Crowd S.State)
      → CrowdReach S g u s3_bucket c jobs walked s t
      → All (IsFaithful w c g S stored L layers_of u) jobs
      → Consistent w c g S stored L layers_of u s
      → Keeps w c g S stored L layers_of u s t.state
        × Consistent w c g S stored L layers_of u t.state
  crowd-Consistent s t r f o = let i = reach-IsSound s t r f o in (i.kept, i.fine)

  -- When a run over a lawful service is over, however the calls of its faithful jobs interleaved,
  -- and it is no dry run and has no error: the walk had none, and the layers of every job are
  -- stored, if whenever the record of an image was stored at the start its layers were.
  pub crowd-IsCopied :
      (s : S.State) (t : Crowd S.State)
      → CrowdReach S g u s3_bucket c jobs walked s t
      → IsOver t
      → u.dry_run ≡ false
      → All (IsFaithful w c g S stored L layers_of u) jobs
      → Consistent w c g S stored L layers_of u s
      → t.result ≡ ok tt
      → (walked ≡ ok tt) × All (λ job. IsCopied w c g S stored L layers_of u job t.state) jobs
  crowd-IsCopied s t r (stopped, none_waits, none_runs) real f o done =
      let i = reach-IsSound s t r f o in
      (
        i.walk_ok done stopped,
        All-Permᴰ (λ job. IsCopied w c g S stored L layers_of u job t.state)
            (subst (λ l. Permᴰ l jobs) (append-nil i.ended)
              (subst (λ x. Permᴰ (i.ended ++ x) jobs)
                (ap₂ (λ x y. map job_of x ++ y) none_runs none_waits) i.complete))
            (All-imp i.ended (λ job x. x real) (i.copied done)),
      )
