-- ===== src/Geranos/Main/Complete.antt =====
-- cmd/geranos: what holds of every run, and of one that succeeds.
use mathlib.Core.List.{Memᴰ}
use registry_k8s_io.Geranos.Main.{
  World, s3_bucket, source_registry, upload, is_uploaded, walk_image_layers_gcp, run,
}
use registry_k8s_io.Geranos.Main.Laws.{
  IsFaithful, IsCopied, Consistent, Keeps, Runs, Runs-nothing, run_job-Runs,
}
use registry_k8s_io.Geranos.Store.{Service, IsLawful}
use registry_k8s_io.Geranos.Uploader.{Registry, S3Uploader, new_s3_uploader}
use registry_k8s_io.Geranos.Walk.{Client, Job, walk, run_job, run_jobs}
use registry_k8s_io.Prelude.{
  ◌≡◌, ◌≢◌, refl, sym, ap, ◌∙◌, subst, arith, Bool, false, inl, inr, List, [], ◌∷◌, All, All-imp,
  All-mem, Text, text_beq, text_beq_iff, Result, keep_first, keep_first-ok, Result-cases, ok, err,
}

-- The uploader of a run.
abbrev pub uploader : World → S3Uploader
uploader w = record {
  reupload_layers = false;
  dry_run = text_beq w.really_upload [];
  anonymous = text_beq w.really_upload [];
}

module _ (w : World) (c : Client) (g : Registry) (S : Service)
    (stored : S.State → Text → Text → Bool) (L : IsLawful S stored)
    (layers_of : Text → List Text) where
  module _ (u : S3Uploader) where
    abbrev pub AllCopied : List Job → S.State → Type 0
    AllCopied jobs t = All (λ job. IsCopied w c g S stored L layers_of u job t) jobs

    IsCopied-kept :
        (job : Job) (s t : S.State)
        → Keeps w c g S stored L layers_of u s t
        → IsCopied w c g S stored L layers_of u job s
        → IsCopied w c g S stored L layers_of u job t
    IsCopied-kept job s t keeps h desc layers e e' =
        All-imp (layers_of job.digest) (λ l x. keeps s3_bucket _ x) (h desc layers e e')

    -- What the jobs do, and what their result says of the one before them.
    unfoldable pub Jobs :
        List Job → Result (Unit {0}) → S.State → Result (Unit {0}) × S.State → Type 0
    Jobs jobs result s r =
        Runs w c g S stored L layers_of u (AllCopied jobs) s r × (r.0 ≡ ok tt → result ≡ ok tt)

    joined :
        (job : Job) (jobs : List Job) (result : Result (Unit {0})) (s : S.State)
        (r r' : Result (Unit {0}) × S.State)
        → Runs w c g S stored L layers_of u (IsCopied w c g S stored L layers_of u job) s r
        → Jobs jobs (keep_first result r.0) r.1 r'
        → Jobs (job ∷ jobs) result s r'
    unfolding Jobs Runs
    joined job jobs result s r r' (k, cons, p, dry) ((k', cons', p', dry'), all_ok) = (
      (
        (λ b j h. k' b j (k b j h)),
        (λ h. cons' (cons h)),
        (λ real h done. (
          IsCopied-kept job r.1 r'.1 k' (p real h (keep_first-ok result r.0 tt (all_ok done)).1),
          p' real (cons h) done,
        )),
        (λ d b j. dry' d b j ∙ dry d b j),
      ),
      λ done. (keep_first-ok result r.0 tt (all_ok done)).0.1,
    )

    pub run_jobs-Jobs :
        (jobs : List Job) (result : Result (Unit {0})) (s : S.State)
        → All (IsFaithful w c g S stored L layers_of u) jobs
        → Jobs jobs result s (run_jobs c (upload w c g S u) (is_uploaded w c g S u) jobs result s)
    unfolding run_jobs Jobs
    run_jobs-Jobs [] result s f =
        (Runs-nothing w c g S stored L layers_of u (AllCopied []) s result (λ _ _. tt), λ e. e)
    run_jobs-Jobs (job ∷ jobs) result s f =
        joined job jobs result s (run_job c (upload w c g S u) (is_uploaded w c g S u) job s) _
          (run_job-Runs w c g S stored L layers_of u job s f.0) (run_jobs-Jobs jobs _ _ f.1)

  module _ (schedule : List Job → List Job) where
    abbrev pub jobs_of : Text → List Job
    jobs_of repo = schedule (walk c (w.visits repo)).0

    -- Every job that is started is faithful.
    abbrev pub AllFaithful : Type 0
    AllFaithful =
        (repo : Text) → All (IsFaithful w c g S stored L layers_of (uploader w)) (jobs_of repo)

    run-eq-run_jobs :
        (repo : Text) (s : S.State)
        → w.new_repository source_registry ≡ ok repo
        → w.load_config ≡ ok tt
        → run w c g S schedule s
          ≡ run_jobs c
              (upload w c g S (uploader w))
              (is_uploaded w c g S (uploader w))
              (jobs_of repo)
              (walk c (w.visits repo)).1
              s
    unfolding run walk_image_layers_gcp new_s3_uploader run_jobs upload is_uploaded
    run-eq-run_jobs repo s e e' = rw (run, e, e') refl

    nothing :
        (s : S.State) (r : Result (Unit {0}))
        → run w c g S schedule s ≡ (r, s)
        → Runs w c g S stored L layers_of (uploader w) (λ t. Unit {0}) s (run w c g S schedule s)
    nothing s r e =
        subst (Runs w c g S stored L layers_of (uploader w) (λ t. Unit {0}) s) (sym e)
          (Runs-nothing w c g S stored L layers_of (uploader w) (λ t. Unit {0}) s r (λ _ _. tt))

    forget :
        (jobs : List Job) (result : Result (Unit {0})) (s : S.State)
        (r : Result (Unit {0}) × S.State)
        → Jobs (uploader w) jobs result s r
        → Runs w c g S stored L layers_of (uploader w) (λ t. Unit {0}) s r
    unfolding Jobs Runs
    forget jobs result s r ((k, cons, p, dry), _) = (k, cons, (λ _ _ _. tt), dry)

    run-Runs :
        (s : S.State)
        → AllFaithful
        → Runs w c g S stored L layers_of (uploader w) (λ t. Unit {0}) s (run w c g S schedule s)
    unfolding run new_s3_uploader
    run-Runs s f = elim (Result-cases (w.new_repository source_registry)) [
      | inr (message, e) ↦ nothing s (err message) (rw (run, e) refl)
      | inl (repo, e) ↦ elim (Result-cases w.load_config) [
        | inr (message, e') ↦ nothing s (err message) (rw (run, e, new_s3_uploader, e') refl)
        | inl (x, e') ↦ forget _ _ s (run w c g S schedule s) (
            subst (Jobs (uploader w) (jobs_of repo) (walk c (w.visits repo)).1 s)
              (sym (run-eq-run_jobs repo s e e'))
              (run_jobs-Jobs (uploader w) (jobs_of repo) (walk c (w.visits repo)).1 s (f repo)))
      ]
    ]

    -- Where an order of the jobs leaves none out, every job is faithful, and whenever the record of an
    -- image was stored before its layers were: a run that really uploads and returns no error has
    -- stored all layers of every image that the walk over the repository comes to.
    pub run-IsCopied :
        (repo : Text) (s : S.State)
        → w.really_upload ≢ []
        → w.new_repository source_registry ≡ ok repo
        → w.load_config ≡ ok tt
        → AllFaithful
        → ((job : Job) → Memᴰ job (walk c (w.visits repo)).0 → Memᴰ job (jobs_of repo))
        → Consistent w c g S stored L layers_of (uploader w) s
        → (run w c g S schedule s).0 ≡ ok tt
        → ((walk c (w.visits repo)).1 ≡ ok tt)
          × ((job : Job)
              → Memᴰ job (walk c (w.visits repo)).0
              → IsCopied w c g S stored L layers_of (uploader w) job (run w c g S schedule s).1)
    unfolding Jobs Runs
    run-IsCopied repo s real e e' f all_jobs h done =
        let same = run-eq-run_jobs repo s e e' in
        let ((_, _, p, _), walked) =
          run_jobs-Jobs (uploader w) (jobs_of repo) (walk c (w.visits repo)).1 s (f repo) in
        let done' = sym (ap (λ (r : Result (Unit {0}) × S.State). r.0) same) ∙ done in
        (
          walked done',
          λ job m.
              subst
                (λ (r : Result (Unit {0}) × S.State).
                  IsCopied w c g S stored L layers_of (uploader w) job r.1)
                (sym same)
                (All-mem (λ j. IsCopied w c g S stored L layers_of (uploader w) j _)
                  (all_jobs job m) (p not_dry h done')),
        )
      where
        not_dry : text_beq w.really_upload [] ≡ false
        not_dry = ground (arith, text_beq_iff w.really_upload [])

    -- However a run ends whose jobs are faithful, if whenever the record of an image was stored its
    -- layers were, then that is so afterwards.
    pub run-IsConsistent :
        (s : S.State)
        → AllFaithful
        → Consistent w c g S stored L layers_of (uploader w) s
        → Consistent w c g S stored L layers_of (uploader w) (run w c g S schedule s).1
    unfolding Runs
    run-IsConsistent s f h = let (_, cons, _, _) = run-Runs s f in cons h
