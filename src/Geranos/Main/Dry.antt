-- ===== src/Geranos/Main/Dry.antt =====
-- cmd/geranos: a dry run, from its start to its end.
use registry_k8s_io.Geranos.Main.{
  World, s3_bucket, source_registry, upload, is_uploaded, walk_image_layers_gcp, run,
}
use registry_k8s_io.Geranos.Store.{Service}
use registry_k8s_io.Geranos.Threads.{Thread, finished, head_call, put_call, job_thread}
use registry_k8s_io.Geranos.Threads.Alone.{run_thread, run_thread-job_thread}
use registry_k8s_io.Geranos.Threads.Dry.{IsReadOnly, job_thread-IsReadOnly}
use registry_k8s_io.Geranos.Uploader.{Registry, S3Uploader, new_s3_uploader}
use registry_k8s_io.Geranos.Walk.{Client, Job, walk, run_job, run_jobs}
use registry_k8s_io.Prelude.{
  ◌≡◌, refl, ◌∙◌, subst, Bool, true, List, [], ◌∷◌, Text, text_beq, text_beq_iff, Result, ok, err,
}

-- A HEAD request neither stores nor removes anything.
abbrev pub HeadKeeps : (S : Service) → (S.State → Text → Text → Bool) → Type 0
HeadKeeps S stored =
    (s : S.State) (b k c j : Text) → stored (S.head_object s b k).1 c j ≡ stored s c j

module _ (S : Service) (stored : S.State → Text → Text → Bool) (keeps : HeadKeeps S stored) where
  abbrev Same : S.State → S.State → Type 0
  Same s t = (b j : Text) → stored t b j ≡ stored s b j

  run_thread-Same :
      {A : Type 0} (m : Thread A) (s : S.State) → IsReadOnly m → Same s (run_thread S m s).1
  unfolding run_thread IsReadOnly
  run_thread-Same (finished a) s h b j = refl
  run_thread-Same (head_call bucket key next) s h b j =
      run_thread-Same (next (S.head_object s bucket key).0) (S.head_object s bucket key).1
        (h (S.head_object s bucket key).0) b j
      ∙ keeps s bucket key b j
  run_thread-Same (put_call i next) s h b j = absurd h

  module _ (w : World) (c : Client) (g : Registry) where
    run_job-Same :
        (u : S3Uploader) (job : Job) (s : S.State)
        → u.dry_run ≡ true
        → Same s (run_job c (upload w c g S u) (is_uploaded w c g S u) job s).1
    run_job-Same u job s e =
        subst (λ (r : Result (Unit {0}) × S.State). Same s r.1)
          (run_thread-job_thread S w c g u job s)
          (run_thread-Same (job_thread g u s3_bucket c job) s
            (job_thread-IsReadOnly g u s3_bucket e c job))

    run_jobs-Same :
        (u : S3Uploader) (jobs : List Job) (result : Result (Unit {0})) (s : S.State)
        → u.dry_run ≡ true
        → Same s (run_jobs c (upload w c g S u) (is_uploaded w c g S u) jobs result s).1
    unfolding run_jobs
    run_jobs-Same u [] result s e b j = refl
    run_jobs-Same u (job ∷ jobs) result s e b j =
        run_jobs-Same u jobs _ (run_job c (upload w c g S u) (is_uploaded w c g S u) job s).1 e b j
        ∙ run_job-Same u job s e b j

    -- A run without REALLY_UPLOAD stores nothing and removes nothing, in whatever order its jobs run
    -- one after another, and whatever the registry and the service answer: if a HEAD request of the
    -- service stores nothing and removes nothing.
    pub run_dry :
        (schedule : List Job → List Job) (s : S.State)
        → w.really_upload ≡ []
        → (b j : Text) → stored (run w c g S schedule s).1 b j ≡ stored s b j
    unfolding run new_s3_uploader walk_image_layers_gcp
    run_dry schedule s e b j = go (w.new_repository source_registry) w.load_config
      where
        go :
            (repository : Result Text) (config : Result (Unit {0}))
            → (let r : Result (Unit {0}) × S.State = elim repository [
              | err message ↦ (err message, s)
              | ok repo ↦ elim (new_s3_uploader config (text_beq w.really_upload [])) [
                | err message ↦ (err message, s)
                | ok u ↦ walk_image_layers_gcp w c g S schedule u repo s
              ]
            ] in
                stored r.1 b j)
              ≡ stored s b j
        go (err message) config = refl
        go (ok repo) (err message) = refl
        go (ok repo) (ok x) =
            run_jobs-Same _ (schedule (walk c (w.visits repo)).0) _ s
              ((text_beq_iff w.really_upload []).1 e) b j
