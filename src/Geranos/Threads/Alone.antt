-- ===== src/Geranos/Threads/Alone.antt =====
-- cmd/geranos: a thread that runs alone does what the job's function does.
use mathlib.Core.Path.{fun_ext}
use registry_k8s_io.Geranos.Main.{World, s3_bucket, upload, is_uploaded}
use registry_k8s_io.Geranos.Store.{Head, found, failed, PutObjectInput, Service, Action}
use registry_k8s_io.Geranos.Uploader.{
  Hash, ImageBlob, Registry, S3Uploader, key_for_layer, key_for_image_record, on_head_error,
  manifest_blob_from_ref, checksum, blob_exists, image_already_uploaded, put_blob, copy_to_s3,
  copy_manifest_to_s3, copy_layer_to_s3, copy_layers, upload_image,
}
use registry_k8s_io.Geranos.Threads.{
  Thread, finished, head_call, put_call, ◌>>=◌, exists_of, put_blob_thread, put_unless, copy_thread,
  copy_layers_thread, record_thread, upload_thread, manifest_thread, unless_skipped, job_thread,
}
use registry_k8s_io.Geranos.Walk.{
  Reference, Client, Job, manifest_layers, walk_manifest_layers, run_job,
}
use registry_k8s_io.Prelude.{
  ◌≡◌, refl, sym, ap, ap₂, ◌∙◌, Bool, true, false, Option, none, some, List, [], ◌∷◌, Text, Result,
  ok, err, if◌then◌else◌,
}
use registry_k8s_io.Prelude.Actions as Actions

module _ (S : Service) where
  -- All calls of a thread, one after another.
  unfoldable pub run_thread : {A : Type 0} → Thread A → S.State → A × S.State
  run_thread (finished a) s = (a, s)
  run_thread (head_call bucket key next) s =
      let (answer, s') = S.head_object s bucket key in run_thread (next answer) s'
  run_thread (put_call i next) s = let (answer, s') = S.upload s i in run_thread (next answer) s'

  run_thread-bind :
      {A B : Type 0} (m : Thread (Result A)) (f : A → Thread (Result B)) (s : S.State)
      → run_thread (m >>= f) s ≡ Actions.◌>>=◌ (run_thread m) (λ a. run_thread (f a)) s
  unfolding run_thread ◌>>=◌
  run_thread-bind (finished (ok a)) f s = refl
  run_thread-bind (finished (err message)) f s = refl
  run_thread-bind (head_call bucket key next) f s =
      run_thread-bind (next (S.head_object s bucket key).0) f (S.head_object s bucket key).1
  run_thread-bind (put_call i next) f s = run_thread-bind (next (S.upload s i).0) f (S.upload s i).1

  -- The same for a first step and a rest that are known.
  then-eq :
      {A B : Type 0} (m : Thread (Result A)) (f : A → Thread (Result B)) (m' : Action S.State A)
      (f' : A → Action S.State B) (s : S.State)
      → run_thread m ≡ m'
      → ((a : A) → run_thread (f a) ≡ f' a)
      → run_thread (m >>= f) s ≡ Actions.◌>>=◌ m' f' s
  then-eq m f m' f' s e h = run_thread-bind m f s ∙ ap₂ (λ x y. Actions.◌>>=◌ x y s) e (fun_ext h)

  lifted : {A : Type 0} (a : Result A) → run_thread (finished a) ≡ Actions.lift a
  unfolding run_thread
  lifted a = refl

  module _ (g : Registry) (u : S3Uploader) (bucket : Text) where
    put_or_dry :
        (dry : Bool) (i : PutObjectInput)
        → run_thread (if dry then finished (ok tt) else put_call i (λ answer. finished answer))
          ≡ (if dry then Actions.lift (ok tt) else (λ s. S.upload s i))
    unfolding run_thread
    put_or_dry true i = refl
    put_or_dry false i = refl

    run_thread-put_blob_thread :
        (key : Text) (layer : ImageBlob) (digest : Hash)
        → run_thread (put_blob_thread g u bucket key layer digest)
          ≡ put_blob g S u bucket key layer digest
    unfolding put_blob_thread put_blob
    run_thread-put_blob_thread key layer digest = fun_ext λ s.
        then-eq _ _ _ _ s (lifted layer.compressed) λ r. fun_ext λ s'.
          then-eq _ _ _ _ s' (lifted (checksum g digest)) λ sum.
            put_or_dry u.dry_run
              (record { bucket = bucket; key = key; body = r; checksum_sha256 = sum })

    -- What `copyToS3` does after the check.
    abbrev unless : Text → ImageBlob → Hash → Result Bool → Action S.State (Unit {0})
    unless key layer digest exists s = elim exists [
      | ok true ↦ (ok tt, s)
      | _ ↦ put_blob g S u bucket key layer digest s
    ]

    run_thread-put_unless :
        (key : Text) (layer : ImageBlob) (digest : Hash) (exists : Result Bool)
        → run_thread (put_unless g u bucket key layer digest exists)
          ≡ unless key layer digest exists
    unfolding put_unless run_thread
    run_thread-put_unless key layer digest (ok true) = refl
    run_thread-put_unless key layer digest (ok false) = run_thread-put_blob_thread key layer digest
    run_thread-put_unless key layer digest (err message) =
        run_thread-put_blob_thread key layer digest

    blob_exists-exists_of :
        (key : Text) (s : S.State)
        → ◌≡◌ {A = Result Bool × S.State}
            (blob_exists g S u bucket key s)
            (exists_of (S.head_object s bucket key).0, (S.head_object s bucket key).1)
    unfolding blob_exists exists_of
    blob_exists-exists_of key s = go (S.head_object s bucket key)
      where
        go :
            (r : Head × S.State)
            → ◌≡◌ {A = Result Bool × S.State}
                (elim r.0 [ found ↦ (ok true, r.1) | failed e ↦ (on_head_error e, r.1) ])
                (exists_of r.0, r.1)
        go (found, t) = refl
        go (failed e, t) = refl

    checked :
        (reupload : Bool) (key : Text) (layer : ImageBlob) (digest : Hash)
        → run_thread (
            if reupload
            then put_blob_thread g u bucket key layer digest
            else head_call bucket key
                (λ answer. put_unless g u bucket key layer digest (exists_of answer)))
          ≡ (if reupload then put_blob g S u bucket key layer digest else (λ s.
              let (exists, s') = blob_exists g S u bucket key s in
              elim exists [
                | ok true ↦ (ok tt, s')
                | _ ↦ put_blob g S u bucket key layer digest s'
              ]))
    unfolding run_thread
    checked true key layer digest = run_thread-put_blob_thread key layer digest
    checked false key layer digest = fun_ext λ s.
        ap (λ f. f (S.head_object s bucket key).1)
          (run_thread-put_unless key layer digest (exists_of (S.head_object s bucket key).0))
        ∙ ap (λ (r : Result Bool × S.State). unless key layer digest r.0 r.1)
            (sym (blob_exists-exists_of key s))

    run_thread-copy_thread :
        (key : Text) (layer : ImageBlob)
        → run_thread (copy_thread g u bucket key layer) ≡ copy_to_s3 g S u bucket key layer
    unfolding copy_thread copy_to_s3
    run_thread-copy_thread key layer = fun_ext λ s.
        then-eq _ _ _ _ s (lifted layer.digest) λ digest. checked u.reupload_layers key layer digest

    run_thread-copy_layers_thread :
        (layers : List ImageBlob)
        → run_thread (copy_layers_thread g u bucket layers) ≡ copy_layers g S u bucket layers
    unfolding copy_layers_thread copy_layers copy_layer_to_s3
    run_thread-copy_layers_thread [] = lifted (ok tt)
    run_thread-copy_layers_thread (layer ∷ layers) = fun_ext λ s.
        then-eq _ _ _ _ s
          (fun_ext λ t.
            then-eq _ _ _ _ t (lifted layer.digest)
              λ digest. run_thread-copy_thread (key_for_layer (g.hash_string digest)) layer)
          (λ _. run_thread-copy_layers_thread layers)

    run_thread-record_thread :
        (ref_name : Text)
        → run_thread (record_thread g u bucket ref_name)
          ≡ Actions.◌>>=◌
              (Actions.lift (manifest_blob_from_ref g ref_name))
              (copy_manifest_to_s3 g S u bucket)
    unfolding record_thread copy_manifest_to_s3
    run_thread-record_thread ref_name = fun_ext λ s.
        then-eq _ _ _ _ s (lifted (manifest_blob_from_ref g ref_name)) λ m. fun_ext λ t.
          then-eq _ _ _ _ t (lifted m.digest)
            λ digest. run_thread-copy_thread (key_for_image_record (g.hash_string digest)) m

    run_thread-upload_thread :
        (ref_name : Text) (layers : List ImageBlob)
        → run_thread (upload_thread g u bucket ref_name layers)
          ≡ upload_image g S u bucket ref_name layers
    unfolding upload_thread upload_image
    run_thread-upload_thread ref_name layers = fun_ext λ s.
        then-eq _ _ _ _ s (run_thread-copy_layers_thread layers)
          (λ _. run_thread-record_thread ref_name)

  module _ (w : World) (c : Client) (g : Registry) (u : S3Uploader) where
    manifest :
        (ref : Reference) (layers : Option (List ImageBlob))
        → run_thread (elim layers [
          | none ↦ finished (ok tt)
          | some l ↦ upload_thread g u s3_bucket ref.name l
        ])
          ≡ (elim layers [ none ↦ Actions.lift (ok tt) | some l ↦ upload w c g S u ref l ])
    unfolding run_thread upload
    manifest ref none = refl
    manifest ref (some l) = run_thread-upload_thread g u s3_bucket ref.name l

    run_thread-manifest_thread :
        (ref : Reference)
        → run_thread (manifest_thread g u s3_bucket c ref)
          ≡ walk_manifest_layers c (upload w c g S u) (is_uploaded w c g S u) ref
    unfolding manifest_thread walk_manifest_layers
    run_thread-manifest_thread ref = fun_ext λ s. then-eq _ _ _ _ s (lifted (c.get ref)) λ desc.
        fun_ext
          λ t. then-eq _ _ _ _ t (lifted (manifest_layers c ref desc)) λ layers. manifest ref layers

    -- What a job does after the check for its image's record.
    abbrev after_check : Reference → Result Bool × S.State → Result (Unit {0}) × S.State
    after_check ref r =
        let skip : Bool × S.State = elim r.0 [ ok b ↦ (b, r.1) | err message ↦ (false, r.1) ] in
        if skip.0
        then (ok tt, skip.1)
        else walk_manifest_layers c (upload w c g S u) (is_uploaded w c g S u) ref skip.1

    -- A thread that runs with no other between its calls leaves the state and the result that the
    -- function of its job leaves, for every job, state and service.
    pub run_thread-job_thread :
        (job : Job) (s : S.State)
        → run_thread (job_thread g u s3_bucket c job) s
          ≡ run_job c (upload w c g S u) (is_uploaded w c g S u) job s
    unfolding job_thread unless_skipped run_thread run_job is_uploaded image_already_uploaded
    run_thread-job_thread job s =
        go (exists_of (S.head_object s s3_bucket key).0) (S.head_object s s3_bucket key).1
        ∙ ap (after_check job.ref) (sym (blob_exists-exists_of g u s3_bucket key s))
      where
        key : Text
        key = key_for_image_record job.digest

        go :
            (exists : Result Bool) (t : S.State)
            → run_thread (unless_skipped g u s3_bucket c job.ref exists) t
              ≡ after_check job.ref (exists, t)
        go (ok true) t = refl
        go (ok false) t = ap (λ f. f t) (run_thread-manifest_thread job.ref)
        go (err message) t = ap (λ f. f t) (run_thread-manifest_thread job.ref)
