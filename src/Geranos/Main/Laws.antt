-- ===== src/Geranos/Main/Laws.antt =====
-- cmd/geranos: what a run leaves in the bucket.
use registry_k8s_io.Geranos.Main.{World, s3_bucket, upload, is_uploaded}
use registry_k8s_io.Geranos.Store.{Service, IsLawful, ◌>>=◌, lift}
use registry_k8s_io.Geranos.Uploader.{
  Hash, ImageBlob, Registry, S3Uploader, key_for_layer, key_for_image_record,
  image_already_uploaded, upload_image,
}
use registry_k8s_io.Geranos.Uploader.Images.{
  HasDigest, IsConsistent, upload_image-Does, upload_image-stored, upload_image_dry,
  upload_image-IsConsistent,
}
use registry_k8s_io.Geranos.Uploader.Laws.{digests, HasLayers, blob_exists-keeps, blob_exists-found}
use registry_k8s_io.Geranos.Walk.{
  Descriptor, Client, Job, manifest_layers, walk_manifest_layers, run_job,
}
use registry_k8s_io.Prelude.{
  ok_inj, ◌≡◌, inl, inr, refl, sym, ap, ◌∙◌, subst, arith, Bool, true, false, Bool-cases, Option,
  none, some, List, All-imp, Text, Result, ok, err,
}

not_some : {A : Type 0} {a : A} → ok none ≡ ok (some a) → ⊥
not_some e = cc

module _ (w : World) (c : Client) (g : Registry) (S : Service)
    (stored : S.State → Text → Text → Bool) (L : IsLawful S stored) (layers_of : Text → List Text)
    (u : S3Uploader) where
  abbrev pub Consistent : S.State → Type 0
  Consistent s = IsConsistent g S u stored L s3_bucket layers_of s

  abbrev pub HasAll : List Text → S.State → Type 0
  HasAll ds s = HasLayers g S u stored L s3_bucket ds s

  -- What the code relies on for a job: a digest in the reference is the job's, and the layers of the
  -- image are those of the digest.
  pub record IsFaithful (job : Job) : Type 0 where
    pub names :
        (h : Hash)
        → HasDigest g S u stored L s3_bucket layers_of job.ref.name h
        → g.hash_string h ≡ job.digest
    pub contents :
        (desc : Descriptor) (layers : List ImageBlob)
        → c.get job.ref ≡ ok desc
        → manifest_layers c job.ref desc ≡ ok (some layers)
        → layers_of job.digest ≡ digests g S u stored L s3_bucket layers

  -- The layers of a job whose manifest is an image's are stored.
  abbrev pub IsCopied : Job → S.State → Type 0
  IsCopied job t =
      (desc : Descriptor) (layers : List ImageBlob)
      → c.get job.ref ≡ ok desc
      → manifest_layers c job.ref desc ≡ ok (some layers)
      → HasAll (layers_of job.digest) t

  abbrev pub Keeps : S.State → S.State → Type 0
  Keeps s t = (b j : Text) → stored s b j ≡ true → stored t b j ≡ true

  abbrev pub Same : S.State → S.State → Type 0
  Same s t = (b j : Text) → stored t b j ≡ stored s b j

  pub Same-Consistent : (s t : S.State) → Same s t → Consistent s → Consistent t
  Same-Consistent s t same h d have =
      All-imp (layers_of d) (λ l x. same s3_bucket (key_for_layer l) ∙ x)
        (h d (sym (same s3_bucket (key_for_image_record d)) ∙ have))

  -- What a call from a state does: the jobs that it runs are copied if it is real and succeeds.
  unfoldable pub Runs : (S.State → Type 0) → S.State → Result (Unit {0}) × S.State → Type 0
  Runs P s r =
      Keeps s r.1
      × (Consistent s → Consistent r.1)
      × (u.dry_run ≡ false → Consistent s → r.0 ≡ ok tt → P r.1)
      × (u.dry_run ≡ true → Same s r.1)

  pub Runs-nothing :
      (P : S.State → Type 0) (s : S.State) (r : Result (Unit {0}))
      → (Consistent s → r ≡ ok tt → P s)
      → Runs P s (r, s)
  unfolding Runs
  Runs-nothing P s r h = ((λ b j x. x), (λ x. x), (λ _ x e. h x e), (λ _ b j. refl))

  Runs-after :
      (P : S.State → Type 0) (s t : S.State) (r : Result (Unit {0}) × S.State)
      → Same s t
      → Runs P t r
      → Runs P s r
  unfolding Runs
  Runs-after P s t r same (k, cons, p, dry) = (
    (λ b j h. k b j (same b j ∙ h)),
    (λ h. cons (Same-Consistent s t same h)),
    (λ real h done. p real (Same-Consistent s t same h) done),
    (λ d b j. dry d b j ∙ same b j),
  )

  upload-Runs :
      (job : Job) (desc : Descriptor) (layers : List ImageBlob) (s : S.State)
      → IsFaithful job
      → c.get job.ref ≡ ok desc
      → manifest_layers c job.ref desc ≡ ok (some layers)
      → Runs (IsCopied job) s (upload w c g S u job.ref layers s)
  unfolding upload Runs
  upload-Runs job desc layers s f e e' =
      let ((k, _), _, _) =
        upload_image-Does g S u stored L s3_bucket layers_of job.ref.name layers s in
      (
        k,
        upload_image-IsConsistent g S u stored L s3_bucket layers_of job.ref.name layers s
            (λ h has. ap layers_of (f.names h has) ∙ f.contents desc layers e e'),
        (λ real _ done desc' layers' _ _.
            let (have, _) =
              upload_image-stored g S u stored L s3_bucket layers_of job.ref.name layers s real
                done in
            subst (λ ds. HasAll ds (upload_image g S u s3_bucket job.ref.name layers s).1)
              (sym (f.contents desc layers e e')) have),
        upload_image_dry g S u stored L s3_bucket layers_of job.ref.name layers s,
      )

  walk_manifest_layers-Runs :
      (job : Job) (s : S.State)
      → IsFaithful job
      → Runs
          (IsCopied job)
          s
          (walk_manifest_layers c (upload w c g S u) (is_uploaded w c g S u) job.ref s)
  unfolding walk_manifest_layers
  walk_manifest_layers-Runs job s f = go (c.get job.ref) refl
    where
      inner :
          (desc : Descriptor)
          → c.get job.ref ≡ ok desc
          → (r : Result (Option (List ImageBlob))) → manifest_layers c job.ref desc ≡ r
          → Runs (IsCopied job) s (
              (lift r >>= λ layers. elim layers [
                | none ↦ lift (ok tt)
                | some l ↦ upload w c g S u job.ref l
              ])
                s)
      inner desc e (err message) e' = Runs-nothing (IsCopied job) s (err message) (λ _ q. cc)
      inner desc e (ok none) e' = Runs-nothing (IsCopied job) s (ok tt) (λ _ _ desc' layers d m.
          absurd (not_some (sym e' ∙ ap (manifest_layers c job.ref) (ok_inj (sym e ∙ d)) ∙ m)))
      inner desc e (ok (some layers)) e' = upload-Runs job desc layers s f e e'

      go :
          (r : Result Descriptor)
          → c.get job.ref ≡ r
          → Runs (IsCopied job) s (
              (lift r >>= λ desc. lift (manifest_layers c job.ref desc) >>= λ layers. elim layers [
                | none ↦ lift (ok tt)
                | some l ↦ upload w c g S u job.ref l
              ])
                s)
      go (err message) e = Runs-nothing (IsCopied job) s (err message) (λ _ q. cc)
      go (ok desc) e = inner desc e (manifest_layers c job.ref desc) refl

  is_uploaded-Same : (h : Text) (s : S.State) → Same s (is_uploaded w c g S u h s).1
  unfolding is_uploaded image_already_uploaded
  is_uploaded-Same h s b j =
      ground (arith, blob_exists-keeps g S u stored L s3_bucket (key_for_image_record h) b j s)

  is_uploaded-true :
      (h : Text) (s : S.State)
      → (is_uploaded w c g S u h s).0 ≡ true
      → stored s s3_bucket (key_for_image_record h) ≡ true
  unfolding is_uploaded image_already_uploaded
  is_uploaded-true h s e =
      ground (arith, blob_exists-found g S u stored L s3_bucket (key_for_image_record h) s)

  pub run_job-Runs :
      (job : Job) (s : S.State)
      → IsFaithful job
      → Runs (IsCopied job) s (run_job c (upload w c g S u) (is_uploaded w c g S u) job s)
  unfolding run_job
  run_job-Runs job s f =
      let same : Same s (is_uploaded w c g S u job.digest s).1 = is_uploaded-Same job.digest s in
      elim (Bool-cases (is_uploaded w c g S u job.digest s).0) [
        | inl skipped ↦ rw skipped (
            Runs-after (IsCopied job) s _ (ok tt, (is_uploaded w c g S u job.digest s).1) same
              (Runs-nothing (IsCopied job) _ (ok tt) (λ h _ desc layers _ _. h job.digest (
                same s3_bucket (key_for_image_record job.digest)
                ∙ is_uploaded-true job.digest s skipped))))
        | inr not_yet ↦ rw not_yet (
            Runs-after (IsCopied job) s _ _ same
              (walk_manifest_layers-Runs job (is_uploaded w c g S u job.digest s).1 f))
      ]
