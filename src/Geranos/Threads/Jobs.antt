-- ===== src/Geranos/Threads/Jobs.antt =====
-- cmd/geranos: the thread of a job is safe.
use registry_k8s_io.Geranos.Main.{World, s3_bucket}
use registry_k8s_io.Geranos.Main.Laws.{HasAll, IsFaithful, IsCopied}
use registry_k8s_io.Geranos.Store.{Service, IsLawful}
use registry_k8s_io.Geranos.Threads.Safety.{
  exists_of-found, Ok, Kept, IsSafe, IsSafe-then, IsSafe-imp, IsSafe-lifted,
}
use registry_k8s_io.Geranos.Threads.Uploads.{upload-Ok, copy-Safe, copy_layers-Safe}
use registry_k8s_io.Geranos.Threads.{
  Thread, finished, exists_of, record_thread, upload_thread, manifest_thread, unless_skipped,
  job_thread,
}
use registry_k8s_io.Geranos.Uploader.{
  ImageBlob, Registry, S3Uploader, key_for_layer, key_for_image_record, manifest_blob_from_ref,
}
use registry_k8s_io.Geranos.Uploader.Images.{key_for_image_record-inj}
use registry_k8s_io.Geranos.Uploader.Laws.{digests}
use registry_k8s_io.Geranos.Walk.{Descriptor, Client, Job, manifest_layers}
use registry_k8s_io.Prelude.{
  ok_inj, ◌≡◌, refl, sym, ap, ◌∙◌, subst, Bool, true, false, Option, none, some, List, All-imp,
  Text, Result, ok, err,
}

not_some : {A : Type 0} {a : A} → ok none ≡ ok (some a) → ⊥
not_some e = cc

module _ (w : World) (c : Client) (g : Registry) (S : Service)
    (stored : S.State → Text → Text → Bool) (L : IsLawful S stored) (layers_of : Text → List Text)
    (u : S3Uploader) where
  abbrev Fine : S.State → Type 0
  Fine s = Ok w c g S stored L layers_of u s

  abbrev From : S.State → S.State → Type 0
  From s t = Kept w c g S stored L layers_of u s t

  abbrev Safe : {A : Type 0} → (A → S.State → Type 0) → Thread (Result A) → S.State → Type 0
  Safe Q m s = IsSafe w c g S stored L layers_of u Q m s

  abbrev HasStored : List Text → S.State → Type 0
  HasStored ds t = HasAll w c g S stored L layers_of u ds t

  abbrev IsStored : Text → S.State → Type 0
  IsStored key t = u.dry_run ≡ false → stored t s3_bucket key ≡ true

  abbrev AreStored : List Text → S.State → Type 0
  AreStored ds t = u.dry_run ≡ false → HasStored ds t

  -- The record of a job's image, when the image's layers are stored.
  record-Safe :
      (job : Job) (s : S.State)
      → IsFaithful w c g S stored L layers_of u job
      → AreStored (layers_of job.digest) s
      → Safe
          (λ _ t. AreStored (layers_of job.digest) t)
          (record_thread g u s3_bucket job.ref.name)
          s
  unfolding record_thread
  record-Safe job s f have =
      IsSafe-then w c g S stored L layers_of u (λ m t. manifest_blob_from_ref g job.ref.name ≡ ok m)
        _ (finished (manifest_blob_from_ref g job.ref.name)) _ s
        (IsSafe-lifted w c g S stored L layers_of u (manifest_blob_from_ref g job.ref.name) s)
        λ m t k em.
          IsSafe-then w c g S stored L layers_of u (λ h v. m.digest ≡ ok h) _ (finished m.digest) _
            t (IsSafe-lifted w c g S stored L layers_of u m.digest t)
            λ h v l eh.
              IsSafe-imp w c g S stored L layers_of u
                (λ _ v'. IsStored (key_for_image_record (g.hash_string h)) v') _ _ v
                (copy-Safe w c g S stored L layers_of u (key_for_image_record (g.hash_string h)) m v
                  (λ t' real l' o i e. upload-Ok w c g S stored L layers_of u t' i o (λ d q.
                    subst (λ d'. HasStored (layers_of d') t')
                      (sym (
                        key_for_image_record-inj d (g.hash_string h) (q ∙ e)
                        ∙ f.names h (m, em, eh)))
                      (later s t' (λ b j x. l' b j (l b j (k b j x))) (have real)))))
                λ _ v' l' _ real. later s v' (λ b j x. l' b j (l b j (k b j x))) (have real)
    where
      later :
          (t v : S.State)
          → From t v
          → HasStored (layers_of job.digest) t
          → HasStored (layers_of job.digest) v
      later t v l h = All-imp (layers_of job.digest) (λ d x. l s3_bucket (key_for_layer d) x) h

  abbrev Copied : Job → S.State → Type 0
  Copied job t = u.dry_run ≡ false → IsCopied w c g S stored L layers_of u job t

  manifest-Safe :
      (job : Job) (s : S.State)
      → IsFaithful w c g S stored L layers_of u job
      → Safe (λ _ t. Copied job t) (manifest_thread g u s3_bucket c job.ref) s
  unfolding manifest_thread upload_thread IsSafe
  manifest-Safe job s f =
      IsSafe-then w c g S stored L layers_of u (λ a t. c.get job.ref ≡ ok a) _
        (finished (c.get job.ref)) _ s
        (IsSafe-lifted w c g S stored L layers_of u (c.get job.ref) s)
        λ desc t k e.
          IsSafe-then w c g S stored L layers_of u (λ a v. manifest_layers c job.ref desc ≡ ok a) _
            (finished (manifest_layers c job.ref desc)) _ t
            (IsSafe-lifted w c g S stored L layers_of u (manifest_layers c job.ref desc) t)
            λ layers v l e'. of_layers desc layers v e e'
    where
      of_layers :
          (desc : Descriptor) (layers : Option (List ImageBlob)) (v : S.State)
          → c.get job.ref ≡ ok desc
          → manifest_layers c job.ref desc ≡ ok layers
          → Safe
              (λ _ t. Copied job t)
              (elim layers [
                | none ↦ finished (ok tt)
                | some l ↦ upload_thread g u s3_bucket job.ref.name l
              ])
              v
      of_layers desc none v e e' = λ t k o real desc' layers' d m.
          absurd (not_some (sym e' ∙ ap (manifest_layers c job.ref) (ok_inj (sym e ∙ d)) ∙ m))
      of_layers desc (some l) v e e' =
          IsSafe-then w c g S stored L layers_of u
            (λ _ t. AreStored (digests g S u stored L s3_bucket l) t) _ _ _ v
            (copy_layers-Safe w c g S stored L layers_of u l v)
            λ _ t k have.
              IsSafe-imp w c g S stored L layers_of u (λ _ t'. AreStored (layers_of job.digest) t')
                _ _ t
                (record-Safe job t f
                  (λ real. subst (λ ds. HasStored ds t) (sym (f.contents desc l e e')) (have real)))
                λ _ t' k' all real desc' layers' _ _. all real

  -- The thread of a faithful job.
  pub job_thread-IsSafe :
      (job : Job) (s : S.State)
      → IsFaithful w c g S stored L layers_of u job
      → IsSafe w c g S stored L layers_of u
          (λ _ t. u.dry_run ≡ false → IsCopied w c g S stored L layers_of u job t)
          (job_thread g u s3_bucket c job)
          s
  unfolding job_thread unless_skipped IsSafe
  job_thread-IsSafe job s f = λ t k o.
      go t o (exists_of (S.head_object t s3_bucket (key_for_image_record job.digest)).0) refl
    where
      go :
          (t : S.State)
          → Fine t
          → (exists : Result Bool)
          → exists_of (S.head_object t s3_bucket (key_for_image_record job.digest)).0 ≡ exists
          → Safe
              (λ _ v. Copied job v)
              (unless_skipped g u s3_bucket c job.ref exists)
              (S.head_object t s3_bucket (key_for_image_record job.digest)).1
      go t o (ok false) e = manifest-Safe job _ f
      go t o (err message) e = manifest-Safe job _ f
      go t o (ok true) e = λ v l o' real desc layers _ _. o' job.digest (
          l s3_bucket (key_for_image_record job.digest) (
            L.head_keeps t s3_bucket (key_for_image_record job.digest) s3_bucket
              (key_for_image_record job.digest)
            ∙ L.head_found t s3_bucket (key_for_image_record job.digest) (
                exists_of-found (S.head_object t s3_bucket (key_for_image_record job.digest)).0 e)))
