-- ===== src/Geranos/Threads.antt =====
-- cmd/geranos: the same jobs, one call of the S3 service after another, for goroutines that run at
-- once. A thread is what a goroutine has still to do. The registry's answers do not change, so its
-- calls are no steps of their own.
pub mod Alone
pub mod Safety
pub mod Dry
pub mod Uploads
pub mod Jobs
use registry_k8s_io.Geranos.Store.{Head, found, failed, PutObjectInput}
use registry_k8s_io.Geranos.Uploader.{
  Hash, ImageBlob, Registry, S3Uploader, key_for_layer, key_for_image_record, on_head_error,
  manifest_blob_from_ref, checksum,
}
use registry_k8s_io.Geranos.Walk.{Reference, Client, Job, manifest_layers}
use registry_k8s_io.Prelude.{
  Bool, true, false, Option, none, some, List, [], ◌∷◌, Text, Result, ok, err, if◌then◌else◌,
}

pub data Thread (A : Type 0) : Type 0 where
  finished : A → Thread A
  head_call : Text → Text → (Head → Thread A) → Thread A
  put_call : PutObjectInput → (Result (Unit {0}) → Thread A) → Thread A

infixl 5 ◌>>=◌ ◌>>◌
unfoldable pub ◌>>=◌ :
    {A B : Type 0} → Thread (Result A) → (A → Thread (Result B)) → Thread (Result B)
finished (ok a) >>= f = f a
finished (err message) >>= f = finished (err message)
head_call bucket key next >>= f = head_call bucket key (λ answer. next answer >>= f)
put_call i next >>= f = put_call i (λ r. next r >>= f)

abbrev pub ◌>>◌ : {B : Type 0} → Thread (Result (Unit {0})) → Thread (Result B) → Thread (Result B)
m >> k = m >>= λ _. k

-- What `blobExists` makes of the answer.
unfoldable pub exists_of : Head → Result Bool
unfolding on_head_error
exists_of found = ok true
exists_of (failed e) = on_head_error e

module _ (g : Registry) (u : S3Uploader) (bucket : Text) where
  unfoldable pub put_blob_thread : Text → ImageBlob → Hash → Thread (Result (Unit {0}))
  unfolding ◌>>=◌
  put_blob_thread key layer digest = do
    r ← finished layer.compressed
    sum ← finished (checksum g digest)
    if u.dry_run
        then finished (ok tt)
        else put_call (record { bucket = bucket; key = key; body = r; checksum_sha256 = sum })
            (λ answer. finished answer)

  -- `copyToS3` after the check, if it is made.
  unfoldable pub put_unless : Text → ImageBlob → Hash → Result Bool → Thread (Result (Unit {0}))
  unfolding put_blob_thread
  put_unless key layer digest (ok true) = finished (ok tt)
  put_unless key layer digest (ok false) = put_blob_thread key layer digest
  put_unless key layer digest (err message) = put_blob_thread key layer digest

  unfoldable pub copy_thread : Text → ImageBlob → Thread (Result (Unit {0}))
  unfolding ◌>>=◌ put_unless put_blob_thread exists_of
  copy_thread key layer = do
    digest ← finished layer.digest
    if u.reupload_layers
        then put_blob_thread key layer digest
        else head_call bucket key (λ answer. put_unless key layer digest (exists_of answer))

  unfoldable pub copy_layers_thread : List ImageBlob → Thread (Result (Unit {0}))
  unfolding ◌>>=◌ copy_thread
  copy_layers_thread [] = finished (ok tt)
  copy_layers_thread (layer ∷ layers) =
      (finished layer.digest >>= λ digest. copy_thread (key_for_layer (g.hash_string digest)) layer)
      >> copy_layers_thread layers

  -- The record of an image, and `UploadImage`.
  unfoldable pub record_thread : Text → Thread (Result (Unit {0}))
  unfolding ◌>>=◌ copy_thread
  record_thread ref_name = do
    m ← finished (manifest_blob_from_ref g ref_name)
    digest ← finished m.digest
    copy_thread (key_for_image_record (g.hash_string digest)) m

  unfoldable pub upload_thread : Text → List ImageBlob → Thread (Result (Unit {0}))
  unfolding ◌>>=◌ copy_layers_thread record_thread
  upload_thread ref_name layers = copy_layers_thread layers >> record_thread ref_name

  module _ (c : Client) where
    unfoldable pub manifest_thread : Reference → Thread (Result (Unit {0}))
    unfolding ◌>>=◌ upload_thread
    manifest_thread ref = do
      desc ← finished (c.get ref)
      layers ← finished (manifest_layers c ref desc)
      elim layers [ none ↦ finished (ok tt) | some l ↦ upload_thread ref.name l ]

    -- One job, after the check for the image's record.
    unfoldable pub unless_skipped : Reference → Result Bool → Thread (Result (Unit {0}))
    unfolding manifest_thread
    unless_skipped ref (ok true) = finished (ok tt)
    unless_skipped ref (ok false) = manifest_thread ref
    unless_skipped ref (err message) = manifest_thread ref

    unfoldable pub job_thread : Job → Thread (Result (Unit {0}))
    unfolding unless_skipped exists_of
    job_thread job =
        head_call bucket (key_for_image_record job.digest)
          (λ answer. unless_skipped job.ref (exists_of answer))
