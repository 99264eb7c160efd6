-- ===== src/Geranos/Threads/Dry.antt =====
-- cmd/geranos: the threads of a dry run.
use registry_k8s_io.Geranos.Store.{PutObjectInput}
use registry_k8s_io.Geranos.Threads.{
  Thread, finished, head_call, put_call, ◌>>=◌, exists_of, put_blob_thread, put_unless, copy_thread,
  copy_layers_thread, record_thread, upload_thread, manifest_thread, unless_skipped, job_thread,
}
use registry_k8s_io.Geranos.Uploader.{
  Hash, ImageBlob, Registry, S3Uploader, key_for_layer, key_for_image_record,
  manifest_blob_from_ref, checksum,
}
use registry_k8s_io.Geranos.Walk.{Reference, Client, Job, manifest_layers}
use registry_k8s_io.Geranos.Store.{Head}
use registry_k8s_io.Prelude.{
  ◌≡◌, Bool, true, false, Option, none, some, List, [], ◌∷◌, Text, Result, ok, err, if◌then◌else◌,
}

-- A thread that uploads nothing, whatever it is answered.
unfoldable pub IsReadOnly : {A : Type 0} → Thread A → Type 0
IsReadOnly (finished a) = Unit
IsReadOnly (head_call bucket key next) = (answer : Head) → IsReadOnly (next answer)
IsReadOnly (put_call i next) = ⊥

then-IsReadOnly :
    {A B : Type 0} (m : Thread (Result A)) (f : A → Thread (Result B))
    → IsReadOnly m
    → ((a : A) → IsReadOnly (f a))
    → IsReadOnly (m >>= f)
unfolding IsReadOnly ◌>>=◌
then-IsReadOnly (finished (ok a)) f h k = k a
then-IsReadOnly (finished (err message)) f h k = tt
then-IsReadOnly (head_call bucket key next) f h k =
    λ answer. then-IsReadOnly (next answer) f (h answer) k
then-IsReadOnly (put_call i next) f h k = absurd h

known-IsReadOnly :
    {A B : Type 0} (r : Result A) (f : A → Thread (Result B))
    → ((a : A) → IsReadOnly (f a))
    → IsReadOnly (finished r >>= f)
unfolding IsReadOnly
known-IsReadOnly r f k = then-IsReadOnly (finished r) f tt k

module _ (g : Registry) (u : S3Uploader) (bucket : Text) (e : u.dry_run ≡ true) where
  dry-IsReadOnly :
      (dry : Bool) (i : PutObjectInput)
      → dry ≡ true
      → IsReadOnly (if dry then finished (ok (tt {0})) else put_call i (λ answer. finished answer))
  unfolding IsReadOnly
  dry-IsReadOnly true i h = tt
  dry-IsReadOnly false i h = cc

  put_blob-IsReadOnly :
      (key : Text) (layer : ImageBlob) (digest : Hash)
      → IsReadOnly (put_blob_thread g u bucket key layer digest)
  unfolding put_blob_thread
  put_blob-IsReadOnly key layer digest = known-IsReadOnly layer.compressed _ λ r.
      known-IsReadOnly (checksum g digest) _ λ sum.
        dry-IsReadOnly u.dry_run
          (record { bucket = bucket; key = key; body = r; checksum_sha256 = sum }) e

  put_unless-IsReadOnly :
      (key : Text) (layer : ImageBlob) (digest : Hash) (exists : Result Bool)
      → IsReadOnly (put_unless g u bucket key layer digest exists)
  unfolding put_unless IsReadOnly
  put_unless-IsReadOnly key layer digest (ok true) = tt
  put_unless-IsReadOnly key layer digest (ok false) = put_blob-IsReadOnly key layer digest
  put_unless-IsReadOnly key layer digest (err message) = put_blob-IsReadOnly key layer digest

  copy-IsReadOnly : (key : Text) (layer : ImageBlob) → IsReadOnly (copy_thread g u bucket key layer)
  unfolding copy_thread IsReadOnly
  copy-IsReadOnly key layer =
      known-IsReadOnly layer.digest _ λ digest. checked u.reupload_layers digest
    where
      checked :
          (reupload : Bool) (digest : Hash)
          → IsReadOnly (
              if reupload
              then put_blob_thread g u bucket key layer digest
              else head_call bucket key
                  (λ answer. put_unless g u bucket key layer digest (exists_of answer)))
      checked true digest = put_blob-IsReadOnly key layer digest
      checked false digest = λ answer. put_unless-IsReadOnly key layer digest (exists_of answer)

  copy_layers-IsReadOnly :
      (layers : List ImageBlob) → IsReadOnly (copy_layers_thread g u bucket layers)
  unfolding copy_layers_thread IsReadOnly
  copy_layers-IsReadOnly [] = tt
  copy_layers-IsReadOnly (layer ∷ layers) =
      then-IsReadOnly _ _
        (known-IsReadOnly layer.digest _
          λ digest. copy-IsReadOnly (key_for_layer (g.hash_string digest)) layer)
        λ _. copy_layers-IsReadOnly layers

  record-IsReadOnly : (ref_name : Text) → IsReadOnly (record_thread g u bucket ref_name)
  unfolding record_thread
  record-IsReadOnly ref_name = known-IsReadOnly (manifest_blob_from_ref g ref_name) _ λ m.
      known-IsReadOnly m.digest _
        λ digest. copy-IsReadOnly (key_for_image_record (g.hash_string digest)) m

  module _ (c : Client) where
    manifest-IsReadOnly : (ref : Reference) → IsReadOnly (manifest_thread g u bucket c ref)
    unfolding manifest_thread upload_thread IsReadOnly
    manifest-IsReadOnly ref =
        known-IsReadOnly (c.get ref) _
          λ desc. known-IsReadOnly (manifest_layers c ref desc) _ λ layers. of_layers layers
      where
        of_layers :
            (layers : Option (List ImageBlob))
            → IsReadOnly (elim layers [
              | none ↦ finished (ok tt)
              | some l ↦ upload_thread g u bucket ref.name l
            ])
        of_layers none = tt
        of_layers (some l) =
            then-IsReadOnly _ _ (copy_layers-IsReadOnly l) λ _. record-IsReadOnly ref.name

    unless_skipped-IsReadOnly :
        (ref : Reference) (exists : Result Bool)
        → IsReadOnly (unless_skipped g u bucket c ref exists)
    unfolding unless_skipped IsReadOnly
    unless_skipped-IsReadOnly ref (ok true) = tt
    unless_skipped-IsReadOnly ref (ok false) = manifest-IsReadOnly ref
    unless_skipped-IsReadOnly ref (err message) = manifest-IsReadOnly ref

    -- The thread of every job of a dry run.
    pub job_thread-IsReadOnly : (job : Job) → IsReadOnly (job_thread g u bucket c job)
    unfolding job_thread IsReadOnly
    job_thread-IsReadOnly job = λ answer. unless_skipped-IsReadOnly job.ref (exists_of answer)
