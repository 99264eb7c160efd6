-- ===== src/Geranos/Threads/Uploads.antt =====
-- cmd/geranos/s3uploader.go: the threads of the uploads of layers are safe.
use mathlib.Core.Bool.{false≢true}
use registry_k8s_io.Geranos.Main.{World, s3_bucket}
use registry_k8s_io.Geranos.Main.Laws.{HasAll}
use registry_k8s_io.Geranos.Store.{PutObjectInput, Service, IsLawful}
use registry_k8s_io.Geranos.Threads.Safety.{
  exists_of-found, Ok, Kept, IsSafe, IsSafe-then, IsSafe-imp, IsSafe-lifted,
}
use registry_k8s_io.Geranos.Threads.{
  Thread, finished, head_call, put_call, ◌>>=◌, exists_of, put_blob_thread, put_unless, copy_thread,
  copy_layers_thread,
}
use registry_k8s_io.Geranos.Uploader.{
  Hash, ImageBlob, Registry, S3Uploader, key_for_layer, key_for_image_record, checksum,
}
use registry_k8s_io.Geranos.Uploader.Images.{key_for_layer-ne-key_for_image_record}
use registry_k8s_io.Geranos.Uploader.Laws.{digest_of, digests}
use registry_k8s_io.Geranos.Walk.{Client}
use registry_k8s_io.Prelude.{
  ◌≡◌, inl, inr, refl, sym, ◌∙◌, subst, Bool, true, false, List, [], ◌∷◌, All-imp, All-append, Text,
  Result, ok, err, if◌then◌else◌,
}

module _ (w : World) (c : Client) (g : Registry) (S : Service)
    (stored : S.State → Text → Text → Bool) (L : IsLawful S stored) (layers_of : Text → List Text)
    (u : S3Uploader) where
  abbrev pub Fine : S.State → Type 0
  Fine s = Ok w c g S stored L layers_of u s

  abbrev pub From : S.State → S.State → Type 0
  From s t = Kept w c g S stored L layers_of u s t

  abbrev pub Safe : {A : Type 0} → (A → S.State → Type 0) → Thread (Result A) → S.State → Type 0
  Safe Q m s = IsSafe w c g S stored L layers_of u Q m s

  abbrev pub HasStored : List Text → S.State → Type 0
  HasStored ds t = HasAll w c g S stored L layers_of u ds t

  -- An upload keeps the layers of each record stored, if they are stored for a record that it adds.
  pub upload-Ok :
      (t : S.State) (i : PutObjectInput)
      → Fine t
      → ((d : Text) → key_for_image_record d ≡ i.key → HasStored (layers_of d) t)
      → Fine (S.upload t i).1
  upload-Ok t i o new d have = elim (L.upload_only t i s3_bucket (key_for_image_record d) have) [
    | inl old ↦ kept (o d old)
    | inr (_, e) ↦ kept (new d e)
  ]
    where
      kept : HasStored (layers_of d) t → HasStored (layers_of d) (S.upload t i).1
      kept h = All-imp (layers_of d) (λ l x. L.upload_keeps t i s3_bucket (key_for_layer l) x) h

  -- From a state on, an upload to the key is allowed.
  abbrev pub Guard : Text → S.State → Type 0
  Guard key s =
      (t : S.State)
      → u.dry_run ≡ false
      → From s t
      → Fine t
      → (i : PutObjectInput) → i.key ≡ key
      → Fine (S.upload t i).1

  Guard-later : (key : Text) (s t : S.State) → From s t → Guard key s → Guard key t
  Guard-later key s t k h v real l o i e = h v real (λ b j x. l b j (k b j x)) o i e

  abbrev pub IsStored : Text → S.State → Type 0
  IsStored key t = u.dry_run ≡ false → stored t s3_bucket key ≡ true

  put-Safe :
      (dry : Bool) (i : PutObjectInput) (s : S.State)
      → u.dry_run ≡ dry
      → i.bucket ≡ s3_bucket
      → Guard i.key s
      → Safe
          (λ _ t. IsStored i.key t)
          (if dry then finished (ok tt) else put_call i (λ answer. finished answer))
          s
  unfolding IsSafe
  put-Safe true i s e eb h = λ t k o real. absurd (false≢true (sym real ∙ e))
  put-Safe false i s e eb h = λ t k o. (h t e k o i refl, answered t (S.upload t i).0 refl)
    where
      answered :
          (t : S.State) (r : Result (Unit {0}))
          → (S.upload t i).0 ≡ r
          → Safe (λ _ v. IsStored i.key v) (finished r) (S.upload t i).1
      answered t (err message) q = tt
      answered t (ok x) q = λ v l o' real.
          l s3_bucket i.key
            (subst (λ b. stored (S.upload t i).1 b i.key ≡ true) eb (L.upload_ok t i q))

  put_blob-Safe :
      (key : Text) (layer : ImageBlob) (digest : Hash) (s : S.State)
      → Guard key s
      → Safe (λ _ t. IsStored key t) (put_blob_thread g u s3_bucket key layer digest) s
  unfolding put_blob_thread
  put_blob-Safe key layer digest s h =
      IsSafe-then w c g S stored L layers_of u (λ a t. layer.compressed ≡ ok a)
        (λ _ t. IsStored key t) (finished layer.compressed) _ s
        (IsSafe-lifted w c g S stored L layers_of u layer.compressed s)
        λ r t k _.
          IsSafe-then w c g S stored L layers_of u (λ a v. checksum g digest ≡ ok a)
            (λ _ v. IsStored key v) (finished (checksum g digest)) _ t
            (IsSafe-lifted w c g S stored L layers_of u (checksum g digest) t)
            λ sum v l _.
              put-Safe u.dry_run
                (record { bucket = s3_bucket; key = key; body = r; checksum_sha256 = sum }) v refl
                refl (Guard-later key s v (λ b j x. l b j (k b j x)) h)

  put_unless-Safe :
      (key : Text) (layer : ImageBlob) (digest : Hash) (exists : Result Bool) (s : S.State)
      → Guard key s
      → (exists ≡ ok true → stored s s3_bucket key ≡ true)
      → Safe (λ _ t. IsStored key t) (put_unless g u s3_bucket key layer digest exists) s
  unfolding put_unless IsSafe
  put_unless-Safe key layer digest (ok true) s h e = λ t k o real. k s3_bucket key (e refl)
  put_unless-Safe key layer digest (ok false) s h e = put_blob-Safe key layer digest s h
  put_unless-Safe key layer digest (err message) s h e = put_blob-Safe key layer digest s h

  pub copy-Safe :
      (key : Text) (layer : ImageBlob) (s : S.State)
      → Guard key s
      → Safe (λ _ t. IsStored key t) (copy_thread g u s3_bucket key layer) s
  unfolding copy_thread IsSafe
  copy-Safe key layer s h =
      IsSafe-then w c g S stored L layers_of u (λ a t. layer.digest ≡ ok a) (λ _ t. IsStored key t)
        (finished layer.digest) _ s (IsSafe-lifted w c g S stored L layers_of u layer.digest s)
        λ digest t k _. checked u.reupload_layers digest t (Guard-later key s t k h)
    where
      checked :
          (reupload : Bool) (digest : Hash) (t : S.State)
          → Guard key t
          → Safe
              (λ _ v. IsStored key v)
              (if reupload
                then put_blob_thread g u s3_bucket key layer digest
                else head_call s3_bucket key
                    (λ answer. put_unless g u s3_bucket key layer digest (exists_of answer)))
              t
      checked true digest t h' = put_blob-Safe key layer digest t h'
      checked false digest t h' = λ v l o.
          put_unless-Safe key layer digest (exists_of (S.head_object v s3_bucket key).0)
            (S.head_object v s3_bucket key).1
            (Guard-later key t (S.head_object v s3_bucket key).1
              (λ b j x. L.head_keeps v s3_bucket key b j ∙ l b j x) h')
            (λ e.
              L.head_keeps v s3_bucket key s3_bucket key
              ∙ L.head_found v s3_bucket key (exists_of-found (S.head_object v s3_bucket key).0 e))

  abbrev pub AreStored : List Text → S.State → Type 0
  AreStored ds t = u.dry_run ≡ false → HasStored ds t

  digest_of-ok :
      (layer : ImageBlob) (h : Hash)
      → layer.digest ≡ ok h
      → digest_of g S u stored L s3_bucket layer ≡ g.hash_string h ∷ []
  unfolding digest_of
  digest_of-ok layer h e = rw e refl

  layer_key-Guard : (d : Text) (s : S.State) → Guard (key_for_layer d) s
  layer_key-Guard d s t real k o i e =
      upload-Ok t i o (λ d' q. absurd (key_for_layer-ne-key_for_image_record d d' (sym (q ∙ e))))

  layer-Safe :
      (layer : ImageBlob) (s : S.State)
      → Safe
          (λ _ t. AreStored (digest_of g S u stored L s3_bucket layer) t)
          (finished layer.digest >>= λ digest.
            copy_thread g u s3_bucket (key_for_layer (g.hash_string digest)) layer)
          s
  layer-Safe layer s =
      IsSafe-then w c g S stored L layers_of u (λ a t. layer.digest ≡ ok a) _
        (finished layer.digest) _ s (IsSafe-lifted w c g S stored L layers_of u layer.digest s)
        λ h t k e.
          IsSafe-imp w c g S stored L layers_of u
            (λ _ v. IsStored (key_for_layer (g.hash_string h)) v) _ _ t
            (copy-Safe (key_for_layer (g.hash_string h)) layer t
              (layer_key-Guard (g.hash_string h) t))
            λ _ v l have real.
              subst (λ ds. HasStored ds v) (sym (digest_of-ok layer h e)) (have real, tt)

  pub copy_layers-Safe :
      (layers : List ImageBlob) (s : S.State)
      → Safe
          (λ _ t. AreStored (digests g S u stored L s3_bucket layers) t)
          (copy_layers_thread g u s3_bucket layers)
          s
  unfolding copy_layers_thread digests IsSafe
  copy_layers-Safe [] s = λ t k o real. tt
  copy_layers-Safe (layer ∷ layers) s =
      IsSafe-then w c g S stored L layers_of u
        (λ _ t. AreStored (digest_of g S u stored L s3_bucket layer) t) _ _ _ s (layer-Safe layer s)
        λ _ t k first.
          IsSafe-imp w c g S stored L layers_of u
            (λ _ v. AreStored (digests g S u stored L s3_bucket layers) v) _ _ t
            (copy_layers-Safe layers t)
            λ _ v l rest real.
              All-append (λ d. stored v s3_bucket (key_for_layer d) ≡ true)
                (digest_of g S u stored L s3_bucket layer) (digests g S u stored L s3_bucket layers)
                (All-imp (digest_of g S u stored L s3_bucket layer)
                  (λ d x. l s3_bucket (key_for_layer d) x) (first real))
                (rest real)
