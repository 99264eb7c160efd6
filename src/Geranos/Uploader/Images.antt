-- ===== src/Geranos/Uploader/Images.antt =====
-- cmd/geranos/s3uploader.go: `UploadImage`, and the records that a later run relies on.
use mathlib.Core.Bool.{false≢true}
use registry_k8s_io.Geranos.Store.{Service, IsLawful, Action, ◌>>=◌, lift}
use registry_k8s_io.Geranos.Uploader.{
  Hash, ImageBlob, Registry, S3Uploader, key_for_layer, key_for_image_record, manifest_key_prefix,
  manifest_blob_from_ref, copy_to_s3, copy_manifest_to_s3, copy_layers, upload_image,
}
use registry_k8s_io.Geranos.Uploader.Laws.{
  Adds, Adds-imp, Does, Does-then, Does-err, digests, HasLayers, IsLayerKey, copy_layers-Does,
  copy_to_s3-Does,
}
use registry_k8s_io.GoText.Prefixes.{has_prefix, drop_prefix, drop_prefix-append}
use registry_k8s_io.Prelude.{
  ok_inj, ◌≡◌, ◌≢◌, inl, inr, refl, sym, ap, ◌∙◌, subst, Bool, true, false, Bool-cases, List, [],
  ◌∷◌, All-imp, Text, codes, Result, ok, err,
}

pub key_for_layer-ne-key_for_image_record : (d e : Text) → key_for_layer d ≢ key_for_image_record e
unfolding key_for_layer key_for_image_record codes has_prefix
key_for_layer-ne-key_for_image_record d e h =
    false≢true (sym (ap (λ t. has_prefix t (b'c' ∷ [])) h))

pub key_for_image_record-inj :
    (d e : Text) → key_for_image_record d ≡ key_for_image_record e → d ≡ e
unfolding key_for_image_record
key_for_image_record-inj d e h =
    sym (drop_prefix-append manifest_key_prefix d)
    ∙ ap (λ t. drop_prefix t manifest_key_prefix) h
    ∙ drop_prefix-append manifest_key_prefix e

module _ (g : Registry) (S : Service) (u : S3Uploader) (stored : S.State → Text → Text → Bool)
    (L : IsLawful S stored) (bucket : Text) (layers_of : Text → List Text) where
  -- Whenever the record of an image is stored, the layers of the image are.
  abbrev pub IsConsistent : S.State → Type 0
  IsConsistent s =
      (d : Text)
      → stored s bucket (key_for_image_record d) ≡ true
      → HasLayers g S u stored L bucket (layers_of d) s

  -- New layers keep it.
  layers-IsConsistent :
      (s t : S.State)
      → Adds g S u stored L bucket (IsLayerKey g S u stored L bucket) s t
      → IsConsistent s
      → IsConsistent t
  layers-IsConsistent s t (k, n) h d have = elim (n bucket (key_for_image_record d) have) [
    | inl old ↦ All-imp (layers_of d) (λ l x. k bucket (key_for_layer l) x) (h d old)
    | inr (_, (l, e)) ↦ absurd (key_for_layer-ne-key_for_image_record l d (sym e))
  ]

  -- The digest that the reference's manifest has.
  abbrev pub HasDigest : Text → Hash → Type 0
  HasDigest ref_name h =
      (m : ImageBlob) × (manifest_blob_from_ref g ref_name ≡ ok m) × (m.digest ≡ ok h)

  -- The layers are the ones that belong to the digest.
  abbrev pub IsImage : Text → List ImageBlob → Type 0
  IsImage ref_name layers =
      (h : Hash)
      → HasDigest ref_name h
      → layers_of (g.hash_string h) ≡ digests g S u stored L bucket layers

  abbrev IsRecordKey : Text → Text → Type 0
  IsRecordKey ref_name j =
      (h : Hash) × HasDigest ref_name h × (j ≡ key_for_image_record (g.hash_string h))

  abbrev pub HasRecord : Text → S.State → Type 0
  HasRecord ref_name t =
      (h : Hash)
      → HasDigest ref_name h
      → stored t bucket (key_for_image_record (g.hash_string h)) ≡ true

  -- What comes after the layers.
  abbrev record_image : Text → Action S.State (Unit {0})
  record_image ref_name =
      lift (manifest_blob_from_ref g ref_name) >>= λ m. copy_manifest_to_s3 g S u bucket m

  record_image-Does :
      (ref_name : Text) (t : S.State)
      → Does g S u stored L bucket
          (IsRecordKey ref_name)
          (HasRecord ref_name)
          t
          (record_image ref_name t)
  unfolding copy_manifest_to_s3
  record_image-Does ref_name t = go (manifest_blob_from_ref g ref_name) refl
    where
      inner :
          (m : ImageBlob)
          → manifest_blob_from_ref g ref_name ≡ ok m
          → (r : Result Hash) → m.digest ≡ r
          → Does g S u stored L bucket (IsRecordKey ref_name) (HasRecord ref_name) t (elim r [
            | ok h ↦ copy_to_s3 g S u bucket (key_for_image_record (g.hash_string h)) m t
            | err e ↦ (err e, t)
          ])
      inner m em (err e) ed =
          Does-err g S u stored L bucket (IsRecordKey ref_name) (HasRecord ref_name) t e
      inner m em (ok h) ed =
          let (added, asked, dry) =
            copy_to_s3-Does g S u stored L bucket (key_for_image_record (g.hash_string h)) m t in
          (
            Adds-imp g S u stored L bucket (λ j. j ≡ key_for_image_record (g.hash_string h))
                (IsRecordKey ref_name) t _ (λ j e. (h, (m, em, ed), e)) added,
            (λ real done h' (m', em', ed').
                let same : h ≡ h' =
                  ok_inj
                    (sym ed ∙ ap (λ (x : ImageBlob). x.digest) (ok_inj (sym em ∙ em')) ∙ ed') in
                subst
                  (λ x.
                    stored (copy_to_s3 g S u bucket (key_for_image_record (g.hash_string h)) m t).1
                      bucket (key_for_image_record (g.hash_string x))
                    ≡ true)
                  same (asked real done)),
            dry,
          )

      go :
          (r : Result ImageBlob)
          → manifest_blob_from_ref g ref_name ≡ r
          → Does g S u stored L bucket
              (IsRecordKey ref_name)
              (HasRecord ref_name)
              t
              (elim r [ ok m ↦ copy_manifest_to_s3 g S u bucket m t | err e ↦ (err e, t) ])
      go (err e) em = Does-err g S u stored L bucket (IsRecordKey ref_name) (HasRecord ref_name) t e
      go (ok m) em = inner m em m.digest refl

  pub upload_image-Does :
      (ref_name : Text) (layers : List ImageBlob) (s : S.State)
      → Does g S u stored L bucket
          (λ j. Unit {0})
          (λ t.
            HasLayers g S u stored L bucket (digests g S u stored L bucket layers) t
            × HasRecord ref_name t)
          s
          (upload_image g S u bucket ref_name layers s)
  unfolding upload_image
  upload_image-Does ref_name layers s =
      Does-then g S u stored L bucket (IsLayerKey g S u stored L bucket) (IsRecordKey ref_name)
        (λ j. Unit {0}) (HasLayers g S u stored L bucket (digests g S u stored L bucket layers))
        (HasRecord ref_name) (copy_layers g S u bucket layers) (record_image ref_name) s (λ j e. tt)
        (λ j e. tt)
        (λ t w (k, n) have.
          All-imp (digests g S u stored L bucket layers) (λ l x. k bucket (key_for_layer l) x) have)
        (copy_layers-Does g S u stored L bucket layers s) (record_image-Does ref_name)

  -- An upload that is no dry run and returns no error has stored every layer that has a digest, and
  -- the record of the image.
  pub upload_image-stored :
      (ref_name : Text) (layers : List ImageBlob) (s : S.State)
      → u.dry_run ≡ false
      → (upload_image g S u bucket ref_name layers s).0 ≡ ok tt
      → HasLayers g S u stored L bucket
          (digests g S u stored L bucket layers)
          (upload_image g S u bucket ref_name layers s).1
        × HasRecord ref_name (upload_image g S u bucket ref_name layers s).1
  upload_image-stored ref_name layers s real done =
      let (_, asked, _) = upload_image-Does ref_name layers s in asked real done

  -- A dry run stores nothing and removes nothing.
  pub upload_image_dry :
      (ref_name : Text) (layers : List ImageBlob) (s : S.State)
      → u.dry_run ≡ true
      → (c j : Text) → stored (upload_image g S u bucket ref_name layers s).1 c j ≡ stored s c j
  upload_image_dry ref_name layers s dry =
      let (_, _, same) = upload_image-Does ref_name layers s in same dry

  same-IsConsistent :
      (s t : S.State)
      → ((c j : Text) → stored t c j ≡ stored s c j)
      → IsConsistent s
      → IsConsistent t
  same-IsConsistent s t same h d have =
      All-imp (layers_of d) (λ l x. same bucket (key_for_layer l) ∙ x)
        (h d (sym (same bucket (key_for_image_record d)) ∙ have))

  record_image-IsConsistent :
      (ref_name : Text) (layers : List ImageBlob) (t : S.State)
      → IsImage ref_name layers
      → HasLayers g S u stored L bucket (digests g S u stored L bucket layers) t
      → IsConsistent t
      → IsConsistent (record_image ref_name t).1
  record_image-IsConsistent ref_name layers t image have h d stored_d =
      let ((k, n), _, _) = record_image-Does ref_name t in
      elim (n bucket (key_for_image_record d) stored_d) [
        | inl old ↦ All-imp (layers_of d) (λ l x. k bucket (key_for_layer l) x) (h d old)
        | inr (_, (x, dx, q)) ↦
            All-imp (layers_of d) (λ l y. k bucket (key_for_layer l) y)
              (subst (λ ls. HasLayers g S u stored L bucket ls t)
                (sym (ap layers_of (key_for_image_record-inj d (g.hash_string x) q) ∙ image x dx))
                have)
      ]

  -- The record, if the layers are stored without an error.
  abbrev after : Text → Result (Unit {0}) × S.State → Result (Unit {0}) × S.State
  after ref_name r = elim r.0 [ ok a ↦ record_image ref_name r.1 | err e ↦ (err e, r.1) ]

  -- However an upload of an image ends, if whenever a record was stored the layers of its image were,
  -- then that is so afterwards.
  pub upload_image-IsConsistent :
      (ref_name : Text) (layers : List ImageBlob) (s : S.State)
      → IsImage ref_name layers
      → IsConsistent s
      → IsConsistent (upload_image g S u bucket ref_name layers s).1
  unfolding upload_image
  upload_image-IsConsistent ref_name layers s image h = elim (Bool-cases u.dry_run) [
    | inl dry ↦
        same-IsConsistent s (upload_image g S u bucket ref_name layers s).1
          (upload_image_dry ref_name layers s dry) h
    | inr real ↦
        go real (copy_layers g S u bucket layers s)
          (copy_layers-Does g S u stored L bucket layers s)
  ]
    where
      go :
          u.dry_run ≡ false
          → (r : Result (Unit {0}) × S.State)
          → Does g S u stored L bucket
              (IsLayerKey g S u stored L bucket)
              (HasLayers g S u stored L bucket (digests g S u stored L bucket layers))
              s
              r
          → IsConsistent (after ref_name r).1
      go real (err e, t) (added, asked, dry) = layers-IsConsistent s t added h
      go real (ok a, t) (added, asked, dry) =
          record_image-IsConsistent ref_name layers t image (asked real refl)
            (layers-IsConsistent s t added h)
