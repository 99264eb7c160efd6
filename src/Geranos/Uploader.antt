-- ===== src/Geranos/Uploader.antt =====
-- cmd/geranos/s3uploader.go: `s3Uploader`. Logging is left out.
pub mod Laws
pub mod Images
use registry_k8s_io.Geranos.Store.{
  HeadError, not_found, api_error, other_error, Head, found, failed, PutObjectInput, Service,
  Action, ◌>>=◌, ◌>>◌, lift,
}
use registry_k8s_io.GoText.Split.{split}
use registry_k8s_io.Prelude.{
  Bool, true, false, Option, none, some, List, [], ◌∷◌, ◌++◌, Text, codes, text_beq, Result, ok,
  err, if◌then◌else◌,
}

-- `v1.Hash`
pub record Hash : Type 0 where
  pub algorithm : Text
  pub hex : Text

-- `imageBlob`: the methods of a layer that an upload calls. `compressed` gives the bytes.
pub record ImageBlob : Type 0 where
  pub digest : Result Hash
  pub compressed : Result Text

-- What the uploader calls of other packages: `Hash.String` and `v1.NewHash`, `crane.Manifest`, and
-- the conversion of a checksum from hexadecimal digits to base64.
pub record Registry : Type 0 where
  pub hash_string : Hash → Text
  pub new_hash : Text → Result Hash
  pub manifest : Text → Result Text
  pub decode_hex : Text → Result Text
  pub encode_base64 : Text → Text

-- The fields of `s3Uploader`; of its clients, whether they have anonymous credentials.
pub record S3Uploader : Type 0 where
  pub reupload_layers : Bool
  pub dry_run : Bool
  pub anonymous : Bool

-- `newS3Uploader`, after the configuration is loaded or is not. A dry run's client has anonymous
-- credentials.
unfoldable pub new_s3_uploader : Result (Unit {0}) → Bool → Result S3Uploader
new_s3_uploader (err message) dry_run = err message
new_s3_uploader (ok cfg) dry_run =
    ok (record { reupload_layers = false; dry_run = dry_run; anonymous = dry_run })

abbrev pub blob_key_prefix : Text
blob_key_prefix = codes "containers/images/"

abbrev pub manifest_key_prefix : Text
manifest_key_prefix = codes "geranos/uploaded-images/"

unfoldable pub key_for_layer : Text → Text
key_for_layer digest = blob_key_prefix ++ digest

unfoldable pub key_for_image_record : Text → Text
key_for_image_record image_digest = manifest_key_prefix ++ image_digest

-- What `blobExists` makes of an error.
unfoldable pub on_head_error : HeadError → Result Bool
on_head_error not_found = ok false
on_head_error (api_error code message) =
    if text_beq code (codes "NotFound") then ok false else err message
on_head_error (other_error message) = err message

-- `manifestBlob`, whose methods never fail.
unfoldable pub manifest_blob : Text → Hash → ImageBlob
manifest_blob raw digest = record { digest = ok digest; compressed = ok raw }

module _ (g : Registry) where
  -- `manifestBlobFromRef`, of the reference's name.
  unfoldable pub manifest_blob_from_ref : Text → Result ImageBlob
  manifest_blob_from_ref ref_name = elim (split ref_name b'@') [
    | x ∷ y ∷ [] ↦ elim (g.new_hash y) [
      | err message ↦ err message
      | ok digest ↦ elim (g.manifest ref_name) [
        | err message ↦ err message
        | ok manifest ↦ ok (manifest_blob manifest digest)
      ]
    ]
    | _ ↦ err (codes "invalid reference")
  ]

  -- The checksum of an upload.
  unfoldable pub checksum : Hash → Result (Option Text)
  checksum digest =
      if text_beq digest.algorithm (codes "SHA256")
      then elim (g.decode_hex digest.hex) [
        | err message ↦ err message
        | ok b ↦ ok (some (g.encode_base64 b))
      ]
      else ok none

  module _ (S : Service) (u : S3Uploader) where
    -- `blobExists`
    unfoldable pub blob_exists : Text → Text → Action S.State Bool
    unfolding on_head_error
    blob_exists bucket key s =
        let (answer, s') = S.head_object s bucket key in
        elim answer [ found ↦ (ok true, s') | failed e ↦ (on_head_error e, s') ]

    -- `ImageAlreadyUploaded`
    unfoldable pub image_already_uploaded : Text → Text → Action S.State Bool
    image_already_uploaded bucket image_digest =
        blob_exists bucket (key_for_image_record image_digest)

    -- The end of `copyToS3`: the upload, unless it is a dry run.
    unfoldable pub put_blob : Text → Text → ImageBlob → Hash → Action S.State (Unit {0})
    put_blob bucket key layer digest = do
      r ← lift layer.compressed
      sum ← lift (checksum digest)
      if u.dry_run then lift (ok tt) else (λ s.
          S.upload s (record { bucket = bucket; key = key; body = r; checksum_sha256 = sum }))

    -- `copyToS3`: an error of the check is logged, and the upload goes on.
    unfoldable pub copy_to_s3 : Text → Text → ImageBlob → Action S.State (Unit {0})
    unfolding put_blob blob_exists
    copy_to_s3 bucket key layer = do
      digest ← lift layer.digest
      if u.reupload_layers then put_blob bucket key layer digest else (λ s.
          let (exists, s') = blob_exists bucket key s in
          elim exists [ ok true ↦ (ok tt, s') | _ ↦ put_blob bucket key layer digest s' ])

    -- `copyManifestToS3` and `copyLayerToS3`
    unfoldable pub copy_manifest_to_s3 : Text → ImageBlob → Action S.State (Unit {0})
    copy_manifest_to_s3 bucket layer = do
      digest ← lift layer.digest
      copy_to_s3 bucket (key_for_image_record (g.hash_string digest)) layer

    unfoldable pub copy_layer_to_s3 : Text → ImageBlob → Action S.State (Unit {0})
    copy_layer_to_s3 bucket layer = do
      digest ← lift layer.digest
      copy_to_s3 bucket (key_for_layer (g.hash_string digest)) layer

    -- The loop over the layers.
    unfoldable pub copy_layers : Text → List ImageBlob → Action S.State (Unit {0})
    copy_layers bucket [] = lift (ok tt)
    copy_layers bucket (layer ∷ layers) = do
      copy_layer_to_s3 bucket layer
      copy_layers bucket layers

    -- `UploadImage`, of the reference's name.
    unfoldable pub upload_image : Text → Text → List ImageBlob → Action S.State (Unit {0})
    upload_image bucket ref_name layers = do
      copy_layers bucket layers
      m ← lift (manifest_blob_from_ref ref_name)
      copy_manifest_to_s3 bucket m
