-- ===== src/Geranos/Walk.antt =====
-- cmd/geranos/walkimages.go and cmd/geranos/schemav1.go: the walk over the images of a repository.
-- The clients of the registry are parameters. The transport that they are given limits their rate
-- and is left out, and so is logging.
use registry_k8s_io.Geranos.Store.{Action, ◌>>=◌, lift}
use registry_k8s_io.Geranos.Uploader.{ImageBlob}
use registry_k8s_io.Prelude.{
  Bool, ◌||◌, not, Option, none, some, List, [], ◌∷◌, ◌++◌, Text, codes, text_beq, Result, ok, err,
  keep_first, if◌then◌else◌,
}

-- `name.Reference`: its name, and its repository.
pub record Reference : Type 0 where
  pub name : Text
  pub context : Text

-- `v1.Image`, with the layer that holds its configuration.
pub record Image : Type 0 where
  pub layers : Result (List ImageBlob)
  pub config_layer : Result ImageBlob

-- `remote.Descriptor`
pub record Descriptor : Type 0 where
  pub media_type : Text
  pub manifest : Text
  pub image : Result Image

-- What the walk calls of go-containerregistry, its media types, and the JSON decoder of a schema 1
-- manifest, which gives the blob sums.
pub record Client : Type 0 where
  pub parse_reference : Text → Result Reference
  pub get : Reference → Result Descriptor
  pub decode_schema1 : Text → Result (List Text)
  pub new_digest : Text → Result Text
  pub remote_layer : Text → Result ImageBlob
  pub is_index : Text → Bool
  pub is_image : Text → Bool
  pub docker_manifest_list : Text
  pub oci_image_index : Text
  pub docker_manifest_schema1 : Text
  pub docker_manifest_schema1_signed : Text

-- `tags.Manifests` of one repository, or the error that the callback is given.
pub record Visit : Type 0 where
  pub repository : Text
  pub manifests : Result (List (Text × Text))

-- What one call of `g.Go` is given.
pub record Job : Type 0 where
  pub digest : Text
  pub ref : Reference

module _ (c : Client) where
  -- The loop of `layersForV1`.
  unfoldable pub fs_layers : Text → List Text → Result (List ImageBlob)
  fs_layers context [] = ok []
  fs_layers context (blob_sum ∷ rest) = elim (c.new_digest (context ++ (codes "@" ++ blob_sum))) [
    | err message ↦ err message
    | ok layer_digest ↦ elim (c.remote_layer layer_digest) [
      | err message ↦ err message
      | ok layer ↦ elim (fs_layers context rest) [
        | err message ↦ err message
        | ok layers ↦ ok (layer ∷ layers)
      ]
    ]
  ]

  unfoldable pub layers_for_v1 : Reference → Descriptor → Result (List ImageBlob)
  layers_for_v1 ref desc = elim (c.decode_schema1 desc.manifest) [
    | err message ↦ err message
    | ok fs ↦ fs_layers ref.context fs
  ]

  unfoldable pub image_to_layers : Image → Result (List ImageBlob)
  image_to_layers image = elim image.layers [
    | err message ↦ err message
    | ok layers ↦ elim image.config_layer [
      | err message ↦ err message
      | ok config_layer ↦ ok (layers ++ config_layer ∷ [])
    ]
  ]

  -- The layers that `walkManifestLayers` calls back with, and none where it does not call back.
  unfoldable pub manifest_layers : Reference → Descriptor → Result (Option (List ImageBlob))
  manifest_layers ref desc =
      if c.is_index desc.media_type
      then ok none
      else (if text_beq desc.media_type c.docker_manifest_schema1
            || text_beq desc.media_type c.docker_manifest_schema1_signed
          then elim (layers_for_v1 ref desc) [
            | err message ↦ err message
            | ok layers ↦ ok (some layers)
          ]
          else (if not (c.is_image desc.media_type) then ok none else elim desc.image [
            | err message ↦ err message
            | ok image ↦ elim (image_to_layers image) [
              | err message ↦ err message
              | ok layers ↦ ok (some layers)
            ]
          ]))

  -- The manifests of one visit: the jobs that are started, and the result.
  unfoldable pub visit_manifests : Text → List (Text × Text) → List Job × Result (Unit {0})
  visit_manifests repository [] = ([], ok tt)
  visit_manifests repository ((digest, media_type) ∷ rest) =
      let (jobs, result) = visit_manifests repository rest in
      if text_beq media_type c.docker_manifest_list || text_beq media_type c.oci_image_index
      then (jobs, result)
      else elim (c.parse_reference (repository ++ (codes "@" ++ digest))) [
        | err message ↦ ([], err message)
        | ok ref ↦ ((record { digest = digest; ref = ref }) ∷ jobs, result)
      ]

  -- `google.Walk` with the callback: the visits one after another, up to the first error.
  unfoldable pub walk : List Visit → List Job × Result (Unit {0})
  walk [] = ([], ok tt)
  walk (visit ∷ visits) = elim visit.manifests [
    | err message ↦ ([], err message)
    | ok manifests ↦
        let (jobs, result) = visit_manifests visit.repository manifests in
        let (jobs', result') = walk visits in
        elim result [ err message ↦ (jobs, err message) | ok x ↦ (jobs ++ jobs', result') ]
  ]

  module _ {State : Type 0}
      (walk_image_layers : Reference → List ImageBlob → Action State (Unit {0}))
      (skip_image : Text → State → Bool × State) where
    unfoldable pub walk_manifest_layers : Reference → Action State (Unit {0})
    walk_manifest_layers ref = do
      desc ← lift (c.get ref)
      layers ← lift (manifest_layers ref desc)
      elim layers [ none ↦ lift (ok tt) | some l ↦ walk_image_layers ref l ]

    -- The function of one job.
    unfoldable pub run_job : Job → Action State (Unit {0})
    run_job job s =
        let (skip, s') = skip_image job.digest s in
        if skip then (ok tt, s') else walk_manifest_layers job.ref s'

    -- The group: the jobs in the order that they are run in, of which none is dropped when another
    -- fails, and the first error.
    unfoldable pub run_jobs : List Job → Result (Unit {0}) → Action State (Unit {0})
    run_jobs [] result s = (result, s)
    run_jobs (job ∷ jobs) result s =
        let (r, s') = run_job job s in run_jobs jobs (keep_first result r) s'
