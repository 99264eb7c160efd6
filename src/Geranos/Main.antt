-- ===== src/Geranos/Main.antt =====
-- cmd/geranos/main.go: `Run`. The jobs of the walk run in some order, each to its end.
pub mod Laws
pub mod Complete
pub mod Dry
use registry_k8s_io.Geranos.Store.{Service, Action}
use registry_k8s_io.Geranos.Uploader.{
  ImageBlob, Registry, S3Uploader, new_s3_uploader, image_already_uploaded, upload_image,
}
use registry_k8s_io.Geranos.Walk.{Reference, Client, Visit, Job, walk, run_jobs}
use registry_k8s_io.Prelude.{
  Bool, true, false, Option, none, some, List, [], Text, codes, text_beq, Result, ok, err,
}

abbrev pub source_registry : Text
source_registry = codes "us-central1-docker.pkg.dev/k8s-artifacts-prod/images"

abbrev pub s3_bucket : Text
s3_bucket = codes "prod-registry-k8s-io-us-east-2"

-- The environment of a run: `REALLY_UPLOAD`, the result of loading the configuration, the
-- repository of a name, and its visits.
pub record World : Type 0 where
  pub really_upload : Text
  pub load_config : Result (Unit {0})
  pub new_repository : Text → Result Text
  pub visits : Text → List Visit

module _ (w : World) (c : Client) (g : Registry) (S : Service) where
  -- The two functions that `Run` passes to the walk.
  unfoldable pub upload : S3Uploader → Reference → List ImageBlob → Action S.State (Unit {0})
  upload u ref layers = upload_image g S u s3_bucket ref.name layers

  unfoldable pub is_uploaded : S3Uploader → Text → S.State → Bool × S.State
  is_uploaded u image_hash s =
      let (r, s') = image_already_uploaded g S u s3_bucket image_hash s in
      elim r [ ok b ↦ (b, s') | err message ↦ (false, s') ]

  -- `WalkImageLayersGCP` with them: `schedule` puts the jobs that are started in an order.
  unfoldable pub walk_image_layers_gcp :
      (List Job → List Job) → S3Uploader → Text → Action S.State (Unit {0})
  walk_image_layers_gcp schedule u repo =
      let (jobs, result) = walk c (w.visits repo) in
      run_jobs c (upload u) (is_uploaded u) (schedule jobs) result

  unfoldable pub run : (List Job → List Job) → Action S.State (Unit {0})
  run schedule s = elim (w.new_repository source_registry) [
    | err message ↦ (err message, s)
    | ok repo ↦ elim (new_s3_uploader w.load_config (text_beq w.really_upload [])) [
      | err message ↦ (err message, s)
      | ok u ↦ walk_image_layers_gcp schedule u repo s
    ]
  ]
