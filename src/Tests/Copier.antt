-- ===== src/Tests/Copier.antt =====
-- The copier's theorems for a repository of one image with a layer.
use mathlib.Core.List.{Memᴰ}
use registry_k8s_io.Geranos.Main.{
  s3_bucket, source_registry, upload, is_uploaded, walk_image_layers_gcp, run,
}
use registry_k8s_io.Geranos.Main.Complete.{uploader, run-IsCopied}
use registry_k8s_io.Geranos.Main.Dry.{run_dry}
use registry_k8s_io.Geranos.Main.Laws.{IsCopied}
use registry_k8s_io.Geranos.Uploader.{
  key_for_image_record, key_for_layer, manifest_blob, manifest_blob_from_ref, new_s3_uploader,
  image_already_uploaded, blob_exists, on_head_error, upload_image, copy_layers, copy_layer_to_s3,
  copy_to_s3, put_blob, checksum, copy_manifest_to_s3,
}
use registry_k8s_io.Geranos.Walk.{
  Job, visit_manifests, walk, manifest_layers, image_to_layers, walk_manifest_layers, run_job,
  run_jobs,
}
use registry_k8s_io.GoText.Prefixes.{drop_prefix}
use registry_k8s_io.GoText.Split.{split}
use registry_k8s_io.Prelude.{◌≡◌, ◌≢◌, refl, [], ◌∷◌, codes, text_beq, ok}
use registry_k8s_io.Tests.Repository.{
  stored, service, service-IsLawful, registry, client, world, layers_of, all-AllFaithful, real,
  empty-Consistent,
}

not_empty : real.really_upload ≢ []
unfolding codes
not_empty e = cc

real-done : (run real client registry service (λ jobs. jobs) []).0 ≡ ok tt
unfolding run new_s3_uploader walk_image_layers_gcp walk visit_manifests text_beq codes run_jobs
    run_job is_uploaded image_already_uploaded blob_exists on_head_error walk_manifest_layers
    manifest_layers image_to_layers upload upload_image copy_layers copy_layer_to_s3 copy_to_s3
    put_blob checksum manifest_blob_from_ref split manifest_blob copy_manifest_to_s3 key_for_layer
    key_for_image_record drop_prefix
real-done = refl

run-IsCopied_example :
    ((walk client (real.visits source_registry)).1 ≡ ok tt)
    × ((j : Job)
        → Memᴰ j (walk client (real.visits source_registry)).0
        → IsCopied real client registry service stored service-IsLawful layers_of
            (uploader real)
            j
            (run real client registry service (λ jobs. jobs) []).1)
run-IsCopied_example =
    run-IsCopied real client registry service stored service-IsLawful layers_of (λ jobs. jobs)
      source_registry [] not_empty refl refl (all-AllFaithful (codes "true")) (λ j m. m)
      (empty-Consistent (codes "true")) real-done

run_dry_example :
    stored
      (run (world []) client registry service (λ jobs. jobs) ((s3_bucket, codes "k") ∷ [])).1
      s3_bucket
      (codes "k")
    ≡ stored ((s3_bucket, codes "k") ∷ []) s3_bucket (codes "k")
run_dry_example =
    run_dry service stored service-IsLawful.head_keeps (world []) client registry (λ jobs. jobs)
      ((s3_bucket, codes "k") ∷ []) refl s3_bucket (codes "k")
