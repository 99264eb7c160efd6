-- ===== src/Tests/Crowd.antt =====
-- The theorems about goroutines whose calls interleave, for one job, in a state after two of its calls
-- and in one after all of them.
use registry_k8s_io.Geranos.Main.{s3_bucket}
use registry_k8s_io.Geranos.Main.Complete.{uploader}
use registry_k8s_io.Geranos.Main.Laws.{IsCopied, Consistent, Keeps}
use registry_k8s_io.Geranos.Uploader.{
  key_for_image_record, key_for_layer, manifest_blob, manifest_blob_from_ref, new_s3_uploader,
  on_head_error, checksum,
}
use registry_k8s_io.Geranos.Walk.{manifest_layers, image_to_layers}
use registry_k8s_io.GoText.Prefixes.{drop_prefix}
use registry_k8s_io.GoText.Split.{split}
use registry_k8s_io.Prelude.{
  ℕ, zero, suc, none, ◌≡◌, ◌⊎◌, refl, arith, true, false, All, some, List, [], ◌∷◌, Text, codes,
  text_beq, ok,
}
use registry_k8s_io.Tests.Repository.{
  world, stored, service, service-IsLawful, registry, client, job, layers_of, job-IsFaithful, real,
  empty-Consistent, no_dry_run,
}
use registry_k8s_io.Geranos.Crowd.{Crowd, IsOver, call, start_crowd, CrowdStep, CrowdReach}
use registry_k8s_io.Geranos.Crowd.Dry.{crowd-dry}
use registry_k8s_io.Geranos.Uploader.{S3Uploader}
use registry_k8s_io.Geranos.Crowd.Laws.{crowd-Consistent, crowd-IsCopied}
use registry_k8s_io.Geranos.Crowd.Ends.{Later, crowd-Acc, crowd-continues}
use registry_k8s_io.Geranos.Threads.{
  ◌>>=◌, exists_of, put_blob_thread, put_unless, copy_thread, copy_layers_thread, record_thread,
  upload_thread, manifest_thread, unless_skipped, job_thread,
}
use mathlib.Core.WellFounded.{Acc}

abbrev Reached : Crowd (List (Text × Text)) → Type 0
Reached = CrowdReach service registry (uploader real) s3_bucket client (job ∷ []) (ok tt) []

-- The goroutines of the job alone, after a number of its calls.
abbrev called : ℕ → Crowd (List (Text × Text))
called zero = record {
  walking = true;
  waiting = [];
  active = (job, job_thread registry (uploader real) s3_bucket client job) ∷ [];
  state = [];
  result = ok tt;
}
called (suc n) =
    let t = called n in
    elim t.active [
      | [] ↦ t
      | (j, thread) ∷ rest ↦ elim (call service thread t.state) [
        | none ↦ t
        | some (thread', state') ↦ record t { active = (j, thread') ∷ rest; state = state' }
      ]
    ]

two_calls : Reached (called 2)
unfolding start_crowd call job_thread unless_skipped exists_of on_head_error manifest_thread ◌>>=◌
    manifest_layers text_beq codes image_to_layers upload_thread copy_layers_thread copy_thread
    put_unless put_blob_thread record_thread key_for_layer key_for_image_record
    manifest_blob_from_ref split drop_prefix manifest_blob checksum new_s3_uploader
two_calls =
    CrowdReach.next
      (CrowdReach.next
        (CrowdReach.next (CrowdReach.begin refl)
          (CrowdStep.start job [] refl refl (omega arith) refl))
        (CrowdStep.advance [] [] job _ _ _ refl refl refl))
      (CrowdStep.advance [] [] job _ _ _ refl refl refl)

seven_calls : Reached (called 7)
unfolding start_crowd call job_thread unless_skipped exists_of on_head_error manifest_thread ◌>>=◌
    manifest_layers text_beq codes image_to_layers upload_thread copy_layers_thread copy_thread
    put_unless put_blob_thread record_thread key_for_layer key_for_image_record
    manifest_blob_from_ref split drop_prefix manifest_blob checksum new_s3_uploader
seven_calls =
    CrowdReach.next
      (CrowdReach.next
        (CrowdReach.next
          (CrowdReach.next
            (CrowdReach.next two_calls (CrowdStep.advance [] [] job _ _ _ refl refl refl))
            (CrowdStep.advance [] [] job _ _ _ refl refl refl))
          (CrowdStep.advance [] [] job _ _ _ refl refl refl))
        (CrowdStep.advance [] [] job _ _ _ refl refl refl))
      (CrowdStep.advance [] [] job _ _ _ refl refl refl)

abbrev over : Crowd (List (Text × Text))
over = record (called 7) { walking = false; active = []; result = ok tt }

all_calls : Reached over
unfolding start_crowd call job_thread unless_skipped exists_of on_head_error manifest_thread ◌>>=◌
    manifest_layers text_beq codes image_to_layers upload_thread copy_layers_thread copy_thread
    put_unless put_blob_thread record_thread key_for_layer key_for_image_record
    manifest_blob_from_ref split drop_prefix manifest_blob checksum new_s3_uploader
all_calls =
    CrowdReach.next (CrowdReach.next seven_calls (CrowdStep.finish [] [] job (ok tt) refl refl))
      (CrowdStep.walk_ends refl refl refl)

over-IsOver : IsOver over
unfolding start_crowd call job_thread unless_skipped exists_of on_head_error manifest_thread ◌>>=◌
    manifest_layers text_beq codes image_to_layers upload_thread copy_layers_thread copy_thread
    put_unless put_blob_thread record_thread key_for_layer key_for_image_record
    manifest_blob_from_ref split drop_prefix manifest_blob checksum new_s3_uploader
over-IsOver = (refl, refl, refl)

crowd-Consistent_example :
    Keeps real client registry service stored service-IsLawful layers_of
      (uploader real)
      []
      (called 2).state
    × Consistent real client registry service stored service-IsLawful layers_of
        (uploader real)
        (called 2).state
crowd-Consistent_example =
    crowd-Consistent real client registry service stored service-IsLawful layers_of (uploader real)
      (job ∷ []) (ok tt) [] (called 2) two_calls (job-IsFaithful (codes "true"), tt)
      (empty-Consistent (codes "true"))

crowd-IsCopied_example :
    (ok (tt {0}) ≡ ok (tt {0}))
    × All
        (λ j.
          IsCopied real client registry service stored service-IsLawful layers_of
            (uploader real)
            j
            over.state)
        (job ∷ [])
crowd-IsCopied_example =
    crowd-IsCopied real client registry service stored service-IsLawful layers_of (uploader real)
      (job ∷ []) (ok tt) [] over all_calls over-IsOver no_dry_run
      (job-IsFaithful (codes "true"), tt) (empty-Consistent (codes "true")) refl

crowd-Acc_example :
    Acc (Later service registry (uploader real) s3_bucket client (job ∷ []) (ok tt)) (called 2)
crowd-Acc_example =
    crowd-Acc service registry (uploader real) s3_bucket client (job ∷ []) (ok tt) (called 2)

crowd-continues_example :
    IsOver (called 7)
    ⊎ ((v : Crowd (List (Text × Text))) × CrowdStep service registry
          (uploader real)
          s3_bucket
          client
          (job ∷ [])
          (ok tt)
          (called 7)
          v)
crowd-continues_example =
    crowd-continues service registry (uploader real) s3_bucket client (job ∷ []) (ok tt) []
      (called 7) seven_calls

abbrev dry : S3Uploader
dry = uploader (world [])

is_dry : dry.dry_run ≡ true
unfolding text_beq codes
is_dry = refl

-- The first call of the job of a dry run.
one_call : CrowdReach service registry dry s3_bucket client (job ∷ []) (ok tt) [] (record {
  walking = true;
  waiting = [];
  active = (job, unless_skipped registry dry s3_bucket client job.ref (ok false)) ∷ [];
  state = [];
  result = ok tt;
})
unfolding start_crowd call job_thread exists_of on_head_error key_for_image_record codes text_beq
one_call =
    CrowdReach.next
      (CrowdReach.next (CrowdReach.begin refl)
        (CrowdStep.start job [] refl refl (omega arith) refl))
      (CrowdStep.advance [] [] job _ _ _ refl refl refl)

crowd-dry_example : stored [] s3_bucket (codes "k") ≡ stored [] s3_bucket (codes "k")
crowd-dry_example =
    crowd-dry service stored service-IsLawful registry dry s3_bucket client (job ∷ []) (ok tt)
      is_dry [] _ one_call s3_bucket (codes "k")
