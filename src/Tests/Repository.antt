-- ===== src/Tests/Repository.antt =====
-- A repository of one image with a layer, and a service that keeps a list of what was stored, for the
-- copier's theorems.
use registry_k8s_io.Geranos.Main.{World, s3_bucket}
use registry_k8s_io.Geranos.Main.Complete.{uploader, AllFaithful}
use registry_k8s_io.Geranos.Main.Laws.{IsFaithful, Consistent}
use registry_k8s_io.Geranos.Store.{found, failed, not_found, PutObjectInput, Service, IsLawful}
use registry_k8s_io.Geranos.Uploader.{ImageBlob, Registry, manifest_blob, manifest_blob_from_ref}
use registry_k8s_io.Geranos.Uploader.Laws.{digest_of, digests}
use registry_k8s_io.Geranos.Walk.{
  Descriptor, Client, Job, visit_manifests, walk, manifest_layers, image_to_layers,
}
use registry_k8s_io.GoText.Prefixes.{drop_prefix}
use registry_k8s_io.GoText.Split.{split}
use registry_k8s_io.Prelude.{
  ok_inj, some_inj, ◌≡◌, ◌⊎◌, inl, inr, refl, sym, ap, ◌∙◌, arith, Bool, true, false, ◌&&◌, ◌||◌,
  any, List, [], ◌∷◌, ◌++◌, Text, codes, text_beq, text_beq_iff, ok, err, if◌then◌else◌,
}

abbrev pub stored : List (Text × Text) → Text → Text → Bool
stored s b k = any (λ e. text_beq e.0 b && text_beq e.1 k) s

abbrev pub service : Service
service = record {
  State = List (Text × Text);
  head_object = λ s b k. (if stored s b k then found else failed not_found, s);
  upload = λ s i. (ok tt, (i.bucket, i.key) ∷ s);
}

pub service-IsLawful : IsLawful service stored
service-IsLawful = record {
  head_keeps = λ s b k c j. refl;
  head_found = λ s b k e. go (stored s b k) e;
  upload_keeps = λ s i c j e. ground arith;
  upload_only = λ s i c j e. put (stored s c j) s i c j refl e;
  upload_ok = λ s i e. ground (arith, text_beq_iff i.bucket i.bucket, text_beq_iff i.key i.key);
}
  where
    put :
        (b : Bool) (s : List (Text × Text)) (i : PutObjectInput) (c j : Text)
        → stored s c j ≡ b
        → (text_beq i.bucket c && text_beq i.key j) || b ≡ true
        → (stored s c j ≡ true) ⊎ ((c ≡ i.bucket) × (j ≡ i.key))
    put true s i c j e h = inl e
    put false s i c j e h =
        inr (ground (arith, text_beq_iff i.bucket c), ground (arith, text_beq_iff i.key j))

    go : (b : Bool) → (if b then found else failed not_found) ≡ found → b ≡ true
    go true e = refl
    go false e = cc

abbrev pub registry : Registry
registry = record {
  hash_string = λ h. codes "sha256:" ++ h.hex;
  new_hash = λ t. ok (record { algorithm = codes "sha256"; hex = drop_prefix t (codes "sha256:") });
  manifest = λ name. ok (codes "{}");
  decode_hex = λ t. ok t;
  encode_base64 = λ t. t;
}

abbrev pub blob : Text → ImageBlob
blob hex = record {
  digest = ok (record { algorithm = codes "sha256"; hex = hex });
  compressed = ok (codes "bytes");
}

abbrev pub descriptor : Descriptor
descriptor = record {
  media_type = codes "image";
  manifest = codes "{}";
  image = ok (record { layers = ok (blob (codes "l") ∷ []); config_layer = ok (blob (codes "c")) });
}

abbrev pub client : Client
client = record {
  parse_reference = λ t. ok (record { name = t; context = codes "r" });
  get = λ ref. ok descriptor;
  decode_schema1 = λ t. err (codes "no JSON");
  new_digest = λ t. ok t;
  remote_layer = λ t. ok (blob t);
  is_index = λ t. false;
  is_image = λ t. true;
  docker_manifest_list = codes "list";
  oci_image_index = codes "index";
  docker_manifest_schema1 = codes "schema1";
  docker_manifest_schema1_signed = codes "signed";
}

abbrev pub world : Text → World
world really_upload = record {
  really_upload = really_upload;
  load_config = ok tt;
  new_repository = λ t. ok t;
  visits = λ repo.
      (record {
        repository = codes "r";
        manifests = ok ((codes "sha256:d", codes "image") ∷ (codes "sha256:x", codes "list") ∷ []);
      })
      ∷ [];
}

abbrev pub job : Job
job = record {
  digest = codes "sha256:d";
  ref = record { name = codes "r@sha256:d"; context = codes "r" };
}

abbrev pub layers_of : Text → List Text
layers_of d = codes "sha256:l" ∷ codes "sha256:c" ∷ []

pub job-IsFaithful :
    (r : Text)
    → IsFaithful
        (world r)
        client
        registry
        service
        stored
        service-IsLawful
        layers_of
        (uploader (world r))
        job
unfolding manifest_blob_from_ref split manifest_layers drop_prefix digests codes manifest_blob
    text_beq image_to_layers digest_of
job-IsFaithful r = record {
  names = λ h (m, e, e'). sym (
      ap (λ x. registry.hash_string x) (ok_inj (ap (λ (x : ImageBlob). x.digest) (ok_inj e) ∙ e')));
  contents = λ desc layers e e'.
      ap (digests registry service (uploader (world r)) stored service-IsLawful s3_bucket)
        (some_inj (ok_inj (ap (manifest_layers client job.ref) (ok_inj e) ∙ e')));
}

pub all-AllFaithful :
    (r : Text)
    → AllFaithful (world r) client registry service stored service-IsLawful layers_of (λ jobs. jobs)
unfolding walk visit_manifests text_beq codes
all-AllFaithful r repo = (job-IsFaithful r, tt)

abbrev pub real : World
real = world (codes "true")

pub empty-Consistent :
    (r : Text)
    → Consistent
        (world r)
        client
        registry
        service
        stored
        service-IsLawful
        layers_of
        (uploader (world r))
        []
empty-Consistent r d e = cc

pub no_dry_run : (uploader real).dry_run ≡ false
unfolding text_beq codes
no_dry_run = refl
