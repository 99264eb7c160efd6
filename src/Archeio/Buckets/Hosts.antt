-- ===== src/Archeio/Buckets/Hosts.antt =====
-- cmd/archeio/internal/app/buckets.go: the addresses of the `switch`, described.
use registry_k8s_io.Archeio.Buckets.{region_cases, switch, aws_region_to_host_url}
use registry_k8s_io.Prelude.{
  ◌≡◌, refl, ap, sym, ◌∙◌, arith, Bool, true, ◌||◌, any, all, List, [], ◌∷◌, ◌++◌, Text, codes,
  text_beq, text_beq_iff, if◌then◌else◌, Bool-cases, inl, inr,
}

-- The regions that have a case.
abbrev pub known_regions : List Text
known_regions =
    codes "af-south-1"
    ∷ codes "ap-east-1"
    ∷ codes "cn-northwest-1"
    ∷ codes "cn-north-1"
    ∷ codes "ap-east-2"
    ∷ codes "ap-northeast-1"
    ∷ codes "ap-northeast-2"
    ∷ codes "ap-northeast-3"
    ∷ codes "ap-southeast-1"
    ∷ codes "ap-southeast-2"
    ∷ codes "ap-southeast-3"
    ∷ codes "ap-southeast-4"
    ∷ codes "ap-southeast-5"
    ∷ codes "ap-southeast-6"
    ∷ codes "ap-southeast-7"
    ∷ codes "ap-south-1"
    ∷ codes "ap-south-2"
    ∷ codes "ca-central-1"
    ∷ codes "ca-west-1"
    ∷ codes "eu-central-1"
    ∷ codes "eu-central-2"
    ∷ codes "eu-north-1"
    ∷ codes "eu-south-1"
    ∷ codes "eu-south-2"
    ∷ codes "eu-west-1"
    ∷ codes "eu-west-2"
    ∷ codes "eu-west-3"
    ∷ codes "il-central-1"
    ∷ codes "me-central-1"
    ∷ codes "me-south-1"
    ∷ codes "mx-central-1"
    ∷ codes "sa-east-1"
    ∷ codes "us-east-1"
    ∷ codes "us-east-2"
    ∷ codes "us-west-1"
    ∷ codes "us-west-2"
    ∷ []

-- The region of the bucket that serves a region: mostly its own.
unfoldable pub serving_region : Text → Text
serving_region region =
    if any (text_beq region) (codes "cn-northwest-1" ∷ codes "cn-north-1" ∷ codes "ap-east-2" ∷ [])
    then codes "ap-east-1"
    else if text_beq region (codes "me-south-1")
    then codes "me-central-1"
    else region

-- The name of a region's bucket; one has a name of its own.
unfoldable pub bucket_name : Text → Text
bucket_name region =
    if text_beq region (codes "eu-west-2")
    then codes "767373bbdcb8270361b96548387bf2a9ad0d48758c35-" ++ region
    else codes "prod-registry-k8s-io-" ++ region

-- The dual-stack S3 address of the bucket that serves a region.
unfoldable pub bucket_url : Text → Text
unfolding serving_region bucket_name
bucket_url region =
    let serving : Text = serving_region region in
    codes "https://"
    ++ (bucket_name serving ++ (codes ".s3.dualstack." ++ (serving ++ codes ".amazonaws.com")))

-- The check of one case, and of all: each label's address is the described one.
case_ok : List Text × Text → Bool
case_ok (labels, url) = all (λ label. text_beq (bucket_url label) url) labels

region_cases_ok : all case_ok region_cases ≡ true
unfolding case_ok bucket_url text_beq codes
region_cases_ok = refl

labels_ok :
    (region url : Text) (labels : List Text)
    → all (λ label. text_beq (bucket_url label) url) labels ≡ true
    → any (text_beq region) labels ≡ true
    → url ≡ bucket_url region
labels_ok region url [] h k = cc
labels_ok region url (l ∷ labels) h k = elim (Bool-cases (text_beq region l)) [
  | inl same ↦
      sym ((text_beq_iff (bucket_url l) url).0 (ground arith))
      ∙ ap bucket_url (sym ((text_beq_iff region l).0 same))
  | inr other ↦ labels_ok region url labels (ground arith) (ground arith)
]

-- The labels of the cases, in order.
abbrev labels_of : List (List Text × Text) → List Text
labels_of [] = []
labels_of ((labels, url) ∷ cases) = labels ++ labels_of cases

any-append : (p : Text → Bool) (l k : List Text) → any p (l ++ k) ≡ any p l || any p k
any-append p [] k = refl
any-append p (x ∷ l) k = ground (arith, any-append p l k)

switch-any :
    (region fallback : Text) (cases : List (List Text × Text))
    → all case_ok cases ≡ true
    → switch region cases fallback
      ≡ (if any (text_beq region) (labels_of cases) then bucket_url region else fallback)
unfolding switch case_ok
switch-any region fallback [] h = refl
switch-any region fallback ((labels, url) ∷ cases) h = ground (
  arith,
  any-append (text_beq region) labels (labels_of cases),
  labels_ok region url labels,
  switch-any region fallback cases,
)

-- A known region is served from its bucket's dual-stack address, and any other from the default.
pub aws_region_to_host_url-eq :
    (region default_url : Text)
    → aws_region_to_host_url region default_url
      ≡ (if any (text_beq region) known_regions then bucket_url region else default_url)
unfolding aws_region_to_host_url
aws_region_to_host_url-eq region default_url =
    switch-any region default_url region_cases region_cases_ok
