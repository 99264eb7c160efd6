-- ===== src/Archeio/Buckets.antt =====
-- cmd/archeio/internal/app/buckets.go: the bucket that serves a region.
pub mod Hosts
use registry_k8s_io.Prelude.{
  Bool, true, false, any, List, [], ◌∷◌, Text, codes, text_beq, if◌then◌else◌,
}

-- The cases of the `switch`, in its order: the labels of a case, and the address that it returns.
abbrev pub region_cases : List (List Text × Text)
region_cases =
    (
      (codes "af-south-1") ∷ [],
      codes "https://prod-registry-k8s-io-af-south-1.s3.dualstack.af-south-1.amazonaws.com",
    )
    ∷ (
      (codes "ap-east-1") ∷ (codes "cn-northwest-1") ∷ (codes "cn-north-1") ∷ [],
      codes "https://prod-registry-k8s-io-ap-east-1.s3.dualstack.ap-east-1.amazonaws.com",
    )
    ∷ (
      (codes "ap-east-2") ∷ [],
      codes "https://prod-registry-k8s-io-ap-east-1.s3.dualstack.ap-east-1.amazonaws.com",
    )
    ∷ (
      (codes "ap-northeast-1") ∷ [],
      codes "https://prod-registry-k8s-io-ap-northeast-1.s3.dualstack.ap-northeast-1.amazonaws.com",
    )
    ∷ (
      (codes "ap-northeast-2") ∷ [],
      codes "https://prod-registry-k8s-io-ap-northeast-2.s3.dualstack.ap-northeast-2.amazonaws.com",
    )
    ∷ (
      (codes "ap-northeast-3") ∷ [],
      codes "https://prod-registry-k8s-io-ap-northeast-3.s3.dualstack.ap-northeast-3.amazonaws.com",
    )
    ∷ (
      (codes "ap-southeast-1") ∷ [],
      codes "https://prod-registry-k8s-io-ap-southeast-1.s3.dualstack.ap-southeast-1.amazonaws.com",
    )
    ∷ (
      (codes "ap-southeast-2") ∷ [],
      codes "https://prod-registry-k8s-io-ap-southeast-2.s3.dualstack.ap-southeast-2.amazonaws.com",
    )
    ∷ (
      (codes "ap-southeast-3") ∷ [],
      codes "https://prod-registry-k8s-io-ap-southeast-3.s3.dualstack.ap-southeast-3.amazonaws.com",
    )
    ∷ (
      (codes "ap-southeast-4") ∷ [],
      codes "https://prod-registry-k8s-io-ap-southeast-4.s3.dualstack.ap-southeast-4.amazonaws.com",
    )
    ∷ (
      (codes "ap-southeast-5") ∷ [],
      codes "https://prod-registry-k8s-io-ap-southeast-5.s3.dualstack.ap-southeast-5.amazonaws.com",
    )
    ∷ (
      (codes "ap-southeast-6") ∷ [],
      codes "https://prod-registry-k8s-io-ap-southeast-6.s3.dualstack.ap-southeast-6.amazonaws.com",
    )
    ∷ (
      (codes "ap-southeast-7") ∷ [],
      codes "https://prod-registry-k8s-io-ap-southeast-7.s3.dualstack.ap-southeast-7.amazonaws.com",
    )
    ∷ (
      (codes "ap-south-1") ∷ [],
      codes "https://prod-registry-k8s-io-ap-south-1.s3.dualstack.ap-south-1.amazonaws.com",
    )
    ∷ (
      (codes "ap-south-2") ∷ [],
      codes "https://prod-registry-k8s-io-ap-south-2.s3.dualstack.ap-south-2.amazonaws.com",
    )
    ∷ (
      (codes "ca-central-1") ∷ [],
      codes "https://prod-registry-k8s-io-ca-central-1.s3.dualstack.ca-central-1.amazonaws.com",
    )
    ∷ (
      (codes "ca-west-1") ∷ [],
      codes "https://prod-registry-k8s-io-ca-west-1.s3.dualstack.ca-west-1.amazonaws.com",
    )
    ∷ (
      (codes "eu-central-1") ∷ [],
      codes "https://prod-registry-k8s-io-eu-central-1.s3.dualstack.eu-central-1.amazonaws.com",
    )
    ∷ (
      (codes "eu-central-2") ∷ [],
      codes "https://prod-registry-k8s-io-eu-central-2.s3.dualstack.eu-central-2.amazonaws.com",
    )
    ∷ (
      (codes "eu-north-1") ∷ [],
      codes "https://prod-registry-k8s-io-eu-north-1.s3.dualstack.eu-north-1.amazonaws.com",
    )
    ∷ (
      (codes "eu-south-1") ∷ [],
      codes "https://prod-registry-k8s-io-eu-south-1.s3.dualstack.eu-south-1.amazonaws.com",
    )
    ∷ (
      (codes "eu-south-2") ∷ [],
      codes "https://prod-registry-k8s-io-eu-south-2.s3.dualstack.eu-south-2.amazonaws.com",
    )
    ∷ (
      (codes "eu-west-1") ∷ [],
      codes "https://prod-registry-k8s-io-eu-west-1.s3.dualstack.eu-west-1.amazonaws.com",
    )
    ∷ (
      (codes "eu-west-2") ∷ [],
      codes
          "https://767373bbdcb8270361b96548387bf2a9ad0d48758c35-eu-west-2.s3.dualstack.eu-west-2.amazonaws.com",
    )
    ∷ (
      (codes "eu-west-3") ∷ [],
      codes "https://prod-registry-k8s-io-eu-west-3.s3.dualstack.eu-west-3.amazonaws.com",
    )
    ∷ (
      (codes "il-central-1") ∷ [],
      codes "https://prod-registry-k8s-io-il-central-1.s3.dualstack.il-central-1.amazonaws.com",
    )
    ∷ (
      (codes "me-central-1") ∷ (codes "me-south-1") ∷ [],
      codes "https://prod-registry-k8s-io-me-central-1.s3.dualstack.me-central-1.amazonaws.com",
    )
    ∷ (
      (codes "mx-central-1") ∷ [],
      codes "https://prod-registry-k8s-io-mx-central-1.s3.dualstack.mx-central-1.amazonaws.com",
    )
    ∷ (
      (codes "sa-east-1") ∷ [],
      codes "https://prod-registry-k8s-io-sa-east-1.s3.dualstack.sa-east-1.amazonaws.com",
    )
    ∷ (
      (codes "us-east-1") ∷ [],
      codes "https://prod-registry-k8s-io-us-east-1.s3.dualstack.us-east-1.amazonaws.com",
    )
    ∷ (
      (codes "us-east-2") ∷ [],
      codes "https://prod-registry-k8s-io-us-east-2.s3.dualstack.us-east-2.amazonaws.com",
    )
    ∷ (
      (codes "us-west-1") ∷ [],
      codes "https://prod-registry-k8s-io-us-west-1.s3.dualstack.us-west-1.amazonaws.com",
    )
    ∷ (
      (codes "us-west-2") ∷ [],
      codes "https://prod-registry-k8s-io-us-west-2.s3.dualstack.us-west-2.amazonaws.com",
    )
    ∷ []

-- A `switch` on a text: the first case with an equal label.
unfoldable pub switch : Text → List (List Text × Text) → Text → Text
switch region [] fallback = fallback
switch region ((labels, url) ∷ cases) fallback =
    if any (text_beq region) labels then url else switch region cases fallback

unfoldable pub aws_region_to_host_url : Text → Text → Text
unfolding switch
aws_region_to_host_url region default_url = switch region region_cases default_url
