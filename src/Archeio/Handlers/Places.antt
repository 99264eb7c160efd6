-- ===== src/Archeio/Handlers/Places.antt =====
-- cmd/archeio/internal/app/handlers.go and buckets.go: the bucket for a client, described.
use registry_k8s_io.Archeio.Buckets.Hosts.{known_regions, bucket_url, aws_region_to_host_url-eq}
use registry_k8s_io.Archeio.Config.{RegistryConfig}
use registry_k8s_io.Archeio.Handlers.{blob_url}
use registry_k8s_io.Cloudcidrs.{IpInfo}
use registry_k8s_io.Prelude.{
  ◌≡◌, refl, ap, ◌∙◌, Bool, true, false, ◌&&◌, any, ◌++◌, Text, codes, text_beq, if◌then◌else◌,
}

-- A client in a known place whose region has a bucket is served from the region's, and any other from
-- the default.
unfoldable pub place_url : RegistryConfig → IpInfo × Bool → Text
place_url rc (ip_info, ip_is_known) =
    if ip_is_known && any (text_beq ip_info.region) known_regions
    then bucket_url ip_info.region
    else rc.default_aws_base_url

-- The address of a layer there.
unfoldable pub layer_url : RegistryConfig → IpInfo × Bool → Text → Text
unfolding place_url
layer_url rc place digest = place_url rc place ++ (codes "/containers/images/" ++ digest)

no_region : any (text_beq (codes "")) known_regions ≡ false
unfolding text_beq codes
no_region = refl

pub blob_url-eq-layer_url :
    (rc : RegistryConfig) (place : IpInfo × Bool) (digest : Text)
    → blob_url rc place digest ≡ layer_url rc place digest
unfolding blob_url layer_url place_url
blob_url-eq-layer_url rc (ip_info, true) digest =
    ap (λ host. host ++ (codes "/containers/images/" ++ digest))
      (aws_region_to_host_url-eq ip_info.region rc.default_aws_base_url)
blob_url-eq-layer_url rc (ip_info, false) digest =
    ap (λ host. host ++ (codes "/containers/images/" ++ digest))
      (aws_region_to_host_url-eq (codes "") rc.default_aws_base_url ∙ rw no_region refl)
