-- ===== src/Archeio/Handlers.antt =====
-- cmd/archeio/internal/app/handlers.go: the handlers of `/` and of `/v2/`. Logging is left out.
pub mod Places
pub mod Blobs
pub mod Safety
use registry_k8s_io.Archeio.Buckets.{aws_region_to_host_url}
use registry_k8s_io.Archeio.Cache.{BlobCache, Remote, blob_exists}
use registry_k8s_io.Archeio.Config.{RegistryConfig}
use registry_k8s_io.Archeio.Patterns.{blob_digest, is_cosign_tag}
use registry_k8s_io.Archeio.Urls.{upstream_redirect_url, signature_redirect_url}
use registry_k8s_io.Clientip
use registry_k8s_io.Clientip.{Net, Request}
use registry_k8s_io.Cloudcidrs.{IpInfo, gcp}
use registry_k8s_io.GoText.Prefixes.{has_prefix}
use registry_k8s_io.Netip.{Addr}
use registry_k8s_io.Prelude.{
  ℕ, Bool, true, false, ◌&&◌, ◌||◌, not, Option, none, some, List, [], ◌∷◌, ◌++◌, Text, codes,
  text_beq, Result, ok, err, if◌then◌else◌,
}

-- What a handler answers: `http.Error`, `http.Redirect` with the address that it is given,
-- `http.NotFound`, or a bare status with the headers that were set.
pub data Response : Type 0 where
  error : Text → ℕ → Response
  redirect : Text → ℕ → Response
  not_found : Response
  status : ℕ → List (Text × Text) → Response

-- What the handlers use of other packages: the network functions, the mapper of addresses to
-- regions, and the state of the remote buckets at the time of the request.
pub record Env : Type 0 where
  pub net : Net
  pub region_mapper : Addr → IpInfo × Bool
  pub head : Remote

abbrev pub temporary_redirect : ℕ
temporary_redirect = 307

-- The address of a blob in the bucket that serves the client.
unfoldable pub blob_url : RegistryConfig → IpInfo × Bool → Text → Text
blob_url rc (ip_info, ip_is_known) digest =
    let region : Text = if ip_is_known then ip_info.region else codes "" in
    aws_region_to_host_url region rc.default_aws_base_url ++ (codes "/containers/images/" ++ digest)

unfoldable pub to_upstream : RegistryConfig → Text → Response
to_upstream rc r_path = redirect (upstream_redirect_url rc r_path) temporary_redirect

-- The handling of a blob request from a known or unknown place.
unfoldable pub serve_blob :
    Remote → RegistryConfig → Text → Text → IpInfo × Bool → BlobCache → Response × BlobCache
unfolding to_upstream
serve_blob head rc r_path digest place blobs =
    if place.1 && text_beq (place.0).cloud gcp
    then (to_upstream rc r_path, blobs)
    else (let (exists, blobs') = blob_exists head (blob_url rc place digest) blobs in
        if exists
        then (redirect (blob_url rc place digest) temporary_redirect, blobs')
        else (to_upstream rc r_path, blobs'))

-- A blob request: the client's address decides.
unfoldable pub handle_blob :
    Env → RegistryConfig → Request → Text → BlobCache → Response × BlobCache
unfolding serve_blob
handle_blob env rc r digest blobs = elim (Clientip.get env.net r) [
  | err message ↦ (error message 400, blobs)
  | ok client_ip ↦ serve_blob env.head rc r.path digest (env.region_mapper client_ip) blobs
]

-- A request that is no blob request.
unfoldable pub handle_manifest : RegistryConfig → Text → Response
unfolding to_upstream
handle_manifest rc r_path =
    if not (text_beq rc.signature_upstream_endpoint []) && is_cosign_tag r_path
    then redirect (signature_redirect_url rc r_path) temporary_redirect
    else to_upstream rc r_path

-- The function that `makeV2Handler` returns.
unfoldable pub handle_v2 : Env → RegistryConfig → Request → BlobCache → Response × BlobCache
unfolding handle_blob handle_manifest
handle_v2 env rc r blobs =
    if text_beq r.path (codes "/v2/") || text_beq r.path (codes "/v2")
    then (status 200 ((codes "Docker-Distribution-Api-Version", codes "registry/2.0") ∷ []), blobs)
    else (if text_beq r.path (codes "/v2/_catalog")
        then (error (codes "_catalog is not supported") 404, blobs)
        else elim (blob_digest r.path) [
          | none ↦ (handle_manifest rc r.path, blobs)
          | some digest ↦ handle_blob env rc r digest blobs
        ])

-- The function that `MakeHandler` returns.
unfoldable pub handle : Env → RegistryConfig → Request → BlobCache → Response × BlobCache
unfolding handle_v2
handle env rc r blobs =
    if not (text_beq r.method (codes "GET")) && not (text_beq r.method (codes "HEAD"))
    then (error (codes "Only GET and HEAD are allowed.") 405, blobs)
    else (if has_prefix r.path (codes "/v2")
        then handle_v2 env rc r blobs
        else (if text_beq r.path (codes "/")
            then (redirect rc.info_url temporary_redirect, blobs)
            else (if has_prefix r.path (codes "/privacy")
                then (redirect rc.privacy_url temporary_redirect, blobs)
                else (not_found, blobs))))
