-- ===== src/Archeio/Handlers/Safety.antt =====
-- cmd/archeio/internal/app/handlers.go: what holds of every answer, and of the cache after it.
use registry_k8s_io.Archeio.Cache.{BlobCache, Remote, cache_get, blob_exists}
use registry_k8s_io.Archeio.Cache.Laws.{
  IsThere, blob_exists-true, blob_exists-cached, blob_exists-kept,
}
use registry_k8s_io.Archeio.Config.{RegistryConfig}
use registry_k8s_io.Archeio.Handlers.{
  Response, error, redirect, not_found, status, Env, blob_url, to_upstream, serve_blob, handle_blob,
  handle_manifest, handle_v2, handle,
}
use registry_k8s_io.Archeio.Handlers.Places.{layer_url, blob_url-eq-layer_url}
use registry_k8s_io.Archeio.Patterns.{blob_digest, is_cosign_tag}
use registry_k8s_io.Archeio.Patterns.Laws.{IsBlobPath, blob_digest_iff}
use registry_k8s_io.Archeio.Urls.{upstream_redirect_url, signature_redirect_url}
use registry_k8s_io.Clientip
use registry_k8s_io.Clientip.{Request}
use registry_k8s_io.Cloudcidrs.{gcp}
use registry_k8s_io.GoText.Prefixes.{has_prefix}
use registry_k8s_io.Netip.{Addr}
use registry_k8s_io.Prelude.{
  ◌≡◌, ◌≢◌, inl, inr, refl, arith, true, ◌&&◌, ◌||◌, not, Option-cases, [], Text, codes, text_beq,
  text_beq_iff, Result, ok, err, Bool-cases,
}

-- The addresses that a request may be redirected to.
pub data Target (env : Env) (rc : RegistryConfig) (r : Request) (blobs : BlobCache) (url : Text)
    : Type 0 where
  info : r.path ≡ codes "/" → url ≡ rc.info_url → Target env rc r blobs url
  privacy :
      has_prefix r.path (codes "/privacy") ≡ true → url ≡ rc.privacy_url → Target env rc r blobs url
  upstream :
      has_prefix r.path (codes "/v2") ≡ true
      → url ≡ upstream_redirect_url rc r.path
      → Target env rc r blobs url
  signature :
      rc.signature_upstream_endpoint ≢ []
      → is_cosign_tag r.path ≡ true
      → url ≡ signature_redirect_url rc r.path
      → Target env rc r blobs url
  bucket :
      (d : Text) (ip : Addr)
      → IsBlobPath r.path d
      → Clientip.get env.net r ≡ ok ip
      → url ≡ layer_url rc (env.region_mapper ip) d
      → IsThere env.head blobs url
      → Target env rc r blobs url

-- What an answer promises: a redirect is temporary and to such an address.
abbrev pub IsSafe : Env → RegistryConfig → Request → BlobCache → Response → Type 0
IsSafe env rc r blobs (redirect url code) = (code ≡ 307) × Target env rc r blobs url
IsSafe env rc r blobs (error message code) = Unit
IsSafe env rc r blobs not_found = Unit
IsSafe env rc r blobs (status code headers) = Unit

-- What holds of the cache after a request: nothing is lost, and what is new has answered with 200.
abbrev pub IsGrown : Remote → BlobCache → BlobCache → Type 0
IsGrown head c c' =
    ((u : Text) → cache_get c u ≡ true → cache_get c' u ≡ true)
    × ((u : Text) → cache_get c' u ≡ true → IsThere head c u)

abbrev Good : Env → RegistryConfig → Request → BlobCache → Response × BlobCache → Type 0
Good env rc r c x = IsSafe env rc r c x.0 × IsGrown env.head c x.1

same_cache : (head : Remote) (c : BlobCache) → IsGrown head c c
same_cache head c = ((λ u h. h), (λ u h. inl h))

module _ (env : Env) (rc : RegistryConfig) (r : Request) (c : BlobCache) where
  serve_blob-Good :
      (d : Text) (ip : Addr)
      → has_prefix r.path (codes "/v2") ≡ true
      → IsBlobPath r.path d
      → Clientip.get env.net r ≡ ok ip
      → Good env rc r c (serve_blob env.head rc r.path d (env.region_mapper ip) c)
  unfolding serve_blob to_upstream
  serve_blob-Good d ip v2 i e =
      elim (Bool-cases
        ((env.region_mapper ip).1 && text_beq ((env.region_mapper ip).0).cloud gcp)) [
          | inl q ↦ rw q ((refl, upstream v2 refl), same_cache env.head c)
          | inr q ↦ rw q (elim (Bool-cases (blob_exists env.head url c).0) [
            | inl x ↦ rw x (
              (
                refl,
                bucket d ip i e (blob_url-eq-layer_url rc (env.region_mapper ip) d)
                    (blob_exists-true env.head url c x),
              ),
              grown,
            )
            | inr x ↦ rw x ((refl, upstream v2 refl), grown)
          ])
        ]
    where
      url : Text
      url = blob_url rc (env.region_mapper ip) d

      grown : IsGrown env.head c (blob_exists env.head (blob_url rc (env.region_mapper ip) d) c).1
      grown = (blob_exists-kept env.head _ c, blob_exists-cached env.head _ c)

  handle_blob-Good :
      (d : Text)
      → has_prefix r.path (codes "/v2") ≡ true
      → IsBlobPath r.path d
      → Good env rc r c (handle_blob env rc r d c)
  unfolding handle_blob
  handle_blob-Good d v2 i = go (Clientip.get env.net r) refl
    where
      go :
          (a : Result Addr)
          → Clientip.get env.net r ≡ a
          → Good env rc r c (elim a [
            | err message ↦ (error message 400, c)
            | ok ip ↦ serve_blob env.head rc r.path d (env.region_mapper ip) c
          ])
      go (err message) e = (tt, same_cache env.head c)
      go (ok ip) e = serve_blob-Good d ip v2 i e

  handle_manifest-Good :
      has_prefix r.path (codes "/v2") ≡ true → Good env rc r c (handle_manifest rc r.path, c)
  unfolding handle_manifest to_upstream
  handle_manifest-Good v2 =
      elim (Bool-cases (not (text_beq rc.signature_upstream_endpoint []) && is_cosign_tag r.path)) [
        | inl q ↦ rw q (
          (
            refl,
            signature (λ e. ground (arith, (text_beq_iff rc.signature_upstream_endpoint []).1 e))
                (ground arith) refl,
          ),
          same_cache env.head c,
        )
        | inr q ↦ rw q ((refl, upstream v2 refl), same_cache env.head c)
      ]

  handle_v2-Good : has_prefix r.path (codes "/v2") ≡ true → Good env rc r c (handle_v2 env rc r c)
  unfolding handle_v2
  handle_v2-Good v2 =
      elim (Bool-cases (text_beq r.path (codes "/v2/") || text_beq r.path (codes "/v2"))) [
        | inl q ↦ rw q (tt, same_cache env.head c)
        | inr q ↦ rw q (elim (Bool-cases (text_beq r.path (codes "/v2/_catalog"))) [
          | inl q' ↦ rw q' (tt, same_cache env.head c)
          | inr q' ↦ rw q' (elim (Option-cases (blob_digest r.path)) [
            | inl m ↦ rw m (handle_manifest-Good v2)
            | inr (d, m) ↦ rw m (handle_blob-Good d v2 ((blob_digest_iff r.path d).0 m))
          ])
        ])
      ]

  handle-Good : Good env rc r c (handle env rc r c)
  unfolding handle
  handle-Good =
      elim (Bool-cases
        (not (text_beq r.method (codes "GET")) && not (text_beq r.method (codes "HEAD")))) [
          | inl q ↦ rw q (tt, same_cache env.head c)
          | inr q ↦ rw q (elim (Bool-cases (has_prefix r.path (codes "/v2"))) [
            | inl v2 ↦ rw v2 (handle_v2-Good v2)
            | inr v2 ↦ rw v2 (elim (Bool-cases (text_beq r.path (codes "/"))) [
              | inl root ↦ rw root (
                (refl, info ((text_beq_iff r.path (codes "/")).0 root) refl),
                same_cache env.head c,
              )
              | inr root ↦ rw root (elim (Bool-cases (has_prefix r.path (codes "/privacy"))) [
                | inl p ↦ rw p ((refl, privacy p refl), same_cache env.head c)
                | inr p ↦ rw p (tt, same_cache env.head c)
              ])
            ])
          ])
        ]

  -- Every redirect is temporary and goes to the project's page, the privacy policy, the path's
  -- address at the upstream registry, the path's address at the endpoint for signatures if one is
  -- set and the path is a signature's, or the address of the path's digest in the bucket that
  -- serves the client, if that address was cached or answers a HEAD request with 200.
  pub handle-IsSafe : IsSafe env rc r c (handle env rc r c).0
  handle-IsSafe = handle-Good.0

  -- A request takes no address out of the cache, and puts in only one that answers a HEAD request
  -- with 200.
  pub handle-IsGrown : IsGrown env.head c (handle env rc r c).1
  handle-IsGrown = handle-Good.1
