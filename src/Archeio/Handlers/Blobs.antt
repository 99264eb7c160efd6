-- ===== src/Archeio/Handlers/Blobs.antt =====
-- cmd/archeio/internal/app/handlers.go: the answers to requests for blobs.
use registry_k8s_io.Archeio.Cache.{BlobCache, cache_get}
use registry_k8s_io.Archeio.Cache.Laws.{IsThere, blob_exists-there, blob_exists-missing}
use registry_k8s_io.Archeio.Config.{RegistryConfig}
use registry_k8s_io.Archeio.Handlers.{
  error, redirect, Env, blob_url, to_upstream, serve_blob, handle_blob, handle_v2, handle,
}
use registry_k8s_io.Archeio.Handlers.Places.{layer_url, blob_url-eq-layer_url}
use registry_k8s_io.Archeio.Patterns.{blob_digest}
use registry_k8s_io.Archeio.Patterns.Laws.{IsBlobPath, blob_digest_iff}
use registry_k8s_io.Archeio.Urls.{upstream_redirect_url}
use registry_k8s_io.Clientip
use registry_k8s_io.Clientip.{Request}
use registry_k8s_io.Cloudcidrs.{IpInfo, gcp}
use registry_k8s_io.GoText.Prefixes.{has_prefix, has_prefix-append}
use registry_k8s_io.Netip.{Addr}
use registry_k8s_io.Prelude.{
  ◌≡◌, ◌⊎◌, inl, inr, refl, ap, sym, ◌∙◌, subst, arith, Bool, true, false, ◌&&◌, not, none, ◌∷◌,
  ◌++◌, Text, codes, text_beq, text_beq_iff, ok, err, Bool-cases,
}

-- A request with one of the two methods that are served.
abbrev pub IsRead : Request → Type 0
IsRead r = (r.method ≡ codes "GET") ⊎ (r.method ≡ codes "HEAD")

no_digest :
    (p : Text)
    → blob_digest p ≡ none
    → (path d : Text) → IsBlobPath path d
    → text_beq path p ≡ false
no_digest p e path d i = elim (Bool-cases (text_beq path p)) [
  | inl same ↦
      cc (sym ((blob_digest_iff path d).1 i) ∙ ap blob_digest ((text_beq_iff path p).0 same) ∙ e)
  | inr other ↦ other
]

root_digest : blob_digest (codes "/v2/") ≡ none
unfolding blob_digest codes
root_digest = refl

bare_digest : blob_digest (codes "/v2") ≡ none
unfolding blob_digest codes
bare_digest = refl

catalog_digest : blob_digest (codes "/v2/_catalog") ≡ none
unfolding blob_digest codes
catalog_digest = refl

IsBlobPath-has_prefix : (path d : Text) → IsBlobPath path d → has_prefix path (codes "/v2") ≡ true
IsBlobPath-has_prefix path d i =
    subst (λ p. has_prefix p (codes "/v2") ≡ true) (sym i.whole)
      (unfold codes in has_prefix-append (codes "/v2") (b'/' ∷ (i.name ++ (codes "/blobs/" ++ d))))

handle_v2-blob :
    (env : Env) (rc : RegistryConfig) (r : Request) (d : Text) (blobs : BlobCache)
    → IsBlobPath r.path d
    → handle_v2 env rc r blobs ≡ handle_blob env rc r d blobs
unfolding handle_v2
handle_v2-blob env rc r d blobs i = rw (
  no_digest (codes "/v2/") root_digest r.path d i,
  no_digest (codes "/v2") bare_digest r.path d i,
  no_digest (codes "/v2/_catalog") catalog_digest r.path d i,
  (blob_digest_iff r.path d).1 i,
)

read_guard :
    (r : Request)
    → IsRead r
    → not (text_beq r.method (codes "GET")) && not (text_beq r.method (codes "HEAD")) ≡ false
read_guard r (inl e) = ground (arith, (text_beq_iff r.method (codes "GET")).1 e)
read_guard r (inr e) = ground (arith, (text_beq_iff r.method (codes "HEAD")).1 e)

pub handle-blob :
    (env : Env) (rc : RegistryConfig) (r : Request) (d : Text) (blobs : BlobCache)
    → IsRead r
    → IsBlobPath r.path d
    → handle env rc r blobs ≡ handle_blob env rc r d blobs
unfolding handle
handle-blob env rc r d blobs m i =
    rw (read_guard r m, IsBlobPath-has_prefix r.path d i) (handle_v2-blob env rc r d blobs i)

-- A client that comes from Google's cloud.
abbrev pub IsGcp : IpInfo × Bool → Type 0
IsGcp place = (place.1 ≡ true) × ((place.0).cloud ≡ gcp)

module _ (env : Env) (rc : RegistryConfig) (r : Request) (d : Text) (blobs : BlobCache)
    (read : IsRead r) (blob : IsBlobPath r.path d) where
  -- A GET or HEAD request for a blob whose client's address cannot be read is answered with status
  -- 400 and the reason, and the cache is left as it is.
  pub handle-bad_client :
      (message : Text)
      → Clientip.get env.net r ≡ err message
      → handle env rc r blobs ≡ (error message 400, blobs)
  unfolding handle_blob
  handle-bad_client message e = handle-blob env rc r d blobs read blob ∙ rw (handle_blob, e) refl

  served :
      (ip : Addr)
      → Clientip.get env.net r ≡ ok ip
      → handle env rc r blobs ≡ serve_blob env.head rc r.path d (env.region_mapper ip) blobs
  unfolding handle_blob
  served ip e = handle-blob env rc r d blobs read blob ∙ rw (handle_blob, e) refl

  -- A GET or HEAD request for a blob by a client in Google's cloud goes to the upstream registry,
  -- whatever is cached and whatever a bucket would answer, and the cache is left as it is.
  pub handle-gcp :
      (ip : Addr)
      → Clientip.get env.net r ≡ ok ip
      → IsGcp (env.region_mapper ip)
      → handle env rc r blobs ≡ (redirect (upstream_redirect_url rc r.path) 307, blobs)
  unfolding serve_blob to_upstream
  handle-gcp ip e g = served ip e ∙ rw (g.0, (text_beq_iff _ gcp).1 g.1) refl

  found_at :
      (ip : Addr)
      → Clientip.get env.net r ≡ ok ip
      → ¬ IsGcp (env.region_mapper ip)
      → IsThere env.head blobs (blob_url rc (env.region_mapper ip) d)
      → ((handle env rc r blobs).0 ≡ redirect (blob_url rc (env.region_mapper ip) d) 307)
        × (cache_get (handle env rc r blobs).1 (blob_url rc (env.region_mapper ip) d) ≡ true)
  unfolding serve_blob
  found_at ip e g t = rw (served ip e) (
      ground (
        arith,
        text_beq_iff (env.region_mapper ip).0.cloud gcp,
        blob_exists-there env.head (blob_url rc (env.region_mapper ip) d) blobs t,
      ))

  missing_at :
      (ip : Addr)
      → Clientip.get env.net r ≡ ok ip
      → ¬ IsGcp (env.region_mapper ip)
      → ¬ IsThere env.head blobs (blob_url rc (env.region_mapper ip) d)
      → handle env rc r blobs ≡ (redirect (upstream_redirect_url rc r.path) 307, blobs)
  unfolding serve_blob to_upstream
  missing_at ip e g t = rw (served ip e) (
      ground (
        arith,
        text_beq_iff (env.region_mapper ip).0.cloud gcp,
        blob_exists-missing env.head (blob_url rc (env.region_mapper ip) d) blobs,
      ))

  -- A GET or HEAD request for a blob by a client that is not in Google's cloud goes to the blob's
  -- address in a bucket, if the address is cached or answers a HEAD request with 200, and it is
  -- cached afterwards. The bucket is the one that serves the client's region, where the place of the
  -- client is known and its region is served by one, and the default otherwise.
  pub handle-bucket :
      (ip : Addr)
      → Clientip.get env.net r ≡ ok ip
      → ¬ IsGcp (env.region_mapper ip)
      → IsThere env.head blobs (layer_url rc (env.region_mapper ip) d)
      → ((handle env rc r blobs).0 ≡ redirect (layer_url rc (env.region_mapper ip) d) 307)
        × (cache_get (handle env rc r blobs).1 (layer_url rc (env.region_mapper ip) d) ≡ true)
  handle-bucket ip e g =
      subst
        (λ url.
          IsThere env.head blobs url
          → ((handle env rc r blobs).0 ≡ redirect url 307)
            × (cache_get (handle env rc r blobs).1 url ≡ true))
        (blob_url-eq-layer_url rc (env.region_mapper ip) d) (found_at ip e g)

  -- A GET or HEAD request for a blob by a client that is not in Google's cloud goes to the upstream
  -- registry, and the cache is left as it is, if the blob's address in a bucket is not cached and
  -- does not answer a HEAD request with 200. The bucket is the one that serves the client's region,
  -- where the place of the client is known and its region is served by one, and the default
  -- otherwise.
  pub handle-missing :
      (ip : Addr)
      → Clientip.get env.net r ≡ ok ip
      → ¬ IsGcp (env.region_mapper ip)
      → ¬ IsThere env.head blobs (layer_url rc (env.region_mapper ip) d)
      → handle env rc r blobs ≡ (redirect (upstream_redirect_url rc r.path) 307, blobs)
  handle-missing ip e g =
      subst
        (λ url.
          ¬ IsThere env.head blobs url
          → handle env rc r blobs ≡ (redirect (upstream_redirect_url rc r.path) 307, blobs))
        (blob_url-eq-layer_url rc (env.region_mapper ip) d) (missing_at ip e g)
