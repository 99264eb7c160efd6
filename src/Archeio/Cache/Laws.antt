-- ===== src/Archeio/Cache/Laws.antt =====
-- cmd/archeio/internal/app/buckets.go: one call of `BlobExists`, undisturbed.
use registry_k8s_io.Archeio.Cache.{BlobCache, Remote, cache_get, blob_exists}
use registry_k8s_io.Archeio.Cache.Steps.{cache_get-put}
use registry_k8s_io.Prelude.{
  ◌≡◌, ◌≢◌, ◌⊎◌, inl, inr, arith, true, false, some, Option-cases, Text, text_beq_refl,
  text_beq_iff,
}

-- A blob is there: it is known to be, or a HEAD request is answered with 200.
abbrev pub IsThere : Remote → BlobCache → Text → Type 0
IsThere head blobs url = (cache_get blobs url ≡ true) ⊎ (head url ≡ some 200)

pub blob_exists-there :
    (head : Remote) (url : Text) (c : BlobCache)
    → IsThere head c url
    → ((blob_exists head url c).0 ≡ true) × (cache_get (blob_exists head url c).1 url ≡ true)
unfolding blob_exists
blob_exists-there head url c (inl h) = ground arith
blob_exists-there head url c (inr h) = ground (arith, cache_get-put c url url, text_beq_refl url)

pub blob_exists-missing :
    (head : Remote) (url : Text) (c : BlobCache)
    → cache_get c url ≡ false
    → head url ≢ some 200
    → blob_exists head url c ≡ (false, c)
unfolding blob_exists
blob_exists-missing head url c h n = elim (Option-cases (head url)) [
  | inl e ↦ ground arith
  | inr (code, e) ↦ ground arith
]

pub blob_exists-true :
    (head : Remote) (url : Text) (c : BlobCache)
    → (blob_exists head url c).0 ≡ true
    → IsThere head c url
unfolding blob_exists
blob_exists-true head url c h = ground arith

-- What is in the cache after a call was in it before, or is the address of the call.
pub blob_exists-cached :
    (head : Remote) (url : Text) (c : BlobCache) (u : Text)
    → cache_get (blob_exists head url c).1 u ≡ true
    → IsThere head c u
unfolding blob_exists
blob_exists-cached head url c u h = ground (arith, cache_get-put c url u, text_beq_iff url u)

pub blob_exists-kept :
    (head : Remote) (url : Text) (c : BlobCache) (u : Text)
    → cache_get c u ≡ true
    → cache_get (blob_exists head url c).1 u ≡ true
unfolding blob_exists
blob_exists-kept head url c u h = ground (arith, cache_get-put c url u)
