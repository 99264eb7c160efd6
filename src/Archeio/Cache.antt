-- ===== src/Archeio/Cache.antt =====
-- cmd/archeio/internal/app/buckets.go: `cachedBlobChecker`, over the cache of addresses that exist.
-- The checks of several requests interleave: see the child module.
pub mod Steps
pub mod Laws
use registry_k8s_io.Prelude.{
  ℕ, Bool, true, false, Option, none, some, List, [], Text, text_eq, eqb, if◌then◌else◌,
}
use registry_k8s_io.Prelude.GoMap.{lookup, store}

-- `blobCache`: a map whose values are empty structs.
abbrev pub BlobCache : Type 0
BlobCache = List (Text × Unit {0})

abbrev pub new_cached_blob_checker : BlobCache
new_cached_blob_checker = []

unfoldable pub cache_get : BlobCache → Text → Bool
cache_get b blob_url = elim (lookup blob_url b) [ some _ ↦ true | none ↦ false ]

unfoldable pub cache_put : BlobCache → Text → BlobCache
cache_put b blob_url = store blob_url tt b

-- The status code of a HEAD request for an address, or none for an error.
abbrev pub Remote : Type 0
Remote = Text → Option ℕ

-- The remote check, after a miss.
unfoldable pub check_remote : Remote → Text → BlobCache → Bool × BlobCache
check_remote head blob_url c = elim (head blob_url) [
  | none ↦ (false, c)
  | some status_code ↦ if eqb status_code 200 then (true, cache_put c blob_url) else (false, c)
]

-- `BlobExists`
unfoldable pub blob_exists : Remote → Text → BlobCache → Bool × BlobCache
unfolding check_remote
blob_exists head blob_url c =
    if cache_get c blob_url then (true, c) else check_remote head blob_url c
