-- ===== src/Archeio/Urls/Laws.antt =====
-- cmd/archeio/internal/app/handlers.go: the path of an upstream address.
use registry_k8s_io.Archeio.Config.{RegistryConfig}
use registry_k8s_io.Archeio.Urls.{upstream_path, upstream_redirect_url}
use registry_k8s_io.GoText.Paths.{slashed, joined, join, clean_segments, split_slash}
use registry_k8s_io.GoText.Paths.Laws.{IsPlain, join-plain, join-IsPlain}
use registry_k8s_io.GoText.Prefixes.{trim_prefix, trim_prefix-append}
use registry_k8s_io.Prelude.{
  ◌≡◌, refl, ap, ap₂, ◌∙◌, List, [], ◌∷◌, ◌++◌, Text, codes, All, text_beq, true,
}

-- `v2`, as a segment.
abbrev pub v2 : Text
v2 = b'v' ∷ b'2' ∷ []

v2_segments : clean_segments true (codes "/v2/") ≡ v2 ∷ []
unfolding clean_segments split_slash codes text_beq
v2_segments = refl

trimmed :
    (request : List Text) → trim_prefix (slashed (v2 ∷ request)) (codes "/v2") ≡ slashed request
unfolding codes slashed
trimmed request = trim_prefix-append (b'/' ∷ v2) (slashed request)

upstream_path-plain :
    (rc : RegistryConfig) (registry request : List Text)
    → rc.upstream_registry_path ≡ joined registry
    → All IsPlain registry
    → All IsPlain request
    → upstream_path rc (slashed (v2 ∷ request)) ≡ slashed (v2 ∷ (registry ++ request))
unfolding upstream_path codes joined slashed
upstream_path-plain rc registry request e hr hq =
    ap₂ (λ r t. join (codes "/v2/" ∷ r ∷ t ∷ [])) e (trimmed request)
    ∙ join-plain (v2 ++ (b'/' ∷ [])) registry request hr hq
    ∙ ap (λ l. b'/' ∷ joined (l ++ (registry ++ request))) v2_segments

-- A request path of plain segments goes upstream with the registry's path, which is of plain
-- segments too, between `/v2` and the request's segments, and nothing else changed.
pub upstream_redirect_url-plain :
    (rc : RegistryConfig) (registry request : List Text)
    → rc.upstream_registry_path ≡ joined registry
    → All IsPlain registry
    → All IsPlain request
    → upstream_redirect_url rc (slashed (v2 ∷ request))
      ≡ rc.upstream_registry_endpoint ++ slashed (v2 ∷ (registry ++ request))
unfolding upstream_redirect_url
upstream_redirect_url-plain rc registry request e hr hq =
    ap (λ x. rc.upstream_registry_endpoint ++ x) (upstream_path-plain rc registry request e hr hq)

-- Whatever the request's path is, the upstream path is rooted and has no segment that is empty,
-- `.` or `..`.
pub upstream_redirect_url-IsPlain :
    (rc : RegistryConfig) (path : Text)
    → (segments : List Text) × (upstream_redirect_url rc path
        ≡ rc.upstream_registry_endpoint ++ (b'/' ∷ joined segments))
      × All IsPlain segments
unfolding upstream_redirect_url upstream_path codes
upstream_redirect_url-IsPlain rc path =
    let (segments, e, h) = join-IsPlain _ _ in
    (segments, ap (λ x. rc.upstream_registry_endpoint ++ x) e, h)
