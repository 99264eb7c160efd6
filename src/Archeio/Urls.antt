-- ===== src/Archeio/Urls.antt =====
-- cmd/archeio/internal/app/handlers.go: the addresses that requests are redirected to.
pub mod Laws
use registry_k8s_io.Archeio.Config.{RegistryConfig}
use registry_k8s_io.GoText.Paths.{join}
use registry_k8s_io.GoText.Prefixes.{trim_prefix}
use registry_k8s_io.Prelude.{List, [], ◌∷◌, ◌++◌, Text, codes}

-- The path of an upstream address.
unfoldable pub upstream_path : RegistryConfig → Text → Text
upstream_path rc original_path =
    join (codes "/v2/" ∷ rc.upstream_registry_path ∷ trim_prefix original_path (codes "/v2") ∷ [])

unfoldable pub upstream_redirect_url : RegistryConfig → Text → Text
upstream_redirect_url rc original_path =
    rc.upstream_registry_endpoint ++ upstream_path rc original_path

unfoldable pub signature_redirect_url : RegistryConfig → Text → Text
signature_redirect_url rc original_path =
    rc.signature_upstream_endpoint ++ upstream_path rc original_path
