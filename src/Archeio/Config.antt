-- ===== src/Archeio/Config.antt =====
-- cmd/archeio/main.go and the configuration in cmd/archeio/internal/app/handlers.go.
use registry_k8s_io.Prelude.{Option, none, some, Text, codes}

pub record RegistryConfig : Type 0 where
  pub upstream_registry_endpoint : Text
  pub upstream_registry_path : Text
  pub signature_upstream_endpoint : Text
  pub info_url : Text
  pub privacy_url : Text
  pub default_aws_base_url : Text

-- `getEnv`, over the environment that `os.LookupEnv` reads.
unfoldable pub get_env : (Text → Option Text) → Text → Text → Text
get_env lookup_env key default_value = elim (lookup_env key) [
  | some value ↦ value
  | none ↦ default_value
]

unfoldable pub registry_config : (Text → Option Text) → RegistryConfig
unfolding get_env
registry_config env = record {
  upstream_registry_endpoint =
      get_env env (codes "UPSTREAM_REGISTRY_ENDPOINT") (codes "https://us-central1-docker.pkg.dev");
  upstream_registry_path =
      get_env env (codes "UPSTREAM_REGISTRY_PATH") (codes "k8s-artifacts-prod/images");
  signature_upstream_endpoint = get_env env (codes "SIGNATURE_UPSTREAM_ENDPOINT") (codes "");
  info_url = codes "https://github.com/kubernetes/registry.k8s.io";
  privacy_url = codes "https://www.linuxfoundation.org/privacy-policy/";
  default_aws_base_url =
      get_env env (codes "DEFAULT_AWS_BASE_URL") (codes "https://d1be1w964nk82h.cloudfront.net");
}
