-- ===== src/Tests/Shipped.antt =====
-- The shipped part of the table, on a client in Africa.
use registry_k8s_io.Archeio.Google.{server-google}
use registry_k8s_io.Archeio.Handlers.{redirect, handle}
use registry_k8s_io.Archeio.Server.{server}
use registry_k8s_io.Archeio.Urls.{upstream_redirect_url}
use registry_k8s_io.Cidrs.Mapping.{Mapping, entries, AllValid}
use registry_k8s_io.Clientip
use registry_k8s_io.Clientip.{Net}
use registry_k8s_io.Cloudcidrs.{IpInfo}
use registry_k8s_io.Cloudcidrs.Google.{gcp_table}
use registry_k8s_io.Cloudcidrs.Google.Part1.{gcp_part_1}
use registry_k8s_io.Cloudcidrs.Literals.{v4, v6}
use registry_k8s_io.Netip.{Addr, ipv4, Prefix, contains}
use registry_k8s_io.Prelude.{
  ◌≡◌, refl, inl, arith, true, false, any, All, some, [], ◌∷◌, ◌++◌, codes, text_beq, ok, err,
  if◌then◌else◌,
}
use registry_k8s_io.Tests.{aws_global, wide, wide-IsValid}
use registry_k8s_io.Tests.Redirects.{digest, blob_path, blob_path-IsBlobPath, defaults, request}

-- 34.1.208.5
abbrev african_address : Addr
african_address = ipv4 570544133

abbrev african_net : Net
african_net = record {
  split_host_port = λ s. ok (s, []);
  parse_addr = λ s.
      if text_beq s (codes "34.1.208.5")
      then ok african_address
      else err (codes "unable to parse IP");
}

abbrev others : Mapping IpInfo
others = (aws_global, wide ∷ []) ∷ []

african_client : Clientip.get african_net (request [] (codes "34.1.208.5")) ≡ ok african_address
unfolding Clientip.get text_beq codes
african_client = refl

african_inside :
    any (λ (x : Prefix × IpInfo). contains x.0 african_address) (entries gcp_table) ≡ true
unfolding gcp_table gcp_part_1 entries v4 v6 contains
african_inside = refl

others-AllValid : AllValid (entries others)
unfolding entries
others-AllValid = (wide-IsValid, tt)

others-outside :
    All (λ (x : Prefix × IpInfo). contains x.0 african_address ≡ false) (entries others)
unfolding entries contains
others-outside = (refl, tt)

server-google_example :
    handle
      (server african_net (gcp_table ++ others) (λ url. some 200))
      defaults
      (request [] (codes "34.1.208.5"))
      []
    ≡ (redirect (upstream_redirect_url defaults blob_path) 307, [])
server-google_example =
    server-google african_net others (λ url. some 200) defaults (request [] (codes "34.1.208.5"))
      digest [] african_address (inl refl) blob_path-IsBlobPath african_client (omega arith)
      others-AllValid african_inside others-outside
