-- ===== src/Tests/Redirects.antt =====
-- The redirector's theorems on requests for one blob.
use mathlib.Core.Bool.{false≢true}
use mathlib.Core.List.{Memᴰ}
use registry_k8s_io.Archeio.Buckets.{aws_region_to_host_url}
use registry_k8s_io.Archeio.Buckets.Hosts.{known_regions, bucket_url, aws_region_to_host_url-eq}
use registry_k8s_io.Archeio.Cache.{cache_get, cache_put}
use registry_k8s_io.Archeio.Cache.Laws.{IsThere}
use registry_k8s_io.Archeio.Cache.Steps.{
  Checker, start, Reach, here, next, miss, found, IsSound, Reach-IsSound,
}
use registry_k8s_io.Archeio.Config.{RegistryConfig, registry_config}
use registry_k8s_io.Archeio.Handlers.{Env, error, redirect, handle}
use registry_k8s_io.Archeio.Handlers.Places.{layer_url}
use registry_k8s_io.Archeio.Handlers.Blobs.{handle-bucket, handle-missing, handle-bad_client}
use registry_k8s_io.Archeio.Handlers.Safety.{IsSafe, IsGrown, handle-IsSafe, handle-IsGrown}
use registry_k8s_io.Archeio.Patterns.{blob_digest, is_cosign_tag}
use registry_k8s_io.Archeio.Patterns.Cosign.{IsTagPath, is_cosign_tag_iff}
use registry_k8s_io.Archeio.Patterns.Laws.{IsBlobPath, blob_digest_iff}
use registry_k8s_io.Archeio.Server.{server, server-gcp, AllGcp}
use registry_k8s_io.Archeio.Urls.{upstream_redirect_url}
use registry_k8s_io.Archeio.Urls.Laws.{
  v2, upstream_redirect_url-plain, upstream_redirect_url-IsPlain,
}
use registry_k8s_io.Cidrs.Mapping.{entries}
use registry_k8s_io.Clientip
use registry_k8s_io.Clientip.{Net, Request, is_separator, header_fields, from_header}
use registry_k8s_io.Clientip.Laws.{get-forwarded}
use registry_k8s_io.Cloudcidrs.{IpInfo}
use registry_k8s_io.GoText.Fields.{fields_func}
use registry_k8s_io.GoText.Paths.{slashed, joined}
use registry_k8s_io.GoText.Paths.Laws.{IsPlain}
use registry_k8s_io.Netip.{Addr, Prefix, contains}
use registry_k8s_io.Prelude.{
  ℕ, ◌<◌, length, eqb, ◌≡◌, ◌≢◌, ◌↔◌, ◌⊎◌, refl, ap, sym, ◌∙◌, subst, inl, inr, arith, Bool, true,
  false, Option, none, some, List, [], ◌∷◌, ◌++◌, any, All, Text, codes, text_beq, text_beq_iff,
  Result, ok, err, if◌then◌else◌,
}
use registry_k8s_io.Tests.{
  aws_address, gcp_address, google, google_region, aws_global, table, gcp_address-IsAddr,
  table-AllValid,
}

abbrev pub digest : Text
digest = codes "sha256:da86"

abbrev pub blob_path : Text
blob_path = codes "/v2/pause/blobs/sha256:da86"

pub blob_path-IsBlobPath : IsBlobPath blob_path digest
unfolding codes
blob_path-IsBlobPath = record {
  name = codes "pause";
  whole = refl;
  one_line = (refl, (refl, (refl, (refl, (refl, tt)))));
  digest = record {
    algorithm = codes "sha256";
    hash = codes "da86";
    whole = refl;
    algorithm_not_empty = λ e. cc;
    algorithm_class = (refl, (refl, (refl, (refl, (refl, (refl, tt))))));
    hash_not_empty = λ e. cc;
    hash_class = (refl, (refl, (refl, (refl, tt))));
  };
}

-- Network functions that know three addresses.
abbrev parse_known : Text → Result Addr
parse_known s =
    if text_beq s (codes "34.1.2.3")
    then ok gcp_address
    else if text_beq s (codes "15.193.0.5")
    then ok aws_address
    else err (codes "unable to parse IP")

abbrev pub net : Net
net = record {
  split_host_port = λ s.
      if text_beq s (codes "34.1.2.3:8888")
      then ok (codes "34.1.2.3", codes "8888")
      else err (codes "missing port in address");
  parse_addr = parse_known;
}

abbrev pub defaults : RegistryConfig
defaults = registry_config (λ key. none)

abbrev pub request : Text → Text → Request
request header remote = record {
  method = codes "GET";
  path = blob_path;
  x_forwarded_for = header;
  remote_addr = remote;
}

-- Behind the load balancer, and without it.
abbrev pub aws_request : Request
aws_request = request (codes "10.0.0.1,15.193.0.5,35.0.0.1") []

abbrev pub gcp_request : Request
gcp_request = request [] (codes "34.1.2.3:8888")

abbrev bad_request : Request
bad_request = request [] (codes "34.1.2.3")

aws_client : Clientip.get net aws_request ≡ ok aws_address
unfolding Clientip.get from_header header_fields is_separator fields_func text_beq codes
aws_client = refl

gcp_client : Clientip.get net gcp_request ≡ ok gcp_address
unfolding Clientip.get text_beq codes
gcp_client = refl

bad_client : Clientip.get net bad_request ≡ err (codes "missing port in address")
unfolding Clientip.get text_beq codes
bad_client = refl

-- A mapper that gives every address the same place, and buckets that hold everything or nothing.
abbrev world : IpInfo → Option ℕ → Env
world info answer = record { net = net; region_mapper = λ ip. (info, true); head = λ url. answer }

other_clouds : text_beq aws_global.cloud google_region.cloud ≡ false
unfolding text_beq codes
other_clouds = refl

aws_global-ne-gcp : aws_global.cloud ≢ google_region.cloud
aws_global-ne-gcp e =
    false≢true (sym other_clouds ∙ (text_beq_iff aws_global.cloud google_region.cloud).1 e)

handle-bucket_example :
    ((handle (world aws_global (some 200)) defaults aws_request []).0
      ≡ redirect (layer_url defaults (aws_global, true) digest) 307)
    × (cache_get
          (handle (world aws_global (some 200)) defaults aws_request []).1
          (layer_url defaults (aws_global, true) digest)
        ≡ true)
handle-bucket_example =
    handle-bucket (world aws_global (some 200)) defaults aws_request digest [] (inl refl)
      blob_path-IsBlobPath aws_address aws_client (λ g. aws_global-ne-gcp g.1) (inr refl)

not-IsThere : ¬ IsThere (λ url. some 404) [] (layer_url defaults (aws_global, true) digest)
unfolding cache_get registry_k8s_io.Prelude.GoMap.lookup
not-IsThere (inl e) = cc
not-IsThere (inr e) = ground arith

handle-missing_example :
    handle (world aws_global (some 404)) defaults aws_request []
    ≡ (redirect (upstream_redirect_url defaults blob_path) 307, [])
handle-missing_example =
    handle-missing (world aws_global (some 404)) defaults aws_request digest [] (inl refl)
      blob_path-IsBlobPath aws_address aws_client (λ g. aws_global-ne-gcp g.1) not-IsThere

handle-bad_client_example :
    handle (world aws_global none) defaults bad_request []
    ≡ (error (codes "missing port in address") 400, [])
handle-bad_client_example =
    handle-bad_client (world aws_global none) defaults bad_request digest [] (inl refl)
      blob_path-IsBlobPath (codes "missing port in address") bad_client

handle-IsSafe_example :
    IsSafe
      (world aws_global (some 200))
      defaults
      aws_request
      []
      (handle (world aws_global (some 200)) defaults aws_request []).0
handle-IsSafe_example = handle-IsSafe (world aws_global (some 200)) defaults aws_request []

handle-IsGrown_example :
    IsGrown (λ url. some 200) [] (handle (world aws_global (some 200)) defaults aws_request []).1
handle-IsGrown_example = handle-IsGrown (world aws_global (some 200)) defaults aws_request []

-- The pairs of the table that contain the client's address in Google's cloud.
google_only : AllGcp table gcp_address
unfolding entries contains
google_only p info (Memᴰ.head e) c =
    absurd (false≢true (subst (λ (y : Prefix × IpInfo). contains y.0 gcp_address ≡ true) e c))
google_only p info (Memᴰ.tail (Memᴰ.head e)) c = ap (λ (x : Prefix × IpInfo). x.1.cloud) e
google_only p info (Memᴰ.tail (Memᴰ.tail (Memᴰ.head e))) c =
    absurd (false≢true (subst (λ (y : Prefix × IpInfo). contains y.0 gcp_address ≡ true) e c))
google_only p info (Memᴰ.tail (Memᴰ.tail (Memᴰ.tail m))) c = elim m [ ]

google_inside : contains google gcp_address ≡ true
unfolding contains
google_inside = refl

google_listed : Memᴰ (google, google_region) (entries table)
unfolding entries
google_listed = Memᴰ.tail (Memᴰ.head refl)

server-gcp_example :
    handle (server net table (λ url. some 200)) defaults gcp_request []
    ≡ (redirect (upstream_redirect_url defaults blob_path) 307, [])
server-gcp_example =
    server-gcp net table (λ url. some 200) defaults gcp_request digest [] gcp_address google
      google_region (inl refl) blob_path-IsBlobPath gcp_client gcp_address-IsAddr table-AllValid
      google_listed google_inside google_only

blob_digest_iff_example : (blob_digest blob_path ≡ some digest) ↔ IsBlobPath blob_path digest
blob_digest_iff_example = blob_digest_iff blob_path digest

abbrev after_found : Checker
after_found = record {
  cache = (digest, tt) ∷ [];
  waiting = [];
  answers = (digest, 200) ∷ [];
  results = (digest, true) ∷ [];
}

reach_found : Reach start after_found
unfolding cache_get cache_put registry_k8s_io.Prelude.GoMap.lookup
    registry_k8s_io.Prelude.GoMap.store
reach_found = next (next here (miss digest refl refl)) (found [] [] digest refl refl)

Reach-IsSound_example : IsSound after_found
Reach-IsSound_example = Reach-IsSound reach_found

aws_region_to_host_url-eq_example :
    aws_region_to_host_url (codes "eu-west-2") (codes "https://default") ≡ (
      if any (text_beq (codes "eu-west-2")) known_regions
      then bucket_url (codes "eu-west-2")
      else codes "https://default")
aws_region_to_host_url-eq_example =
    aws_region_to_host_url-eq (codes "eu-west-2") (codes "https://default")

images-IsPlain : IsPlain (b'i' ∷ b'm' ∷ [])
images-IsPlain = record {
  not_empty = λ e. cc;
  not_dot = λ e. cc;
  not_dot_dot = λ e. cc;
  no_slash = (refl, (refl, tt));
}

upstream_redirect_url-plain_example :
    upstream_redirect_url
      (record defaults { upstream_registry_path = joined ((b'i' ∷ b'm' ∷ []) ∷ []) })
      (slashed (v2 ∷ (b'i' ∷ b'm' ∷ []) ∷ []))
    ≡ defaults.upstream_registry_endpoint
      ++ slashed (v2 ∷ (b'i' ∷ b'm' ∷ []) ∷ (b'i' ∷ b'm' ∷ []) ∷ [])
upstream_redirect_url-plain_example =
    upstream_redirect_url-plain
      (record defaults { upstream_registry_path = joined ((b'i' ∷ b'm' ∷ []) ∷ []) })
      ((b'i' ∷ b'm' ∷ []) ∷ []) ((b'i' ∷ b'm' ∷ []) ∷ []) refl (images-IsPlain, tt)
      (images-IsPlain, tt)

upstream_redirect_url-IsPlain_example :
    (segments : List Text) × (upstream_redirect_url defaults (codes "/v2/../../x")
      ≡ defaults.upstream_registry_endpoint ++ (b'/' ∷ joined segments))
    × All IsPlain segments
upstream_redirect_url-IsPlain_example = upstream_redirect_url-IsPlain defaults (codes "/v2/../../x")

get-forwarded_example : Clientip.get net aws_request ≡ parse_known (codes "15.193.0.5")
unfolding codes is_separator
get-forwarded_example =
    get-forwarded net aws_request (codes "10.0.0.1") (codes "15.193.0.5") (codes "35.0.0.1")
      (refl, (refl, (refl, (refl, (refl, (refl, (refl, (refl, (refl, (refl, tt)))))))))) (λ e. cc)
      (refl, (refl, (refl, (refl, (refl, (refl, (refl, (refl, tt)))))))) (λ e. cc) refl

is_cosign_tag_iff_example :
    (is_cosign_tag (
        codes
          "/v2/pause/manifests/sha256-0a0a0a0a0a0a0a0a0a0a0a0a0a0a0a0a0a0a0a0a0a0a0a0a0a0a0a0a0a0a0a0a.sig")
      ≡ true)
    ↔ (IsTagPath (codes "sig") (
          codes
            "/v2/pause/manifests/sha256-0a0a0a0a0a0a0a0a0a0a0a0a0a0a0a0a0a0a0a0a0a0a0a0a0a0a0a0a0a0a0a0a.sig")
        ⊎ IsTagPath (codes "att") (
            codes
              "/v2/pause/manifests/sha256-0a0a0a0a0a0a0a0a0a0a0a0a0a0a0a0a0a0a0a0a0a0a0a0a0a0a0a0a0a0a0a0a.sig"))
is_cosign_tag_iff_example = is_cosign_tag_iff (
    codes
      "/v2/pause/manifests/sha256-0a0a0a0a0a0a0a0a0a0a0a0a0a0a0a0a0a0a0a0a0a0a0a0a0a0a0a0a0a0a0a0a.sig")
