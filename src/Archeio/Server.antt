-- ===== src/Archeio/Server.antt =====
-- cmd/archeio/internal/app/handlers.go with pkg/net/cloudcidrs: the handlers over the mapper of
-- the table, as `makeV2Handler` puts them together.
use mathlib.Core.List.{Memᴰ}
use mathlib.Core.Bool.{false≢true}
use registry_k8s_io.Archeio.Cache.{BlobCache, Remote}
use registry_k8s_io.Archeio.Config.{RegistryConfig}
use registry_k8s_io.Archeio.Handlers.{redirect, Env, handle}
use registry_k8s_io.Archeio.Handlers.Blobs.{IsRead, IsGcp, handle-gcp}
use registry_k8s_io.Archeio.Patterns.Laws.{IsBlobPath}
use registry_k8s_io.Archeio.Urls.{upstream_redirect_url}
use registry_k8s_io.Cidrs.Lookup.{get_ip-eq-found, outside_of_missing}
use registry_k8s_io.Cidrs.Mapping.{Mapping, entries, AllValid}
use registry_k8s_io.Cidrs.TrieMap.{get_ip}
use registry_k8s_io.Clientip
use registry_k8s_io.Clientip.{Net, Request}
use registry_k8s_io.Cloudcidrs.{IpInfo, ip_info_eq, no_info, new_ip_mapper, gcp}
use registry_k8s_io.Cloudcidrs.Laws.{new_ip_mapper_lem}
use registry_k8s_io.Netip.{Addr, Prefix, IsAddr, contains}
use registry_k8s_io.Prelude.{◌≡◌, refl, ap, sym, ◌∙◌, Bool, true, false, All-mem, ok, Text}

-- `regionMapper.GetIP` over the table.
unfoldable pub region_of : Mapping IpInfo → Addr → IpInfo × Bool
region_of table ip = get_ip no_info ip (new_ip_mapper table)

-- The packages that the handlers are put together from.
unfoldable pub server : Net → Mapping IpInfo → Remote → Env
unfolding region_of
server net table head = record { net = net; region_mapper = region_of table; head = head }

-- All prefixes of the table that contain the address belong to Google's cloud.
abbrev pub AllGcp : Mapping IpInfo → Addr → Type 0
AllGcp table ip =
    (p : Prefix) (info : IpInfo)
    → Memᴰ (p, info) (entries table)
    → contains p ip ≡ true
    → info.cloud ≡ gcp

module _ (table : Mapping IpInfo) (ip : Addr) (addr : IsAddr ip)
    (valid : AllValid (entries table)) where
  region_of-IsGcp :
      (p : Prefix) (info : IpInfo)
      → Memᴰ (p, info) (entries table)
      → contains p ip ≡ true
      → AllGcp table ip
      → (b : IpInfo × Bool) → region_of table ip ≡ b
      → IsGcp b
  unfolding region_of
  region_of-IsGcp p info m inside all_gcp (v, true) e =
      let (q, m', inside', _) =
        get_ip-eq-found no_info ip (entries table) addr valid v
          (ap (get_ip no_info ip) (sym (new_ip_mapper_lem table)) ∙ e) in
      (refl, all_gcp q v m' inside')
  region_of-IsGcp p info m inside all_gcp (v, false) e =
      let missing =
        ap (λ (x : IpInfo × Bool). x.1)
          (ap (get_ip no_info ip) (sym (new_ip_mapper_lem table)) ∙ e) in
      absurd (
        false≢true (
          sym (
            All-mem (λ x. contains x.0 ip ≡ false) m
              (outside_of_missing no_info ip (entries table) addr valid missing))
          ∙ inside))

-- A GET or HEAD request for a blob goes upstream and leaves the cache as it is, if a prefix of the
-- table, whose prefixes are valid, contains the client's address, which can be read and is in its
-- family's range, and all prefixes that contain it belong to Google's cloud.
pub server-gcp :
    (net : Net) (table : Mapping IpInfo) (head : Remote) (rc : RegistryConfig) (r : Request)
    (d : Text) (blobs : BlobCache) (ip : Addr) (p : Prefix) (info : IpInfo)
    → IsRead r
    → IsBlobPath r.path d
    → Clientip.get net r ≡ ok ip
    → IsAddr ip
    → AllValid (entries table)
    → Memᴰ (p, info) (entries table)
    → contains p ip ≡ true
    → AllGcp table ip
    → handle (server net table head) rc r blobs
      ≡ (redirect (upstream_redirect_url rc r.path) 307, blobs)
unfolding server
server-gcp net table head rc r d blobs ip p info read blob e addr valid m inside all_gcp =
    handle-gcp (server net table head) rc r d blobs read blob ip e
      (region_of-IsGcp table ip addr valid p info m inside all_gcp (region_of table ip) refl)
