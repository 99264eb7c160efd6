-- ===== src/Cloudcidrs.antt =====
-- pkg/net/cloudcidrs: the mapper from addresses to clouds and regions. The table `regionToRanges`
-- is a parameter: a list of its entries, in an order of iteration.
pub mod Laws
pub mod Literals
pub mod Google
use registry_k8s_io.Cidrs.Mapping.{Mapping}
use registry_k8s_io.Cidrs.TrieMap.{TrieMap, new_trie_map, insert}
use registry_k8s_io.Netip.{Addr, Prefix}
use registry_k8s_io.Prelude.{
  ◌≡◌, ◌↔◌, Bool, true, ◌&&◌, arith, List, [], ◌∷◌, Comparable, text_eq, Text, codes, text_beq,
  text_beq_iff,
}

-- `IPInfo`
pub record IpInfo : Type 0 where
  pub cloud : Text
  pub region : Text

abbrev ip_info_beq : IpInfo → IpInfo → Bool
ip_info_beq a b = text_beq a.cloud b.cloud && text_beq a.region b.region

pub ip_info_beq_iff : (a b : IpInfo) → (ip_info_beq a b ≡ true) ↔ (a ≡ b)
ip_info_beq_iff a b = ground (arith, text_beq_iff a.cloud b.cloud, text_beq_iff a.region b.region)

instance abbrev pub ip_info_eq : Comparable IpInfo
ip_info_eq = record { equal = ip_info_beq; equal_iff = ip_info_beq_iff }

-- The names of the clouds.
abbrev pub aws : Text
aws = codes "AWS"

abbrev pub azure : Text
azure = codes "Azure"

abbrev pub gcp : Text
gcp = codes "GCP"

-- The zero value of `IPInfo`.
abbrev pub no_info : IpInfo
no_info = record { cloud = []; region = [] }

-- The inner loop of `NewIPMapper`, and the outer one.
insert_cidrs : IpInfo → List Prefix → TrieMap IpInfo → TrieMap IpInfo
insert_cidrs info [] t = t
insert_cidrs info (cidr ∷ cidrs) t = insert_cidrs info cidrs (insert cidr info t)

insert_ranges : Mapping IpInfo → TrieMap IpInfo → TrieMap IpInfo
insert_ranges [] t = t
insert_ranges ((info, cidrs) ∷ rest) t = insert_ranges rest (insert_cidrs info cidrs t)

unfoldable pub new_ip_mapper : Mapping IpInfo → TrieMap IpInfo
unfolding insert_ranges insert_cidrs
new_ip_mapper region_to_ranges = insert_ranges region_to_ranges new_trie_map

-- `AllIPInfos`: the keys of the table.
unfoldable pub all_ip_infos : Mapping IpInfo → List IpInfo
all_ip_infos [] = []
all_ip_infos ((info, cidrs) ∷ rest) = info ∷ all_ip_infos rest
