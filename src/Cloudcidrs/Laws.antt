-- ===== src/Cloudcidrs/Laws.antt =====
-- pkg/net/cloudcidrs/ipmapper.go: what the mapper of the table finds.
use mathlib.Core.List.{Memᴰ}
use registry_k8s_io.Cidrs.BruteForce
use registry_k8s_io.Cidrs.BruteForce.{trie_get_ip-eq-get_ip}
use registry_k8s_io.Cidrs.Lookup.{get_ip-eq-found, get_ip-order}
use registry_k8s_io.Cidrs.Mapping.{
  Mapping, pairs, entries, SameEntries, Agree, AgreeByLength, AllValid,
}
use registry_k8s_io.Cidrs.TrieMap.{TrieMap, new_trie_map, insert, insert_all, get_ip}
use registry_k8s_io.Cloudcidrs.{
  IpInfo, ip_info_eq, no_info, insert_cidrs, insert_ranges, new_ip_mapper, all_ip_infos,
}
use registry_k8s_io.Netip.{Addr, Prefix, IsAddr}
use registry_k8s_io.Prelude.{◌≡◌, refl, sym, ◌∙◌, ap, true, List, [], ◌∷◌, ◌++◌, ◌⊎◌, inl, inr}

insert_all-pairs :
    (info : IpInfo) (cidrs : List Prefix) (rest : List (Prefix × IpInfo)) (t : TrieMap IpInfo)
    → insert_all (pairs info cidrs ++ rest) t ≡ insert_all rest (insert_cidrs info cidrs t)
unfolding insert_all pairs insert_cidrs
insert_all-pairs info [] rest t = refl
insert_all-pairs info (p ∷ cidrs) rest t = insert_all-pairs info cidrs rest (insert p info t)

insert_ranges_lem :
    (m : Mapping IpInfo) (t : TrieMap IpInfo) → insert_ranges m t ≡ insert_all (entries m) t
unfolding insert_all entries insert_ranges
insert_ranges_lem [] t = refl
insert_ranges_lem ((info, cidrs) ∷ m) t =
    insert_ranges_lem m (insert_cidrs info cidrs t)
    ∙ sym (insert_all-pairs info cidrs (entries m) t)

pub new_ip_mapper_lem : (m : Mapping IpInfo) → new_ip_mapper m ≡ insert_all (entries m) new_trie_map
unfolding new_ip_mapper
new_ip_mapper_lem m = insert_ranges_lem m new_trie_map

mem-pairs :
    (info : IpInfo) (cidrs : List Prefix) (rest : List (Prefix × IpInfo)) (p : Prefix) (v : IpInfo)
    → Memᴰ (p, v) (pairs info cidrs ++ rest)
    → (v ≡ info) ⊎ Memᴰ (p, v) rest
unfolding pairs
mem-pairs info [] rest p v m = inr m
mem-pairs info (q ∷ cidrs) rest p v (Memᴰ.head e) = inl (ap (λ (x : Prefix × IpInfo). x.1) e)
mem-pairs info (q ∷ cidrs) rest p v (Memᴰ.tail m) = mem-pairs info cidrs rest p v m

mem-entries :
    (m : Mapping IpInfo) (p : Prefix) (v : IpInfo)
    → Memᴰ (p, v) (entries m)
    → Memᴰ v (all_ip_infos m)
unfolding entries all_ip_infos
mem-entries [] p v h = elim h [ ]
mem-entries ((info, cidrs) ∷ m) p v h = elim (mem-pairs info cidrs (entries m) p v h) [
  | inl here ↦ Memᴰ.head here
  | inr later ↦ Memᴰ.tail (mem-entries m p v later)
]

-- `AllIPInfos` lists every result that the mapper of the same table finds, for a table of valid
-- prefixes and an address in its family's range.
pub new_ip_mapper-mem :
    (m : Mapping IpInfo) (ip : Addr) (info : IpInfo)
    → IsAddr ip
    → AllValid (entries m)
    → get_ip no_info ip (new_ip_mapper m) ≡ (info, true)
    → Memᴰ info (all_ip_infos m)
new_ip_mapper-mem m ip info h valid q =
    let (p, member, _, _) =
      get_ip-eq-found no_info ip (entries m) h valid info (rw new_ip_mapper_lem at q) in
    mem-entries m p info member

-- The order in which Go visits a table of valid prefixes does not change the result for an address
-- in its family's range, where prefixes of one length that contain the address belong to one region.
pub new_ip_mapper-order :
    (m k : Mapping IpInfo) (ip : Addr)
    → IsAddr ip
    → AllValid (entries m)
    → AllValid (entries k)
    → SameEntries (entries m) (entries k)
    → AgreeByLength ip (entries m)
    → get_ip no_info ip (new_ip_mapper m) ≡ get_ip no_info ip (new_ip_mapper k)
new_ip_mapper-order m k ip h vm vk same agree =
    rw (new_ip_mapper_lem m, new_ip_mapper_lem k)
      (get_ip-order ip (entries m) (entries k) same agree no_info h vm vk)

-- Where all prefixes that contain an address in its family's range belong to one region, the mapper
-- of a table of valid prefixes finds what the naive one finds on any order of the same table.
pub new_ip_mapper-eq-brute_force :
    (m k : Mapping IpInfo) (ip : Addr)
    → IsAddr ip
    → AllValid (entries m)
    → SameEntries (entries m) (entries k)
    → Agree ip (entries m)
    → get_ip no_info ip (new_ip_mapper m) ≡ BruteForce.get_ip no_info ip k
new_ip_mapper-eq-brute_force m k ip h vm same agree =
    rw new_ip_mapper_lem (trie_get_ip-eq-get_ip no_info ip (entries m) k h vm same agree)
