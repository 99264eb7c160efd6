-- ===== src/Tests/Mapper.antt =====
-- The mapper's theorems on a table of three regions.
use mathlib.Core.List.{Memᴰ}
use mathlib.Core.Bool.{false≢true}
use mathlib.Core.Option
use registry_k8s_io.Cidrs.BruteForce
use registry_k8s_io.Cidrs.BruteForce.{trie_get_ip-eq-get_ip}
use registry_k8s_io.Cidrs.Lookup.{get_ip-eq-found, get_ip-order}
use registry_k8s_io.Cidrs.Mapping.{entries, SameEntries, Agree, AgreeByLength}
use registry_k8s_io.Cidrs.Shortest.{shortest}
use registry_k8s_io.Cidrs.TrieMap.{new_trie_map, insert_all, get_ip, found}
use registry_k8s_io.Cidrs.TrieMap.Refines.{get_ip-insert_all}
use registry_k8s_io.Cidrs.Words.{ip_hi, ip_lo, bit_v6, bit_v6_lem}
use registry_k8s_io.Cloudcidrs.{IpInfo, ip_info_eq, no_info, new_ip_mapper}
use registry_k8s_io.Cloudcidrs.Laws.{new_ip_mapper-eq-brute_force}
use registry_k8s_io.Netip.{ipv6, Prefix, as_16, addr_value, bits, contains}
use registry_k8s_io.Prelude.{
  ℕ, ◌+◌, ◌≡◌, ◌≤◌, ◌/◌, ◌%◌, ◌^◌, refl, sym, ap, ◌∙◌, subst, arith, if◌then◌else◌, true, eqb, [],
  All,
}
use registry_k8s_io.Tests.{
  aws_address, wide, aws_global, ap_south_1, table, table_reversed, small, small_reversed,
  aws_address-IsAddr, table-AllValid, table_reversed-AllValid, small-AllValid,
}

-- The mapper gives the region of the shortest prefix.
aws_lookup :
    get_ip no_info aws_address (insert_all (entries table) new_trie_map) ≡ (aws_global, true)
unfolding shortest contains entries
aws_lookup =
    get_ip-insert_all no_info aws_address (entries table) aws_address-IsAddr table-AllValid ∙ refl

-- Membership of the two orders of a table.
same_entries : SameEntries (entries table) (entries table_reversed)
unfolding entries
same_entries x = (there, back)
  where
    there : Memᴰ x (entries table) → Memᴰ x (entries table_reversed)
    there (Memᴰ.head e) = Memᴰ.tail (Memᴰ.tail (Memᴰ.head e))
    there (Memᴰ.tail (Memᴰ.head e)) = Memᴰ.tail (Memᴰ.head e)
    there (Memᴰ.tail (Memᴰ.tail (Memᴰ.head e))) = Memᴰ.head e
    there (Memᴰ.tail (Memᴰ.tail (Memᴰ.tail m))) = elim m [ ]

    back : Memᴰ x (entries table_reversed) → Memᴰ x (entries table)
    back (Memᴰ.head e) = Memᴰ.tail (Memᴰ.tail (Memᴰ.head e))
    back (Memᴰ.tail (Memᴰ.head e)) = Memᴰ.tail (Memᴰ.head e)
    back (Memᴰ.tail (Memᴰ.tail (Memᴰ.head e))) = Memᴰ.head e
    back (Memᴰ.tail (Memᴰ.tail (Memᴰ.tail m))) = elim m [ ]

same_small : SameEntries (entries small) (entries small_reversed)
unfolding entries
same_small x = (there, back)
  where
    there : Memᴰ x (entries small) → Memᴰ x (entries small_reversed)
    there (Memᴰ.head e) = Memᴰ.tail (Memᴰ.head e)
    there (Memᴰ.tail (Memᴰ.head e)) = Memᴰ.head e
    there (Memᴰ.tail (Memᴰ.tail m)) = elim m [ ]

    back : Memᴰ x (entries small_reversed) → Memᴰ x (entries small)
    back (Memᴰ.head e) = Memᴰ.tail (Memᴰ.head e)
    back (Memᴰ.tail (Memᴰ.head e)) = Memᴰ.head e
    back (Memᴰ.tail (Memᴰ.tail m)) = elim m [ ]

-- Which pair of a table an address is in.
small_pair :
    (x : Prefix × IpInfo)
    → Memᴰ x (entries small)
    → contains x.0 aws_address ≡ true
    → x ≡ (wide, aws_global)
unfolding entries contains
small_pair x (Memᴰ.head e) c =
    absurd (false≢true (subst (λ (y : Prefix × IpInfo). contains y.0 aws_address ≡ true) e c))
small_pair x (Memᴰ.tail (Memᴰ.head e)) c = e
small_pair x (Memᴰ.tail (Memᴰ.tail m)) c = elim m [ ]

small-Agree : Agree aws_address (entries small)
small-Agree x y m k c d =
    ap (λ (a : Prefix × IpInfo). a.1) (small_pair x m c ∙ sym (small_pair y k d))

-- The value of the prefix of a length that contains the address.
region_at : ℕ → IpInfo
region_at n = if eqb n 19 then aws_global else ap_south_1

table_pair :
    (x : Prefix × IpInfo)
    → Memᴰ x (entries table)
    → contains x.0 aws_address ≡ true
    → x.1 ≡ region_at (bits x.0)
unfolding entries contains bits region_at
table_pair x (Memᴰ.head e) c = rw e refl
table_pair x (Memᴰ.tail (Memᴰ.head e)) c =
    absurd (false≢true (subst (λ (y : Prefix × IpInfo). contains y.0 aws_address ≡ true) e c))
table_pair x (Memᴰ.tail (Memᴰ.tail (Memᴰ.head e))) c = rw e refl
table_pair x (Memᴰ.tail (Memᴰ.tail (Memᴰ.tail m))) c = elim m [ ]

table-AgreeByLength : AgreeByLength aws_address (entries table)
table-AgreeByLength x y m k c d e = table_pair x m c ∙ ap region_at e ∙ sym (table_pair y k d)

get_ip-insert_all_example :
    get_ip no_info aws_address (insert_all (entries table) new_trie_map)
    ≡ found no_info
        (Option.map (λ (x : Prefix × IpInfo). x.1) (shortest aws_address (entries table)))
get_ip-insert_all_example =
    get_ip-insert_all no_info aws_address (entries table) aws_address-IsAddr table-AllValid

get_ip-eq-found_example :
    (p : Prefix) × Memᴰ (p, aws_global) (entries table)
    × (contains p aws_address ≡ true)
    × All (λ x. contains x.0 aws_address ≡ true → bits p ≤ bits x.0) (entries table)
get_ip-eq-found_example =
    get_ip-eq-found no_info aws_address (entries table) aws_address-IsAddr table-AllValid aws_global
      aws_lookup

get_ip-order_example :
    get_ip no_info aws_address (insert_all (entries table) new_trie_map)
    ≡ get_ip no_info aws_address (insert_all (entries table_reversed) new_trie_map)
get_ip-order_example =
    get_ip-order aws_address (entries table) (entries table_reversed) same_entries
      table-AgreeByLength no_info aws_address-IsAddr table-AllValid table_reversed-AllValid

new_ip_mapper-eq-brute_force_example :
    get_ip no_info aws_address (new_ip_mapper small)
    ≡ BruteForce.get_ip no_info aws_address small_reversed
new_ip_mapper-eq-brute_force_example =
    new_ip_mapper-eq-brute_force small small_reversed aws_address aws_address-IsAddr small-AllValid
      same_small small-Agree

bit_v6_lem_example :
    bit_v6 (ip_hi (as_16 (ipv6 (2 ^ 100 + 1) []))) (ip_lo (as_16 (ipv6 (2 ^ 100 + 1) []))) 100
    ≡ eqb (addr_value (ipv6 (2 ^ 100 + 1) []) / 2 ^ 100 % 2) 1
unfolding addr_value
bit_v6_lem_example = bit_v6_lem (ipv6 (2 ^ 100 + 1) []) 100 (omega arith)
