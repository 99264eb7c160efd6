-- ===== src/Cidrs/Trie.antt =====
-- pkg/net/cidrs/triemap.go: `trieMap`, the binary trie from prefixes to integer keys.
-- A pointer to a node is a `Link`; the trie is a tree that only its own pointers reach, so a loop
-- that walks `curr` down and writes through it is a recursion that rebuilds the path. The counter
-- `i` of the recursions is one more than the bit that the source's loop looks at.
pub mod Depth
pub mod Step
pub mod Leading
pub mod Insert
use mathlib.Core.Option
use registry_k8s_io.Cidrs.Words.{ip_int, ip_lo, ip_hi, bit_v4, bit_v6}
use registry_k8s_io.Netip.{Addr, Prefix, is_4, as_4, as_16, bits, contains}
use registry_k8s_io.Prelude.{
  ℕ, zero, suc, Bool, true, false, Option, none, some, or_else, if◌then◌else◌,
}

pub record NodeValue : Type 0 where
  pub cidr : Prefix
  pub key : ℕ

mutual
  pub data Link : Type 0 where
    nil : Link
    ref : TrieNode → Link

  pub data TrieNode : Type 0 where
    trie_node : Link → Link → Option NodeValue → TrieNode

pub record TrieMapCore : Type 0 where
  pub ipv4_root : Link
  pub ipv6_root : Link

-- `&trieNode{}`, where the pointer is nil.
unfoldable pub ensure : Link → TrieNode
ensure nil = trie_node nil nil none
ensure (ref n) = n

unfoldable pub node_value : TrieNode → Option NodeValue
node_value (trie_node c0 c1 v) = v

unfoldable pub child : Bool → TrieNode → Link
child true (trie_node c0 c1 v) = c1
child false (trie_node c0 c1 v) = c0

unfoldable pub set_child : Bool → TrieNode → TrieNode → TrieNode
set_child true n (trie_node c0 c1 v) = trie_node c0 (ref n) v
set_child false n (trie_node c0 c1 v) = trie_node (ref n) c1 v

unfoldable pub set_value : NodeValue → TrieNode → TrieNode
set_value nv (trie_node c0 c1 v) = trie_node c0 c1 (some nv)

-- The loop of an insertion, from the bit below `i` on for some rounds, and the write at its end.
-- Past the last bit (more rounds than bits) the source would shift by a negative count.
unfoldable pub insert_walk : (ℕ → Bool) → ℕ → ℕ → NodeValue → TrieNode → TrieNode
insert_walk bit i zero nv curr = set_value nv curr
insert_walk bit zero (suc rounds) nv curr = curr
insert_walk bit (suc i) (suc rounds) nv curr =
    set_child (bit i) (insert_walk bit i rounds nv (ensure (child (bit i) curr))) curr

unfoldable pub insert_ipv4 : Prefix → ℕ → TrieMapCore → TrieMapCore
unfolding ip_int as_4 bits
insert_ipv4 cidr key t =
    let int : ℕ = ip_int (as_4 cidr.addr) in
    record t {
      ipv4_root = ref (
          insert_walk (bit_v4 int) 32 (bits cidr) (record { cidr = cidr; key = key })
            (ensure t.ipv4_root));
    }

unfoldable pub insert_ipv6 : Prefix → ℕ → TrieMapCore → TrieMapCore
insert_ipv6 cidr key t =
    let hi : ℕ = ip_hi (as_16 cidr.addr) in
    let lo : ℕ = ip_lo (as_16 cidr.addr) in
    record t {
      ipv6_root = ref (
          insert_walk (bit_v6 hi lo) 128 (bits cidr) (record { cidr = cidr; key = key })
            (ensure t.ipv6_root));
    }

unfoldable pub insert : Prefix → ℕ → TrieMapCore → TrieMapCore
insert cidr key t = if is_4 cidr.addr then insert_ipv4 cidr key t else insert_ipv6 cidr key t

-- `curr.value != nil && curr.value.cidr.Contains(addr)`, with the value.
unfoldable pub hit : Addr → Option NodeValue → Option NodeValue
hit ip none = none
hit ip (some nv) = if contains nv.cidr ip then some nv else none

-- The loop of a lookup, below the node `curr`: the value of the first node that matches.
unfoldable pub get_walk : Addr → (ℕ → Bool) → ℕ → TrieNode → Option NodeValue
unfolding hit node_value
get_walk ip bit zero curr = none
get_walk ip bit (suc i) curr = elim (child (bit i) curr) [
  | nil ↦ none
  | ref next ↦ elim (hit ip (node_value next)) [ some nv ↦ some nv | none ↦ get_walk ip bit i next ]
]

-- A lookup from the root: the root's value first, then the loop.
unfoldable pub get_from : Addr → (ℕ → Bool) → ℕ → Link → Option NodeValue
unfolding hit node_value
get_from ip bit i nil = none
get_from ip bit i (ref root) = elim (hit ip (node_value root)) [
  | some nv ↦ some nv
  | none ↦ get_walk ip bit i root
]

-- `none` is the result (-1, false).
unfoldable pub get_ipv4 : Addr → TrieMapCore → Option NodeValue
get_ipv4 ip t = get_from ip (bit_v4 (ip_int (as_4 ip))) 32 t.ipv4_root

unfoldable pub get_ipv6 : Addr → TrieMapCore → Option NodeValue
get_ipv6 ip t = get_from ip (bit_v6 (ip_hi (as_16 ip)) (ip_lo (as_16 ip))) 128 t.ipv6_root

-- The value of the node whose key is returned.
unfoldable pub find : Addr → TrieMapCore → Option NodeValue
find ip t = if is_4 ip then get_ipv4 ip t else get_ipv6 ip t

unfoldable pub get_ip : Addr → TrieMapCore → Option ℕ
get_ip ip t = Option.map (λ (nv : NodeValue). nv.key) (find ip t)
