-- ===== src/Cidrs/TrieMap.antt =====
-- pkg/net/cidrs/triemap.go: `TrieMap[V]`, the trie over integer keys and the two maps between keys
-- and values. The value type is `comparable`: an instance of `Comparable`.
pub mod Invariant
pub mod Refines
use registry_k8s_io.Cidrs.Trie
use registry_k8s_io.Cidrs.Trie.{TrieMapCore, nil}
use registry_k8s_io.Netip.{Addr, Prefix}
use registry_k8s_io.Prelude.{
  ℕ, Bool, true, false, Option, none, some, List, [], ◌∷◌, Comparable, nat_eq, length,
}
use registry_k8s_io.Prelude.GoMap.{lookup, store}

pub record TrieMap {ℓ} (V : Type ℓ) : Type ℓ where
  pub trie_map : TrieMapCore
  pub key_to_value : List (ℕ × V)
  pub value_to_key : List (V × ℕ)

-- `NewTrieMap`; the zero value of `trieMap` has nil roots.
unfoldable pub new_trie_map {ℓ} : {V : Type ℓ} → TrieMap V
new_trie_map = record {
  trie_map = record { ipv4_root = nil; ipv6_root = nil };
  key_to_value = [];
  value_to_key = [];
}

-- A lookup's results: the value and true, or the zero value and false.
abbrev pub found {ℓ} : {V : Type ℓ} → V → Option V → V × Bool
found zero_value none = (zero_value, false)
found zero_value (some v) = (v, true)

-- A read of a Go map, whose result on a missing key is the zero value.
abbrev pub or_zero {ℓ} : {V : Type ℓ} → V → Option V → V
or_zero zero_value none = zero_value
or_zero zero_value (some v) = v

module _ {ℓ} {V : Type ℓ} ⦃e : Comparable V⦄ where
  unfoldable pub insert : Prefix → V → TrieMap V → TrieMap V
  insert cidr value t = elim (lookup value t.value_to_key) [
    | some key ↦ record t { trie_map = Trie.insert cidr key t.trie_map }
    | none ↦
        let key : ℕ = length t.key_to_value in
        record {
          trie_map = Trie.insert cidr key t.trie_map;
          key_to_value = store key value t.key_to_value;
          value_to_key = store value key t.value_to_key;
        }
  ]

  -- `Insert` for each pair of a list, in its order.
  unfoldable pub insert_all : List (Prefix × V) → TrieMap V → TrieMap V
  unfolding insert
  insert_all [] t = t
  insert_all ((cidr, value) ∷ rest) t = insert_all rest (insert cidr value t)

-- `GetIP`; `zero_value` is the zero value of V.
unfoldable pub get_ip {ℓ} : {V : Type ℓ} → V → Addr → TrieMap V → V × Bool
unfolding Trie.get_ip
get_ip zero_value ip t = elim (Trie.get_ip ip t.trie_map) [
  | none ↦ (zero_value, false)
  | some key ↦ (or_zero zero_value (lookup key t.key_to_value), true)
]
