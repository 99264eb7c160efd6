-- ===== src/Cidrs/TrieMap/Invariant.antt =====
-- pkg/net/cidrs/triemap.go: the two maps of a `TrieMap` are inverse to one another, and the keys
-- are the numbers below their size.
use registry_k8s_io.Cidrs.TrieMap.{TrieMap, new_trie_map, insert}
use registry_k8s_io.Netip.{Prefix}
use registry_k8s_io.Prelude.{
  ℕ, ◌≤◌, ◌≡◌, refl, inl, inr, arith, none, some, List, Comparable, nat_eq, length, Option-cases,
}
use registry_k8s_io.Prelude.GoMap.{lookup, store, lookup-store, length-store_new}

module _ {ℓ} {V : Type ℓ} ⦃e : Comparable V⦄ where
  -- The maps are inverse to one another, and the next key is unused.
  pub record IsBimap (t : TrieMap V) : Type ℓ where
    pub to_value :
        (v : V) (k : ℕ) → lookup v t.value_to_key ≡ some k → lookup k t.key_to_value ≡ some v
    pub to_key :
        (v : V) (k : ℕ) → lookup k t.key_to_value ≡ some v → lookup v t.value_to_key ≡ some k
    pub fresh : (k : ℕ) → length t.key_to_value ≤ k → lookup k t.key_to_value ≡ none

  pub new_trie_map-IsBimap : IsBimap new_trie_map
  unfolding new_trie_map lookup
  new_trie_map-IsBimap = record {
    to_value = λ v k h. cc;
    to_key = λ v k h. cc;
    fresh = λ k h. refl;
  }

  -- The maps after a value is given the next key.
  module _ (value : V) (t : TrieMap V) (b : IsBimap t)
      (new : lookup value t.value_to_key ≡ none) where
    abbrev next : ℕ
    next = length t.key_to_value

    abbrev values : List (ℕ × V)
    values = store next value t.key_to_value

    abbrev keys : List (V × ℕ)
    keys = store value next t.value_to_key

    to_value-store : (v : V) (k : ℕ) → lookup v keys ≡ some k → lookup k values ≡ some v
    to_value-store v k h = ground (
      arith,
      lookup-store value v next t.value_to_key,
      lookup-store next k value t.key_to_value,
      e.equal_iff value v,
      b.to_value v k,
      b.fresh next (omega arith),
    )

    to_key-store : (v : V) (k : ℕ) → lookup k values ≡ some v → lookup v keys ≡ some k
    to_key-store v k h = ground (
      arith,
      lookup-store value v next t.value_to_key,
      lookup-store next k value t.key_to_value,
      e.equal_iff value v,
      b.to_key v k,
    )

    fresh-store : (k : ℕ) → length values ≤ k → lookup k values ≡ none
    fresh-store k h = ground (
      arith,
      lookup-store next k value t.key_to_value,
      length-store_new next value t.key_to_value (b.fresh next (omega arith)),
      b.fresh k,
    )

  -- An insertion keeps the two maps inverse to one another, and the next key unused.
  pub insert-IsBimap :
      (cidr : Prefix) (value : V) (t : TrieMap V) → IsBimap t → IsBimap (insert cidr value t)
  unfolding insert
  insert-IsBimap cidr value t b = elim (Option-cases (lookup value t.value_to_key)) [
    | inl new ↦
        rw (new, insert)
          (record {
            to_value = to_value-store value t b new;
            to_key = to_key-store value t b new;
            fresh = fresh-store value t b new;
          })
    | inr (key, old) ↦
        rw (old, insert) (record { to_value = b.to_value; to_key = b.to_key; fresh = b.fresh })
  ]
