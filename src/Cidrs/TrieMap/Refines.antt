-- ===== src/Cidrs/TrieMap/Refines.antt =====
-- pkg/net/cidrs/triemap.go: `TrieMap` after a sequence of insertions gives the value of the
-- shortest prefix that contains the address.
use mathlib.Core.Option
use registry_k8s_io.Cidrs.Shortest.{shortest, replaced, shortest-append}
use registry_k8s_io.Cidrs.Trie
use registry_k8s_io.Cidrs.Trie.{NodeValue, find, get_ipv4, get_ipv6, get_from}
use registry_k8s_io.Cidrs.Trie.Insert.{IsTrie, written, find-insert, insert-IsTrie}
use registry_k8s_io.Cidrs.Trie.Step.{prefer}
use registry_k8s_io.Cidrs.TrieMap.{TrieMap, new_trie_map, insert, insert_all, get_ip, found}
use registry_k8s_io.Cidrs.TrieMap.Invariant.{IsBimap, new_trie_map-IsBimap, insert-IsBimap}
use registry_k8s_io.Netip.{Addr, Prefix, IsAddr, IsValid, contains}
use registry_k8s_io.Prelude.{
  ℕ, ◌≡◌, refl, inl, inr, arith, Bool, Option, none, some, List, [], ◌∷◌, ◌++◌, append_assoc,
  append-nil, All, Comparable, nat_eq, length, Option-cases, if◌then◌else◌,
}
use registry_k8s_io.Prelude.GoMap.{lookup, lookup-store}

module _ {ℓ} {V : Type ℓ} ⦃e : Comparable V⦄ where
  -- What a trie's value stands for, and a pair in the same form.
  abbrev seen : List (ℕ × V) → Option NodeValue → Option (Prefix × Option V)
  seen m none = none
  seen m (some nv) = some (nv.cidr, lookup nv.key m)

  abbrev chosen : Option (Prefix × V) → Option (Prefix × Option V)
  chosen none = none
  chosen (some b) = some (b.0, some b.1)

  -- The map holds the pairs of the list.
  pub record Represents (t : TrieMap V) (l : List (Prefix × V)) : Type ℓ where
    pub trie : IsTrie t.trie_map
    pub bimap : IsBimap t
    pub finds :
        (ip : Addr) → IsAddr ip → seen t.key_to_value (find ip t.trie_map) ≡ chosen (shortest ip l)

  new_trie_map-Represents : Represents new_trie_map []
  unfolding new_trie_map find get_ipv4 get_ipv6 get_from shortest
  new_trie_map-Represents = record {
    trie = record { depths_ipv4 = tt; depths_ipv6 = tt };
    bimap = new_trie_map-IsBimap;
    finds = λ ip h. ground arith;
  }

  -- The key that an insertion uses stands for the value, and older keys keep their values.
  record Keyed (cidr : Prefix) (value : V) (t u : TrieMap V) (key : ℕ) : Type ℓ where
    core : u.trie_map ≡ Trie.insert cidr key t.trie_map
    named : lookup key u.key_to_value ≡ some value
    kept : (k : ℕ) (v : V) → lookup k t.key_to_value ≡ some v → lookup k u.key_to_value ≡ some v

  insert-Keyed :
      (cidr : Prefix) (value : V) (t : TrieMap V)
      → IsBimap t
      → (key : ℕ) × Keyed cidr value t (insert cidr value t) key
  unfolding insert
  insert-Keyed cidr value t b = elim (Option-cases (lookup value t.value_to_key)) [
    | inl new ↦ (
      length t.key_to_value,
      rw (new, insert)
          (record {
            core = refl;
            named = rw lookup-store (ground arith);
            kept = λ k v h.
                ground
                  (arith, lookup-store (length t.key_to_value) k value t.key_to_value, b.fresh k);
          }),
    )
    | inr (key, old) ↦ (
      key,
      rw (old, insert)
          (record { core = refl; named = b.to_value value key old; kept = λ k v h. h }),
    )
  ]

  -- A lookup's result moves as the list's choice does.
  seen-updated :
      (p : Prefix) (v : V) (key : ℕ) (m m' : List (ℕ × V)) (inside : Bool) (o : Option NodeValue)
      (s : Option (Prefix × V))
      → lookup key m' ≡ some v
      → ((k : ℕ) (w : V) → lookup k m ≡ some w → lookup k m' ≡ some w)
      → seen m o ≡ chosen s
      → seen m' (if inside then prefer (written p key) o else o)
        ≡ chosen (if inside then replaced s (p, v) else s)
  seen-updated p v key m m' inside none none named kept h = ground arith
  seen-updated p v key m m' inside none (some b) named kept h = cc
  seen-updated p v key m m' inside (some nv) none named kept h = cc
  seen-updated p v key m m' inside (some nv) (some b) named kept h = ground (arith, kept nv.key b.1)

  insert-Represents :
      (p : Prefix) (v : V) (t : TrieMap V) (l : List (Prefix × V))
      → IsValid p
      → Represents t l
      → Represents (insert p v t) (l ++ (p, v) ∷ [])
  insert-Represents p v t l valid r =
      let (key, k) = insert-Keyed p v t r.bimap in
      record {
        trie = rw k.core (insert-IsTrie key t.trie_map r.trie p);
        bimap = insert-IsBimap p v t r.bimap;
        finds = λ ip h.
            rw (k.core, find-insert key t.trie_map r.trie p ip valid h, shortest-append ip l p v)
              (seen-updated p v key t.key_to_value (insert p v t).key_to_value (contains p ip)
                (find ip t.trie_map) (shortest ip l) k.named k.kept (r.finds ip h));
      }

  insert_all-Represents :
      (l k : List (Prefix × V)) (t : TrieMap V)
      → All (λ x. IsValid x.0) l
      → Represents t k
      → Represents (insert_all l t) (k ++ l)
  unfolding insert_all
  insert_all-Represents [] k t h r = rw append-nil r
  insert_all-Represents ((p, v) ∷ l) k t h r = rw append_assoc at (
      insert_all-Represents l (k ++ (p, v) ∷ []) (insert p v t) h.1
        (insert-Represents p v t k h.0 r))

  get_ip-seen :
      (z : V) (ip : Addr) (t : TrieMap V) (s : Option (Prefix × V))
      → seen t.key_to_value (find ip t.trie_map) ≡ chosen s
      → get_ip z ip t ≡ found z (Option.map (λ (x : Prefix × V). x.1) s)
  unfolding get_ip
  get_ip-seen z ip t s h = ground (arith, h)

  -- `GetIP` of a map that was filled by `Insert` with valid prefixes gives, for an address in its
  -- family's range, the value of the last inserted among the shortest prefixes that contain the
  -- address, and the zero value and false where none does.
  pub get_ip-insert_all :
      (z : V) (ip : Addr) (l : List (Prefix × V))
      → IsAddr ip
      → All (λ x. IsValid x.0) l
      → get_ip z ip (insert_all l new_trie_map)
        ≡ found z (Option.map (λ (x : Prefix × V). x.1) (shortest ip l))
  get_ip-insert_all z ip l h valid =
      get_ip-seen z ip (insert_all l new_trie_map) (shortest ip l)
        ((insert_all-Represents l [] new_trie_map valid new_trie_map-Represents).finds ip h)
