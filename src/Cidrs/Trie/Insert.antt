-- ===== src/Cidrs/Trie/Insert.antt =====
-- pkg/net/cidrs/triemap.go: a lookup after `trieMap.Insert`.
use registry_k8s_io.Cidrs.Trie.{
  NodeValue, Link, nil, ref, TrieMapCore, ensure, child, hit, node_value, get_from, get_ipv4,
  get_ipv6, insert_ipv4, insert_ipv6, insert, find,
}
use registry_k8s_io.Cidrs.Trie.Depth.{
  LinkAtDepth, ensure-AtDepth, insert_walk-AtDepth, get_from-zero, get_from-suc, get_from-ensure,
}
use registry_k8s_io.Cidrs.Trie.Step.{agree, prefer, get_from-insert_walk}
use registry_k8s_io.Cidrs.Trie.Leading.{agree-digit}
use registry_k8s_io.Cidrs.Words.{ip_int, ip_lo, ip_hi, bit_v4, bit_v6, bit_v4_lem, bit_v6_lem}
use registry_k8s_io.Netip.{
  Addr, ipv4, ipv6, invalid, Prefix, IsAddr, IsValid, bits, bit_len, is_4, contains, addr_value,
  as_4, as_16, has_zone,
}
use registry_k8s_io.Prelude.{
  ℕ, zero, suc, ◌-◌, ◌^◌, ◌<◌, ◌≡◌, refl, ◌∙◌, arith, Bool, false, [], ◌∷◌, Bool-cases, inl, inr,
  if◌then◌else◌, Option, none, some, Text,
}

-- What every trie that is built by insertions satisfies.
pub record IsTrie (t : TrieMapCore) : Type 0 where
  pub depths_ipv4 : LinkAtDepth 0 t.ipv4_root
  pub depths_ipv6 : LinkAtDepth 0 t.ipv6_root

abbrev prefix_of : Addr → ℕ → Prefix
prefix_of a b = record { addr = a; bits_plus_one = b }

-- The prefix contains the address exactly when the walks of the two agree to the prefix's length.
contains-agree_ipv4 :
    (m n b : ℕ)
    → IsValid (prefix_of (ipv4 m) b)
    → n < 2 ^ 32
    → contains (prefix_of (ipv4 m) b) (ipv4 n)
      ≡ agree
          (bit_v4 (ip_int (as_4 (ipv4 m))))
          (bit_v4 (ip_int (as_4 (ipv4 n))))
          32
          (bits (prefix_of (ipv4 m) b))
unfolding contains bits addr_value
contains-agree_ipv4 m n b v h = ground (
  arith,
  agree-digit (bit_v4 (ip_int (as_4 (ipv4 m)))) (bit_v4 (ip_int (as_4 (ipv4 n)))) m n 32 (b - 1)
      (λ j. bit_v4_lem (ipv4 m) j v.in_range) (λ j. bit_v4_lem (ipv4 n) j h) (omega arith)
      (omega arith),
)

contains-agree_ipv6 :
    (m n b : ℕ) (z : Text)
    → IsValid (prefix_of (ipv6 m z) b)
    → n < 2 ^ 128
    → contains (prefix_of (ipv6 m z) b) (ipv6 n [])
      ≡ agree
          (bit_v6 (ip_hi (as_16 (ipv6 m z))) (ip_lo (as_16 (ipv6 m z))))
          (bit_v6 (ip_hi (as_16 (ipv6 n []))) (ip_lo (as_16 (ipv6 n []))))
          128
          (bits (prefix_of (ipv6 m z) b))
unfolding contains bits addr_value
contains-agree_ipv6 m n b z v h =
    let walk_m : ℕ → Bool = bit_v6 (ip_hi (as_16 (ipv6 m z))) (ip_lo (as_16 (ipv6 m z))) in
    let walk_n : ℕ → Bool = bit_v6 (ip_hi (as_16 (ipv6 n []))) (ip_lo (as_16 (ipv6 n []))) in
    ground (
      arith,
      agree-digit walk_m walk_n m n 128 (b - 1) (λ j. bit_v6_lem (ipv6 m z) j v.in_range)
          (λ j. bit_v6_lem (ipv6 n []) j h) (omega arith) (omega arith),
    )

-- An address that no prefix contains is not found.
module _ (ip : Addr) (outside : (p : Prefix) → contains p ip ≡ false) (bit : ℕ → Bool) where
  hit-eq-none : (o : Option NodeValue) → hit ip o ≡ none
  unfolding hit
  hit-eq-none none = refl
  hit-eq-none (some nv) = rw (outside nv.cidr)

  get_from-eq-none : (i : ℕ) (l : Link) → get_from ip bit i l ≡ none
  unfolding get_from
  get_from-eq-none i nil = refl
  get_from-eq-none zero (ref n) = get_from-zero ip bit n ∙ hit-eq-none (node_value n)
  get_from-eq-none (suc i) (ref n) =
      get_from-suc ip bit i n
      ∙ rw (hit-eq-none (node_value n)) (get_from-eq-none i (child (bit i) n))

-- The value that an insertion writes.
abbrev pub written : Prefix → ℕ → NodeValue
written p key = record { cidr = p; key = key }

-- What an insertion makes of the result of a lookup.
abbrev pub updated : Prefix → ℕ → Addr → Option NodeValue → Option NodeValue
updated p key ip o = if contains p ip then prefer (written p key) o else o

module _ (key : ℕ) (t : TrieMapCore) (wf : IsTrie t) where
  find-insert_ipv4 :
      (m n b : ℕ)
      → IsValid (prefix_of (ipv4 m) b)
      → n < 2 ^ 32
      → find (ipv4 n) (insert (prefix_of (ipv4 m) b) key t)
        ≡ updated (prefix_of (ipv4 m) b) key (ipv4 n) (find (ipv4 n) t)
  unfolding find insert insert_ipv4 get_ipv4 is_4 bits bit_len
  find-insert_ipv4 m n b v h =
      let p : Prefix = prefix_of (ipv4 m) b in
      let same = contains-agree_ipv4 m n b v h in
      get_from-insert_walk (ipv4 n) (bit_v4 (ip_int (as_4 (ipv4 m))))
        (bit_v4 (ip_int (as_4 (ipv4 n)))) (written p key) 32 (bits p) 0 (ensure t.ipv4_root)
        (omega arith) (ensure-AtDepth 0 t.ipv4_root wf.depths_ipv4) (omega arith) same
      ∙ rw (get_from-ensure, ← same)

  find-insert_ipv6 :
      (m n b : ℕ) (z : Text)
      → IsValid (prefix_of (ipv6 m z) b)
      → n < 2 ^ 128
      → find (ipv6 n []) (insert (prefix_of (ipv6 m z) b) key t)
        ≡ updated (prefix_of (ipv6 m z) b) key (ipv6 n []) (find (ipv6 n []) t)
  unfolding find insert insert_ipv6 get_ipv6 is_4 bits bit_len
  find-insert_ipv6 m n b z v h =
      let p : Prefix = prefix_of (ipv6 m z) b in
      let same = contains-agree_ipv6 m n b z v h in
      get_from-insert_walk (ipv6 n [])
        (bit_v6 (ip_hi (as_16 (ipv6 m z))) (ip_lo (as_16 (ipv6 m z))))
        (bit_v6 (ip_hi (as_16 (ipv6 n []))) (ip_lo (as_16 (ipv6 n [])))) (written p key) 128
        (bits p) 0 (ensure t.ipv6_root) (omega arith) (ensure-AtDepth 0 t.ipv6_root wf.depths_ipv6)
        (omega arith) same
      ∙ rw (get_from-ensure, ← same)

  -- A prefix that cannot contain the address: of the other family, or none can.
  find-insert_outside :
      (p : Prefix) (ip : Addr)
      → ((q : Prefix) → contains q ip ≡ false)
      → find ip (insert p key t) ≡ updated p key ip (find ip t)
  unfolding find get_ipv4 get_ipv6
  find-insert_outside p ip outside = rw (outside p) (
      ground (
        arith,
        get_from-eq-none ip outside (bit_v4 (ip_int (as_4 ip))) 32 t.ipv4_root,
        get_from-eq-none ip outside (bit_v6 (ip_hi (as_16 ip)) (ip_lo (as_16 ip))) 128 t.ipv6_root,
        get_from-eq-none ip outside (bit_v4 (ip_int (as_4 ip))) 32 (insert p key t).ipv4_root,
        get_from-eq-none ip outside (bit_v6 (ip_hi (as_16 ip)) (ip_lo (as_16 ip))) 128
            (insert p key t).ipv6_root,
      ))

  find-insert_cases :
      (a : Addr) (b : ℕ) (ip : Addr)
      → IsValid (prefix_of a b)
      → IsAddr ip
      → find ip (insert (prefix_of a b) key t) ≡ updated (prefix_of a b) key ip (find ip t)
  unfolding find insert insert_ipv4 insert_ipv6 get_ipv4 get_ipv6 is_4 bit_len contains has_zone
  find-insert_cases a b invalid v h =
      find-insert_outside (prefix_of a b) invalid (λ q. ground arith)
  find-insert_cases a b (ipv6 n (c ∷ z)) v h =
      find-insert_outside (prefix_of a b) (ipv6 n (c ∷ z)) (λ q. ground arith)
  find-insert_cases invalid b (ipv4 n) v h = absurd (omega arith)
  find-insert_cases invalid b (ipv6 n []) v h = absurd (omega arith)
  find-insert_cases (ipv4 m) b (ipv4 n) v h = find-insert_ipv4 m n b v h
  find-insert_cases (ipv6 m z) b (ipv6 n []) v h = find-insert_ipv6 m n b z v h
  find-insert_cases (ipv4 m) b (ipv6 n []) v h = ground arith
  find-insert_cases (ipv6 m z) b (ipv4 n) v h = ground arith

  -- After the insertion of a valid prefix into a trie whose values stand at the depth of their
  -- prefixes' lengths, a lookup of an address that the prefix contains gives the old value where that
  -- is of a shorter prefix, and else the new one; a lookup of any other address in its family's range
  -- is as before.
  pub find-insert :
      (p : Prefix) (ip : Addr)
      → IsValid p
      → IsAddr ip
      → find ip (insert p key t) ≡ updated p key ip (find ip t)
  find-insert p ip v h = find-insert_cases p.addr p.bits_plus_one ip v h

  pub insert-IsTrie : (p : Prefix) → IsTrie (insert p key t)
  unfolding insert insert_ipv4 insert_ipv6
  insert-IsTrie p = elim (Bool-cases (is_4 p.addr)) [
    | inl four ↦ rw four (record {
      depths_ipv4 =
          insert_walk-AtDepth _ 32 (bits p) 0 (written p key) (ensure t.ipv4_root) (omega arith)
            (ensure-AtDepth 0 t.ipv4_root wf.depths_ipv4);
      depths_ipv6 = wf.depths_ipv6;
    })
    | inr six ↦ rw six (record {
      depths_ipv4 = wf.depths_ipv4;
      depths_ipv6 =
          insert_walk-AtDepth _ 128 (bits p) 0 (written p key) (ensure t.ipv6_root) (omega arith)
            (ensure-AtDepth 0 t.ipv6_root wf.depths_ipv6);
    })
  ]
