-- ===== src/Cidrs/Trie/Depth.antt =====
-- pkg/net/cidrs/triemap.go: where a value stands in the trie, a prefix of n bits at depth n.
use registry_k8s_io.Cidrs.Trie.{
  NodeValue, Link, nil, ref, TrieNode, trie_node, ensure, node_value, child, set_child, set_value,
  insert_walk, hit, get_walk, get_from,
}
use registry_k8s_io.Netip.{Addr, bits}
use registry_k8s_io.Prelude.{
  ℕ, zero, suc, ◌+◌, ◌≤◌, ◌≡◌, refl, ◌∙◌, arith, Bool, true, false, Option, none, some, or_else,
  Option-cases, inl, inr,
}

abbrev ValueAt : ℕ → Option NodeValue → Type 0
ValueAt d none = Unit
ValueAt d (some nv) = bits nv.cidr ≡ d

abbrev mutual
  pub AtDepth : ℕ → TrieNode → Type 0
  AtDepth d (trie_node c0 c1 v) = LinkAtDepth (suc d) c0 × LinkAtDepth (suc d) c1 × ValueAt d v

  pub LinkAtDepth : ℕ → Link → Type 0
  LinkAtDepth d nil = Unit
  LinkAtDepth d (ref n) = AtDepth d n

pub ensure-AtDepth : (d : ℕ) (l : Link) → LinkAtDepth d l → AtDepth d (ensure l)
unfolding ensure
ensure-AtDepth d nil h = (tt, tt, tt)
ensure-AtDepth d (ref n) h = h

pub child-AtDepth :
    (b : Bool) (d : ℕ) (n : TrieNode) → AtDepth d n → LinkAtDepth (suc d) (child b n)
unfolding child
child-AtDepth true d (trie_node c0 c1 v) h = h.1
child-AtDepth false d (trie_node c0 c1 v) h = h.0

set_child-AtDepth :
    (b : Bool) (d : ℕ) (m n : TrieNode)
    → AtDepth (suc d) m
    → AtDepth d n
    → AtDepth d (set_child b m n)
unfolding set_child
set_child-AtDepth true d m (trie_node c0 c1 v) k h = (h.0, k, h.2)
set_child-AtDepth false d m (trie_node c0 c1 v) k h = (k, h.1, h.2)

set_value-AtDepth :
    (d : ℕ) (nv : NodeValue) (n : TrieNode)
    → bits nv.cidr ≡ d
    → AtDepth d n
    → AtDepth d (set_value nv n)
unfolding set_value
set_value-AtDepth d nv (trie_node c0 c1 v) e h = (h.0, h.1, e)

-- An insertion of a prefix of `d + r` bits at depth `d` takes `r` rounds, and keeps the depths.
pub insert_walk-AtDepth :
    (bit : ℕ → Bool) (i r d : ℕ) (nv : NodeValue) (n : TrieNode)
    → bits nv.cidr ≡ d + r
    → AtDepth d n
    → AtDepth d (insert_walk bit i r nv n)
unfolding insert_walk
insert_walk-AtDepth bit i zero d nv n e h = set_value-AtDepth d nv n (omega arith) h
insert_walk-AtDepth bit zero (suc r) d nv n e h = h
insert_walk-AtDepth bit (suc i) (suc r) d nv n e h =
    set_child-AtDepth (bit i) d _ n
      (insert_walk-AtDepth bit i r (suc d) nv (ensure (child (bit i) n)) (omega arith)
        (ensure-AtDepth (suc d) (child (bit i) n) (child-AtDepth (bit i) d n h)))
      h

child-ensure_nil : (b : Bool) → child b (ensure nil) ≡ nil
unfolding child ensure
child-ensure_nil true = refl
child-ensure_nil false = refl

module _ (ip : Addr) where
  pub hit-depth :
      (d : ℕ) (n : TrieNode) (nv : NodeValue)
      → AtDepth d n
      → hit ip (node_value n) ≡ some nv
      → bits nv.cidr ≡ d
  unfolding hit node_value
  hit-depth d (trie_node c0 c1 none) nv h e = cc
  hit-depth d (trie_node c0 c1 (some v)) nv h e = ground arith

module _ (ip : Addr) (bit : ℕ → Bool) where
  -- The loop goes on as a lookup from the child.
  get_walk-suc :
      (i : ℕ) (n : TrieNode) → get_walk ip bit (suc i) n ≡ get_from ip bit i (child (bit i) n)
  unfolding get_walk get_from
  get_walk-suc i n = ground arith

  -- A lookup is the value here, or else what the lookup from the child finds.
  pub get_from-zero : (n : TrieNode) → get_from ip bit 0 (ref n) ≡ hit ip (node_value n)
  unfolding get_from get_walk
  get_from-zero n = ground arith

  pub get_from-suc :
      (i : ℕ) (n : TrieNode)
      → get_from ip bit (suc i) (ref n)
        ≡ or_else (hit ip (node_value n)) (get_from ip bit i (child (bit i) n))
  unfolding get_from
  get_from-suc i n = ground (arith, get_walk-suc i n)

  pub get_from-ensure :
      (i : ℕ) (l : Link) → get_from ip bit i (ref (ensure l)) ≡ get_from ip bit i l
  unfolding get_from get_walk ensure
  get_from-ensure i (ref n) = refl
  get_from-ensure zero nil = refl
  get_from-ensure (suc i) nil = get_from-suc i (ensure nil) ∙ rw (child-ensure_nil (bit i))

  -- No lookup finds a value above the node where it starts.
  pub get_from-depth :
      (i d : ℕ) (l : Link) (nv : NodeValue)
      → LinkAtDepth d l
      → get_from ip bit i l ≡ some nv
      → d ≤ bits nv.cidr
  unfolding get_from
  get_from-depth i d nil nv h e = cc
  get_from-depth zero d (ref n) nv h e =
      omega (arith, hit-depth ip d n nv h (rw get_from-zero at e))
  get_from-depth (suc i) d (ref n) nv h e = elim (Option-cases (hit ip (node_value n))) [
    | inl miss ↦ omega (
      arith,
      get_from-depth i (suc d) (child (bit i) n) nv (child-AtDepth (bit i) d n h)
          (rw (get_from-suc, miss) at e),
    )
    | inr (v, found) ↦
        omega (arith, hit-depth ip d n nv h (rw found (rw (get_from-suc, found) at e)))
  ]
