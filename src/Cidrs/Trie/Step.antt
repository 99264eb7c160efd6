-- ===== src/Cidrs/Trie/Step.antt =====
-- pkg/net/cidrs/triemap.go: what one insertion changes in the lookups that follow.
use registry_k8s_io.Cidrs.Trie.{
  NodeValue, ref, TrieNode, trie_node, ensure, node_value, child, set_child, set_value, insert_walk,
  hit, get_from,
}
use registry_k8s_io.Cidrs.Trie.Depth.{
  AtDepth, ensure-AtDepth, child-AtDepth, hit-depth, get_from-suc, get_from-ensure, get_from-depth,
}
use registry_k8s_io.Netip.{Addr, bits, contains}
use registry_k8s_io.Prelude.{
  ℕ, zero, suc, ◌+◌, ◌≤◌, ◌≡◌, refl, sym, ◌∙◌, ◌<◌, arith, Bool, true, false, ◌&&◌, Option, none,
  some, or_else, inl, inr, ltb, if◌then◌else◌, Bool-cases,
}

-- The same bit twice.
abbrev pub same_bit : Bool → Bool → Bool
same_bit true b = b
same_bit false true = false
same_bit false false = true

-- The `r` bits below `i` agree.
abbrev pub agree : (ℕ → Bool) → (ℕ → Bool) → ℕ → ℕ → Bool
agree b c i zero = true
agree b c zero (suc r) = true
agree b c (suc i) (suc r) = same_bit (b i) (c i) && agree b c i r

-- A lookup keeps a value of fewer bits, and else takes the new one.
abbrev pub prefer : NodeValue → Option NodeValue → Option NodeValue
prefer new none = some new
prefer new (some old) = if ltb (bits old.cidr) (bits new.cidr) then some old else some new

node_value-set_child : (b : Bool) (m n : TrieNode) → node_value (set_child b m n) ≡ node_value n
unfolding node_value set_child
node_value-set_child true m (trie_node c0 c1 v) = refl
node_value-set_child false m (trie_node c0 c1 v) = refl

child-set_child :
    (b c : Bool) (m n : TrieNode)
    → child c (set_child b m n) ≡ (if same_bit b c then ref m else child c n)
unfolding child set_child
child-set_child true true m (trie_node c0 c1 v) = refl
child-set_child true false m (trie_node c0 c1 v) = refl
child-set_child false true m (trie_node c0 c1 v) = refl
child-set_child false false m (trie_node c0 c1 v) = refl

same_bit→≡ : (b c : Bool) → same_bit b c ≡ true → b ≡ c
same_bit→≡ b c h = ground arith

get_from-set_value :
    (ip : Addr) (bit : ℕ → Bool) (i : ℕ) (nv : NodeValue) (n : TrieNode)
    → contains nv.cidr ip ≡ true
    → get_from ip bit i (ref (set_value nv n)) ≡ some nv
unfolding get_from set_value hit node_value
get_from-set_value ip bit i nv (trie_node c0 c1 v) h = ground arith

prefer_of_depth :
    (nv : NodeValue) (o : Option NodeValue) (d : ℕ)
    → bits nv.cidr ≡ d
    → ((old : NodeValue) → o ≡ some old → d ≤ bits old.cidr)
    → prefer nv o ≡ some nv
prefer_of_depth nv none d e h = refl
prefer_of_depth nv (some old) d e h = ground (arith, h old refl)

module _ (ip : Addr) (target walk : ℕ → Bool) (nv : NodeValue) where
  -- The lookup after the insertion, in terms of the one before it.
  abbrev after : Bool → Option NodeValue → Option NodeValue
  after b o = if b then prefer nv o else o

  or_else-after :
      (b : Bool) (o rest : Option NodeValue)
      → ((v : NodeValue) → o ≡ some v → bits v.cidr < bits nv.cidr)
      → or_else o (after b rest) ≡ after b (or_else o rest)
  or_else-after b none rest h = refl
  or_else-after b (some v) rest h = ground (arith, h v refl)

  pub get_from-insert_walk :
      (i r d : ℕ) (n : TrieNode)
      → r ≤ i
      → AtDepth d n
      → bits nv.cidr ≡ d + r
      → contains nv.cidr ip ≡ agree target walk i r
      → get_from ip walk i (ref (insert_walk target i r nv n))
        ≡ after (agree target walk i r) (get_from ip walk i (ref n))
  unfolding insert_walk
  get_from-insert_walk i zero d n h at e c =
      get_from-set_value ip walk i nv n c
      ∙ sym (
          prefer_of_depth nv _ d (omega arith)
            (λ old found. get_from-depth ip walk i d (ref n) old at found))
  get_from-insert_walk zero (suc r) d n h at e c = absurd (omega arith)
  get_from-insert_walk (suc i) (suc r) d n h at e c =
      let next : TrieNode = ensure (child (target i) n) in
      let below : AtDepth (suc d) next =
        ensure-AtDepth (suc d) (child (target i) n) (child-AtDepth (target i) d n at) in
      rw
        (
          get_from-suc ip walk i (set_child (target i) (insert_walk target i r nv next) n),
          get_from-suc ip walk i n,
          node_value-set_child (target i) (insert_walk target i r nv next) n,
          child-set_child (target i) (walk i) (insert_walk target i r nv next) n,
        )
        (elim (Bool-cases (same_bit (target i) (walk i))) [
          | inl same ↦ rw same (
              rw
                (
                  get_from-insert_walk i r (suc d) next (omega arith) below (omega arith)
                      (c ∙ rw same),
                  get_from-ensure ip walk i (child (target i) n),
                  same_bit→≡ (target i) (walk i) same,
                )
                (or_else-after (agree target walk i r) (hit ip (node_value n))
                  (get_from ip walk i (child (walk i) n))
                  (λ v found. ground (arith, hit-depth ip d n v at found))))
          | inr other ↦ rw other refl
        ])
