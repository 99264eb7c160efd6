-- ===== src/Cidrs/BruteForce.antt =====
-- pkg/net/cidrs/bruteforce.go: the naive mapper, and the trie against it.
use mathlib.Core.List.{Memᴰ}
use mathlib.Core.Option
use mathlib.Core.Bool.{false≢true}
use registry_k8s_io.Cidrs.Mapping.{Mapping, pairs, entries, SameEntries, Agree, AllValid}
use registry_k8s_io.Cidrs.Shortest.{shortest, shortest-mem, shortest-contains, shortest-eq-none}
use registry_k8s_io.Cidrs.TrieMap.{new_trie_map, insert_all, get_ip as trie_get_ip, found}
use registry_k8s_io.Cidrs.TrieMap.Refines.{get_ip-insert_all}
use registry_k8s_io.Netip.{Addr, Prefix, IsAddr, contains}
use registry_k8s_io.Prelude.{
  ◌≡◌, refl, ap, sym, ◌∙◌, inl, inr, arith, Bool, true, false, Option, none, some, or_else, List,
  [], ◌∷◌, ◌++◌, All, All-mem, Comparable, Bool-cases, if◌then◌else◌,
}

-- The inner loop: whether a prefix of the list contains the address.
unfoldable pub any_contains : Addr → List Prefix → Bool
any_contains ip [] = false
any_contains ip (cidr ∷ cidrs) = if contains cidr ip then true else any_contains ip cidrs

module _ {ℓ} {V : Type ℓ} where
  -- `bruteForceMapper.GetIP`; the zero value of V and false, where no prefix contains the address.
  unfoldable pub get_ip : V → Addr → Mapping V → V × Bool
  unfolding any_contains
  get_ip zero_value ip [] = (zero_value, false)
  get_ip zero_value ip ((v, cidrs) ∷ m) =
      if any_contains ip cidrs then (v, true) else get_ip zero_value ip m

  -- The first pair whose prefix contains the address.
  first : Addr → List (Prefix × V) → Option (Prefix × V)
  first ip [] = none
  first ip ((p, v) ∷ l) = if contains p ip then some (p, v) else first ip l

  first-append :
      (ip : Addr) (l k : List (Prefix × V)) → first ip (l ++ k) ≡ or_else (first ip l) (first ip k)
  unfolding first
  first-append ip [] k = refl
  first-append ip ((p, v) ∷ l) k = ground (arith, first-append ip l k)

  value_of_first : Option (Prefix × V) → Option V
  value_of_first o = Option.map (λ (x : Prefix × V). x.1) o

  first-pairs :
      (ip : Addr) (v : V) (cidrs : List Prefix)
      → value_of_first (first ip (pairs v cidrs)) ≡ (if any_contains ip cidrs then some v else none)
  unfolding first pairs any_contains value_of_first
  first-pairs ip v [] = refl
  first-pairs ip v (p ∷ cidrs) = ground (arith, first-pairs ip v cidrs)

  get_ip-first :
      (z : V) (ip : Addr) (m : Mapping V)
      → get_ip z ip m ≡ found z (value_of_first (first ip (entries m)))
  unfolding get_ip first entries value_of_first
  get_ip-first z ip [] = refl
  get_ip-first z ip ((v, cidrs) ∷ m) = ground (
    arith,
    get_ip-first z ip m,
    first-append ip (pairs v cidrs) (entries m),
    first-pairs ip v cidrs,
  )

  first-mem :
      (ip : Addr) (l : List (Prefix × V)) (b : Prefix × V)
      → first ip l ≡ some b
      → Memᴰ b l × (contains b.0 ip ≡ true)
  unfolding first
  first-mem ip [] b e = cc
  first-mem ip ((p, v) ∷ l) b e = elim (Bool-cases (contains p ip)) [
    | inl inside ↦ (Memᴰ.head (ground arith), ground arith)
    | inr outside ↦ let (m, c) = first-mem ip l b (ground arith) in (Memᴰ.tail m, c)
  ]

  first-eq-none :
      (ip : Addr) (l : List (Prefix × V)) → first ip l ≡ none → All (λ x. contains x.0 ip ≡ false) l
  unfolding first
  first-eq-none ip [] e = tt
  first-eq-none ip ((p, v) ∷ l) e = ground (arith, first-eq-none ip l)

  not-inside :
      (ip : Addr) (l : List (Prefix × V)) (b : Prefix × V)
      → Memᴰ b l
      → contains b.0 ip ≡ true
      → ¬ All (λ x. contains x.0 ip ≡ false) l
  not-inside ip l b m inside outside =
      false≢true (sym (All-mem (λ x. contains x.0 ip ≡ false) m outside) ∙ inside)

  -- Whatever pair each finds, the values agree.
  value-shortest-first :
      (ip : Addr) (l k : List (Prefix × V))
      → SameEntries l k
      → Agree ip l
      → value_of_first (shortest ip l) ≡ value_of_first (first ip k)
  unfolding value_of_first
  value-shortest-first ip l k same agree = go (shortest ip l) refl (first ip k) refl
    where
      go :
          (a : Option (Prefix × V))
          → shortest ip l ≡ a
          → (b : Option (Prefix × V)) → first ip k ≡ b
          → value_of_first a ≡ value_of_first b
      go none ea none eb = refl
      go none ea (some b) eb =
          let (m, c) = first-mem ip k b eb in
          absurd (not-inside ip l b ((same b).1 m) c (shortest-eq-none ip l ea))
      go (some a) ea none eb = absurd (
          not-inside ip k a ((same a).0 (shortest-mem ip l a ea)) (shortest-contains ip l a ea)
            (first-eq-none ip k eb))
      go (some a) ea (some b) eb =
          let (m, c) = first-mem ip k b eb in
          ap some
            (agree a b (shortest-mem ip l a ea) ((same b).1 m) (shortest-contains ip l a ea) c)

-- Where all prefixes that contain an address have one value, the trie finds what the naive mapper
-- finds, in whatever order each goes through its map: for valid prefixes and an address in its
-- family's range.
pub trie_get_ip-eq-get_ip {ℓ} :
    {V : Type ℓ} ⦃e : Comparable V⦄ (z : V) (ip : Addr) (l : List (Prefix × V)) (m : Mapping V)
    → IsAddr ip
    → AllValid l
    → SameEntries l (entries m)
    → Agree ip l
    → trie_get_ip z ip (insert_all l new_trie_map) ≡ get_ip z ip m
unfolding value_of_first
trie_get_ip-eq-get_ip z ip l m h valid same agree =
    get_ip-insert_all z ip l h valid
    ∙ ap (found z) (value-shortest-first ip l (entries m) same agree)
    ∙ sym (get_ip-first z ip m)
