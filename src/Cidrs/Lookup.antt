-- ===== src/Cidrs/Lookup.antt =====
-- pkg/net/cidrs/triemap.go: what a found value and a missing one say of the inserted prefixes, and
-- when the order of insertion does not matter.
use mathlib.Core.List.{Memᴰ}
use mathlib.Core.Option
use native.Mathlib.Nat.{le_antisymm}
use registry_k8s_io.Cidrs.Mapping.{SameEntries, AgreeByLength, AllValid}
use registry_k8s_io.Cidrs.Shortest.{
  shortest, shortest-mem, shortest-contains, shortest-least, shortest-eq-none,
}
use registry_k8s_io.Cidrs.TrieMap.{new_trie_map, insert_all, get_ip, found}
use registry_k8s_io.Cidrs.TrieMap.Refines.{get_ip-insert_all}
use registry_k8s_io.Netip.{Addr, Prefix, IsAddr, bits, contains}
use registry_k8s_io.Prelude.{
  ◌≡◌, ◌≤◌, refl, ap, sym, ◌∙◌, ◌↔◌, arith, Bool, true, false, Option, none, some, List, All,
  All-mem, Comparable,
}

module _ {ℓ} {V : Type ℓ} ⦃e : Comparable V⦄ (z : V) (ip : Addr) (l : List (Prefix × V))
    (h : IsAddr ip) (valid : AllValid l) where
  value_found :
      (v : V) (o : Option (Prefix × V))
      → found z (Option.map (λ (x : Prefix × V). x.1) o) ≡ (v, true)
      → (p : Prefix) × (o ≡ some (p, v))
  value_found v none q = cc
  value_found v (some (p, w)) q = (p, ground arith)

  -- A value that is found for an address in its family's range, after valid prefixes were inserted,
  -- was inserted with a prefix that contains the address, and no inserted prefix that contains the
  -- address is shorter.
  pub get_ip-eq-found :
      (v : V)
      → get_ip z ip (insert_all l new_trie_map) ≡ (v, true)
      → (p : Prefix) × Memᴰ (p, v) l
        × (contains p ip ≡ true)
        × All (λ x. contains x.0 ip ≡ true → bits p ≤ bits x.0) l
  get_ip-eq-found v q =
      let (p, s) = value_found v (shortest ip l) (sym (get_ip-insert_all z ip l h valid) ∙ q) in
      (p, shortest-mem ip l (p, v) s, shortest-contains ip l (p, v) s, shortest-least ip l (p, v) s)

  found-false :
      (o : Option (Prefix × V))
      → (found z (Option.map (λ (x : Prefix × V). x.1) o)).1 ≡ false
      → o ≡ none
  found-false none q = refl
  found-false (some x) q = cc

  none_of_outside :
      (o : Option (Prefix × V))
      → shortest ip l ≡ o
      → All (λ x. contains x.0 ip ≡ false) l
      → o ≡ none
  none_of_outside none s outside = refl
  none_of_outside (some b) s outside =
      let no = All-mem (λ x. contains x.0 ip ≡ false) (shortest-mem ip l b s) outside in
      let inside = shortest-contains ip l b s in cc

  pub outside_of_missing :
      (get_ip z ip (insert_all l new_trie_map)).1 ≡ false → All (λ x. contains x.0 ip ≡ false) l
  outside_of_missing q = shortest-eq-none ip l (
      found-false (shortest ip l)
        (ap (λ (r : V × Bool). r.1) (sym (get_ip-insert_all z ip l h valid)) ∙ q))

  -- After valid prefixes were inserted, the result for an address in its family's range is the zero
  -- value and false exactly when no inserted prefix contains the address.
  pub get_ip-eq-missing :
      (get_ip z ip (insert_all l new_trie_map) ≡ (z, false)) ↔ All (λ x. contains x.0 ip ≡ false) l
  get_ip-eq-missing = (
    λ q. outside_of_missing (ap (λ (r : V × Bool). r.1) q),
    λ outside.
        get_ip-insert_all z ip l h valid
        ∙ ap (λ (o : Option (Prefix × V)). found z (Option.map (λ (x : Prefix × V). x.1) o))
            (none_of_outside (shortest ip l) refl outside),
  )

-- What one list's choice contains, the other list cannot miss.
not-missed {ℓ} :
    {V : Type ℓ} (ip : Addr) (l k : List (Prefix × V)) (a : Prefix × V)
    → Memᴰ a k
    → shortest ip l ≡ some a
    → ¬ (shortest ip k ≡ none)
not-missed ip l k a m ea ek =
    let no = All-mem (λ x. contains x.0 ip ≡ false) m (shortest-eq-none ip k ek) in
    let inside = shortest-contains ip l a ea in cc

module _ {ℓ} {V : Type ℓ} (ip : Addr) (l k : List (Prefix × V)) (same : SameEntries l k)
    (agree : AgreeByLength ip l) where
  -- Two orders of the same pairs choose prefixes of one length.
  values_same : (a b : Prefix × V) → shortest ip l ≡ some a → shortest ip k ≡ some b → a.1 ≡ b.1
  values_same a b ea eb =
      let b_in_l = (same b).1 (shortest-mem ip k b eb) in
      let a_in_k = (same a).0 (shortest-mem ip l a ea) in
      let a_in = shortest-contains ip l a ea in
      let b_in = shortest-contains ip k b eb in
      agree a b (shortest-mem ip l a ea) b_in_l a_in b_in (
        le_antisymm
          (All-mem (λ x. contains x.0 ip ≡ true → bits a.0 ≤ bits x.0) b_in_l
            (shortest-least ip l a ea) b_in)
          (All-mem (λ x. contains x.0 ip ≡ true → bits b.0 ≤ bits x.0) a_in_k
            (shortest-least ip k b eb) a_in))

  shortest-order :
      (a b : Option (Prefix × V))
      → shortest ip l ≡ a
      → shortest ip k ≡ b
      → Option.map (λ (x : Prefix × V). x.1) a ≡ Option.map (λ (x : Prefix × V). x.1) b
  shortest-order none none ea eb = refl
  shortest-order none (some b) ea eb =
      absurd (not-missed ip k l b ((same b).1 (shortest-mem ip k b eb)) eb ea)
  shortest-order (some a) none ea eb =
      absurd (not-missed ip l k a ((same a).0 (shortest-mem ip l a ea)) ea eb)
  shortest-order (some a) (some b) ea eb = ap some (values_same a b ea eb)

  -- Where inserted prefixes of one length that contain the address have one value, the order in
  -- which the same pairs are inserted changes no lookup of the address: for valid prefixes and an
  -- address in its family's range.
  pub get_ip-order :
      ⦃e : Comparable V⦄ (z : V)
      → IsAddr ip
      → AllValid l
      → AllValid k
      → get_ip z ip (insert_all l new_trie_map) ≡ get_ip z ip (insert_all k new_trie_map)
  get_ip-order z h valid_l valid_k =
      get_ip-insert_all z ip l h valid_l
      ∙ ap (found z) (shortest-order (shortest ip l) (shortest ip k) refl refl)
      ∙ sym (get_ip-insert_all z ip k h valid_k)
