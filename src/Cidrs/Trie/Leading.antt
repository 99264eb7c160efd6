-- ===== src/Cidrs/Trie/Leading.antt =====
-- pkg/net/cidrs/triemap.go: the walk of an insertion follows the bits of an address for as long as
-- the prefix contains the address.
use registry_k8s_io.Cidrs.Trie.Step.{agree}
use registry_k8s_io.Prelude.{
  ℕ, zero, suc, ◌-◌, ◌/◌, ◌%◌, ◌^◌, ◌≤◌, ◌≡◌, arith, Bool, eqb, Bool-cases, inl, inr,
}
use registry_k8s_io.Prelude.Bits.{div_pow_add, div_pow_two}

-- The parity bit as a function of the position.
abbrev pub digit : ℕ → ℕ → Bool
digit x i = eqb (x / 2 ^ i % 2) 1

-- Where the bits above agree, the next bits agree exactly when the shifted numbers do.
pub agree-digit :
    (b c : ℕ → Bool) (x y i r : ℕ)
    → ((j : ℕ) → b j ≡ digit x j)
    → ((j : ℕ) → c j ≡ digit y j)
    → r ≤ i
    → x / 2 ^ i ≡ y / 2 ^ i
    → agree b c i r ≡ eqb (x / 2 ^ (i - r)) (y / 2 ^ (i - r))
agree-digit b c x y i zero hb hc h e = ground arith
agree-digit b c x y zero (suc r) hb hc h e = absurd (omega arith)
agree-digit b c x y (suc i) (suc r) hb hc h e =
    rw (hb i, hc i)
      (elim (Bool-cases (eqb (x / 2 ^ i) (y / 2 ^ i))) [
        | inl same ↦ ground (arith, agree-digit b c x y i r hb hc (omega arith))
        | inr other ↦ ground (
          arith,
          div_pow_add x (i - r) r,
          div_pow_add y (i - r) r,
          div_pow_two x i,
          div_pow_two y i,
        )
      ])
