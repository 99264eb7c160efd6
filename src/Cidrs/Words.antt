-- ===== src/Cidrs/Words.antt =====
-- pkg/net/cidrs/triemap.go: the casts of an address to machine words, and the tests of their bits.
use Prim.Native.Nat.{bit_or}
use native.Mathlib.Nat.{mod-eq_of_lt}
use registry_k8s_io.Netip.{Addr, addr_value, as_4, as_16}
use registry_k8s_io.Prelude.{
  ℕ, ◌+◌, ◌-◌, ◌*◌, ◌/◌, ◌%◌, ◌^◌, ◌<◌, ◌≡◌, refl, ap, ◌∙◌, Bool, eqb, ltb, arith, if◌then◌else◌,
  Bool-cases, inl, inr,
}
use registry_k8s_io.Prelude.Bits.{or_shl, test_bit, test_bit_lem, low_bits_bit, div_pow_add}

-- `uint32(b) << k` and `uint64(b) << k`, with their wrap-around.
shl_32 : ℕ → ℕ → ℕ
shl_32 b k = b * 2 ^ k % 2 ^ 32

shl_64 : ℕ → ℕ → ℕ
shl_64 b k = b * 2 ^ k % 2 ^ 64

-- `ipInt`
unfoldable pub ip_int : (ℕ → ℕ) → ℕ
unfolding shl_32
ip_int ip = bit_or (bit_or (bit_or (ip 3) (shl_32 (ip 2) 8)) (shl_32 (ip 1) 16)) (shl_32 (ip 0) 24)

-- Eight bytes up to the index `last`, which is the lowest.
word_64 : (ℕ → ℕ) → ℕ → ℕ
unfolding shl_64
word_64 ip last =
    bit_or
      (bit_or
        (bit_or
          (bit_or
            (bit_or
              (bit_or (bit_or (ip last) (shl_64 (ip (last - 1)) 8)) (shl_64 (ip (last - 2)) 16))
              (shl_64 (ip (last - 3)) 24))
            (shl_64 (ip (last - 4)) 32))
          (shl_64 (ip (last - 5)) 40))
        (shl_64 (ip (last - 6)) 48))
      (shl_64 (ip (last - 7)) 56)

-- `ipLo` and `ipHi`
unfoldable pub ip_lo : (ℕ → ℕ) → ℕ
unfolding word_64
ip_lo ip = word_64 ip 15

unfoldable pub ip_hi : (ℕ → ℕ) → ℕ
unfolding word_64
ip_hi ip = word_64 ip 7

-- `(ipInt & (uint32(1) << i)) != 0`
unfoldable pub bit_v4 : ℕ → ℕ → Bool
bit_v4 int i = test_bit int i

-- The bit `i` of an IPv6 address in two words.
unfoldable pub bit_v6 : ℕ → ℕ → ℕ → Bool
bit_v6 hi lo i = if ltb 63 i then test_bit hi (i - 64) else test_bit lo i

or_shl_32 : (k b r : ℕ) → b * 2 ^ k < 2 ^ 32 → r < 2 ^ k → bit_or r (shl_32 b k) ≡ r + b * 2 ^ k
unfolding shl_32
or_shl_32 k b r fits low = rw (mod-eq_of_lt fits) (or_shl k b r low ∙ refl)

or_shl_64 : (k b r : ℕ) → b * 2 ^ k < 2 ^ 64 → r < 2 ^ k → bit_or r (shl_64 b k) ≡ r + b * 2 ^ k
unfolding shl_64
or_shl_64 k b r fits low = rw (mod-eq_of_lt fits) (or_shl k b r low ∙ refl)

-- The four bytes that `As4` writes of an address below 2^32, joined, are the address again.
pub ip_int-as_4 : (a : Addr) → addr_value a < 2 ^ 32 → ip_int (as_4 a) ≡ addr_value a
unfolding ip_int as_4
ip_int-as_4 a h =
    let v : ℕ = addr_value a in
    rw (or_shl_32 8 (v / 256 % 256) (v / 1 % 256) (omega arith) (omega arith)) (
      rw
        (or_shl_32 16 (v / 65536 % 256) (v / 1 % 256 + v / 256 % 256 * 256) (omega arith)
          (omega arith))
        (omega (
          arith,
          or_shl_32 24 (v / 2 ^ 24 % 256)
              (v / 1 % 256 + v / 256 % 256 * 256 + v / 65536 % 256 * 65536) (omega arith)
              (omega arith),
        )))

-- Eight bytes in their places.
abbrev sum_8 : ℕ → ℕ → ℕ → ℕ → ℕ → ℕ → ℕ → ℕ → ℕ
sum_8 b0 b1 b2 b3 b4 b5 b6 b7 =
    b0
    + b1 * 2 ^ 8
    + b2 * 2 ^ 16
    + b3 * 2 ^ 24
    + b4 * 2 ^ 32
    + b5 * 2 ^ 40
    + b6 * 2 ^ 48
    + b7 * 2 ^ 56

or_8 :
    (b0 b1 b2 b3 b4 b5 b6 b7 : ℕ)
    → (b0 < 256)
      × (b1 < 256)
      × (b2 < 256)
      × (b3 < 256)
      × (b4 < 256)
      × (b5 < 256)
      × (b6 < 256)
      × (b7 < 256)
    → bit_or
        (bit_or
          (bit_or
            (bit_or
              (bit_or (bit_or (bit_or b0 (shl_64 b1 8)) (shl_64 b2 16)) (shl_64 b3 24))
              (shl_64 b4 32))
            (shl_64 b5 40))
          (shl_64 b6 48))
        (shl_64 b7 56)
      ≡ sum_8 b0 b1 b2 b3 b4 b5 b6 b7
or_8 b0 b1 b2 b3 b4 b5 b6 b7 h =
    let s1 : ℕ = b0 + b1 * 2 ^ 8 in
    let s2 : ℕ = s1 + b2 * 2 ^ 16 in
    let s3 : ℕ = s2 + b3 * 2 ^ 24 in
    let s4 : ℕ = s3 + b4 * 2 ^ 32 in
    let s5 : ℕ = s4 + b5 * 2 ^ 40 in
    let s6 : ℕ = s5 + b6 * 2 ^ 48 in
    rw
      (
        or_shl_64 8 b1 b0 (omega arith) (omega arith),
        or_shl_64 16 b2 s1 (omega arith) (omega arith),
        or_shl_64 24 b3 s2 (omega arith) (omega arith),
        or_shl_64 32 b4 s3 (omega arith) (omega arith),
        or_shl_64 40 b5 s4 (omega arith) (omega arith),
        or_shl_64 48 b6 s5 (omega arith) (omega arith),
      )
      (or_shl_64 56 b7 s6 (omega arith) (omega arith))

-- The sixteen bytes that `As16` writes, joined in two words, are the two halves of the address.
pub ip_lo-as_16 : (a : Addr) → ip_lo (as_16 a) ≡ addr_value a % 2 ^ 64
unfolding ip_lo as_16
ip_lo-as_16 a =
    let v : ℕ = addr_value a in
    or_8 (v / 2 ^ 0 % 256) (v / 2 ^ 8 % 256) (v / 2 ^ 16 % 256) (v / 2 ^ 24 % 256)
      (v / 2 ^ 32 % 256) (v / 2 ^ 40 % 256) (v / 2 ^ 48 % 256) (v / 2 ^ 56 % 256) (omega arith)
    ∙ omega arith

pub ip_hi-as_16 : (a : Addr) → addr_value a < 2 ^ 128 → ip_hi (as_16 a) ≡ addr_value a / 2 ^ 64
unfolding ip_hi as_16
ip_hi-as_16 a h =
    let v : ℕ = addr_value a in
    or_8 (v / 2 ^ 64 % 256) (v / 2 ^ 72 % 256) (v / 2 ^ 80 % 256) (v / 2 ^ 88 % 256)
      (v / 2 ^ 96 % 256) (v / 2 ^ 104 % 256) (v / 2 ^ 112 % 256) (v / 2 ^ 120 % 256) (omega arith)
    ∙ omega arith

pub bit_v4_lem :
    (a : Addr) (i : ℕ)
    → addr_value a < 2 ^ 32
    → bit_v4 (ip_int (as_4 a)) i ≡ eqb (addr_value a / 2 ^ i % 2) 1
unfolding bit_v4
bit_v4_lem a i h = rw (ip_int-as_4 a h) (test_bit_lem (addr_value a) i)

-- The source's test of the bit `i` of an address below 2^128, in one of the two words that it joins the
-- sixteen bytes to, is the parity of the address shifted by `i`.
pub bit_v6_lem :
    (a : Addr) (i : ℕ)
    → addr_value a < 2 ^ 128
    → bit_v6 (ip_hi (as_16 a)) (ip_lo (as_16 a)) i ≡ eqb (addr_value a / 2 ^ i % 2) 1
unfolding bit_v6
bit_v6_lem a i h = elim (Bool-cases (ltb 63 i)) [
  | inl high ↦
      rw (high, ip_hi-as_16 a h, test_bit_lem, div_pow_add)
        (ap (λ (k : ℕ). eqb (addr_value a / 2 ^ k % 2) 1) (ground arith))
  | inr low ↦
      rw (low, ip_lo-as_16 a, test_bit_lem)
        (ap (λ (k : ℕ). eqb k 1) (low_bits_bit i 64 (addr_value a) (ground arith)))
]
