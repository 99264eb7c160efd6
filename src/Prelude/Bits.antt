-- ===== src/Prelude/Bits.antt =====
-- Bit operations on machine words at variables: a test of one bit, and `|` of disjoint fields.
use Prim.Native.Nat.{
  ℕ, zero, suc, ◌+◌, ◌*◌, ◌/◌, ◌%◌, ◌^◌, ◌<◌, ◌≤◌, min, max, digits, bit_and, bit_or,
  bit_and-bitwise, bit_or-bitwise,
}
use mathlib.Core.Path.{◌≡◌, refl, ap, ◌∙◌}
use mathlib.Core.Bool.{Bool, not}
use native.Mathlib.Nat.{
  pow-suc, div-div-eq-div-mul, mul_comm, one-le-pow, div-one, add-zero, add-suc, div-add-mod',
  mod-eq_of_lt, mod-lt, add-mul-mod_self_right,
}
use native.Mathlib.Omega.{arith}
use registry_k8s_io.Prelude.Tests.{eqb}

-- The native operations are digit recursions on fuel `a`; any fuel from `a` on gives the same.
module _ (end : ℕ → ℕ) (join : ℕ → ℕ → ℕ) where
  digits_enough :
      (a b n : ℕ) → a ≤ n → (m : ℕ) → a ≤ m → digits end join n a b ≡ digits end join m a b
  digits_enough zero b zero h zero k = refl
  digits_enough zero b zero h (suc m) k = refl
  digits_enough zero b (suc n) h zero k = refl
  digits_enough zero b (suc n) h (suc m) k = refl
  digits_enough (suc a) b zero h m k = absurd (omega arith)
  digits_enough (suc a) b (suc n) h zero k = absurd (omega arith)
  digits_enough (suc a) b (suc n) h (suc m) k =
      rw (digits_enough (suc a / 2) (b / 2) n (omega arith) m (omega arith))

and_digit : (a b : ℕ) → bit_and a b ≡ bit_and (a / 2) (b / 2) * 2 + min (a % 2) (b % 2)
and_digit zero b = simp bit_and-bitwise (omega arith)
and_digit (suc a) b =
    simp bit_and-bitwise (
      rw (digits_enough (λ _. 0) min (suc a / 2) (b / 2) a (omega arith) (suc a / 2) (omega arith)))

or_digit : (a b : ℕ) → bit_or a b ≡ bit_or (a / 2) (b / 2) * 2 + max (a % 2) (b % 2)
or_digit zero b = simp bit_or-bitwise (omega arith)
or_digit (suc a) b =
    simp bit_or-bitwise (
      rw (digits_enough (λ y. y) max (suc a / 2) (b / 2) a (omega arith) (suc a / 2) (omega arith)))

or_zero : (n a : ℕ) → a ≤ n → bit_or a 0 ≡ a
or_zero n zero h = refl
or_zero zero (suc a) h = absurd (omega arith)
or_zero (suc n) (suc a) h = omega (arith, or_digit (suc a) 0, or_zero n (suc a / 2) (omega arith))

zero_or : (q : ℕ) → bit_or 0 q ≡ q
zero_or q = simp bit_or-bitwise

double_shl : (q k : ℕ) → q * 2 ^ suc k ≡ 2 * (q * 2 ^ k)
double_shl q k = omega (arith, ap (λ (t : ℕ). q * t) (pow-suc 2 k))

-- `r | q << k` adds, where `r` fits the low `k` bits.
pub or_shl : (k q r : ℕ) → r < 2 ^ k → bit_or r (q * 2 ^ k) ≡ r + q * 2 ^ k
or_shl zero q zero h = omega (arith, zero_or (q * 1))
or_shl zero q (suc r) h = absurd (omega arith)
or_shl (suc k) q r h = ground (
  arith,
  or_digit r (q * 2 ^ suc k),
  double_shl q k,
  or_shl k q (r / 2) (omega (arith, pow-suc 2 k)),
)

and_zero : (n a : ℕ) → a ≤ n → bit_and a 0 ≡ 0
and_zero n zero h = refl
and_zero zero (suc a) h = absurd (omega arith)
and_zero (suc n) (suc a) h =
    omega (arith, and_digit (suc a) 0, and_zero n (suc a / 2) (omega arith))

-- `x & (1 << i) != 0`
pub test_bit : ℕ → ℕ → Bool
test_bit x i = not (eqb (bit_and x (1 * 2 ^ i)) 0)

pub div_two_pow : (x i : ℕ) → x / 2 / 2 ^ i ≡ x / 2 ^ suc i
div_two_pow x i = rw (div-div-eq-div-mul x 2 (2 ^ i), pow-suc 2 i, mul_comm (2 ^ i) 2)

pub div_pow_two : (x i : ℕ) → x / 2 ^ i / 2 ≡ x / 2 ^ suc i
div_pow_two x i = rw (div-div-eq-div-mul x (2 ^ i) 2, pow-suc 2 i)

and_pow : (i x : ℕ) → bit_and x (2 ^ i) ≡ x / 2 ^ i % 2 * 2 ^ i
and_pow zero x = ground (arith, and_digit x 1, and_zero (x / 2) (x / 2) (omega arith))
and_pow (suc i) x =
    let half : 2 ^ suc i / 2 ≡ 2 ^ i = omega (arith, pow-suc 2 i) in
    let digit : bit_and x (2 ^ suc i) ≡ bit_and (x / 2) (2 ^ suc i / 2) * 2 =
      omega (arith, and_digit x (2 ^ suc i), pow-suc 2 i) in
    digit ∙ rw (half, and_pow i (x / 2), div_two_pow x i, pow-suc 2 i) (omega arith)

-- The bit `i` is the parity of `x >> i`.
pub test_bit_lem : (x i : ℕ) → test_bit x i ≡ eqb (x / 2 ^ i % 2) 1
unfolding test_bit
test_bit_lem x i = ground (arith, and_pow i x, one-le-pow i 2)

-- Shifts add up.
pub div_pow_add : (x a b : ℕ) → x / 2 ^ a / 2 ^ b ≡ x / 2 ^ (a + b)
div_pow_add x a zero = rw (div-one, add-zero)
div_pow_add x a (suc b) = rw (← div_pow_two, div_pow_add x a b, add-suc, ← div_pow_two)

-- The low `k + 1` bits are the lowest and the `k` next.
low_bits_split : (x k : ℕ) → x % 2 ^ suc k ≡ 2 * (x / 2 % 2 ^ k) + x % 2
low_bits_split x k =
    let rest : ℕ = 2 * (x / 2 % 2 ^ k) + x % 2 in
    let fits : rest < 2 ^ suc k =
      omega (arith, pow-suc 2 k, mod-lt (x / 2) {m = 2 ^ k} (one-le-pow k 2 (omega arith))) in
    let whole : x ≡ rest + x / 2 / 2 ^ k * 2 ^ suc k =
      omega (arith, div-add-mod' (x / 2) (2 ^ k), double_shl (x / 2 / 2 ^ k) k) in
    ap (λ (t : ℕ). t % 2 ^ suc k) whole ∙ add-mul-mod_self_right _ _ _ ∙ mod-eq_of_lt fits

low_bits_half : (x k : ℕ) → x % 2 ^ suc k / 2 ≡ x / 2 % 2 ^ k
low_bits_half x k = omega (arith, low_bits_split x k)

-- A bit below `k` is a bit of the low `k` bits.
pub low_bits_bit : (i k x : ℕ) → i < k → x % 2 ^ k / 2 ^ i % 2 ≡ x / 2 ^ i % 2
low_bits_bit i zero x h = absurd (omega arith)
low_bits_bit zero (suc k) x h = rw (div-one, div-one) (omega (arith, low_bits_split x k))
low_bits_bit (suc i) (suc k) x h =
    rw (← div_two_pow, low_bits_half, low_bits_bit i k (x / 2) (omega arith), div_two_pow)
