-- ===== src/Netip.antt =====
-- The part of Go's net/netip that the program uses: addresses, prefixes, and `Prefix.Contains`.
-- It is the standard library, modelled by what its documentation says of these methods.
use registry_k8s_io.Prelude.{
  ℕ, ◌-◌, ◌*◌, ◌/◌, ◌%◌, ◌^◌, ◌+◌, ◌<◌, ◌≤◌, Bool, true, false, not, ◌&&◌, eqb, leb, ltb,
  if◌then◌else◌, Text, [], ◌∷◌,
}

-- `netip.Addr`: the zero value, an IPv4 address, an IPv6 address with its zone. The number is the
-- address read as a big-endian integer.
pub data Addr : Type 0 where
  invalid : Addr
  ipv4 : ℕ → Addr
  ipv6 : ℕ → Text → Addr

unfoldable pub is_4 : Addr → Bool
is_4 (ipv4 n) = true
is_4 _ = false

-- The integer that `As4` and `As16` write out; the zero address is written as zeros.
unfoldable pub addr_value : Addr → ℕ
addr_value invalid = 0
addr_value (ipv4 n) = n
addr_value (ipv6 n zone) = n

unfoldable pub bit_len : Addr → ℕ
bit_len invalid = 0
bit_len (ipv4 n) = 32
bit_len (ipv6 n zone) = 128

unfoldable pub has_zone : Addr → Bool
has_zone (ipv6 n (c ∷ zone)) = true
has_zone _ = false

-- `[4]byte` and `[16]byte`, as functions of the index.
unfoldable pub as_4 : Addr → ℕ → ℕ
unfolding addr_value
as_4 ip j = addr_value ip / 2 ^ (8 * (3 - j)) % 256

unfoldable pub as_16 : Addr → ℕ → ℕ
unfolding addr_value
as_16 ip j = addr_value ip / 2 ^ (8 * (15 - j)) % 256

-- `netip.Prefix`; `bits_plus_one` is 0 for an invalid prefix, whose `Bits()` is -1.
pub record Prefix : Type 0 where
  pub addr : Addr
  pub bits_plus_one : ℕ

-- `Bits()`, with 0 for -1.
unfoldable pub bits : Prefix → ℕ
bits p = p.bits_plus_one - 1

unfoldable pub without_zone : Addr → Addr
without_zone (ipv6 n zone) = ipv6 n []
without_zone ip = ip

unfoldable pub prefix_from : Addr → ℕ → Prefix
unfolding without_zone bit_len
prefix_from ip n = record {
  addr = without_zone ip;
  bits_plus_one = if ltb 0 (bit_len ip) && leb n (bit_len ip) then n + 1 else 0;
}

-- `Prefix.Contains`: same family, no zone, and the same `Bits()` leading bits.
unfoldable pub contains : Prefix → Addr → Bool
unfolding bit_len has_zone addr_value bits
contains p ip =
    not (eqb p.bits_plus_one 0)
    && not (has_zone ip)
    && ltb 0 (bit_len ip)
    && eqb (bit_len p.addr) (bit_len ip)
    && eqb (addr_value ip / 2 ^ (bit_len ip - bits p))
        (addr_value p.addr / 2 ^ (bit_len ip - bits p))

-- The range of an address.
abbrev pub IsAddr : Addr → Type 0
IsAddr invalid = Unit
IsAddr (ipv4 n) = n < 2 ^ 32
IsAddr (ipv6 n zone) = n < 2 ^ 128

-- `Prefix.IsValid`, with the ranges that the representation keeps.
pub record IsValid (p : Prefix) : Type 0 where
  pub in_range : IsAddr p.addr
  pub family : 0 < bit_len p.addr
  pub some_bits : 0 < p.bits_plus_one
  pub bits_fit : p.bits_plus_one ≤ bit_len p.addr + 1
