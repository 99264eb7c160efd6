-- ===== src/Cloudcidrs/Literals.antt =====
-- pkg/net/cloudcidrs/zz_generated_range_data.go: its literals, and the check of its entries.
use registry_k8s_io.Cloudcidrs.{IpInfo, gcp}
use registry_k8s_io.Netip.{
  Addr, ipv4, ipv6, Prefix, IsAddr, IsValid, addr_value, bit_len, prefix_from,
}
use registry_k8s_io.Prelude.{
  ℕ, ◌+◌, ◌*◌, ◌^◌, ◌<◌, ◌≡◌, arith, Bool, true, ◌&&◌, ltb, leb, all, List, [], text_beq,
}

-- `netip.PrefixFrom(netip.AddrFrom4([4]byte{a, b, c, d}), bits)`
unfoldable pub v4 : ℕ → ℕ → ℕ → ℕ → ℕ → Prefix
unfolding prefix_from
v4 a b c d n = prefix_from (ipv4 (a * 2 ^ 24 + b * 2 ^ 16 + c * 2 ^ 8 + d)) n

-- The same of sixteen bytes, two to a number.
unfoldable pub v6 : ℕ → ℕ → ℕ → ℕ → ℕ → ℕ → ℕ → ℕ → ℕ → Prefix
unfolding prefix_from
v6 a b c d e f g h n =
    prefix_from
      (ipv6
        (a * 2 ^ 112
          + b * 2 ^ 96
          + c * 2 ^ 80
          + d * 2 ^ 64
          + e * 2 ^ 48
          + f * 2 ^ 32
          + g * 2 ^ 16
          + h)
        [])
      n

unfoldable pub is_valid : Prefix → Bool
unfolding addr_value bit_len
is_valid p =
    ltb 0 p.bits_plus_one
    && (leb p.bits_plus_one (bit_len p.addr + 1)
        && (ltb 0 (bit_len p.addr) && ltb (addr_value p.addr) (2 ^ bit_len p.addr)))

-- An entry of Google's cloud whose prefixes are valid.
unfoldable pub is_gcp_entry : IpInfo × List Prefix → Bool
unfolding is_valid text_beq
is_gcp_entry (info, cidrs) = text_beq info.cloud gcp && all is_valid cidrs

in_range : (a : Addr) → addr_value a < 2 ^ bit_len a → IsAddr a
unfolding addr_value bit_len
in_range Addr.invalid h = tt
in_range (ipv4 n) h = h
in_range (ipv6 n z) h = h

pub is_valid-IsValid : (p : Prefix) → is_valid p ≡ true → IsValid p
unfolding is_valid
is_valid-IsValid p h = record {
  in_range = in_range p.addr (ground arith);
  family = ground arith;
  some_bits = ground arith;
  bits_fit = ground arith;
}
