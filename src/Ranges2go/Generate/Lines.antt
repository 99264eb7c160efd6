-- ===== src/Ranges2go/Generate/Lines.antt =====
-- pkg/net/cloudcidrs/internal/ranges2go/gen.go: the line of a prefix stands for the prefix.
use native.Mathlib.Nat.{div-one}
use registry_k8s_io.Prelude.Bits.{div_pow_add}
use registry_k8s_io.GoText.Fields.{fields_from, fields_func}
use registry_k8s_io.Netip.{
  Addr, invalid, ipv4, ipv6, Prefix, IsAddr, IsValid, is_4, as_4, as_16, addr_value, bits, bit_len,
  has_zone, without_zone, prefix_from,
}
use registry_k8s_io.Prelude.{
  ℕ, zero, suc, ◌+◌, ◌-◌, ◌*◌, ◌/◌, ◌%◌, ◌^◌, ◌<◌, ◌≤◌, ◌≡◌, ◌∙◌, refl, sym, ap, ap₂, arith, false,
  eqb, Option, none, some, List, [], ◌∷◌, ◌++◌, Text, codes, if◌then◌else◌,
}
use registry_k8s_io.Ranges2go.Generate.{address_bytes, bits_text, prefix_line, with_commas, decimal}
use registry_k8s_io.Ranges2go.Generate.Decimals.{
  numbers, read_decimal, numbers-decimal, numbers-append, numbers-with_commas,
}

-- The bytes of an address, joined, and the number that follows them.
unfoldable pub read_bytes : ℕ → ℕ → List ℕ → ℕ × ℕ
read_bytes value last [] = (value, last)
read_bytes value last (n ∷ l) = read_bytes (value * 256 + last) n l

-- `netip.PrefixFrom` of an address that `AddrFrom4` or `AddrFrom16` makes, by the numbers of a line:
-- the name of the function and the type of its argument have the number of bytes.
unfoldable pub read_prefix : List ℕ → Option Prefix
unfolding read_bytes
read_prefix (length ∷ _ ∷ first ∷ l) =
    let (value, last) = read_bytes 0 first l in
    some (prefix_from (if eqb length 4 then ipv4 value else ipv6 value []) last)
read_prefix _ = none

-- Big-endian bytes.
abbrev bytes : ℕ → ℕ → List ℕ
bytes v zero = []
bytes v (suc k) = v / 2 ^ (8 * k) % 256 ∷ bytes v k

next_byte : (v k : ℕ) → v / 2 ^ (8 * suc k) * 256 + v / 2 ^ (8 * k) % 256 ≡ v / 2 ^ (8 * k)
next_byte v k = ap (λ (x : ℕ). x * 256 + v / 2 ^ (8 * k) % 256) shorter ∙ whole (v / 2 ^ (8 * k))
  where
    shorter : v / 2 ^ (8 * suc k) ≡ v / 2 ^ (8 * k) / 256
    shorter = ap (λ (m : ℕ). v / 2 ^ m) (omega arith) ∙ sym (div_pow_add v (8 * k) 8)

    whole : (q : ℕ) → q / 256 * 256 + q % 256 ≡ q
    whole q = omega arith

read_bytes-bytes :
    (v k value last n : ℕ)
    → value * 256 + last ≡ v / 2 ^ (8 * k)
    → read_bytes value last (bytes v k ++ n ∷ []) ≡ (v, n)
unfolding read_bytes
read_bytes-bytes v zero value last n h = ap (λ x. (x, n)) (h ∙ div-one v)
read_bytes-bytes v (suc k) value last n h =
    read_bytes-bytes v k (value * 256 + last) (v / 2 ^ (8 * k) % 256) n
      (ap (λ (x : ℕ). x * 256 + v / 2 ^ (8 * k) % 256) h ∙ next_byte v k)

-- The numbers of a line, with those of its template first.
numbers-rest :
    (l : List ℕ) (bits : ℕ)
    → numbers (with_commas l ++ (codes "}), " ++ (decimal bits ++ codes "),\n"))) ≡ l ++ bits ∷ []
unfolding codes numbers fields_func fields_from
numbers-rest l bits =
    numbers-append (with_commas l) (codes "), " ++ (decimal bits ++ codes "),\n")) b'}' refl
    ∙ ap₂ (λ x y. x ++ y) (numbers-with_commas l)
        (numbers-append [] (codes ", " ++ (decimal bits ++ codes "),\n")) b')' refl
          ∙ numbers-append [] (codes " " ++ (decimal bits ++ codes "),\n")) b',' refl
          ∙ numbers-append [] (decimal bits ++ codes "),\n") b' ' refl
          ∙ numbers-append (decimal bits) (codes ",\n") b')' refl
          ∙ ap (λ x. x ++ []) (numbers-decimal bits))

numbers-line_4 :
    (t : Text)
    → numbers (codes "\t\tnetip.PrefixFrom(netip.AddrFrom4([4]byte{" ++ t) ≡ 4 ∷ 4 ∷ numbers t
unfolding codes numbers fields_func fields_from read_decimal
numbers-line_4 t = numbers-append (codes "\t\tnetip.PrefixFrom(netip.AddrFrom4([4]byte") t b'{' refl

numbers-line_16 :
    (t : Text)
    → numbers (codes "\t\tnetip.PrefixFrom(netip.AddrFrom16([16]byte{" ++ t) ≡ 16 ∷ 16 ∷ numbers t
unfolding codes numbers fields_func fields_from read_decimal
numbers-line_16 t =
    numbers-append (codes "\t\tnetip.PrefixFrom(netip.AddrFrom16([16]byte") t b'{' refl

bits_text-valid : (p : Prefix) → 0 < p.bits_plus_one → bits_text p ≡ decimal (bits p)
unfolding bits_text
bits_text-valid p h = ground arith

prefix_from-bits :
    (a : Addr) (b : ℕ)
    → 0 < bit_len a
    → 0 < b
    → b ≤ bit_len a + 1
    → has_zone a ≡ false
    → prefix_from a (b - 1) ≡ record { addr = a; bits_plus_one = b }
unfolding prefix_from without_zone has_zone bit_len
prefix_from-bits invalid b l h k z = absurd (omega arith)
prefix_from-bits (ipv4 n) b l h k z =
    ap (λ (x : ℕ). record { addr = ipv4 n; bits_plus_one = x }) (ground arith)
prefix_from-bits (ipv6 n []) b l h k z =
    ap (λ (x : ℕ). record { addr = ipv6 n []; bits_plus_one = x }) (ground arith)
prefix_from-bits (ipv6 n (x ∷ zone)) b l h k z = absurd cc

-- The numbers of the line of a valid prefix, given to `PrefixFrom` and `AddrFrom4` or `AddrFrom16`,
-- make the prefix again, if it has no zone.
pub read_prefix-prefix_line :
    (p : Prefix)
    → IsValid p
    → has_zone p.addr ≡ false
    → read_prefix (numbers (prefix_line p)) ≡ some p
unfolding prefix_line read_prefix read_bytes address_bytes is_4 as_4 as_16 addr_value bit_len
    has_zone bits
read_prefix-prefix_line p v z =
    go p.addr p.bits_plus_one v.in_range v.family v.some_bits v.bits_fit z
  where
    go :
        (a : Addr) (b : ℕ)
        → IsAddr a
        → 0 < bit_len a
        → 0 < b
        → b ≤ bit_len a + 1
        → has_zone a ≡ false
        → read_prefix (numbers (prefix_line (record { addr = a; bits_plus_one = b })))
          ≡ some (record { addr = a; bits_plus_one = b })
    go invalid b r l h k z' = absurd (omega arith)
    go (ipv4 n) b r l h k z' =
        let p' : Prefix = record { addr = ipv4 n; bits_plus_one = b } in
        ap read_prefix (
          numbers-line_4
            (with_commas (bytes n 4) ++ (codes "}), " ++ (bits_text p' ++ codes "),\n")))
          ∙ ap
              (λ t.
                4 ∷ 4 ∷ numbers (with_commas (bytes n 4) ++ (codes "}), " ++ (t ++ codes "),\n"))))
              (bits_text-valid p' h)
          ∙ ap (λ t. 4 ∷ 4 ∷ t) (numbers-rest (bytes n 4) (b - 1)))
        ∙ ap (λ (r : ℕ × ℕ). some (prefix_from (ipv4 r.0) r.1))
            (read_bytes-bytes n 3 0 (n / 2 ^ 24 % 256) (b - 1) (omega arith))
        ∙ ap some (prefix_from-bits (ipv4 n) b l h k z')
    go (ipv6 n (x ∷ zone)) b r l h k z' = absurd cc
    go (ipv6 n []) b r l h k z' =
        let p' : Prefix = record { addr = ipv6 n []; bits_plus_one = b } in
        ap read_prefix (
          numbers-line_16
            (with_commas (bytes n 16) ++ (codes "}), " ++ (bits_text p' ++ codes "),\n")))
          ∙ ap
              (λ t.
                16
                ∷ 16
                ∷ numbers (with_commas (bytes n 16) ++ (codes "}), " ++ (t ++ codes "),\n"))))
              (bits_text-valid p' h)
          ∙ ap (λ t. 16 ∷ 16 ∷ t) (numbers-rest (bytes n 16) (b - 1)))
        ∙ ap (λ (r : ℕ × ℕ). some (prefix_from (ipv6 r.0 []) r.1))
            (read_bytes-bytes n 15 0 (n / 2 ^ 120 % 256) (b - 1) (omega arith))
        ∙ ap some (prefix_from-bits (ipv6 n []) b l h k z')
