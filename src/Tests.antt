-- ===== src/Tests.antt =====
-- Concrete addresses, prefixes and a table of three regions, for the examples.
pub mod Mapper
pub mod Redirects
pub mod Process
pub mod Shipped
pub mod Repository
pub mod Copier
pub mod Crowd
pub mod Traffic
pub mod Checks
pub mod Generator
use mathlib.Core.List.{Memᴰ}
use registry_k8s_io.Cidrs.Mapping.{Mapping, entries, AllValid}
use registry_k8s_io.Cloudcidrs.{IpInfo, aws, gcp}
use registry_k8s_io.Netip.{Addr, ipv4, Prefix, IsValid, IsAddr, bit_len, contains, bits}
use registry_k8s_io.Prelude.{◌≡◌, refl, arith, true, List, [], ◌∷◌, Text, codes}

-- 15.193.0.5
abbrev pub aws_address : Addr
aws_address = ipv4 264306693

-- 34.1.2.3
abbrev pub gcp_address : Addr
gcp_address = ipv4 570491395

-- 15.193.0.0/19, 15.193.0.0/24 and 34.0.0.0/15
abbrev pub wide : Prefix
wide = record { addr = ipv4 264306688; bits_plus_one = 20 }

abbrev pub narrow : Prefix
narrow = record { addr = ipv4 264306688; bits_plus_one = 25 }

abbrev pub google : Prefix
google = record { addr = ipv4 570425344; bits_plus_one = 16 }

abbrev pub aws_global : IpInfo
aws_global = record { cloud = aws; region = codes "GLOBAL" }

abbrev pub ap_south_1 : IpInfo
ap_south_1 = record { cloud = aws; region = codes "ap-south-1" }

abbrev pub google_region : IpInfo
google_region = record { cloud = gcp; region = codes "us-central1" }

abbrev pub table : Mapping IpInfo
table = (ap_south_1, narrow ∷ []) ∷ (google_region, google ∷ []) ∷ (aws_global, wide ∷ []) ∷ []

-- The same table in another order.
abbrev pub table_reversed : Mapping IpInfo
table_reversed =
    (aws_global, wide ∷ []) ∷ (google_region, google ∷ []) ∷ (ap_south_1, narrow ∷ []) ∷ []

-- A table that one region's prefixes contain the AWS address of.
abbrev pub small : Mapping IpInfo
small = (google_region, google ∷ []) ∷ (aws_global, wide ∷ []) ∷ []

abbrev pub small_reversed : Mapping IpInfo
small_reversed = (aws_global, wide ∷ []) ∷ (google_region, google ∷ []) ∷ []

pub wide-IsValid : IsValid wide
unfolding bit_len
wide-IsValid = record {
  in_range = omega arith;
  family = omega arith;
  some_bits = omega arith;
  bits_fit = omega arith;
}

pub narrow-IsValid : IsValid narrow
unfolding bit_len
narrow-IsValid = record {
  in_range = omega arith;
  family = omega arith;
  some_bits = omega arith;
  bits_fit = omega arith;
}

pub google-IsValid : IsValid google
unfolding bit_len
google-IsValid = record {
  in_range = omega arith;
  family = omega arith;
  some_bits = omega arith;
  bits_fit = omega arith;
}

pub aws_address-IsAddr : IsAddr aws_address
aws_address-IsAddr = omega arith

pub gcp_address-IsAddr : IsAddr gcp_address
gcp_address-IsAddr = omega arith

pub table-AllValid : AllValid (entries table)
unfolding entries
table-AllValid = (narrow-IsValid, (google-IsValid, (wide-IsValid, tt)))

pub table_reversed-AllValid : AllValid (entries table_reversed)
unfolding entries
table_reversed-AllValid = (wide-IsValid, (google-IsValid, (narrow-IsValid, tt)))

pub small-AllValid : AllValid (entries small)
unfolding entries
small-AllValid = (google-IsValid, (wide-IsValid, tt))
