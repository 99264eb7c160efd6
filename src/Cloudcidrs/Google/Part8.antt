-- ===== src/Cloudcidrs/Google/Part8.antt =====
-- pkg/net/cloudcidrs/zz_generated_range_data.go: the regions of Google's cloud from us-west1 to us-west8.
use registry_k8s_io.Cidrs.Mapping.{Mapping}
use registry_k8s_io.Cloudcidrs.{IpInfo, gcp}
use registry_k8s_io.Cloudcidrs.Literals.{v4, v6, is_gcp_entry}
use registry_k8s_io.Netip.{Prefix}
use registry_k8s_io.Prelude.{◌≡◌, refl, true, all, List, [], ◌∷◌, codes}

abbrev gcp_us_west1 : List Prefix
gcp_us_west1 =
    v4 104 196 224 0 19
    ∷ v4 104 198 0 0 20
    ∷ v4 104 198 96 0 20
    ∷ v4 104 199 112 0 20
    ∷ v4 136 109 0 0 16
    ∷ v4 136 117 0 0 16
    ∷ v4 136 118 0 0 16
    ∷ v4 136 66 0 0 15
    ∷ v4 136 69 128 0 17
    ∷ v4 136 70 0 0 18
    ∷ v4 136 74 0 0 16
    ∷ v4 136 86 128 0 17
    ∷ v4 136 87 0 0 16
    ∷ v6 0x2600 0x1900 0x4040 0x0 0x0 0x0 0x0 0x0 44
    ∷ v4 34 105 0 0 17
    ∷ v4 34 11 128 0 17
    ∷ v4 34 118 192 0 21
    ∷ v4 34 127 0 0 17
    ∷ v4 34 143 64 0 21
    ∷ v4 34 145 0 0 17
    ∷ v4 34 157 112 0 21
    ∷ v4 34 157 240 0 21
    ∷ v4 34 158 240 0 21
    ∷ v4 34 158 8 0 21
    ∷ v4 34 168 0 0 15
    ∷ v4 34 177 112 0 21
    ∷ v4 34 182 0 0 17
    ∷ v4 34 183 113 0 24
    ∷ v4 34 183 124 0 24
    ∷ v4 34 183 24 0 22
    ∷ v4 34 183 58 0 24
    ∷ v4 34 184 112 0 24
    ∷ v4 34 184 123 0 24
    ∷ v4 34 184 24 0 22
    ∷ v4 34 184 55 0 24
    ∷ v4 34 187 128 0 17
    ∷ v4 34 19 0 0 17
    ∷ v4 34 3 96 0 20
    ∷ v4 34 4 104 0 21
    ∷ v4 34 53 0 0 17
    ∷ v4 34 82 0 0 15
    ∷ v4 35 185 192 0 18
    ∷ v4 35 197 0 0 17
    ∷ v4 35 199 144 0 20
    ∷ v4 35 199 160 0 19
    ∷ v4 35 203 128 0 18
    ∷ v4 35 212 128 0 17
    ∷ v4 35 220 48 0 21
    ∷ v4 35 227 128 0 18
    ∷ v4 35 230 0 0 17
    ∷ v4 35 233 128 0 17
    ∷ v4 35 242 48 0 21
    ∷ v4 35 243 32 0 21
    ∷ v4 35 247 0 0 17
    ∷ v4 35 252 128 0 17
    ∷ v4 35 252 64 0 18
    ∷ v4 8 228 248 0 21
    ∷ v4 8 229 0 0 16
    ∷ v4 8 231 128 0 17
    ∷ v4 8 231 48 0 20
    ∷ v4 8 235 0 0 17
    ∷ []

abbrev gcp_us_west2 : List Prefix
gcp_us_west2 =
    v6 0x2600 0x1900 0x4120 0x0 0x0 0x0 0x0 0x0 44
    ∷ v4 34 102 0 0 17
    ∷ v4 34 104 64 0 21
    ∷ v4 34 108 0 0 16
    ∷ v4 34 118 248 0 23
    ∷ v4 34 124 0 0 21
    ∷ v4 34 183 83 0 24
    ∷ v4 34 184 82 0 24
    ∷ v4 34 186 128 0 18
    ∷ v4 34 2 76 0 23
    ∷ v4 34 20 128 0 17
    ∷ v4 34 4 192 0 24
    ∷ v4 34 4 28 0 22
    ∷ v4 34 94 0 0 16
    ∷ v4 35 215 64 0 18
    ∷ v4 35 220 47 0 24
    ∷ v4 35 235 64 0 18
    ∷ v4 35 236 0 0 17
    ∷ v4 35 242 47 0 24
    ∷ v4 35 243 0 0 21
    ∷ []

abbrev gcp_us_west3 : List Prefix
gcp_us_west3 =
    v4 136 86 0 0 17
    ∷ v6 0x2600 0x1900 0x4170 0x0 0x0 0x0 0x0 0x0 44
    ∷ v4 34 104 52 0 24
    ∷ v4 34 106 0 0 16
    ∷ v4 34 127 145 0 24
    ∷ v4 34 127 180 0 24
    ∷ v4 34 152 111 0 24
    ∷ v4 34 177 79 0 24
    ∷ v4 34 185 64 0 18
    ∷ v4 34 22 32 0 19
    ∷ v4 35 217 64 0 18
    ∷ v4 35 220 31 0 24
    ∷ v4 35 242 31 0 24
    ∷ v4 8 228 240 0 21
    ∷ v4 8 234 16 0 24
    ∷ v4 8 234 8 0 21
    ∷ []

abbrev gcp_us_west4 : List Prefix
gcp_us_west4 =
    v4 136 85 128 0 17
    ∷ v6 0x2600 0x1900 0x4180 0x0 0x0 0x0 0x0 0x0 44
    ∷ v4 34 104 72 0 22
    ∷ v4 34 118 240 0 22
    ∷ v4 34 124 8 0 22
    ∷ v4 34 125 0 0 16
    ∷ v4 34 127 146 0 24
    ∷ v4 34 16 128 0 17
    ∷ v4 34 186 0 0 19
    ∷ v4 34 50 160 0 19
    ∷ v4 35 219 128 0 18
    ∷ v4 8 228 0 0 19
    ∷ v4 8 234 17 0 24
    ∷ []

abbrev gcp_us_west8 : List Prefix
gcp_us_west8 =
    v6 0x2600 0x1900 0x4280 0x0 0x0 0x0 0x0 0x0 44
    ∷ v4 34 128 46 0 23
    ∷ v4 34 128 62 0 23
    ∷ v4 34 2 32 0 20
    ∷ v4 34 37 0 0 16
    ∷ []

unfoldable pub gcp_part_8 : Mapping IpInfo
gcp_part_8 =
    (record { cloud = gcp; region = codes "us-west1" }, gcp_us_west1)
    ∷ (record { cloud = gcp; region = codes "us-west2" }, gcp_us_west2)
    ∷ (record { cloud = gcp; region = codes "us-west3" }, gcp_us_west3)
    ∷ (record { cloud = gcp; region = codes "us-west4" }, gcp_us_west4)
    ∷ (record { cloud = gcp; region = codes "us-west8" }, gcp_us_west8)
    ∷ []

pub gcp_part_8_ok : all is_gcp_entry gcp_part_8 ≡ true
unfolding gcp_part_8 is_gcp_entry v4 v6 codes
gcp_part_8_ok = refl
