-- ===== src/Cloudcidrs/Google/Part4.antt =====
-- pkg/net/cloudcidrs/zz_generated_range_data.go: the regions of Google's cloud from europe-west2 to europe-west9.
use registry_k8s_io.Cidrs.Mapping.{Mapping}
use registry_k8s_io.Cloudcidrs.{IpInfo, gcp}
use registry_k8s_io.Cloudcidrs.Literals.{v4, v6, is_gcp_entry}
use registry_k8s_io.Netip.{Prefix}
use registry_k8s_io.Prelude.{◌≡◌, refl, true, all, List, [], ◌∷◌, codes}

abbrev gcp_europe_west2 : List Prefix
gcp_europe_west2 =
    v6 0x2600 0x1900 0x40c0 0x0 0x0 0x0 0x0 0x0 44
    ∷ v4 34 105 128 0 17
    ∷ v4 34 127 186 0 23
    ∷ v4 34 128 224 0 20
    ∷ v4 34 128 52 0 22
    ∷ v4 34 13 0 0 18
    ∷ v4 34 142 0 0 17
    ∷ v4 34 147 128 0 17
    ∷ v4 34 153 128 0 18
    ∷ v4 34 153 254 0 23
    ∷ v4 34 157 168 0 22
    ∷ v4 34 157 36 0 22
    ∷ v4 34 157 40 0 22
    ∷ v4 34 183 116 0 23
    ∷ v4 34 183 50 0 23
    ∷ v4 34 183 8 0 23
    ∷ v4 34 184 114 0 23
    ∷ v4 34 184 52 0 23
    ∷ v4 34 184 8 0 23
    ∷ v4 34 39 0 0 17
    ∷ v4 34 4 48 0 20
    ∷ v4 34 50 192 0 18
    ∷ v4 34 89 0 0 17
    ∷ v4 35 189 64 0 18
    ∷ v4 35 197 192 0 18
    ∷ v4 35 203 210 0 23
    ∷ v4 35 203 212 0 22
    ∷ v4 35 203 216 0 22
    ∷ v4 35 214 0 0 17
    ∷ v4 35 220 20 0 22
    ∷ v4 35 230 128 0 19
    ∷ v4 35 234 128 0 19
    ∷ v4 35 235 48 0 20
    ∷ v4 35 242 128 0 18
    ∷ v4 35 242 20 0 22
    ∷ v4 35 246 0 0 17
    ∷ v4 8 228 32 0 19
    ∷ []

abbrev gcp_europe_west3 : List Prefix
gcp_europe_west3 =
    v4 136 77 128 0 17
    ∷ v4 136 92 0 0 17
    ∷ v6 0x2600 0x1900 0x40d0 0x0 0x0 0x0 0x0 0x0 44
    ∷ v4 34 0 224 0 24
    ∷ v4 34 0 226 0 24
    ∷ v4 34 104 112 0 23
    ∷ v4 34 107 0 0 17
    ∷ v4 34 118 244 0 22
    ∷ v4 34 124 48 0 23
    ∷ v4 34 141 0 0 17
    ∷ v4 34 157 176 0 20
    ∷ v4 34 157 48 0 20
    ∷ v4 34 159 0 0 16
    ∷ v4 34 179 0 0 16
    ∷ v4 34 181 0 0 17
    ∷ v4 34 183 37 0 24
    ∷ v4 34 183 82 0 24
    ∷ v4 34 184 54 0 24
    ∷ v4 34 184 81 0 24
    ∷ v4 34 185 128 0 17
    ∷ v4 34 40 0 0 17
    ∷ v4 34 89 128 0 17
    ∷ v4 35 198 128 0 18
    ∷ v4 35 198 64 0 18
    ∷ v4 35 207 128 0 18
    ∷ v4 35 207 64 0 18
    ∷ v4 35 220 18 0 23
    ∷ v4 35 234 64 0 18
    ∷ v4 35 235 32 0 20
    ∷ v4 35 242 18 0 23
    ∷ v4 35 242 192 0 18
    ∷ v4 35 246 128 0 17
    ∷ []

abbrev gcp_europe_west4 : List Prefix
gcp_europe_west4 =
    v6 0x2600 0x1900 0x4060 0x0 0x0 0x0 0x0 0x0 44
    ∷ v4 34 1 224 0 19
    ∷ v4 34 104 126 0 23
    ∷ v4 34 12 0 0 16
    ∷ v4 34 124 62 0 23
    ∷ v4 34 13 128 0 17
    ∷ v4 34 141 128 0 17
    ∷ v4 34 147 0 0 17
    ∷ v4 34 153 237 0 24
    ∷ v4 34 153 253 0 24
    ∷ v4 34 153 45 0 24
    ∷ v4 34 153 63 0 24
    ∷ v4 34 157 208 0 23
    ∷ v4 34 157 220 0 22
    ∷ v4 34 157 80 0 23
    ∷ v4 34 157 92 0 22
    ∷ v4 34 158 128 0 18
    ∷ v4 34 158 64 0 18
    ∷ v4 34 178 0 0 16
    ∷ v4 34 183 120 0 23
    ∷ v4 34 183 32 0 24
    ∷ v4 34 183 70 0 24
    ∷ v4 34 184 120 0 23
    ∷ v4 34 184 31 0 24
    ∷ v4 34 184 69 0 24
    ∷ v4 34 187 0 0 17
    ∷ v4 34 3 80 0 20
    ∷ v4 34 32 128 0 17
    ∷ v4 34 34 0 0 17
    ∷ v4 34 4 80 0 20
    ∷ v4 34 6 0 0 15
    ∷ v4 34 90 0 0 15
    ∷ v4 35 204 0 0 16
    ∷ v4 35 214 128 0 17
    ∷ v4 35 220 16 0 23
    ∷ v4 35 234 160 0 20
    ∷ v4 35 242 16 0 23
    ∷ []

abbrev gcp_europe_west6 : List Prefix
gcp_europe_west6 =
    v6 0x2600 0x1900 0x4160 0x0 0x0 0x0 0x0 0x0 44
    ∷ v4 34 104 110 0 23
    ∷ v4 34 124 46 0 23
    ∷ v4 34 158 16 0 20
    ∷ v4 34 183 109 0 24
    ∷ v4 34 184 108 0 24
    ∷ v4 34 65 0 0 16
    ∷ v4 35 216 128 0 17
    ∷ v4 35 220 44 0 24
    ∷ v4 35 235 216 0 21
    ∷ v4 35 242 44 0 24
    ∷ []

abbrev gcp_europe_west8 : List Prefix
gcp_europe_west8 =
    v6 0x2600 0x1901 0x8110 0x0 0x0 0x0 0x0 0x0 44
    ∷ v4 34 0 160 0 19
    ∷ v4 34 153 230 0 24
    ∷ v4 34 153 38 0 24
    ∷ v4 34 154 0 0 16
    ∷ v4 34 157 121 0 24
    ∷ v4 34 157 123 0 25
    ∷ v4 34 157 136 0 23
    ∷ v4 34 157 219 0 25
    ∷ v4 34 157 249 0 24
    ∷ v4 34 157 8 0 23
    ∷ v4 34 183 0 0 24
    ∷ v4 34 183 108 0 24
    ∷ v4 34 184 0 0 24
    ∷ v4 34 184 105 0 24
    ∷ v4 35 219 224 0 19
    ∷ []

abbrev gcp_europe_west9 : List Prefix
gcp_europe_west9 =
    v6 0x2600 0x1901 0x8120 0x0 0x0 0x0 0x0 0x0 44
    ∷ v4 34 1 0 0 20
    ∷ v4 34 155 0 0 16
    ∷ v4 34 157 12 0 22
    ∷ v4 34 157 140 0 22
    ∷ v4 34 163 0 0 16
    ∷ v4 34 183 73 0 24
    ∷ v4 34 184 72 0 24
    ∷ []

unfoldable pub gcp_part_4 : Mapping IpInfo
gcp_part_4 =
    (record { cloud = gcp; region = codes "europe-west2" }, gcp_europe_west2)
    ∷ (record { cloud = gcp; region = codes "europe-west3" }, gcp_europe_west3)
    ∷ (record { cloud = gcp; region = codes "europe-west4" }, gcp_europe_west4)
    ∷ (record { cloud = gcp; region = codes "europe-west6" }, gcp_europe_west6)
    ∷ (record { cloud = gcp; region = codes "europe-west8" }, gcp_europe_west8)
    ∷ (record { cloud = gcp; region = codes "europe-west9" }, gcp_europe_west9)
    ∷ []

pub gcp_part_4_ok : all is_gcp_entry gcp_part_4 ≡ true
unfolding gcp_part_4 is_gcp_entry v4 v6 codes
gcp_part_4_ok = refl
