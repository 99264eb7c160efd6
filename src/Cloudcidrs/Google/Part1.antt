-- ===== src/Cloudcidrs/Google/Part1.antt =====
-- pkg/net/cloudcidrs/zz_generated_range_data.go: the regions of Google's cloud from africa-south1 to asia-northeast3.
use registry_k8s_io.Cidrs.Mapping.{Mapping}
use registry_k8s_io.Cloudcidrs.{IpInfo, gcp}
use registry_k8s_io.Cloudcidrs.Literals.{v4, v6, is_gcp_entry}
use registry_k8s_io.Netip.{Prefix}
use registry_k8s_io.Prelude.{◌≡◌, refl, true, all, List, [], ◌∷◌, codes}

abbrev gcp_africa_south1 : List Prefix
gcp_africa_south1 =
    v6 0x2600 0x1900 0x8000 0x0 0x0 0x0 0x0 0x0 44
    ∷ v4 34 1 208 0 20
    ∷ v4 34 152 86 0 23
    ∷ v4 34 177 50 0 23
    ∷ v4 34 183 123 0 24
    ∷ v4 34 184 122 0 24
    ∷ v4 34 35 0 0 16
    ∷ []

abbrev gcp_asia_east1 : List Prefix
gcp_asia_east1 =
    v4 104 155 192 0 19
    ∷ v4 104 155 224 0 20
    ∷ v4 104 199 128 0 18
    ∷ v4 104 199 192 0 19
    ∷ v4 104 199 224 0 20
    ∷ v4 104 199 242 0 23
    ∷ v4 104 199 244 0 22
    ∷ v4 104 199 248 0 21
    ∷ v4 107 167 176 0 20
    ∷ v4 130 211 240 0 20
    ∷ v6 0x2600 0x1900 0x4030 0x0 0x0 0x0 0x0 0x0 44
    ∷ v4 34 137 0 0 16
    ∷ v4 34 183 104 0 24
    ∷ v4 34 183 71 0 24
    ∷ v4 34 184 70 0 24
    ∷ v4 34 184 83 0 24
    ∷ v4 34 80 0 0 15
    ∷ v4 35 185 128 0 19
    ∷ v4 35 185 160 0 20
    ∷ v4 35 187 144 0 20
    ∷ v4 35 189 160 0 19
    ∷ v4 35 194 128 0 17
    ∷ v4 35 201 128 0 17
    ∷ v4 35 206 192 0 18
    ∷ v4 35 220 32 0 21
    ∷ v4 35 221 128 0 17
    ∷ v4 35 229 128 0 17
    ∷ v4 35 234 0 0 18
    ∷ v4 35 235 16 0 20
    ∷ v4 35 236 128 0 18
    ∷ v4 35 242 32 0 21
    ∷ []

abbrev gcp_asia_east2 : List Prefix
gcp_asia_east2 =
    v6 0x2600 0x1900 0x41a0 0x0 0x0 0x0 0x0 0x0 44
    ∷ v4 34 104 88 0 21
    ∷ v4 34 124 24 0 21
    ∷ v4 34 150 0 0 17
    ∷ v4 34 92 0 0 16
    ∷ v4 34 96 128 0 17
    ∷ v4 35 215 128 0 18
    ∷ v4 35 220 128 0 17
    ∷ v4 35 220 27 0 24
    ∷ v4 35 241 64 0 18
    ∷ v4 35 242 27 0 24
    ∷ v4 35 243 8 0 21
    ∷ []

abbrev gcp_asia_northeast1 : List Prefix
gcp_asia_northeast1 =
    v4 104 198 112 0 20
    ∷ v4 104 198 80 0 20
    ∷ v4 136 110 64 0 18
    ∷ v6 0x2600 0x1900 0x4050 0x0 0x0 0x0 0x0 0x0 44
    ∷ v4 34 104 128 0 17
    ∷ v4 34 104 62 0 23
    ∷ v4 34 127 190 0 23
    ∷ v4 34 146 0 0 16
    ∷ v4 34 153 192 0 19
    ∷ v4 34 157 164 0 22
    ∷ v4 34 157 192 0 20
    ∷ v4 34 157 64 0 20
    ∷ v4 34 180 64 0 18
    ∷ v4 34 84 0 0 16
    ∷ v4 34 85 0 0 17
    ∷ v4 35 187 192 0 19
    ∷ v4 35 189 128 0 19
    ∷ v4 35 190 224 0 20
    ∷ v4 35 194 96 0 19
    ∷ v4 35 200 0 0 17
    ∷ v4 35 213 0 0 17
    ∷ v4 35 220 56 0 22
    ∷ v4 35 221 64 0 18
    ∷ v4 35 230 240 0 20
    ∷ v4 35 242 56 0 22
    ∷ v4 35 243 64 0 18
    ∷ []

abbrev gcp_asia_northeast2 : List Prefix
gcp_asia_northeast2 =
    v6 0x2600 0x1900 0x41d0 0x0 0x0 0x0 0x0 0x0 44
    ∷ v4 34 104 49 0 24
    ∷ v4 34 127 177 0 24
    ∷ v4 34 152 100 0 24
    ∷ v4 34 177 68 0 24
    ∷ v4 34 97 0 0 16
    ∷ v4 35 217 128 0 17
    ∷ v4 35 220 45 0 24
    ∷ v4 35 242 45 0 24
    ∷ v4 35 243 56 0 21
    ∷ []

abbrev gcp_asia_northeast3 : List Prefix
gcp_asia_northeast3 =
    v6 0x2600 0x1901 0x8180 0x0 0x0 0x0 0x0 0x0 44
    ∷ v4 34 0 96 0 19
    ∷ v4 34 152 96 0 24
    ∷ v4 34 158 192 0 19
    ∷ v4 34 177 64 0 24
    ∷ v4 34 183 72 0 24
    ∷ v4 34 184 71 0 24
    ∷ v4 34 22 64 0 19
    ∷ v4 34 22 96 0 20
    ∷ v4 34 4 128 0 18
    ∷ v4 34 47 64 0 18
    ∷ v4 34 50 0 0 18
    ∷ v4 34 64 128 0 22
    ∷ v4 34 64 132 0 22
    ∷ v4 34 64 136 0 21
    ∷ v4 34 64 144 0 20
    ∷ v4 34 64 160 0 19
    ∷ v4 34 64 192 0 18
    ∷ v4 34 64 32 0 19
    ∷ v4 34 64 64 0 22
    ∷ v4 34 64 68 0 22
    ∷ v4 34 64 72 0 21
    ∷ v4 34 64 80 0 20
    ∷ v4 34 64 96 0 19
    ∷ v4 35 216 0 0 17
    ∷ v4 8 228 128 0 18
    ∷ v4 8 230 0 0 19
    ∷ []

unfoldable pub gcp_part_1 : Mapping IpInfo
gcp_part_1 =
    (record { cloud = gcp; region = codes "africa-south1" }, gcp_africa_south1)
    ∷ (record { cloud = gcp; region = codes "asia-east1" }, gcp_asia_east1)
    ∷ (record { cloud = gcp; region = codes "asia-east2" }, gcp_asia_east2)
    ∷ (record { cloud = gcp; region = codes "asia-northeast1" }, gcp_asia_northeast1)
    ∷ (record { cloud = gcp; region = codes "asia-northeast2" }, gcp_asia_northeast2)
    ∷ (record { cloud = gcp; region = codes "asia-northeast3" }, gcp_asia_northeast3)
    ∷ []

pub gcp_part_1_ok : all is_gcp_entry gcp_part_1 ≡ true
unfolding gcp_part_1 is_gcp_entry v4 v6 codes
gcp_part_1_ok = refl
