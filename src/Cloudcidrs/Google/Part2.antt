-- ===== src/Cloudcidrs/Google/Part2.antt =====
-- pkg/net/cloudcidrs/zz_generated_range_data.go: the regions of Google's cloud from asia-south1 to australia-southeast1.
use registry_k8s_io.Cidrs.Mapping.{Mapping}
use registry_k8s_io.Cloudcidrs.{IpInfo, gcp}
use registry_k8s_io.Cloudcidrs.Literals.{v4, v6, is_gcp_entry}
use registry_k8s_io.Netip.{Prefix}
use registry_k8s_io.Prelude.{◌≡◌, refl, true, all, List, [], ◌∷◌, codes}

abbrev gcp_asia_south1 : List Prefix
gcp_asia_south1 =
    v4 136 83 128 0 17
    ∷ v4 136 95 0 0 16
    ∷ v6 0x2600 0x1900 0x40a0 0x0 0x0 0x0 0x0 0x0 44
    ∷ v4 34 0 227 0 24
    ∷ v4 34 100 128 0 17
    ∷ v4 34 104 108 0 23
    ∷ v4 34 124 44 0 23
    ∷ v4 34 14 128 0 18
    ∷ v4 34 14 192 0 19
    ∷ v4 34 152 106 0 23
    ∷ v4 34 152 64 0 22
    ∷ v4 34 153 250 0 23
    ∷ v4 34 153 58 0 23
    ∷ v4 34 157 215 0 24
    ∷ v4 34 157 87 0 24
    ∷ v4 34 177 32 0 22
    ∷ v4 34 177 74 0 23
    ∷ v4 34 180 0 0 18
    ∷ v4 34 183 106 0 23
    ∷ v4 34 183 36 0 24
    ∷ v4 34 184 106 0 23
    ∷ v4 34 184 35 0 24
    ∷ v4 34 47 128 0 17
    ∷ v4 34 93 0 0 16
    ∷ v4 35 200 128 0 17
    ∷ v4 35 201 41 0 24
    ∷ v4 35 207 192 0 18
    ∷ v4 35 220 42 0 24
    ∷ v4 35 234 208 0 20
    ∷ v4 35 242 42 0 24
    ∷ v4 35 244 0 0 18
    ∷ v4 8 231 64 0 18
    ∷ v4 8 234 64 0 18
    ∷ []

abbrev gcp_asia_south2 : List Prefix
gcp_asia_south2 =
    v6 0x2600 0x1900 0x41b0 0x0 0x0 0x0 0x0 0x0 44
    ∷ v4 34 0 0 0 20
    ∷ v4 34 104 120 0 23
    ∷ v4 34 124 56 0 23
    ∷ v4 34 126 208 0 20
    ∷ v4 34 131 0 0 16
    ∷ v4 34 152 98 128 25
    ∷ v4 34 153 224 0 24
    ∷ v4 34 153 32 0 24
    ∷ v4 34 177 66 128 25
    ∷ v4 34 183 28 0 24
    ∷ v4 34 183 3 0 25
    ∷ v4 34 184 23 0 24
    ∷ v4 34 184 3 0 25
    ∷ v4 34 4 24 0 22
    ∷ []

abbrev gcp_asia_southeast1 : List Prefix
gcp_asia_southeast1 =
    v4 136 110 0 0 18
    ∷ v4 136 85 0 0 17
    ∷ v4 136 92 128 0 17
    ∷ v6 0x2600 0x1900 0x4080 0x0 0x0 0x0 0x0 0x0 44
    ∷ v4 34 1 128 0 20
    ∷ v4 34 1 192 0 20
    ∷ v4 34 104 106 0 23
    ∷ v4 34 104 58 0 23
    ∷ v4 34 124 128 0 17
    ∷ v4 34 124 42 0 23
    ∷ v4 34 126 128 0 18
    ∷ v4 34 126 64 0 18
    ∷ v4 34 128 44 0 23
    ∷ v4 34 128 60 0 23
    ∷ v4 34 142 128 0 17
    ∷ v4 34 143 128 0 17
    ∷ v4 34 152 104 0 23
    ∷ v4 34 153 232 0 23
    ∷ v4 34 153 40 0 23
    ∷ v4 34 157 210 0 23
    ∷ v4 34 157 82 0 23
    ∷ v4 34 157 88 0 23
    ∷ v4 34 158 32 0 19
    ∷ v4 34 177 72 0 23
    ∷ v4 34 177 80 0 20
    ∷ v4 34 177 96 0 20
    ∷ v4 34 183 80 0 24
    ∷ v4 34 184 75 0 24
    ∷ v4 34 2 128 0 17
    ∷ v4 34 2 16 0 20
    ∷ v4 34 21 128 0 17
    ∷ v4 34 87 0 0 17
    ∷ v4 34 87 128 0 18
    ∷ v4 35 185 176 0 20
    ∷ v4 35 186 144 0 20
    ∷ v4 35 187 224 0 19
    ∷ v4 35 197 128 0 19
    ∷ v4 35 198 192 0 18
    ∷ v4 35 213 128 0 18
    ∷ v4 35 220 24 0 23
    ∷ v4 35 234 192 0 20
    ∷ v4 35 240 128 0 17
    ∷ v4 35 242 24 0 23
    ∷ v4 35 247 128 0 18
    ∷ []

abbrev gcp_asia_southeast2 : List Prefix
gcp_asia_southeast2 =
    v6 0x2600 0x1901 0x8170 0x0 0x0 0x0 0x0 0x0 44
    ∷ v4 34 101 128 0 17
    ∷ v4 34 101 18 0 24
    ∷ v4 34 101 20 0 22
    ∷ v4 34 101 24 0 22
    ∷ v4 34 101 32 0 19
    ∷ v4 34 101 64 0 18
    ∷ v4 34 128 64 0 18
    ∷ v4 34 152 68 0 24
    ∷ v4 34 153 236 0 24
    ∷ v4 34 153 44 0 24
    ∷ v4 34 157 254 0 24
    ∷ v4 34 183 111 0 24
    ∷ v4 34 184 110 0 24
    ∷ v4 34 34 216 0 21
    ∷ v4 34 50 64 0 18
    ∷ v4 35 219 0 0 17
    ∷ []

abbrev gcp_asia_southeast3 : List Prefix
gcp_asia_southeast3 =
    v6 0x2600 0x1900 0x42e0 0x0 0x0 0x0 0x0 0x0 44
    ∷ v4 34 15 128 0 17
    ∷ v4 34 183 6 0 23
    ∷ v4 34 184 6 0 23
    ∷ v4 34 3 32 0 20
    ∷ []

abbrev gcp_australia_southeast1 : List Prefix
gcp_australia_southeast1 =
    v6 0x2600 0x1900 0x40b0 0x0 0x0 0x0 0x0 0x0 44
    ∷ v4 34 104 104 0 23
    ∷ v4 34 116 64 0 18
    ∷ v4 34 124 40 0 23
    ∷ v4 34 128 36 0 24
    ∷ v4 34 128 48 0 24
    ∷ v4 34 151 128 0 18
    ∷ v4 34 151 64 0 18
    ∷ v4 34 153 252 0 25
    ∷ v4 34 153 62 0 25
    ∷ v4 34 183 119 0 24
    ∷ v4 34 183 2 0 24
    ∷ v4 34 183 59 0 24
    ∷ v4 34 184 118 0 24
    ∷ v4 34 184 2 0 24
    ∷ v4 34 184 58 0 24
    ∷ v4 34 40 128 0 17
    ∷ v4 34 87 192 0 18
    ∷ v4 35 189 0 0 18
    ∷ v4 35 197 160 0 19
    ∷ v4 35 201 0 0 19
    ∷ v4 35 213 192 0 18
    ∷ v4 35 220 41 0 24
    ∷ v4 35 234 224 0 20
    ∷ v4 35 242 41 0 24
    ∷ v4 35 244 64 0 18
    ∷ []

unfoldable pub gcp_part_2 : Mapping IpInfo
gcp_part_2 =
    (record { cloud = gcp; region = codes "asia-south1" }, gcp_asia_south1)
    ∷ (record { cloud = gcp; region = codes "asia-south2" }, gcp_asia_south2)
    ∷ (record { cloud = gcp; region = codes "asia-southeast1" }, gcp_asia_southeast1)
    ∷ (record { cloud = gcp; region = codes "asia-southeast2" }, gcp_asia_southeast2)
    ∷ (record { cloud = gcp; region = codes "asia-southeast3" }, gcp_asia_southeast3)
    ∷ (record { cloud = gcp; region = codes "australia-southeast1" }, gcp_australia_southeast1)
    ∷ []

pub gcp_part_2_ok : all is_gcp_entry gcp_part_2 ≡ true
unfolding gcp_part_2 is_gcp_entry v4 v6 codes
gcp_part_2_ok = refl
