-- ===== src/Cloudcidrs/Google/Part6.antt =====
-- pkg/net/cloudcidrs/zz_generated_range_data.go: the regions of Google's cloud from southamerica-east1 to us-central2.
use registry_k8s_io.Cidrs.Mapping.{Mapping}
use registry_k8s_io.Cloudcidrs.{IpInfo, gcp}
use registry_k8s_io.Cloudcidrs.Literals.{v4, v6, is_gcp_entry}
use registry_k8s_io.Netip.{Prefix}
use registry_k8s_io.Prelude.{◌≡◌, refl, true, all, List, [], ◌∷◌, codes}

abbrev gcp_southamerica_east1 : List Prefix
gcp_southamerica_east1 =
    v4 136 83 64 0 18
    ∷ v6 0x2600 0x1900 0x40f0 0x0 0x0 0x0 0x0 0x0 44
    ∷ v4 34 104 80 0 21
    ∷ v4 34 124 16 0 21
    ∷ v4 34 151 0 0 18
    ∷ v4 34 151 192 0 18
    ∷ v4 34 39 128 0 17
    ∷ v4 34 95 128 0 17
    ∷ v4 35 198 0 0 18
    ∷ v4 35 199 64 0 18
    ∷ v4 35 215 192 0 18
    ∷ v4 35 220 40 0 24
    ∷ v4 35 235 0 0 20
    ∷ v4 35 242 40 0 24
    ∷ v4 35 247 192 0 18
    ∷ []

abbrev gcp_southamerica_west1 : List Prefix
gcp_southamerica_west1 =
    v6 0x2600 0x1901 0x4010 0x0 0x0 0x0 0x0 0x0 44
    ∷ v4 34 0 48 0 20
    ∷ v4 34 104 50 0 23
    ∷ v4 34 127 178 0 23
    ∷ v4 34 152 98 0 25
    ∷ v4 34 153 225 0 24
    ∷ v4 34 153 33 0 24
    ∷ v4 34 157 122 0 25
    ∷ v4 34 157 218 0 25
    ∷ v4 34 176 0 0 16
    ∷ v4 34 177 66 0 25
    ∷ v4 34 183 1 0 24
    ∷ v4 34 183 110 0 24
    ∷ v4 34 184 1 0 24
    ∷ v4 34 184 109 0 24
    ∷ []

abbrev gcp_us_central1 : List Prefix
gcp_us_central1 =
    v4 104 154 113 0 24
    ∷ v4 104 154 114 0 23
    ∷ v4 104 154 116 0 22
    ∷ v4 104 154 120 0 23
    ∷ v4 104 154 128 0 17
    ∷ v4 104 154 16 0 20
    ∷ v4 104 154 32 0 19
    ∷ v4 104 154 64 0 19
    ∷ v4 104 154 96 0 20
    ∷ v4 104 155 128 0 18
    ∷ v4 104 197 0 0 16
    ∷ v4 104 198 128 0 17
    ∷ v4 104 198 16 0 20
    ∷ v4 104 198 32 0 19
    ∷ v4 104 198 64 0 20
    ∷ v4 107 178 208 0 20
    ∷ v4 108 59 80 0 21
    ∷ v4 130 211 112 0 20
    ∷ v4 130 211 128 0 18
    ∷ v4 130 211 192 0 19
    ∷ v4 130 211 224 0 20
    ∷ v4 136 111 0 0 16
    ∷ v4 136 112 0 0 14
    ∷ v4 136 116 0 0 16
    ∷ v4 136 119 0 0 16
    ∷ v4 136 64 0 0 15
    ∷ v4 136 71 0 0 16
    ∷ v4 136 80 0 0 16
    ∷ v4 136 88 0 0 15
    ∷ v4 136 93 0 0 16
    ∷ v4 146 148 32 0 19
    ∷ v4 146 148 64 0 19
    ∷ v4 146 148 96 0 20
    ∷ v4 162 222 176 0 21
    ∷ v4 173 255 112 0 21
    ∷ v4 199 192 115 0 24
    ∷ v4 199 223 232 0 22
    ∷ v4 199 223 236 0 24
    ∷ v4 23 236 48 0 20
    ∷ v4 23 251 144 0 20
    ∷ v6 0x2600 0x1900 0x4000 0x0 0x0 0x0 0x0 0x0 44
    ∷ v4 34 0 225 0 24
    ∷ v4 34 10 0 0 16
    ∷ v4 34 118 200 0 21
    ∷ v4 34 121 0 0 16
    ∷ v4 34 122 0 0 15
    ∷ v4 34 128 32 0 22
    ∷ v4 34 13 68 0 22
    ∷ v4 34 132 0 0 14
    ∷ v4 34 136 0 0 16
    ∷ v4 34 153 240 0 21
    ∷ v4 34 153 48 0 21
    ∷ v4 34 157 212 0 23
    ∷ v4 34 157 224 0 20
    ∷ v4 34 157 84 0 23
    ∷ v4 34 157 96 0 20
    ∷ v4 34 16 0 0 17
    ∷ v4 34 170 0 0 15
    ∷ v4 34 172 0 0 15
    ∷ v4 34 177 52 0 22
    ∷ v4 34 183 16 0 22
    ∷ v4 34 183 40 0 21
    ∷ v4 34 183 52 0 22
    ∷ v4 34 183 76 0 22
    ∷ v4 34 183 96 0 21
    ∷ v4 34 184 16 0 22
    ∷ v4 34 184 40 0 21
    ∷ v4 34 184 48 0 22
    ∷ v4 34 184 76 0 22
    ∷ v4 34 184 96 0 21
    ∷ v4 34 27 0 0 16
    ∷ v4 34 28 0 0 14
    ∷ v4 34 33 0 0 16
    ∷ v4 34 4 96 0 22
    ∷ v4 34 41 0 0 16
    ∷ v4 34 42 0 0 16
    ∷ v4 34 44 0 0 15
    ∷ v4 34 46 0 0 16
    ∷ v4 34 55 0 0 16
    ∷ v4 34 56 0 0 14
    ∷ v4 34 60 0 0 15
    ∷ v4 34 63 0 0 16
    ∷ v4 34 66 0 0 15
    ∷ v4 34 68 0 0 14
    ∷ v4 34 72 0 0 16
    ∷ v4 34 9 0 0 16
    ∷ v4 35 184 0 0 16
    ∷ v4 35 188 0 0 17
    ∷ v4 35 188 128 0 18
    ∷ v4 35 188 192 0 19
    ∷ v4 35 192 0 0 15
    ∷ v4 35 194 0 0 18
    ∷ v4 35 202 0 0 16
    ∷ v4 35 206 64 0 18
    ∷ v4 35 208 0 0 15
    ∷ v4 35 220 64 0 19
    ∷ v4 35 222 0 0 15
    ∷ v4 35 224 0 0 15
    ∷ v4 35 226 0 0 16
    ∷ v4 35 232 0 0 16
    ∷ v4 35 238 0 0 15
    ∷ v4 35 242 96 0 19
    ∷ v4 35 253 0 0 16
    ∷ v4 35 254 0 0 15
    ∷ v4 8 34 210 0 24
    ∷ v4 8 34 212 0 22
    ∷ v4 8 34 216 0 22
    ∷ v4 8 35 192 0 21
    ∷ []

abbrev gcp_us_central2 : List Prefix
gcp_us_central2 =
    v4 107 167 160 0 20
    ∷ v4 108 59 88 0 21
    ∷ v4 136 73 0 0 16
    ∷ v4 173 255 120 0 21
    ∷ v6 0x2600 0x1900 0x4070 0x0 0x0 0x0 0x0 0x0 44
    ∷ v4 34 183 115 0 24
    ∷ v4 34 184 116 0 24
    ∷ v4 34 22 0 0 19
    ∷ v4 35 186 0 0 17
    ∷ v4 35 186 128 0 20
    ∷ v4 35 206 32 0 19
    ∷ v4 35 220 46 0 24
    ∷ v4 35 242 46 0 24
    ∷ []

unfoldable pub gcp_part_6 : Mapping IpInfo
gcp_part_6 =
    (record { cloud = gcp; region = codes "southamerica-east1" }, gcp_southamerica_east1)
    ∷ (record { cloud = gcp; region = codes "southamerica-west1" }, gcp_southamerica_west1)
    ∷ (record { cloud = gcp; region = codes "us-central1" }, gcp_us_central1)
    ∷ (record { cloud = gcp; region = codes "us-central2" }, gcp_us_central2)
    ∷ []

pub gcp_part_6_ok : all is_gcp_entry gcp_part_6 ≡ true
unfolding gcp_part_6 is_gcp_entry v4 v6 codes
gcp_part_6_ok = refl
