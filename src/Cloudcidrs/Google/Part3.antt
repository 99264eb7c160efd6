-- ===== src/Cloudcidrs/Google/Part3.antt =====
-- pkg/net/cloudcidrs/zz_generated_range_data.go: the regions of Google's cloud from australia-southeast2 to europe-west15.
use registry_k8s_io.Cidrs.Mapping.{Mapping}
use registry_k8s_io.Cloudcidrs.{IpInfo, gcp}
use registry_k8s_io.Cloudcidrs.Literals.{v4, v6, is_gcp_entry}
use registry_k8s_io.Netip.{Prefix}
use registry_k8s_io.Prelude.{◌≡◌, refl, true, all, List, [], ◌∷◌, codes}

abbrev gcp_australia_southeast2 : List Prefix
gcp_australia_southeast2 =
    v6 0x2600 0x1900 0x41c0 0x0 0x0 0x0 0x0 0x0 44
    ∷ v4 34 0 16 0 20
    ∷ v4 34 1 176 0 20
    ∷ v4 34 104 122 0 23
    ∷ v4 34 124 58 0 23
    ∷ v4 34 126 192 0 20
    ∷ v4 34 129 0 0 16
    ∷ v4 34 152 101 0 24
    ∷ v4 34 177 69 0 24
    ∷ []

abbrev gcp_europe_central2 : List Prefix
gcp_europe_central2 =
    v6 0x2600 0x1900 0x4140 0x0 0x0 0x0 0x0 0x0 44
    ∷ v4 34 0 240 0 20
    ∷ v4 34 104 116 0 22
    ∷ v4 34 116 128 0 17
    ∷ v4 34 118 0 0 17
    ∷ v4 34 124 52 0 22
    ∷ v4 34 128 208 0 20
    ∷ v4 34 158 224 0 20
    ∷ v4 34 4 64 0 20
    ∷ []

abbrev gcp_europe_north1 : List Prefix
gcp_europe_north1 =
    v6 0x2600 0x1900 0x4150 0x0 0x0 0x0 0x0 0x0 44
    ∷ v4 34 104 96 0 21
    ∷ v4 34 124 32 0 21
    ∷ v4 34 88 0 0 16
    ∷ v4 35 203 232 0 21
    ∷ v4 35 217 0 0 18
    ∷ v4 35 220 26 0 24
    ∷ v4 35 228 0 0 16
    ∷ v4 35 242 26 0 24
    ∷ []

abbrev gcp_europe_north2 : List Prefix
gcp_europe_north2 =
    v6 0x2600 0x1900 0x42a0 0x0 0x0 0x0 0x0 0x0 44
    ∷ v4 34 153 238 0 23
    ∷ v4 34 153 46 0 23
    ∷ v4 34 2 48 0 20
    ∷ v4 34 51 128 0 17
    ∷ []

abbrev gcp_europe_southwest1 : List Prefix
gcp_europe_southwest1 =
    v6 0x2600 0x1901 0x8100 0x0 0x0 0x0 0x0 0x0 44
    ∷ v4 34 0 192 0 19
    ∷ v4 34 152 103 0 24
    ∷ v4 34 157 172 0 23
    ∷ v4 34 157 44 0 23
    ∷ v4 34 164 0 0 16
    ∷ v4 34 175 0 0 16
    ∷ v4 34 177 71 0 24
    ∷ v4 34 183 112 0 24
    ∷ v4 34 184 111 0 24
    ∷ []

abbrev gcp_europe_west1 : List Prefix
gcp_europe_west1 =
    v4 104 155 0 0 17
    ∷ v4 104 199 0 0 18
    ∷ v4 104 199 66 0 23
    ∷ v4 104 199 68 0 22
    ∷ v4 104 199 72 0 21
    ∷ v4 104 199 80 0 20
    ∷ v4 104 199 96 0 20
    ∷ v4 130 211 48 0 20
    ∷ v4 130 211 64 0 19
    ∷ v4 130 211 96 0 20
    ∷ v4 136 77 0 0 17
    ∷ v4 136 84 0 0 16
    ∷ v4 136 91 0 0 16
    ∷ v4 136 94 0 0 16
    ∷ v4 146 148 112 0 20
    ∷ v4 146 148 16 0 20
    ∷ v4 146 148 2 0 23
    ∷ v4 146 148 4 0 22
    ∷ v4 146 148 8 0 21
    ∷ v4 192 158 28 0 22
    ∷ v4 207 175 0 0 16
    ∷ v4 23 251 128 0 20
    ∷ v6 0x2600 0x1900 0x4010 0x0 0x0 0x0 0x0 0x0 44
    ∷ v4 34 118 254 0 23
    ∷ v4 34 14 0 0 17
    ∷ v4 34 140 0 0 16
    ∷ v4 34 156 0 0 16
    ∷ v4 34 183 74 0 24
    ∷ v4 34 183 84 0 22
    ∷ v4 34 184 73 0 24
    ∷ v4 34 184 84 0 22
    ∷ v4 34 22 112 0 20
    ∷ v4 34 22 128 0 17
    ∷ v4 34 34 128 0 18
    ∷ v4 34 38 0 0 16
    ∷ v4 34 52 128 0 17
    ∷ v4 34 53 128 0 17
    ∷ v4 34 62 0 0 16
    ∷ v4 34 76 0 0 14
    ∷ v4 35 187 0 0 17
    ∷ v4 35 187 160 0 19
    ∷ v4 35 189 192 0 18
    ∷ v4 35 190 192 0 19
    ∷ v4 35 195 0 0 16
    ∷ v4 35 205 0 0 16
    ∷ v4 35 206 128 0 18
    ∷ v4 35 210 0 0 16
    ∷ v4 35 220 96 0 19
    ∷ v4 35 233 0 0 17
    ∷ v4 35 240 0 0 17
    ∷ v4 35 241 128 0 17
    ∷ v4 35 242 64 0 19
    ∷ v4 8 235 128 0 17
    ∷ v4 8 34 208 0 23
    ∷ v4 8 34 211 0 24
    ∷ v4 8 34 220 0 22
    ∷ []

abbrev gcp_europe_west10 : List Prefix
gcp_europe_west10 =
    v6 0x2600 0x1901 0x81f0 0x0 0x0 0x0 0x0 0x0 44
    ∷ v4 34 1 160 0 20
    ∷ v4 34 152 80 0 23
    ∷ v4 34 177 36 0 23
    ∷ v4 34 32 0 0 17
    ∷ []

abbrev gcp_europe_west12 : List Prefix
gcp_europe_west12 =
    v6 0x2600 0x1901 0x81b0 0x0 0x0 0x0 0x0 0x0 44
    ∷ v4 34 1 144 0 20
    ∷ v4 34 152 110 0 25
    ∷ v4 34 152 97 0 25
    ∷ v4 34 157 124 0 23
    ∷ v4 34 157 250 0 23
    ∷ v4 34 17 0 0 16
    ∷ v4 34 177 65 0 25
    ∷ v4 34 177 78 0 25
    ∷ v4 34 183 114 0 24
    ∷ v4 34 183 3 128 25
    ∷ v4 34 184 113 0 24
    ∷ []

abbrev gcp_europe_west15 : List Prefix
gcp_europe_west15 =
    v6 0x2600 0x1900 0x42c0 0x0 0x0 0x0 0x0 0x0 44
    ∷ v4 34 15 0 0 17
    ∷ v4 34 152 108 0 23
    ∷ v4 34 177 76 0 23
    ∷ v4 34 2 96 0 20
    ∷ []

unfoldable pub gcp_part_3 : Mapping IpInfo
gcp_part_3 =
    (record { cloud = gcp; region = codes "australia-southeast2" }, gcp_australia_southeast2)
    ∷ (record { cloud = gcp; region = codes "europe-central2" }, gcp_europe_central2)
    ∷ (record { cloud = gcp; region = codes "europe-north1" }, gcp_europe_north1)
    ∷ (record { cloud = gcp; region = codes "europe-north2" }, gcp_europe_north2)
    ∷ (record { cloud = gcp; region = codes "europe-southwest1" }, gcp_europe_southwest1)
    ∷ (record { cloud = gcp; region = codes "europe-west1" }, gcp_europe_west1)
    ∷ (record { cloud = gcp; region = codes "europe-west10" }, gcp_europe_west10)
    ∷ (record { cloud = gcp; region = codes "europe-west12" }, gcp_europe_west12)
    ∷ (record { cloud = gcp; region = codes "europe-west15" }, gcp_europe_west15)
    ∷ []

pub gcp_part_3_ok : all is_gcp_entry gcp_part_3 ≡ true
unfolding gcp_part_3 is_gcp_entry v4 v6 codes
gcp_part_3_ok = refl
