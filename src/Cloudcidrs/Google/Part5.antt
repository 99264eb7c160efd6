-- ===== src/Cloudcidrs/Google/Part5.antt =====
-- pkg/net/cloudcidrs/zz_generated_range_data.go: the regions of Google's cloud from global to northamerica-south1.
use registry_k8s_io.Cidrs.Mapping.{Mapping}
use registry_k8s_io.Cloudcidrs.{IpInfo, gcp}
use registry_k8s_io.Cloudcidrs.Literals.{v4, v6, is_gcp_entry}
use registry_k8s_io.Netip.{Prefix}
use registry_k8s_io.Prelude.{◌≡◌, refl, true, all, List, [], ◌∷◌, codes}

abbrev gcp_global : List Prefix
gcp_global =
    v4 107 178 240 0 20
    ∷ v4 130 211 16 0 20
    ∷ v4 130 211 32 0 20
    ∷ v4 130 211 4 0 22
    ∷ v4 130 211 8 0 21
    ∷ v4 136 110 128 0 17
    ∷ v4 136 68 0 0 16
    ∷ v4 136 69 0 0 17
    ∷ v4 136 79 0 0 17
    ∷ v4 136 81 0 0 16
    ∷ v4 136 82 0 0 16
    ∷ v6 0x2600 0x1901 0x0 0x0 0x0 0x0 0x0 0x0 48
    ∷ v4 34 102 128 0 17
    ∷ v4 34 104 27 0 24
    ∷ v4 34 107 128 0 17
    ∷ v4 34 110 128 0 17
    ∷ v4 34 111 0 0 16
    ∷ v4 34 116 0 0 21
    ∷ v4 34 117 0 0 16
    ∷ v4 34 120 0 0 16
    ∷ v4 34 128 128 0 18
    ∷ v4 34 13 112 0 20
    ∷ v4 34 13 72 0 21
    ∷ v4 34 144 192 0 18
    ∷ v4 34 149 0 0 16
    ∷ v4 34 160 0 0 16
    ∷ v4 34 36 0 0 16
    ∷ v4 34 49 0 0 16
    ∷ v4 34 50 144 0 20
    ∷ v4 34 54 0 0 16
    ∷ v4 34 8 0 0 16
    ∷ v4 34 95 64 0 18
    ∷ v4 34 96 64 0 18
    ∷ v4 34 98 64 0 18
    ∷ v4 35 186 192 0 18
    ∷ v4 35 190 0 0 18
    ∷ v4 35 190 112 0 20
    ∷ v4 35 190 64 0 19
    ∷ v4 35 201 64 0 18
    ∷ v4 35 227 192 0 18
    ∷ v4 35 241 0 0 18
    ∷ v4 35 244 128 0 17
    ∷ v4 8 228 224 0 20
    ∷ v4 8 232 0 0 15
    ∷ []

abbrev gcp_me_central1 : List Prefix
gcp_me_central1 =
    v6 0x2600 0x1901 0x81c0 0x0 0x0 0x0 0x0 0x0 44
    ∷ v4 34 1 32 0 20
    ∷ v4 34 157 126 0 23
    ∷ v4 34 157 252 0 23
    ∷ v4 34 18 0 0 16
    ∷ v4 34 183 67 0 24
    ∷ v4 34 184 66 0 24
    ∷ []

abbrev gcp_me_central2 : List Prefix
gcp_me_central2 =
    v6 0x2600 0x1900 0x5400 0x0 0x0 0x0 0x0 0x0 44
    ∷ v4 34 1 48 0 20
    ∷ v4 34 152 102 0 24
    ∷ v4 34 152 84 0 23
    ∷ v4 34 157 122 128 25
    ∷ v4 34 157 218 128 25
    ∷ v4 34 166 0 0 16
    ∷ v4 34 177 48 0 23
    ∷ v4 34 177 70 0 24
    ∷ v4 34 183 122 0 24
    ∷ v4 34 183 69 0 24
    ∷ v4 34 184 119 0 24
    ∷ v4 34 184 68 0 24
    ∷ v4 35 252 32 0 19
    ∷ v4 8 228 192 0 19
    ∷ v4 8 230 64 0 19
    ∷ []

abbrev gcp_me_west1 : List Prefix
gcp_me_west1 =
    v6 0x2600 0x1901 0x8160 0x0 0x0 0x0 0x0 0x0 44
    ∷ v4 34 0 64 0 19
    ∷ v4 34 153 252 128 25
    ∷ v4 34 153 62 128 25
    ∷ v4 34 157 216 0 23
    ∷ v4 34 157 90 0 23
    ∷ v4 34 165 0 0 16
    ∷ v4 34 183 20 128 25
    ∷ v4 34 183 61 0 24
    ∷ v4 34 184 3 128 25
    ∷ v4 34 184 64 0 24
    ∷ v4 35 252 0 0 19
    ∷ v4 8 230 32 0 19
    ∷ []

abbrev gcp_northamerica_northeast1 : List Prefix
gcp_northamerica_northeast1 =
    v6 0x2600 0x1900 0x40e0 0x0 0x0 0x0 0x0 0x0 44
    ∷ v4 34 104 76 0 22
    ∷ v4 34 118 128 0 18
    ∷ v4 34 124 12 0 22
    ∷ v4 34 128 37 0 24
    ∷ v4 34 128 42 0 23
    ∷ v4 34 128 49 0 24
    ∷ v4 34 128 58 0 23
    ∷ v4 34 152 0 0 18
    ∷ v4 34 183 118 0 24
    ∷ v4 34 183 21 0 24
    ∷ v4 34 183 75 0 24
    ∷ v4 34 184 117 0 24
    ∷ v4 34 184 22 0 24
    ∷ v4 34 184 74 0 24
    ∷ v4 34 186 192 0 19
    ∷ v4 34 19 128 0 17
    ∷ v4 34 20 0 0 17
    ∷ v4 34 47 0 0 18
    ∷ v4 34 95 0 0 18
    ∷ v4 35 203 0 0 17
    ∷ v4 35 215 0 0 18
    ∷ v4 35 220 43 0 24
    ∷ v4 35 234 240 0 20
    ∷ v4 35 242 43 0 24
    ∷ []

abbrev gcp_northamerica_northeast2 : List Prefix
gcp_northamerica_northeast2 =
    v6 0x2600 0x1900 0x41e0 0x0 0x0 0x0 0x0 0x0 44
    ∷ v4 34 0 32 0 20
    ∷ v4 34 104 114 0 23
    ∷ v4 34 124 112 0 20
    ∷ v4 34 124 50 0 23
    ∷ v4 34 130 0 0 16
    ∷ v4 34 152 69 0 24
    ∷ v4 34 152 97 128 25
    ∷ v4 34 157 255 0 24
    ∷ v4 34 177 65 128 25
    ∷ v4 34 183 29 0 24
    ∷ v4 34 184 30 0 24
    ∷ []

abbrev gcp_northamerica_south1 : List Prefix
gcp_northamerica_south1 =
    v6 0x2600 0x1900 0x4290 0x0 0x0 0x0 0x0 0x0 44
    ∷ v4 34 153 234 0 23
    ∷ v4 34 153 42 0 23
    ∷ v4 34 2 0 0 20
    ∷ v4 34 51 0 0 17
    ∷ []

unfoldable pub gcp_part_5 : Mapping IpInfo
gcp_part_5 =
    (record { cloud = gcp; region = codes "global" }, gcp_global)
    ∷ (record { cloud = gcp; region = codes "me-central1" }, gcp_me_central1)
    ∷ (record { cloud = gcp; region = codes "me-central2" }, gcp_me_central2)
    ∷ (record { cloud = gcp; region = codes "me-west1" }, gcp_me_west1)
    ∷ (
      record { cloud = gcp; region = codes "northamerica-northeast1" },
      gcp_northamerica_northeast1,
    )
    ∷ (
      record { cloud = gcp; region = codes "northamerica-northeast2" },
      gcp_northamerica_northeast2,
    )
    ∷ (record { cloud = gcp; region = codes "northamerica-south1" }, gcp_northamerica_south1)
    ∷ []

pub gcp_part_5_ok : all is_gcp_entry gcp_part_5 ≡ true
unfolding gcp_part_5 is_gcp_entry v4 v6 codes
gcp_part_5_ok = refl
