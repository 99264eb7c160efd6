-- ===== src/Cloudcidrs/Google/Part7.antt =====
-- pkg/net/cloudcidrs/zz_generated_range_data.go: the regions of Google's cloud from us-east1 to us-south1.
use registry_k8s_io.Cidrs.Mapping.{Mapping}
use registry_k8s_io.Cloudcidrs.{IpInfo, gcp}
use registry_k8s_io.Cloudcidrs.Literals.{v4, v6, is_gcp_entry}
use registry_k8s_io.Netip.{Prefix}
use registry_k8s_io.Prelude.{◌≡◌, refl, true, all, List, [], ◌∷◌, codes}

abbrev gcp_us_east1 : List Prefix
gcp_us_east1 =
    v4 104 196 0 0 18
    ∷ v4 104 196 128 0 18
    ∷ v4 104 196 192 0 19
    ∷ v4 104 196 65 0 24
    ∷ v4 104 196 66 0 23
    ∷ v4 104 196 68 0 22
    ∷ v4 104 196 96 0 19
    ∷ v4 136 108 0 0 16
    ∷ v4 136 72 0 0 16
    ∷ v4 162 216 148 0 22
    ∷ v6 0x2600 0x1900 0x4020 0x0 0x0 0x0 0x0 0x0 44
    ∷ v4 34 112 0 0 16
    ∷ v4 34 118 250 0 23
    ∷ v4 34 138 0 0 15
    ∷ v4 34 148 0 0 16
    ∷ v4 34 152 72 0 21
    ∷ v4 34 177 40 0 21
    ∷ v4 34 183 33 0 24
    ∷ v4 34 183 4 0 23
    ∷ v4 34 183 56 0 23
    ∷ v4 34 183 81 0 24
    ∷ v4 34 183 88 0 21
    ∷ v4 34 184 34 0 24
    ∷ v4 34 184 4 0 23
    ∷ v4 34 184 56 0 23
    ∷ v4 34 184 80 0 24
    ∷ v4 34 184 88 0 21
    ∷ v4 34 23 0 0 16
    ∷ v4 34 24 0 0 15
    ∷ v4 34 26 0 0 16
    ∷ v4 34 3 76 0 22
    ∷ v4 34 4 16 0 22
    ∷ v4 34 73 0 0 16
    ∷ v4 34 74 0 0 15
    ∷ v4 34 98 128 0 21
    ∷ v4 35 185 0 0 17
    ∷ v4 35 190 128 0 18
    ∷ v4 35 196 0 0 16
    ∷ v4 35 207 0 0 18
    ∷ v4 35 211 0 0 16
    ∷ v4 35 220 0 0 20
    ∷ v4 35 227 0 0 17
    ∷ v4 35 229 16 0 20
    ∷ v4 35 229 32 0 19
    ∷ v4 35 229 64 0 18
    ∷ v4 35 231 0 0 16
    ∷ v4 35 237 0 0 16
    ∷ v4 35 242 0 0 20
    ∷ v4 35 243 128 0 17
    ∷ []

abbrev gcp_us_east4 : List Prefix
gcp_us_east4 =
    v4 136 107 0 0 16
    ∷ v4 136 23 64 0 18
    ∷ v4 136 70 128 0 17
    ∷ v4 136 70 64 0 18
    ∷ v4 136 75 0 0 16
    ∷ v4 136 90 0 0 16
    ∷ v6 0x2600 0x1900 0x4090 0x0 0x0 0x0 0x0 0x0 44
    ∷ v4 34 104 124 0 23
    ∷ v4 34 104 60 0 23
    ∷ v4 34 11 0 0 17
    ∷ v4 34 118 252 0 23
    ∷ v4 34 124 60 0 23
    ∷ v4 34 127 188 0 23
    ∷ v4 34 145 128 0 17
    ∷ v4 34 150 128 0 17
    ∷ v4 34 157 0 0 21
    ∷ v4 34 157 128 0 21
    ∷ v4 34 157 144 0 20
    ∷ v4 34 157 16 0 20
    ∷ v4 34 181 128 0 17
    ∷ v4 34 182 128 0 17
    ∷ v4 34 183 12 0 22
    ∷ v4 34 183 34 0 23
    ∷ v4 34 183 60 0 24
    ∷ v4 34 183 68 0 24
    ∷ v4 34 184 12 0 22
    ∷ v4 34 184 32 0 23
    ∷ v4 34 184 59 0 24
    ∷ v4 34 184 67 0 24
    ∷ v4 34 186 32 0 19
    ∷ v4 34 186 64 0 18
    ∷ v4 34 21 0 0 17
    ∷ v4 34 4 32 0 20
    ∷ v4 34 48 0 0 16
    ∷ v4 34 85 128 0 17
    ∷ v4 34 86 0 0 16
    ∷ v4 35 186 160 0 19
    ∷ v4 35 188 224 0 19
    ∷ v4 35 194 64 0 19
    ∷ v4 35 199 0 0 18
    ∷ v4 35 212 0 0 17
    ∷ v4 35 220 60 0 22
    ∷ v4 35 221 0 0 18
    ∷ v4 35 230 160 0 19
    ∷ v4 35 234 176 0 20
    ∷ v4 35 236 192 0 18
    ∷ v4 35 242 60 0 22
    ∷ v4 35 243 40 0 21
    ∷ v4 35 245 0 0 16
    ∷ v4 8 228 64 0 18
    ∷ v4 8 234 128 0 17
    ∷ v4 8 234 2 0 24
    ∷ []

abbrev gcp_us_east5 : List Prefix
gcp_us_east5 =
    v4 136 79 128 0 17
    ∷ v4 136 83 0 0 18
    ∷ v6 0x2600 0x1901 0x8130 0x0 0x0 0x0 0x0 0x0 44
    ∷ v4 34 1 16 0 20
    ∷ v4 34 113 0 0 16
    ∷ v4 34 127 160 0 20
    ∷ v4 34 144 176 0 20
    ∷ v4 34 152 112 0 20
    ∷ v4 34 153 16 0 20
    ∷ v4 34 157 160 0 22
    ∷ v4 34 157 32 0 22
    ∷ v4 34 162 0 0 16
    ∷ v4 34 186 224 0 19
    ∷ v4 34 4 102 0 23
    ∷ v4 8 231 32 0 20
    ∷ v4 8 234 3 0 24
    ∷ v4 8 234 32 0 19
    ∷ v4 8 234 4 0 22
    ∷ []

abbrev gcp_us_east7 : List Prefix
gcp_us_east7 =
    v6 0x2600 0x1901 0x8150 0x0 0x0 0x0 0x0 0x0 44
    ∷ v4 34 104 56 0 23
    ∷ v4 34 127 184 0 23
    ∷ v4 34 152 110 192 26
    ∷ v4 34 157 219 192 26
    ∷ v4 34 161 0 0 16
    ∷ v4 34 183 105 0 24
    ∷ v4 34 184 104 0 24
    ∷ v4 35 206 10 0 23
    ∷ []

abbrev gcp_us_south1 : List Prefix
gcp_us_south1 =
    v6 0x2600 0x1901 0x8140 0x0 0x0 0x0 0x0 0x0 44
    ∷ v4 34 0 128 0 19
    ∷ v4 34 127 156 0 22
    ∷ v4 34 128 4 0 22
    ∷ v4 34 144 172 0 22
    ∷ v4 34 152 110 128 26
    ∷ v4 34 157 174 0 23
    ∷ v4 34 157 219 128 26
    ∷ v4 34 157 46 0 23
    ∷ v4 34 174 0 0 16
    ∷ v4 34 177 120 0 22
    ∷ v4 34 183 66 0 24
    ∷ v4 34 184 65 0 24
    ∷ v4 35 235 172 0 22
    ∷ v4 8 230 96 0 19
    ∷ v4 8 234 20 0 22
    ∷ v4 8 234 24 0 21
    ∷ []

unfoldable pub gcp_part_7 : Mapping IpInfo
gcp_part_7 =
    (record { cloud = gcp; region = codes "us-east1" }, gcp_us_east1)
    ∷ (record { cloud = gcp; region = codes "us-east4" }, gcp_us_east4)
    ∷ (record { cloud = gcp; region = codes "us-east5" }, gcp_us_east5)
    ∷ (record { cloud = gcp; region = codes "us-east7" }, gcp_us_east7)
    ∷ (record { cloud = gcp; region = codes "us-south1" }, gcp_us_south1)
    ∷ []

pub gcp_part_7_ok : all is_gcp_entry gcp_part_7 ≡ true
unfolding gcp_part_7 is_gcp_entry v4 v6 codes
gcp_part_7_ok = refl
