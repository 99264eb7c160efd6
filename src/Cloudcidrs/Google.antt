-- ===== src/Cloudcidrs/Google.antt =====
-- pkg/net/cloudcidrs/zz_generated_range_data.go: the part of the table for Google's cloud.
pub mod Part1
pub mod Part2
pub mod Part3
pub mod Part4
pub mod Part5
pub mod Part6
pub mod Part7
pub mod Part8
use registry_k8s_io.Cidrs.Mapping.{Mapping}
use registry_k8s_io.Cloudcidrs.{IpInfo}
use registry_k8s_io.Cloudcidrs.Google.Part1.{gcp_part_1, gcp_part_1_ok}
use registry_k8s_io.Cloudcidrs.Google.Part2.{gcp_part_2, gcp_part_2_ok}
use registry_k8s_io.Cloudcidrs.Google.Part3.{gcp_part_3, gcp_part_3_ok}
use registry_k8s_io.Cloudcidrs.Google.Part4.{gcp_part_4, gcp_part_4_ok}
use registry_k8s_io.Cloudcidrs.Google.Part5.{gcp_part_5, gcp_part_5_ok}
use registry_k8s_io.Cloudcidrs.Google.Part6.{gcp_part_6, gcp_part_6_ok}
use registry_k8s_io.Cloudcidrs.Google.Part7.{gcp_part_7, gcp_part_7_ok}
use registry_k8s_io.Cloudcidrs.Google.Part8.{gcp_part_8, gcp_part_8_ok}
use registry_k8s_io.Cloudcidrs.Literals.{is_gcp_entry}
use registry_k8s_io.Prelude.{◌≡◌, refl, arith, Bool, true, ◌&&◌, all, List, [], ◌∷◌, ◌++◌}

unfoldable pub gcp_table : Mapping IpInfo
gcp_table =
    gcp_part_1
    ++ (gcp_part_2
        ++ (gcp_part_3
            ++ (gcp_part_4 ++ (gcp_part_5 ++ (gcp_part_6 ++ (gcp_part_7 ++ gcp_part_8))))))

all-append :
    {A : Type 0} (p : A → Bool) (l k : List A)
    → all p l ≡ true
    → all p k ≡ true
    → all p (l ++ k) ≡ true
all-append p [] k h h' = h'
all-append p (x ∷ l) k h h' = ground (arith, all-append p l k)

-- The check of all parts.
pub gcp_table_ok : all is_gcp_entry gcp_table ≡ true
unfolding gcp_table
gcp_table_ok = all-append is_gcp_entry gcp_part_1 _ gcp_part_1_ok (
    all-append is_gcp_entry gcp_part_2 _ gcp_part_2_ok (
      all-append is_gcp_entry gcp_part_3 _ gcp_part_3_ok (
        all-append is_gcp_entry gcp_part_4 _ gcp_part_4_ok (
          all-append is_gcp_entry gcp_part_5 _ gcp_part_5_ok (
            all-append is_gcp_entry gcp_part_6 _ gcp_part_6_ok
              (all-append is_gcp_entry gcp_part_7 _ gcp_part_7_ok (gcp_part_8_ok)))))))
