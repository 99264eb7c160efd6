-- ===== src/Ranges2go/Generate/Laws.antt =====
-- pkg/net/cloudcidrs/internal/ranges2go/gen.go: the output and Go's order of iteration.
use mathlib.Core.List.{Permᴰ}
use mathlib.Core.Path.{fun_ext}
use registry_k8s_io.Prelude.{◌≡◌, ap, ap₂, List, ◌++◌, Text, codes}
use registry_k8s_io.Prelude.Actions.{Action, ◌>>◌}
use registry_k8s_io.Ranges2go.{RegionsToPrefixes, prefixes_of}
use registry_k8s_io.Ranges2go.Generate.{
  CloudToRtp, Writer, keys, regions_of, file_header, table_start, for_each, gen_region, gen_cloud,
  cloud_constant, generate_ranges_go, prefix_line,
}
use registry_k8s_io.Ranges2go.Generate.Sorted.{sort_strings-eq-sort_strings}

-- Two orders of the entries of one map: the same keys in some order, and for each key the same.
abbrev pub SameRegions : RegionsToPrefixes → RegionsToPrefixes → Type 0
SameRegions rtp rtp' =
    Permᴰ (keys rtp) (keys rtp')
    × ((region : Text) → prefixes_of region rtp ≡ prefixes_of region rtp')

abbrev pub SameClouds : CloudToRtp → CloudToRtp → Type 0
SameClouds m m' =
    Permᴰ (keys m) (keys m')
    × ((cloud : Text) → SameRegions (regions_of cloud m) (regions_of cloud m'))

module _ (quote : Text → Text) {State : Type 0} (write : Writer State) where
  gen_region-SameRegions :
      (cloud : Text) (rtp rtp' : RegionsToPrefixes)
      → SameRegions rtp rtp'
      → gen_region quote write cloud rtp ≡ gen_region quote write cloud rtp'
  unfolding gen_region
  gen_region-SameRegions cloud rtp rtp' h = fun_ext λ region.
      ap
        (λ prefixes. do
          write (
              codes "\t{Cloud: "
              ++ (cloud ++ (codes ", Region: " ++ (quote region ++ codes "}: {\n"))))
          for_each quote write (λ prefix. write (prefix_line prefix)) prefixes
          write (codes "\t},\n"))
        (h.1 region)

  gen_cloud-SameRegions :
      (cloud : Text) (rtp rtp' : RegionsToPrefixes)
      → SameRegions rtp rtp'
      → gen_cloud quote write cloud rtp ≡ gen_cloud quote write cloud rtp'
  unfolding gen_cloud
  gen_cloud-SameRegions cloud rtp rtp' h =
      ap₂ (for_each quote write) (gen_region-SameRegions cloud rtp rtp' h)
        (sort_strings-eq-sort_strings h.0)

  -- What is written, and the error if there is one, are the same for every order in which Go may
  -- iterate over the clouds and over the regions of each cloud, whatever the writer does.
  pub generate_ranges_go-SameClouds :
      (m m' : CloudToRtp) (s : State)
      → SameClouds m m'
      → generate_ranges_go quote write m s ≡ generate_ranges_go quote write m' s
  unfolding generate_ranges_go
  generate_ranges_go-SameClouds m m' s h =
      ap₂
        (λ (clouds : List Text) (gen : Text → Action State (Unit {0})).
          (do
            write file_header
            for_each quote write (λ cloud. write (cloud_constant quote write cloud)) clouds
            write table_start
            for_each quote write gen clouds
            write (codes "}\n"))
            s)
        (sort_strings-eq-sort_strings h.0)
        (fun_ext λ cloud.
          gen_cloud-SameRegions cloud (regions_of cloud m) (regions_of cloud m') (h.1 cloud))
