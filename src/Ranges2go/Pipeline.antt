-- ===== src/Ranges2go/Pipeline.antt =====
-- pkg/net/cloudcidrs/internal/ranges2go/main.go: what the file is made of.
use registry_k8s_io.Prelude.{
  ◌≡◌, refl, subst, List, [], ◌∷◌, Text, codes, text_eq, text_beq, Result, ok, err, ◌>>=◌,
  Result-then,
}
use registry_k8s_io.Prelude.Actions.{Action}
use registry_k8s_io.Prelude.GoMap.{lookup}
use registry_k8s_io.Ranges2go.{
  PrefixText, RegionsToPrefixes, aws_regions_to_prefixes_from_data,
  gcp_regions_to_prefixes_from_data, azure_regions_to_prefixes_from_data, parse_aws, parse_gcp,
  parse_azure,
}
use registry_k8s_io.Ranges2go.Clouds.{
  aws_entries, aws_regions_to_prefixes_from_data-Describes, gcp_entries,
  gcp_regions_to_prefixes_from_data-Describes, azure_entries,
  azure_regions_to_prefixes_from_data-Describes,
}
use registry_k8s_io.Ranges2go.Collect.{Entry, Describes}
use registry_k8s_io.Ranges2go.Generate.{CloudToRtp, Writer, regions_of, generate_ranges_go}
use registry_k8s_io.Ranges2go.Main.{
  Inputs, excluded_aws_regions, must_read_file, read_tables, output_path, generator_main,
}

module _ (i : Inputs) (c : PrefixText) where
  -- The file of the name is there and is decoded, and the table has the prefixes of its entries.
  abbrev pub IsTable :
      {D : Type 0} → Text → (Text → Result D) → (D → List Entry) → RegionsToPrefixes → Type 0
  IsTable {D} name decode entries rtp =
      (raw : Text) × (must_read_file i name ≡ ok raw)
      × ((doc : D) × (decode raw ≡ ok doc) × Describes c (entries doc) (ok rtp))

  parsed-IsTable :
      {D : Type 0} (name raw : Text) (decode : Text → Result D) (entries : D → List Entry)
      (from_data : D → Result RegionsToPrefixes) (rtp : RegionsToPrefixes)
      → ((doc : D) → Describes c (entries doc) (from_data doc))
      → must_read_file i name ≡ ok raw
      → (decode raw >>= from_data) ≡ ok rtp
      → IsTable name decode entries rtp
  parsed-IsTable name raw decode entries from_data rtp describes read parsed =
      let (doc, e, e') = Result-then (decode raw) from_data rtp parsed in
      (raw, read, (doc, e, subst (Describes c (entries doc)) e' (describes doc)))

  -- The tables of the three clouds.
  abbrev pub AreTables : CloudToRtp → Type 0
  AreTables m =
      IsTable (codes "aws-ip-ranges.json") i.aws_json
        (λ doc. aws_entries c doc (excluded_aws_regions i)) (regions_of (codes "AWS") m)
      × IsTable (codes "gcp-cloud.json") i.gcp_json (gcp_entries c) (regions_of (codes "GCP") m)
      × IsTable (codes "azure-service-tags.json") i.azure_json (azure_entries c)
          (regions_of (codes "Azure") m)

  read_tables-AreTables : (m : CloudToRtp) → read_tables i c ≡ ok m → AreTables m
  unfolding read_tables parse_aws parse_gcp parse_azure regions_of lookup codes text_beq
  read_tables-AreTables m e =
      let (aws_raw, r1, e1) = Result-then (must_read_file i (codes "aws-ip-ranges.json")) _ m e in
      let (gcp_raw, r2, e2) = Result-then (must_read_file i (codes "gcp-cloud.json")) _ m e1 in
      let (azure_raw, r3, e3) =
        Result-then (must_read_file i (codes "azure-service-tags.json")) _ m e2 in
      let (aws, p1, e4) =
        Result-then (parse_aws c i.aws_json aws_raw (excluded_aws_regions i)) _ m e3 in
      let (gcp, p2, e5) = Result-then (parse_gcp c i.gcp_json gcp_raw) _ m e4 in
      let (azure, p3, e6) = Result-then (parse_azure c i.azure_json azure_raw) _ m e5 in
      let same : (codes "AWS", aws) ∷ (codes "GCP", gcp) ∷ (codes "Azure", azure) ∷ [] ≡ m =
        ok_inj e6 in
      subst AreTables same (
        parsed-IsTable (codes "aws-ip-ranges.json") aws_raw i.aws_json
            (λ doc. aws_entries c doc (excluded_aws_regions i))
            (λ doc. aws_regions_to_prefixes_from_data c doc (excluded_aws_regions i)) aws
            (λ doc. aws_regions_to_prefixes_from_data-Describes c doc (excluded_aws_regions i)) r1
            p1,
        parsed-IsTable (codes "gcp-cloud.json") gcp_raw i.gcp_json (gcp_entries c)
            (gcp_regions_to_prefixes_from_data c) gcp
            (gcp_regions_to_prefixes_from_data-Describes c) r2 p2,
        parsed-IsTable (codes "azure-service-tags.json") azure_raw i.azure_json (azure_entries c)
            (azure_regions_to_prefixes_from_data c) azure
            (azure_regions_to_prefixes_from_data-Describes c) r3 p3,
      )
    where
      ok_inj : {A : Type 0} {a b : A} → ok a ≡ ok b → a ≡ b
      ok_inj q = cc

  module _ (quote : Text → Text) {State : Type 0} (create : Text → Action State (Unit {0}))
      (write : Writer State) where
    -- What `generateRangesGo` writes of three tables.
    abbrev pub Written : State → State → Type 0
    Written s s' =
        (m : CloudToRtp) × (s1 : State) × (create (output_path i) s ≡ (ok tt, s1))
        × (generate_ranges_go quote write m s1 ≡ (ok tt, s'))
        × AreTables m

    -- A run that does not panic has written what `generateRangesGo` writes of a map in which each cloud
    -- has the table of its own document: in each region of the document the prefixes that are kept, in
    -- the order of their strings and each once.
    pub generator_main-AreTables :
        (s s' : State) → generator_main i c quote create write s ≡ (ok tt, s') → Written s s'
    unfolding generator_main
    generator_main-AreTables s s' e = go (read_tables i c) refl e
      where
        opened :
            (m : CloudToRtp)
            → AreTables m
            → (r : Result (Unit {0}) × State) → create (output_path i) s ≡ r
            → (elim r.0 [
              | err message ↦ (err message, r.1)
              | ok f ↦ generate_ranges_go quote write m r.1
            ])
              ≡ (ok tt, s')
            → Written s s'
        opened m tables (err message, s1) q e' = absurd cc
        opened m tables (ok f, s1) q e' = (m, s1, q, e', tables)

        go :
            (r : Result CloudToRtp)
            → read_tables i c ≡ r
            → (elim r [
              | err message ↦ (err message, s)
              | ok m ↦
                  let (o, s1) = create (output_path i) s in
                  elim o [
                    | err message ↦ (err message, s1)
                    | ok f ↦ generate_ranges_go quote write m s1
                  ]
            ])
              ≡ (ok tt, s')
            → Written s s'
        go (err message) q e' = absurd cc
        go (ok m) q e' = opened m (read_tables-AreTables m q) (create (output_path i) s) refl e'
