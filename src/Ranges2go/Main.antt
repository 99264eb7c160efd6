-- ===== src/Ranges2go/Main.antt =====
-- pkg/net/cloudcidrs/internal/ranges2go/main.go: `main`. A panic is an error, and what is printed is
-- left out.
use registry_k8s_io.GoText.Paths.{join}
use registry_k8s_io.GoText.Split.{split}
use registry_k8s_io.Prelude.{
  List, [], ◌∷◌, Text, codes, text_beq, Result, ok, err, ◌>>=◌, if◌then◌else◌,
}
use registry_k8s_io.Prelude.Actions.{Action}
use registry_k8s_io.Ranges2go.{
  PrefixText, AwsIpRangesJson, GcpCloudJson, AzureServiceTagsJson, parse_aws, parse_gcp,
  parse_azure,
}
use registry_k8s_io.Ranges2go.Generate.{CloudToRtp, Writer, generate_ranges_go}

-- What `main` reads: the environment, in which a name that is not set is empty, and the files; and
-- the decoders of JSON.
pub record Inputs : Type 0 where
  pub getenv : Text → Text
  pub read_file : Text → Result Text
  pub aws_json : Text → Result AwsIpRangesJson
  pub gcp_json : Text → Result GcpCloudJson
  pub azure_json : Text → Result AzureServiceTagsJson

-- A name of the environment with a default for the empty value.
unfoldable pub or_default : Text → Text → Text
or_default value default_value = if text_beq value [] then default_value else value

module _ (i : Inputs) where
  unfoldable pub output_path : Text
  unfolding or_default
  output_path = or_default (i.getenv (codes "OUT_FILE")) (codes "./zz_generated_range_data.go")

  unfoldable pub data_dir : Text
  unfolding or_default
  data_dir = or_default (i.getenv (codes "DATA_DIR")) (codes "./internal/ranges2go/data")

  unfoldable pub excluded_aws_regions : List Text
  excluded_aws_regions = split (i.getenv (codes "EXCLUDED_AWS_REGIONS")) b','

  unfoldable pub must_read_file : Text → Result Text
  must_read_file name = i.read_file (join (data_dir ∷ name ∷ []))

  -- The tables, before the output is opened.
  unfoldable pub read_tables : PrefixText → Result CloudToRtp
  read_tables c = do
    aws_raw ← must_read_file (codes "aws-ip-ranges.json")
    gcp_raw ← must_read_file (codes "gcp-cloud.json")
    azure_raw ← must_read_file (codes "azure-service-tags.json")
    aws_rtp ← parse_aws c i.aws_json aws_raw excluded_aws_regions
    gcp_rtp ← parse_gcp c i.gcp_json gcp_raw
    azure_rtp ← parse_azure c i.azure_json azure_raw
    ok ((codes "AWS", aws_rtp) ∷ (codes "GCP", gcp_rtp) ∷ (codes "Azure", azure_rtp) ∷ [])

  -- `main`: `create` opens the output, to which `write` writes.
  module _ (c : PrefixText) (quote : Text → Text) {State : Type 0}
      (create : Text → Action State (Unit {0})) (write : Writer State) where
    unfoldable pub generator_main : Action State (Unit {0})
    generator_main s = elim (read_tables c) [
      | err message ↦ (err message, s)
      | ok cloud_to_rtp ↦
          let (opened, s') = create output_path s in
          elim opened [
            | err message ↦ (err message, s')
            | ok f ↦ generate_ranges_go quote write cloud_to_rtp s'
          ]
    ]
