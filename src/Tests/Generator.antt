-- ===== src/Tests/Generator.antt =====
-- The generator's theorems on small documents.
use registry_k8s_io.GoText.Prefixes.{has_prefix}
use registry_k8s_io.Ranges2go.Generate.{
  generate_ranges_go, sort_strings, address_bytes, for_each, gen_cloud, gen_region, insert_string,
  regions_of,
}
use registry_k8s_io.GoText.Split.{split}
use registry_k8s_io.Prelude.GoMap.{lookup, store}
use registry_k8s_io.Netip.{addr_value, as_16, as_4, bits, is_4, Prefix, ipv4}
use registry_k8s_io.Prelude.Arrays.{take}
use registry_k8s_io.Ranges2go.{dedupe_sorted_prefixes}
use registry_k8s_io.Ranges2go.Dedupe.{dedupe_in_place, dedupe_in_place-eq-dedupe}
use registry_k8s_io.Prelude.{
  ℕ, ◌≤◌, length, List, some, text_beq, ◌≡◌, refl, [], ◌∷◌, Text, codes, Result, ok, err,
}
use registry_k8s_io.Ranges2go.{
  parse_aws, aws_loop, aws_ipv6_loop, parse_gcp, gcp_loop, parse_azure, azure_loop, append_prefix,
  aws_append, azure_inner, dedupe_from, dedupe_sorted_prefixes, flatten, gcp_parse, insert_sorted,
  is_skipped, prefixes_of, sort_slice, text_ltb, PrefixText, AwsIpRangesJson,
  aws_regions_to_prefixes_from_data, GcpCloudJson, gcp_regions_to_prefixes_from_data,
  AzureServiceTagsJson, azure_regions_to_prefixes_from_data,
}
use registry_k8s_io.Prelude.Actions.{Action}
use registry_k8s_io.Ranges2go.Main.{
  read_tables, must_read_file, excluded_aws_regions, Inputs, generator_main,
}
use registry_k8s_io.Ranges2go.Pipeline.{Written, generator_main-AreTables}
use registry_k8s_io.Ranges2go.Collect.{Describes}
use registry_k8s_io.Ranges2go.Clouds.{
  aws_entries, aws_regions_to_prefixes_from_data-Describes, gcp_entries,
  gcp_regions_to_prefixes_from_data-Describes, azure_entries,
  azure_regions_to_prefixes_from_data-Describes,
}

-- Prefixes as texts of one byte: the first byte of the address.
abbrev one_byte : Text → Result Prefix
one_byte [] = err (codes "no prefix")
one_byte (b ∷ s) = ok (record { addr = ipv4 b; bits_plus_one = 9 })

abbrev byte_of : Prefix → Text
byte_of p = elim p.addr [ ipv4 n ↦ n ∷ [] | _ ↦ [] ]

abbrev digits : PrefixText
digits = record { parse_prefix = one_byte; string = byte_of }

abbrev aws_document : AwsIpRangesJson
aws_document = record {
  prefixes =
      (record { ip_prefix = codes "7"; region = codes "eu-west-1"; service = codes "S3" })
      ∷ (record { ip_prefix = codes "5"; region = codes "eu-west-1"; service = codes "EC2" })
      ∷ (record { ip_prefix = codes "5"; region = codes "eu-west-1"; service = codes "S3" })
      ∷ (record { ip_prefix = codes "1"; region = codes "aws-new"; service = codes "S3" })
      ∷ [];
  ipv6_prefixes = [];
}

aws_regions_to_prefixes_from_data-Describes_example :
    Describes digits
      (aws_entries digits aws_document (codes "aws-new" ∷ []))
      (aws_regions_to_prefixes_from_data digits aws_document (codes "aws-new" ∷ []))
aws_regions_to_prefixes_from_data-Describes_example =
    aws_regions_to_prefixes_from_data-Describes digits aws_document (codes "aws-new" ∷ [])

abbrev gcp_document : GcpCloudJson
gcp_document = record {
  prefixes =
      (record { ipv4_prefix = codes "7"; ipv6_prefix = []; scope = codes "europe-west1" })
      ∷ (record { ipv4_prefix = []; ipv6_prefix = codes "5"; scope = codes "europe-west1" })
      ∷ [];
}

gcp_regions_to_prefixes_from_data-Describes_example :
    Describes digits
      (gcp_entries digits gcp_document)
      (gcp_regions_to_prefixes_from_data digits gcp_document)
gcp_regions_to_prefixes_from_data-Describes_example =
    gcp_regions_to_prefixes_from_data-Describes digits gcp_document

abbrev azure_document : AzureServiceTagsJson
azure_document = record {
  values =
      (record {
        name = codes "AzureCloud.eastus";
        properties = record {
          region = codes "eastus";
          address_prefixes = codes "7" ∷ codes "5" ∷ [];
        };
      })
      ∷ (record {
        name = codes "AzureCloud";
        properties = record { region = []; address_prefixes = codes "9" ∷ [] };
      })
      ∷ [];
}

azure_regions_to_prefixes_from_data-Describes_example :
    Describes digits
      (azure_entries digits azure_document)
      (azure_regions_to_prefixes_from_data digits azure_document)
azure_regions_to_prefixes_from_data-Describes_example =
    azure_regions_to_prefixes_from_data-Describes digits azure_document

abbrev inputs : Inputs
inputs = record {
  getenv = λ name. [];
  read_file = λ path. ok path;
  aws_json = λ raw. ok aws_document;
  gcp_json = λ raw. ok gcp_document;
  azure_json = λ raw. ok azure_document;
}

-- An output that keeps nothing.
abbrev nowhere : Text → Action (Unit {0}) (Unit {0})
nowhere text s = (ok tt, s)

done : generator_main inputs digits (λ t. t) nowhere nowhere tt ≡ (ok tt, tt)
unfolding generator_main codes aws_regions_to_prefixes_from_data gcp_regions_to_prefixes_from_data
    azure_regions_to_prefixes_from_data read_tables must_read_file parse_aws aws_loop aws_ipv6_loop
    parse_gcp gcp_loop text_beq parse_azure azure_loop has_prefix generate_ranges_go sort_strings
    split addr_value as_16 as_4 bits is_4 lookup store address_bytes for_each gen_cloud gen_region
    insert_string regions_of excluded_aws_regions append_prefix aws_append azure_inner dedupe_from
    dedupe_sorted_prefixes flatten gcp_parse insert_sorted is_skipped prefixes_of sort_slice
    text_ltb
done = refl

generator_main-AreTables_example : Written inputs digits (λ t. t) nowhere nowhere tt tt
generator_main-AreTables_example =
    generator_main-AreTables inputs digits (λ t. t) nowhere nowhere tt tt done

-- Three prefixes, the first two of which are equal.
abbrev sorted_slice : List Prefix
sorted_slice =
    record { addr = ipv4 1; bits_plus_one = 33 }
    ∷ record { addr = ipv4 1; bits_plus_one = 33 }
    ∷ record { addr = ipv4 2; bits_plus_one = 33 }
    ∷ []

dedupe_in_place-eq-dedupe_example :
    (memory : List Prefix) × (k : ℕ) × (dedupe_in_place digits sorted_slice ≡ some (memory, k))
    × (k ≤ length memory)
    × (length memory ≡ length sorted_slice)
    × (take k memory ≡ dedupe_sorted_prefixes digits sorted_slice)
dedupe_in_place-eq-dedupe_example = dedupe_in_place-eq-dedupe digits sorted_slice
