-- ===== src/Ranges2go.antt =====
-- pkg/net/cloudcidrs/internal/ranges2go: the tables of prefixes by region that the generator makes
-- of the three decoded documents. Decoding (encoding/json) is a parameter: a document is a record.
pub mod Order
pub mod Dedupe
pub mod Collect
pub mod Clouds
pub mod Generate
pub mod Main
pub mod Pipeline
use registry_k8s_io.GoText.Prefixes.{has_prefix}
use registry_k8s_io.Netip.{Prefix}
use registry_k8s_io.Prelude.{
  ℕ, Bool, true, false, ◌&&◌, ◌||◌, not, eqb, ltb, any, Option, none, some, List, [], ◌∷◌, ◌++◌,
  map, Text, text_eq, text_beq, codes, Result, ok, err, ◌>>=◌, if◌then◌else◌,
}
use registry_k8s_io.Prelude.GoMap.{lookup, store}

-- netip.ParsePrefix and Prefix.String, of which nothing is assumed.
pub record PrefixText : Type 0 where
  pub parse_prefix : Text → Result Prefix
  pub string : Prefix → Text

-- `regionsToPrefixes`
abbrev pub RegionsToPrefixes : Type 0
RegionsToPrefixes = List (Text × List Prefix)

-- The order of strings: by their bytes.
unfoldable pub text_ltb : Text → Text → Bool
text_ltb [] [] = false
text_ltb [] (y ∷ t) = true
text_ltb (x ∷ s) [] = false
text_ltb (x ∷ s) (y ∷ t) = ltb x y || eqb x y && text_ltb s t

-- A read of the map: a missing region reads as the nil slice.
abbrev pub or_nil : Option (List Prefix) → List Prefix
or_nil none = []
or_nil (some l) = l

unfoldable pub prefixes_of : Text → RegionsToPrefixes → List Prefix
prefixes_of region rtp = or_nil (lookup region rtp)

-- `rtp[region] = append(rtp[region], ipPrefix)`
unfoldable pub append_prefix : Text → Prefix → RegionsToPrefixes → RegionsToPrefixes
unfolding prefixes_of
append_prefix region ip_prefix rtp = store region (prefixes_of region rtp ++ ip_prefix ∷ []) rtp

module _ (c : PrefixText) where
  -- sort.Slice by the prefixes' strings.
  unfoldable pub insert_sorted : Prefix → List Prefix → List Prefix
  insert_sorted p [] = p ∷ []
  insert_sorted p (q ∷ l) =
      let rest = insert_sorted p l in
      if text_ltb (c.string q) (c.string p) then q ∷ rest else p ∷ q ∷ l

  unfoldable pub sort_slice : List Prefix → List Prefix
  sort_slice [] = []
  sort_slice (p ∷ l) = insert_sorted p (sort_slice l)

  -- `dedupeSortedPrefixes`: an entry is kept if it does not match the one before it. The source
  -- writes the kept entries to the front of the same slice, never past the entry it reads.
  unfoldable pub dedupe_from : Prefix → List Prefix → List Prefix
  dedupe_from previous [] = []
  dedupe_from previous (p ∷ l) =
      let rest = dedupe_from p l in
      if not (text_beq (c.string p) (c.string previous)) then p ∷ rest else rest

  unfoldable pub dedupe_sorted_prefixes : List Prefix → List Prefix
  unfolding dedupe_from
  dedupe_sorted_prefixes [] = []
  dedupe_sorted_prefixes (p ∷ l) = p ∷ dedupe_from p l

  -- The loop that flattens the table.
  unfoldable pub flatten : RegionsToPrefixes → RegionsToPrefixes
  flatten [] = []
  flatten ((region, l) ∷ rtp) = (region, dedupe_sorted_prefixes (sort_slice l)) ∷ flatten rtp

-- parse_aws.go
pub record AwsPrefix : Type 0 where
  pub ip_prefix : Text
  pub region : Text
  pub service : Text

pub record AwsIpv6Prefix : Type 0 where
  pub ipv6_prefix : Text
  pub region : Text
  pub service : Text

pub record AwsIpRangesJson : Type 0 where
  pub prefixes : List AwsPrefix
  pub ipv6_prefixes : List AwsIpv6Prefix

-- One entry of either list, after its prefix is parsed.
unfoldable pub aws_append : List Text → Text → Prefix → RegionsToPrefixes → RegionsToPrefixes
aws_append excluded_regions region ip_prefix rtp =
    if any (text_beq region) excluded_regions then rtp else append_prefix region ip_prefix rtp

unfoldable pub aws_loop :
    PrefixText → List Text → List AwsPrefix → RegionsToPrefixes → Result RegionsToPrefixes
aws_loop c excluded_regions [] rtp = ok rtp
aws_loop c excluded_regions (prefix ∷ rest) rtp = do
  ip_prefix ← c.parse_prefix prefix.ip_prefix
  aws_loop c excluded_regions rest (aws_append excluded_regions prefix.region ip_prefix rtp)

unfoldable pub aws_ipv6_loop :
    PrefixText → List Text → List AwsIpv6Prefix → RegionsToPrefixes → Result RegionsToPrefixes
aws_ipv6_loop c excluded_regions [] rtp = ok rtp
aws_ipv6_loop c excluded_regions (prefix ∷ rest) rtp = do
  ip_prefix ← c.parse_prefix prefix.ipv6_prefix
  aws_ipv6_loop c excluded_regions rest (aws_append excluded_regions prefix.region ip_prefix rtp)

unfoldable pub aws_regions_to_prefixes_from_data :
    PrefixText → AwsIpRangesJson → List Text → Result RegionsToPrefixes
aws_regions_to_prefixes_from_data c data_ excluded_regions = do
  rtp ← aws_loop c excluded_regions data_.prefixes []
  rtp' ← aws_ipv6_loop c excluded_regions data_.ipv6_prefixes rtp
  ok (flatten c rtp')

-- parse_gcp.go
pub record GcpPrefix : Type 0 where
  pub ipv4_prefix : Text
  pub ipv6_prefix : Text
  pub scope : Text

pub record GcpCloudJson : Type 0 where
  pub prefixes : List GcpPrefix

unfoldable pub gcp_parse : PrefixText → GcpPrefix → Result Prefix
gcp_parse c prefix =
    if not (text_beq prefix.ipv4_prefix [])
    then c.parse_prefix prefix.ipv4_prefix
    else (if not (text_beq prefix.ipv6_prefix [])
        then c.parse_prefix prefix.ipv6_prefix
        else err (codes "unexpected entry with no ipv4Prefix or ipv6Prefix"))

unfoldable pub gcp_loop : PrefixText → List GcpPrefix → RegionsToPrefixes → Result RegionsToPrefixes
unfolding gcp_parse
gcp_loop c [] rtp = ok rtp
gcp_loop c (prefix ∷ rest) rtp = do
  ip_prefix ← gcp_parse c prefix
  gcp_loop c rest (append_prefix prefix.scope ip_prefix rtp)

unfoldable pub gcp_regions_to_prefixes_from_data :
    PrefixText → GcpCloudJson → Result RegionsToPrefixes
gcp_regions_to_prefixes_from_data c data_ = do
  rtp ← gcp_loop c data_.prefixes []
  ok (flatten c rtp)

-- parse_azure.go
pub record AzureServiceTagProperties : Type 0 where
  pub region : Text
  pub address_prefixes : List Text

pub record AzureServiceTag : Type 0 where
  pub name : Text
  pub properties : AzureServiceTagProperties

pub record AzureServiceTagsJson : Type 0 where
  pub values : List AzureServiceTag

-- The tags that are passed over.
unfoldable pub is_skipped : AzureServiceTag → Bool
is_skipped tag =
    not (has_prefix tag.name (codes "AzureCloud.")) || text_beq tag.properties.region []

unfoldable pub azure_inner :
    PrefixText → Text → List Text → RegionsToPrefixes → Result RegionsToPrefixes
azure_inner c region [] rtp = ok rtp
azure_inner c region (prefix ∷ rest) rtp = do
  ip_prefix ← c.parse_prefix prefix
  azure_inner c region rest (append_prefix region ip_prefix rtp)

unfoldable pub azure_loop :
    PrefixText → List AzureServiceTag → RegionsToPrefixes → Result RegionsToPrefixes
unfolding azure_inner is_skipped
azure_loop c [] rtp = ok rtp
azure_loop c (tag ∷ tags) rtp = do
  rtp' ←
      if is_skipped tag
      then ok rtp
      else azure_inner c tag.properties.region tag.properties.address_prefixes rtp
  azure_loop c tags rtp'

unfoldable pub azure_regions_to_prefixes_from_data :
    PrefixText → AzureServiceTagsJson → Result RegionsToPrefixes
azure_regions_to_prefixes_from_data c data_ = do
  rtp ← azure_loop c data_.values []
  ok (flatten c rtp)

-- `parseAWS`, `parseGCP` and `parseAzure`, over the decoders of the documents.
unfoldable pub parse_aws :
    PrefixText → (Text → Result AwsIpRangesJson) → Text → List Text → Result RegionsToPrefixes
parse_aws c unmarshal raw excluded_regions = do
  parsed ← unmarshal raw
  aws_regions_to_prefixes_from_data c parsed excluded_regions

unfoldable pub parse_gcp :
    PrefixText → (Text → Result GcpCloudJson) → Text → Result RegionsToPrefixes
parse_gcp c unmarshal raw = do parsed ← unmarshal raw; gcp_regions_to_prefixes_from_data c parsed

unfoldable pub parse_azure :
    PrefixText → (Text → Result AzureServiceTagsJson) → Text → Result RegionsToPrefixes
parse_azure c unmarshal raw = do
  parsed ← unmarshal raw
  azure_regions_to_prefixes_from_data c parsed
