-- ===== src/Ranges2go/Clouds.antt =====
-- pkg/net/cloudcidrs/internal/ranges2go: parse_aws.go, parse_gcp.go and parse_azure.go, each with
-- the entries of its document.
use registry_k8s_io.Netip.{Prefix}
use registry_k8s_io.GoText.Prefixes.{has_prefix, drop_prefix, has_prefix-append, append-drop_prefix}
use mathlib.Core.Bool.{false≢true}
use registry_k8s_io.Prelude.{
  Option, some, none, false, ◌≢◌, codes, text_beq_iff, ◌≡◌, ◌∙◌, ap, sym, subst, refl, arith, true,
  not, any, List, [], ◌∷◌, ◌++◌, map, Text, text_beq, Result, ok, err, ◌>>=◌, if◌then◌else◌,
  Bool-cases, inl, inr,
}
use registry_k8s_io.Ranges2go.{
  PrefixText, RegionsToPrefixes, append_prefix, flatten, AwsPrefix, AwsIpv6Prefix, AwsIpRangesJson,
  aws_append, aws_loop, aws_ipv6_loop, aws_regions_to_prefixes_from_data, GcpPrefix, GcpCloudJson,
  gcp_parse, gcp_loop, gcp_regions_to_prefixes_from_data, AzureServiceTag, AzureServiceTagsJson,
  is_skipped, azure_inner, azure_loop, azure_regions_to_prefixes_from_data,
}
use registry_k8s_io.Ranges2go.Collect.{Entry, collect, Describes, collect-Describes}

bind_ext {ℓ κ} :
    {A : Type ℓ} {B : Type κ} (o : Result A) (f g : A → Result B)
    → ((a : A) → f a ≡ g a)
    → (o >>= f) ≡ (o >>= g)
bind_ext (ok a) f g h = h a
bind_ext (err message) f g h = refl

bind_assoc {ℓ κ ι} :
    {A : Type ℓ} {B : Type κ} {C : Type ι} (o : Result A) (f : A → Result B) (g : B → Result C)
    → ((o >>= f) >>= g) ≡ (o >>= λ a. f a >>= g)
bind_assoc (ok a) f g = refl
bind_assoc (err message) f g = refl

collect-append :
    (a b : List Entry) (rtp : RegionsToPrefixes)
    → collect (a ++ b) rtp ≡ (collect a rtp >>= λ rtp'. collect b rtp')
unfolding collect
collect-append [] b rtp = refl
collect-append (x ∷ a) b rtp =
    bind_ext x.parsed _ _ (λ p. collect-append a b _) ∙ sym (bind_assoc x.parsed _ _)

-- A tag of one region of the cloud: its name starts with `AzureCloud.`, and it has a region.
abbrev pub IsRegional : AzureServiceTag → Type 0
IsRegional tag =
    ((rest : Text) × (tag.name ≡ codes "AzureCloud." ++ rest)) × (tag.properties.region ≢ [])

regional-not_skipped : (tag : AzureServiceTag) → IsRegional tag → is_skipped tag ≡ false
unfolding is_skipped
regional-not_skipped tag ((rest, e), some_region) = ground (
  arith,
  ap (λ n. has_prefix n (codes "AzureCloud.")) e ∙ has_prefix-append (codes "AzureCloud.") rest,
  text_beq_iff tag.properties.region [],
)

read-IsRegional : (tag : AzureServiceTag) → is_skipped tag ≡ false → IsRegional tag
unfolding is_skipped
read-IsRegional tag h = (
  (
    drop_prefix tag.name (codes "AzureCloud."),
    append-drop_prefix tag.name (codes "AzureCloud.") (ground arith),
  ),
  λ e. false≢true (sym no_region ∙ (text_beq_iff tag.properties.region []).1 e),
)
  where
    no_region : text_beq tag.properties.region [] ≡ false
    no_region = ground arith

other-is_skipped : (tag : AzureServiceTag) → ¬ IsRegional tag → is_skipped tag ≡ true
other-is_skipped tag other = elim (Bool-cases (is_skipped tag)) [
  | inl skipped ↦ skipped
  | inr read ↦ absurd (other (read-IsRegional tag read))
]

pub dec_regional : (tag : AzureServiceTag) → Dec (IsRegional tag)
dec_regional tag = elim (Bool-cases (is_skipped tag)) [
  | inl skipped ↦ no (λ i. false≢true (sym (regional-not_skipped tag i) ∙ skipped))
  | inr read ↦ yes (read-IsRegional tag read)
]

module _ (c : PrefixText) where
  aws_entry : List Text → AwsPrefix → Entry
  aws_entry excluded x = record {
    region = x.region;
    parsed = c.parse_prefix x.ip_prefix;
    is_kept = not (any (text_beq x.region) excluded);
  }

  aws_ipv6_entry : List Text → AwsIpv6Prefix → Entry
  aws_ipv6_entry excluded x = record {
    region = x.region;
    parsed = c.parse_prefix x.ipv6_prefix;
    is_kept = not (any (text_beq x.region) excluded);
  }

  -- The entries of both lists, the excluded regions' not kept.
  unfoldable pub aws_entries : AwsIpRangesJson → List Text → List Entry
  unfolding aws_entry aws_ipv6_entry
  aws_entries data_ excluded =
      map (aws_entry excluded) data_.prefixes ++ map (aws_ipv6_entry excluded) data_.ipv6_prefixes

  kept_lem :
      (region : Text) (p : Prefix) (excluded : List Text) (rtp : RegionsToPrefixes)
      → aws_append excluded region p rtp
        ≡ (if not (any (text_beq region) excluded) then append_prefix region p rtp else rtp)
  unfolding aws_append
  kept_lem region p excluded rtp = ground arith

  aws_loop_lem :
      (excluded : List Text) (l : List AwsPrefix) (rtp : RegionsToPrefixes)
      → aws_loop c excluded l rtp ≡ collect (map (aws_entry excluded) l) rtp
  unfolding aws_loop collect aws_entry
  aws_loop_lem excluded [] rtp = refl
  aws_loop_lem excluded (x ∷ l) rtp = bind_ext (c.parse_prefix x.ip_prefix) _ _ (λ p.
      aws_loop_lem excluded l (aws_append excluded x.region p rtp)
      ∙ ap (collect (map (aws_entry excluded) l)) (kept_lem x.region p excluded rtp))

  aws_ipv6_loop_lem :
      (excluded : List Text) (l : List AwsIpv6Prefix) (rtp : RegionsToPrefixes)
      → aws_ipv6_loop c excluded l rtp ≡ collect (map (aws_ipv6_entry excluded) l) rtp
  unfolding aws_ipv6_loop collect aws_ipv6_entry
  aws_ipv6_loop_lem excluded [] rtp = refl
  aws_ipv6_loop_lem excluded (x ∷ l) rtp = bind_ext (c.parse_prefix x.ipv6_prefix) _ _ (λ p.
      aws_ipv6_loop_lem excluded l (aws_append excluded x.region p rtp)
      ∙ ap (collect (map (aws_ipv6_entry excluded) l)) (kept_lem x.region p excluded rtp))

  -- The table of the AWS document: an error is that of the first entry that does not parse, an
  -- excluded region's entry included; a table lists for each region the strings of its entries'
  -- prefixes in ascending order, each once, and none for an excluded region.
  pub aws_regions_to_prefixes_from_data-Describes :
      (data_ : AwsIpRangesJson) (excluded : List Text)
      → Describes c
          (aws_entries data_ excluded)
          (aws_regions_to_prefixes_from_data c data_ excluded)
  unfolding aws_regions_to_prefixes_from_data aws_entries
  aws_regions_to_prefixes_from_data-Describes data_ excluded =
      subst (Describes c (aws_entries data_ excluded)) (sym same)
        (collect-Describes c (aws_entries data_ excluded))
    where
      same :
          aws_regions_to_prefixes_from_data c data_ excluded
          ≡ (collect (aws_entries data_ excluded) [] >>= λ rtp. ok (flatten c rtp))
      same = rw (aws_loop_lem excluded data_.prefixes []) (
          bind_ext (collect (map (aws_entry excluded) data_.prefixes) []) _ _ (λ rtp.
            ap (λ (o : Result RegionsToPrefixes). o >>= λ rtp'. ok (flatten c rtp'))
              (aws_ipv6_loop_lem excluded data_.ipv6_prefixes rtp))
          ∙ sym (bind_assoc (collect (map (aws_entry excluded) data_.prefixes) []) _ _)
          ∙ ap (λ (o : Result RegionsToPrefixes). o >>= λ rtp. ok (flatten c rtp))
              (sym (
                collect-append (map (aws_entry excluded) data_.prefixes)
                  (map (aws_ipv6_entry excluded) data_.ipv6_prefixes) [])))

  -- What the two texts of an entry give: the first if it is not empty, or else the second, or none.
  first_text : Text → Text → Option Text
  first_text (x ∷ t) ipv6 = some (x ∷ t)
  first_text [] (x ∷ t) = some (x ∷ t)
  first_text [] [] = none

  -- Its prefix is that of the IPv4 text, where there is one.
  parsed_text : Option Text → Result Prefix
  parsed_text (some t) = c.parse_prefix t
  parsed_text none = err (codes "unexpected entry with no ipv4Prefix or ipv6Prefix")

  -- The entries of the Google document, all kept.
  gcp_entry : GcpPrefix → Entry
  unfolding first_text parsed_text
  gcp_entry x = record {
    region = x.scope;
    parsed = parsed_text (first_text x.ipv4_prefix x.ipv6_prefix);
    is_kept = true;
  }

  gcp_parse_lem :
      (x : GcpPrefix) → gcp_parse c x ≡ parsed_text (first_text x.ipv4_prefix x.ipv6_prefix)
  unfolding gcp_parse first_text parsed_text text_beq
  gcp_parse_lem x = go x.ipv4_prefix x.ipv6_prefix
    where
      go :
          (v4 v6 : Text)
          → gcp_parse c (record { ipv4_prefix = v4; ipv6_prefix = v6; scope = x.scope })
            ≡ parsed_text (first_text v4 v6)
      go (y ∷ t) v6 = refl
      go [] (y ∷ t) = refl
      go [] [] = refl

  unfoldable pub gcp_entries : GcpCloudJson → List Entry
  unfolding gcp_entry
  gcp_entries data_ = map gcp_entry data_.prefixes

  gcp_loop_lem :
      (l : List GcpPrefix) (rtp : RegionsToPrefixes)
      → gcp_loop c l rtp ≡ collect (map gcp_entry l) rtp
  unfolding gcp_loop collect gcp_entry
  gcp_loop_lem [] rtp = refl
  gcp_loop_lem (x ∷ l) rtp =
      bind_ext (gcp_parse c x) _ _ (λ p. gcp_loop_lem l (append_prefix x.scope p rtp))
      ∙ ap
          (λ (r : Result Prefix).
            r >>= λ p. collect (map gcp_entry l) (append_prefix x.scope p rtp))
          (gcp_parse_lem x)

  -- The table of the Google document: an error is that of the first entry that has no prefix or one
  -- that does not parse; a table lists for each scope the strings of its entries' prefixes, the IPv4
  -- one where an entry has both, in ascending order, each once.
  pub gcp_regions_to_prefixes_from_data-Describes :
      (data_ : GcpCloudJson)
      → Describes c (gcp_entries data_) (gcp_regions_to_prefixes_from_data c data_)
  unfolding gcp_regions_to_prefixes_from_data gcp_entries
  gcp_regions_to_prefixes_from_data-Describes data_ =
      rw (gcp_loop_lem data_.prefixes []) (collect-Describes c (gcp_entries data_))

  azure_entry : Text → Text → Entry
  azure_entry region x = record { region = region; parsed = c.parse_prefix x; is_kept = true }

  -- The entries of one tag: none, if it is not a region's.
  tag_entries : AzureServiceTag → List Entry
  unfolding azure_entry
  tag_entries tag = elim (dec_regional tag) [
    | yes regional ↦ map (azure_entry tag.properties.region) tag.properties.address_prefixes
    | no other ↦ []
  ]

  tags_entries : List AzureServiceTag → List Entry
  tags_entries [] = []
  tags_entries (tag ∷ tags) = tag_entries tag ++ tags_entries tags

  unfoldable pub azure_entries : AzureServiceTagsJson → List Entry
  unfolding tags_entries tag_entries
  azure_entries data_ = tags_entries data_.values

  azure_inner_lem :
      (region : Text) (l : List Text) (rtp : RegionsToPrefixes)
      → azure_inner c region l rtp ≡ collect (map (azure_entry region) l) rtp
  unfolding azure_inner collect azure_entry
  azure_inner_lem region [] rtp = refl
  azure_inner_lem region (x ∷ l) rtp =
      bind_ext (c.parse_prefix x) _ _ (λ p. azure_inner_lem region l (append_prefix region p rtp))

  tag_lem :
      (t : AzureServiceTag) (rtp : RegionsToPrefixes)
      → (if is_skipped t
          then ok rtp
          else azure_inner c t.properties.region t.properties.address_prefixes rtp)
        ≡ collect (tag_entries t) rtp
  unfolding tag_entries collect
  tag_lem t rtp = go (dec_regional t)
    where
      go :
          (d : Dec (IsRegional t))
          → (if is_skipped t
              then ok rtp
              else azure_inner c t.properties.region t.properties.address_prefixes rtp)
            ≡ collect
                (elim d [
                  | yes regional ↦
                      map (azure_entry t.properties.region) t.properties.address_prefixes
                  | no other ↦ []
                ])
                rtp
      go (yes regional) =
          rw (regional-not_skipped t regional)
            (azure_inner_lem t.properties.region t.properties.address_prefixes rtp)
      go (no other) = rw (other-is_skipped t other) refl

  azure_loop_lem :
      (l : List AzureServiceTag) (rtp : RegionsToPrefixes)
      → azure_loop c l rtp ≡ collect (tags_entries l) rtp
  unfolding azure_loop tags_entries
  azure_loop_lem [] rtp = unfold collect in refl
  azure_loop_lem (tag ∷ tags) rtp =
      bind_ext
        (if is_skipped tag
          then ok rtp
          else azure_inner c tag.properties.region tag.properties.address_prefixes rtp)
        _ _ (λ after. azure_loop_lem tags after)
      ∙ ap (λ (o : Result RegionsToPrefixes). o >>= λ after. collect (tags_entries tags) after)
          (tag_lem tag rtp)
      ∙ sym (collect-append (tag_entries tag) (tags_entries tags) rtp)

  -- The table of the Azure document: an error is that of the first prefix that does not parse among
  -- the tags that have a region and whose name starts with `AzureCloud.`; a table lists for each
  -- region the strings of the prefixes of these tags of its own, in ascending order, each once.
  pub azure_regions_to_prefixes_from_data-Describes :
      (data_ : AzureServiceTagsJson)
      → Describes c (azure_entries data_) (azure_regions_to_prefixes_from_data c data_)
  unfolding azure_regions_to_prefixes_from_data azure_entries
  azure_regions_to_prefixes_from_data-Describes data_ =
      rw (azure_loop_lem data_.values []) (collect-Describes c (azure_entries data_))
