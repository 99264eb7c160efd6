-- ===== src/Ranges2go/Collect.antt =====
-- pkg/net/cloudcidrs/internal/ranges2go: what each of the three loops collects, as one list of
-- entries.
use registry_k8s_io.Netip.{Prefix}
use registry_k8s_io.Prelude.{
  ◌≡◌, ◌∙◌, refl, arith, Bool, false, ◌||◌, ◌&&◌, any, Option, none, some, List, [], ◌∷◌, ◌++◌,
  Text, text_beq, text_eq, text_beq_iff, Result, ok, err, ◌>>=◌, Bool-cases, inl, inr,
  if◌then◌else◌,
}
use registry_k8s_io.Prelude.GoMap.{lookup, lookup-store}
use registry_k8s_io.Ranges2go.{
  PrefixText, RegionsToPrefixes, prefixes_of, append_prefix, sort_slice, dedupe_sorted_prefixes,
  flatten,
}
use registry_k8s_io.Ranges2go.Order.{
  listed, listed-append, listed-flattened, Ascending, flattened-Ascending,
}

-- An entry of a document: its region, what its prefix parses to, and whether it is kept.
pub record Entry : Type 0 where
  pub region : Text
  pub parsed : Result Prefix
  pub is_kept : Bool

-- The loop over entries that all three are instances of.
unfoldable pub collect : List Entry → RegionsToPrefixes → Result RegionsToPrefixes
collect [] rtp = ok rtp
collect (x ∷ rest) rtp = do
  ip_prefix ← x.parsed
  collect rest (if x.is_kept then append_prefix x.region ip_prefix rtp else rtp)

-- The message of the first entry that does not parse.
unfoldable pub first_error : List Entry → Option Text
first_error [] = none
first_error (x ∷ rest) = elim x.parsed [ err message ↦ some message | ok p ↦ first_error rest ]

module _ (c : PrefixText) where
  -- Whether an entry is a kept one of the region whose prefix has the string.
  unfoldable pub is_entry : Text → Text → Entry → Bool
  is_entry region s x =
      x.is_kept
      && text_beq x.region region
      && elim x.parsed [ ok p ↦ text_beq (c.string p) s | err message ↦ false ]

  -- What a result promises of the entries. An error is the first entry's that does not parse.
  -- A table has for each region the strings of the region's kept entries in ascending order,
  -- each once.
  abbrev pub Describes : List Entry → Result RegionsToPrefixes → Type 0
  Describes entries (err message) = first_error entries ≡ some message
  Describes entries (ok rtp) =
      (first_error entries ≡ none)
      × ((region : Text)
          → Ascending c (prefixes_of region rtp)
            × ((s : Text) → listed c s (prefixes_of region rtp) ≡ any (is_entry region s) entries))

  listed-append_prefix :
      (s r region : Text) (p : Prefix) (rtp : RegionsToPrefixes)
      → listed c s (prefixes_of r (append_prefix region p rtp))
        ≡ (text_beq region r && text_beq (c.string p) s) || listed c s (prefixes_of r rtp)
  unfolding prefixes_of append_prefix
  listed-append_prefix s r region p rtp = ground (
    arith,
    lookup-store region r (prefixes_of region rtp ++ p ∷ []) rtp,
    listed-append c s (prefixes_of region rtp) p,
    text_beq_iff region r,
  )

  prefixes_of-flatten :
      (region : Text) (rtp : RegionsToPrefixes)
      → prefixes_of region (flatten c rtp)
        ≡ dedupe_sorted_prefixes c (sort_slice c (prefixes_of region rtp))
  unfolding prefixes_of flatten lookup sort_slice dedupe_sorted_prefixes
  prefixes_of-flatten region [] = refl
  prefixes_of-flatten region ((r, l) ∷ rtp) = elim (Bool-cases (text_beq r region)) [
    | inl same ↦ rw same refl
    | inr other ↦ rw other (prefixes_of-flatten region rtp)
  ]

  -- What the loop collects, beside what was there.
  Collected : List Entry → RegionsToPrefixes → Result RegionsToPrefixes → Type 0
  Collected entries before (err message) = first_error entries ≡ some message
  Collected entries before (ok rtp) =
      (first_error entries ≡ none)
      × ((region s : Text)
          → listed c s (prefixes_of region rtp)
            ≡ any (is_entry region s) entries || listed c s (prefixes_of region before))

  -- The entry before, whose prefix parses.
  Collected-cons :
      (x : Entry) (p : Prefix) (rest : List Entry) (rtp : RegionsToPrefixes)
      → x.parsed ≡ ok p
      → (o : Result RegionsToPrefixes)
      → Collected rest (if x.is_kept then append_prefix x.region p rtp else rtp) o
      → Collected (x ∷ rest) rtp o
  unfolding Collected first_error is_entry
  Collected-cons x p rest rtp e (err message) h = rw e h
  Collected-cons x p rest rtp e (ok after) h = (
    rw e h.0,
    λ region s.
        rw (is_entry, e)
          (ground (arith, h.1 region s, listed-append_prefix s region x.region p rtp)),
  )

  collect-Collected :
      (entries : List Entry) (rtp : RegionsToPrefixes) → Collected entries rtp (collect entries rtp)
  unfolding collect first_error Collected
  collect-Collected [] rtp = (refl, λ region s. refl)
  collect-Collected (x ∷ rest) rtp = go (λ after. collect-Collected rest after) x.parsed refl
    where
      go :
          ((after : RegionsToPrefixes) → Collected rest after (collect rest after))
          → (o : Result Prefix) → x.parsed ≡ o
          → Collected (x ∷ rest) rtp (
              o >>= λ ip_prefix.
              collect rest (if x.is_kept then append_prefix x.region ip_prefix rtp else rtp))
      go ih (err message) e = rw e refl
      go ih (ok p) e =
          Collected-cons x p rest rtp e _
            (ih (if x.is_kept then append_prefix x.region p rtp else rtp))

  flatten-Describes :
      (entries : List Entry) (o : Result RegionsToPrefixes)
      → Collected entries [] o
      → Describes entries (o >>= λ rtp. ok (flatten c rtp))
  unfolding Collected listed prefixes_of lookup
  flatten-Describes entries (err message) h = h
  flatten-Describes entries (ok rtp) h = (
    h.0,
    λ region. rw (prefixes_of-flatten region rtp) (
      flattened-Ascending c (prefixes_of region rtp),
      λ s. listed-flattened c s (prefixes_of region rtp) ∙ h.1 region s ∙ or-nothing region s,
    ),
  )
    where
      or-nothing :
          (region s : Text)
          → any (is_entry region s) entries || listed c s (prefixes_of region [])
            ≡ any (is_entry region s) entries
      or-nothing region s = ground arith

  -- Whatever the entries are.
  pub collect-Describes :
      (entries : List Entry) → Describes entries (collect entries [] >>= λ rtp. ok (flatten c rtp))
  collect-Describes entries =
      flatten-Describes entries (collect entries []) (collect-Collected entries [])
