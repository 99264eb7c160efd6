-- ===== src/Ranges2go/Generate.antt =====
-- pkg/net/cloudcidrs/internal/ranges2go/gen.go: the text of the generated file, written piece by
-- piece to a writer that may fail. A Go map is a list of its entries in the order of one iteration.
pub mod Sorted
pub mod Laws
pub mod Decimals
pub mod Lines
use registry_k8s_io.Netip.{Addr, Prefix, is_4, as_4, as_16, bits}
use registry_k8s_io.Prelude.{
  ℕ, zero, suc, ◌+◌, ◌/◌, ◌%◌, Bool, true, false, ltb, eqb, Option, none, some, List, [], ◌∷◌, ◌++◌,
  map, Text, text_eq, codes, Result, ok, err, if◌then◌else◌,
}
use registry_k8s_io.Prelude.Actions.{Action, ◌>>=◌, ◌>>◌, lift}
use registry_k8s_io.Prelude.GoMap.{lookup}
use registry_k8s_io.Ranges2go.{RegionsToPrefixes, prefixes_of, text_ltb}

-- `map[string]regionsToPrefixes`
abbrev pub CloudToRtp : Type 0
CloudToRtp = List (Text × RegionsToPrefixes)

-- A writer: a piece of text, the state before, an error or none, and the state after.
abbrev pub Writer : Type 0 → Type 0
Writer State = Text → Action State (Unit {0})

-- `%d`; the first argument is a bound on the number of digits.
unfoldable pub decimal_digits : ℕ → ℕ → Text
decimal_digits zero n = (b'0' + n) ∷ []
decimal_digits (suc fuel) n =
    let front = decimal_digits fuel (n / 10) in
    if ltb n 10 then (b'0' + n) ∷ [] else front ++ (b'0' + n % 10) ∷ []

unfoldable pub decimal : ℕ → Text
unfolding decimal_digits
decimal n = decimal_digits n n

-- The numbers with a comma and a space between them.
unfoldable pub with_commas : List ℕ → Text
with_commas [] = []
with_commas (n ∷ []) = decimal n
with_commas (n ∷ m ∷ l) = decimal n ++ (codes ", " ++ with_commas (m ∷ l))

-- `addr.As4()` or `addr.As16()`
unfoldable pub address_bytes : Addr → List ℕ
address_bytes addr =
    if is_4 addr
    then map (as_4 addr) (0 ∷ 1 ∷ 2 ∷ 3 ∷ [])
    else map (as_16 addr) (0 ∷ 1 ∷ 2 ∷ 3 ∷ 4 ∷ 5 ∷ 6 ∷ 7 ∷ 8 ∷ 9 ∷ 10 ∷ 11 ∷ 12 ∷ 13 ∷ 14 ∷ 15 ∷ [])

-- `%d` of `Bits()`, which is -1 for an invalid prefix.
unfoldable pub bits_text : Prefix → Text
bits_text prefix = if eqb prefix.bits_plus_one 0 then codes "-1" else decimal (bits prefix)

-- The line of one prefix.
unfoldable pub prefix_line : Prefix → Text
prefix_line prefix =
    if is_4 prefix.addr
    then codes "\t\tnetip.PrefixFrom(netip.AddrFrom4([4]byte{"
      ++ (with_commas (address_bytes prefix.addr)
          ++ (codes "}), " ++ (bits_text prefix ++ codes "),\n")))
    else codes "\t\tnetip.PrefixFrom(netip.AddrFrom16([16]byte{"
      ++ (with_commas (address_bytes prefix.addr)
          ++ (codes "}), " ++ (bits_text prefix ++ codes "),\n")))

-- sort.Strings
unfoldable pub insert_string : Text → List Text → List Text
insert_string s [] = s ∷ []
insert_string s (t ∷ l) =
    let rest = insert_string s l in if text_ltb t s then t ∷ rest else s ∷ t ∷ l

unfoldable pub sort_strings : List Text → List Text
sort_strings [] = []
sort_strings (s ∷ l) = insert_string s (sort_strings l)

-- The keys of a map.
abbrev pub keys {ℓ} : {V : Type ℓ} → List (Text × V) → List Text
keys [] = []
keys ((k, v) ∷ m) = k ∷ keys m

-- `cloudToRTP[cloud]`
unfoldable pub regions_of : Text → CloudToRtp → RegionsToPrefixes
regions_of cloud m = elim (lookup cloud m) [ none ↦ [] | some rtp ↦ rtp ]

-- `fileHeader`, and the start of the table.
abbrev pub file_header : Text
file_header =
    codes
      "/*\nCopyright The Kubernetes Authors.\n\nLicensed under the Apache License, Version 2.0 (the \"License\");\nyou may not use this file except in compliance with the License.\nYou may obtain a copy of the License at\n\n    http://www.apache.org/licenses/LICENSE-2.0\n\nUnless required by applicable law or agreed to in writing, software\ndistributed under the License is distributed on an \"AS IS\" BASIS,\nWITHOUT WARRANTIES OR CONDITIONS OF ANY KIND, either express or implied.\nSee the License for the specific language governing permissions and\nlimitations under the License.\n*/\n\n// File generated by ranges2go DO NOT EDIT\n\npackage cloudcidrs\n\nimport (\n\t\"net/netip\"\n)\n\n"

abbrev pub table_start : Text
table_start =
    codes
      "// regionToRanges contains a preparsed map of cloud IPInfo to netip.Prefix\nvar regionToRanges = map[IPInfo][]netip.Prefix{\n"

-- `quote` is `%q`.
module _ (quote : Text → Text) {State : Type 0} (write : Writer State) where
  -- A loop whose body may fail.
  unfoldable pub for_each :
      {A : Type 0} → (A → Action State (Unit {0})) → List A → Action State (Unit {0})
  for_each body [] = lift (ok tt)
  for_each body (x ∷ l) = do body x; for_each body l

  -- One region of a cloud.
  unfoldable pub gen_region : Text → RegionsToPrefixes → Text → Action State (Unit {0})
  unfolding for_each
  gen_region cloud rtp region = do
    write
        (codes "\t{Cloud: " ++ (cloud ++ (codes ", Region: " ++ (quote region ++ codes "}: {\n"))))
    for_each (λ prefix. write (prefix_line prefix)) (prefixes_of region rtp)
    write (codes "\t},\n")

  -- `genCloud`
  unfoldable pub gen_cloud : Text → RegionsToPrefixes → Action State (Unit {0})
  unfolding for_each
  gen_cloud cloud rtp = for_each (gen_region cloud rtp) (sort_strings (keys rtp))

  -- The constant of a cloud.
  unfoldable pub cloud_constant : Text → Text
  cloud_constant cloud =
      codes "// "
      ++ (cloud
          ++ (codes " cloud\nconst " ++ (cloud ++ (codes " = " ++ (quote cloud ++ codes "\n\n")))))

  -- `generateRangesGo`
  unfoldable pub generate_ranges_go : CloudToRtp → Action State (Unit {0})
  unfolding for_each
  generate_ranges_go cloud_to_rtp = do
    write file_header
    for_each (λ cloud. write (cloud_constant cloud)) (sort_strings (keys cloud_to_rtp))
    write table_start
    for_each (λ cloud. gen_cloud cloud (regions_of cloud cloud_to_rtp))
        (sort_strings (keys cloud_to_rtp))
    write (codes "}\n")
