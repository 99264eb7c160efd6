-- ===== src/Tests/Checks.antt =====
-- The coverage check and the generated file on small inputs.
use mathlib.Core.List.{Permᴰ}
use mathlib.Core.List.Permᴰ
use registry_k8s_io.Coverage.{Profile, passed, require_coverage}
use registry_k8s_io.Coverage.Laws.{IsAsListed, require_coverage-passed}
use registry_k8s_io.GoText.Paths.Laws.{IsPlain}
use registry_k8s_io.Integration.{module_root_dir}
use registry_k8s_io.Integration.Laws.{
  path_of, upwards, first_module, module_root_dir-eq-first_module,
}
use registry_k8s_io.Netip.{Prefix, ipv4, IsValid, bit_len, has_zone}
use registry_k8s_io.Prelude.{
  ℕ, ◌≡◌, ◌≢◌, ◌↔◌, refl, text_beq, eqb, Bool, arith, subst, text_beq_iff, text_eq, false, some,
  All, List, [], ◌∷◌, ◌++◌, Text, codes, ok,
}
use registry_k8s_io.Prelude.GoMap.{lookup}
use registry_k8s_io.Ranges2go.Generate.{
  CloudToRtp, Writer, keys, regions_of, prefix_line, generate_ranges_go,
}
use registry_k8s_io.Ranges2go.Generate.Decimals.{numbers}
use registry_k8s_io.Ranges2go.Generate.Lines.{read_prefix, read_prefix-prefix_line}
use registry_k8s_io.Ranges2go.Generate.Laws.{SameRegions, SameClouds, generate_ranges_go-SameClouds}

-- Each text is put behind those before it.
abbrev buffer : Writer Text
buffer t s = (ok tt, s ++ t)

abbrev clouds : CloudToRtp
clouds =
    (
      codes "GCP",
      (codes "b", (record { addr = ipv4 7; bits_plus_one = 33 }) ∷ []) ∷ (codes "a", []) ∷ [],
    )
    ∷ (codes "AWS", [])
    ∷ []

abbrev clouds_reversed : CloudToRtp
clouds_reversed =
    (codes "AWS", [])
    ∷ (
      codes "GCP",
      (codes "b", (record { addr = ipv4 7; bits_plus_one = 33 }) ∷ []) ∷ (codes "a", []) ∷ [],
    )
    ∷ []

clouds-regions : (cloud : Text) → regions_of cloud clouds ≡ regions_of cloud clouds_reversed
unfolding regions_of lookup codes
clouds-regions cloud =
    ground (arith, text_beq_iff (codes "GCP") cloud, text_beq_iff (codes "AWS") cloud)

clouds-SameClouds : SameClouds clouds clouds_reversed
clouds-SameClouds = (
  Permᴰ.swap refl refl,
  λ cloud.
      subst (SameRegions (regions_of cloud clouds)) (clouds-regions cloud)
        (Permᴰ.refl (keys (regions_of cloud clouds)), λ region. refl),
)

generate_ranges_go-SameClouds_example :
    generate_ranges_go (λ t. t) buffer clouds []
    ≡ generate_ranges_go (λ t. t) buffer clouds_reversed []
generate_ranges_go-SameClouds_example =
    generate_ranges_go-SameClouds (λ t. t) buffer clouds clouds_reversed [] clouds-SameClouds

abbrev profiles : List Profile
profiles =
    (record { file_name = codes "a.go"; blocks = (record { num_stmt = 2; count = 1 }) ∷ [] })
    ∷ (record {
      file_name = codes "k8s.io/registry.k8s.io/cmd/archeio/main.go";
      blocks = (record { num_stmt = 2; count = 1 }) ∷ (record { num_stmt = 3; count = 0 }) ∷ [];
    })
    ∷ []

require_coverage-passed_example :
    (require_coverage (ok profiles) ≡ passed) ↔ All IsAsListed profiles
require_coverage-passed_example = require_coverage-passed profiles

-- 34.0.0.0/15
abbrev google_prefix : Prefix
google_prefix = record { addr = ipv4 570425344; bits_plus_one = 16 }

google_prefix-IsValid : IsValid google_prefix
unfolding bit_len
google_prefix-IsValid = record {
  in_range = omega arith;
  family = omega arith;
  some_bits = omega arith;
  bits_fit = omega arith;
}

no_zone : has_zone google_prefix.addr ≡ false
unfolding has_zone
no_zone = refl

read_prefix-prefix_line_example :
    read_prefix (numbers (prefix_line google_prefix)) ≡ some google_prefix
read_prefix-prefix_line_example =
    read_prefix-prefix_line google_prefix google_prefix-IsValid no_zone

abbrev a_module : Text → Bool
a_module p = text_beq p (codes "/a/go.mod")

segments-IsPlain : All IsPlain (codes "b" ∷ codes "a" ∷ [])
unfolding codes
segments-IsPlain = (byte b'b' refl cc, (byte b'a' refl cc, tt))
  where
    byte : (c : ℕ) → eqb c b'/' ≡ false → c ≢ b'.' → IsPlain (c ∷ [])
    byte c h k = record {
      not_empty = λ e. cc;
      not_dot = λ e. k cc;
      not_dot_dot = λ e. cc;
      no_slash = (h, tt);
    }

-- From /a/b.
module_root_dir-eq-first_module_example :
    module_root_dir a_module 3 (ok (path_of (codes "b" ∷ codes "a" ∷ [])))
    ≡ some (first_module a_module (upwards (codes "b" ∷ codes "a" ∷ [])))
module_root_dir-eq-first_module_example =
    module_root_dir-eq-first_module a_module 3 (codes "b" ∷ codes "a" ∷ []) segments-IsPlain
      (omega arith)
