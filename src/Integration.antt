-- ===== src/Integration.antt =====
-- internal/integration/paths.go: `moduleRootDir`.
pub mod Laws
use registry_k8s_io.GoText.Paths.{join}
use registry_k8s_io.GoText.Paths.Directories.{dir}
use registry_k8s_io.Prelude.{
  ℕ, zero, suc, Bool, true, false, Option, none, some, List, [], ◌∷◌, Text, codes, text_beq, Result,
  ok, err, if◌then◌else◌,
}

abbrev pub no_root : Text
no_root = codes "walked to disk root without finding module root"

-- `exists` says for a path whether `os.Stat` returns no error.
module _ (exists : Text → Bool) where
  unfoldable pub has_module : Text → Bool
  has_module curr_dir = exists (join (curr_dir ∷ codes "go.mod" ∷ []))

  -- The loop; the first argument bounds its rounds, and none is a loop that is not done.
  unfoldable pub walk_upwards : ℕ → Text → Option (Result Text)
  walk_upwards zero curr_dir = none
  walk_upwards (suc fuel) curr_dir =
      let rest = walk_upwards fuel (dir curr_dir) in
      if has_module curr_dir
      then some (ok curr_dir)
      else (if text_beq (dir curr_dir) curr_dir then some (err no_root) else rest)

  -- `moduleRootDir`, of what `getWD` returns.
  unfoldable pub module_root_dir : ℕ → Result Text → Option (Result Text)
  module_root_dir fuel (err message) = some (err message)
  module_root_dir fuel (ok wd) = walk_upwards fuel wd
