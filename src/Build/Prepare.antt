-- ===== src/Build/Prepare.antt =====
-- gobuild.go: prepareBuild, which checks that a build can succeed before it is queued.
use gobuild.Common.{
  ◌==◌, true, not, Option, List, [], ◌∷◌, Bytes, codes, eq_bytes, drop, length, Result, ok, err,
  ◌>>=◌, ◌>>◌, guard, or_fail,
}
use gobuild.Spec.{BuildSpec}
use gobuild.Sdk.Versions.{GoVersion}
use gobuild.Sdk.Ensure.{Sdk, SdkError, Releases, ensure_sdk}
use gobuild.Build.Command.{Host, Command, make_command, target_env}
use gobuild.Build.Module.{Machine, ModuleError, ensure_gobin, ensure_module}

pub data PrepareError : Type 0 where
  sdk_failed : SdkError → PrepareError
  unknown_toolchain : PrepareError
  module_failed : ModuleError → PrepareError
  package_not_found not_main cgo_not_determined needs_cgo : Bytes → PrepareError

abbrev pub or_module_failed : Result ModuleError Bytes → Result PrepareError Bytes
or_module_failed (ok dir) = ok dir
or_module_failed (err e) = err (module_failed e)

-- filepath.Join(modDir, filepath.FromSlash(bs.Dir[1:]))
unfoldable pub package_dir : Host → Bytes → BuildSpec → Bytes
package_dir c mod_dir bs = c.path.join_path (mod_dir ∷ c.path.from_slash (drop 1 bs.dir) ∷ [])

module _ (m : Machine) (bs : BuildSpec) where
  abbrev pub go_list : Bytes → Bytes → List Bytes → Command
  go_list gobin dir args =
      make_command m.host bs.goversion true dir true (target_env bs.goos bs.goarch)
        (gobin ∷ codes "list" ∷ args)

  unfoldable pub list_name : Bytes → Bytes → Command
  list_name gobin dir = go_list gobin dir (codes "-f" ∷ codes "{{.Name}}" ∷ [])

  unfoldable pub list_cgo : Bytes → Bytes → Command
  list_cgo gobin dir = go_list gobin dir (
      codes "-mod=mod"
      ∷ codes "-deps"
      ∷ codes "-f"
      ∷ codes "{{ if and (not .Standard) .CgoFiles }}{{ .ImportPath }}{{ end }}"
      ∷ [])

  -- The two checks of the package in `dir`, whose output is standard output alone.
  unfoldable pub check_package : Bytes → Bytes → Result PrepareError (Unit {0})
  unfolding eq_bytes
  check_package gobin dir = do
    let name = m.run (list_name gobin dir)
    guard (not name.failed) (package_not_found name.output)
    guard (eq_bytes name.output (codes "main\n")) (not_main name.output)
    let cgo = m.run (list_cgo gobin dir)
    guard (not cgo.failed) (cgo_not_determined cgo.output)
    guard (length cgo.output == 0) (needs_cgo cgo.output)

  -- From the toolchain's binary on
  unfoldable pub check_build : Result PrepareError (Unit {0})
  check_build = do
    gobin ← or_fail (ensure_gobin m bs.goversion) unknown_toolchain
    mod_dir ← or_module_failed (ensure_module m bs.goversion gobin bs.mod_path bs.version)
    check_package gobin (package_dir m.host mod_dir bs)

  abbrev pub with_sdk : Sdk × Result SdkError GoVersion → Sdk × Result PrepareError (Unit {0})
  with_sdk (st, ok v) = (st, check_build)
  with_sdk (st, err e) = (st, err (sdk_failed e))

  -- prepareBuild
  unfoldable pub prepare_build :
      Option GoVersion → Releases → Sdk → Sdk × Result PrepareError (Unit {0})
  prepare_build stop r st = with_sdk (ensure_sdk stop r bs.goversion st)
