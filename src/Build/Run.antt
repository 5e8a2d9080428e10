-- ===== src/Build/Run.antt =====
-- gobuild.go: build, up to the run of the go command that compiles the binary.
pub mod Store
use gobuild.Common.{
  ℕ, Bool, true, false, not, ◌||◌, if◌then◌else◌, Option, none, some, List, [], ◌∷◌, ◌++◌, Bytes,
  codes, eq_bytes, drop, Result, ok, err, ◌>>=◌, ◌>>◌, guard, or_fail,
}
use gobuild.Common.Int.{ℤ, pos}
use gobuild.Spec.{BuildSpec}
use gobuild.Record.{BuildResult}
use gobuild.Sdk.Versions.{GoVersion, VersionError, parse_go_version}
use gobuild.Tlog.{AddError}
use gobuild.Build.Command.{Host, Command, make_command, target_env}
use gobuild.Build.Module.{Machine, Run, ModuleError, ensure_gobin, ensure_module, is_from}
use gobuild.Build.Verify.{NoVote, Response}

pub data Removal : Type 0 where
  removed not_there not_removed : Removal

-- The compiled binary, or the call on it that fails.
pub data BinaryFile : Type 0 where
  not_opened not_stat not_read not_sought : BinaryFile
  contents : Bytes → BinaryFile

-- What the calls of one build answer: `machine` the commands, `bin_dir` and `has_result_dir` the
-- two calls of os.MkdirTemp, `remove` os.Remove, `binary` the file at a path after the command,
-- `sum_of` the hash of its contents as text, and which files cannot be written or moved.
pub record Calls : Type 0 where
  pub machine : Machine
  pub build_gobin : Bool
  pub bin_dir : Option Bytes
  pub remove : Bytes → Removal
  pub binary : Bytes → BinaryFile
  pub sum_of : Bytes → Bytes
  pub has_result_dir : Bool
  pub has_fail_dir : Bool
  pub binary_gz_fails : Bool
  pub log_gz_fails : Bool
  pub number_read_fails : Bool
  pub restore_fails : Bool
  pub http_get : Bytes → Option Response
  pub verifier_urls : List Bytes

pub data BuildFailure : Type 0 where
  toolchain_missing no_bin_dir binary_not_removed failure_not_stored no_result_dir binary_not_read
        binary_not_stored log_not_stored number_not_read not_restored :
      BuildFailure
  module_not_fetched : ModuleError → BuildFailure
  bad_goversion : VersionError → BuildFailure
  compile_failed bad_previous_number : Bytes → BuildFailure
  sum_mismatch : Bytes → Bytes → BuildFailure
  verifier_failed : NoVote → BuildFailure
  sums_differ : ℕ → List Bytes → BuildFailure
  sum_not_added : AddError → BuildFailure

abbrev pub or_no_module : Result ModuleError Bytes → Result BuildFailure Bytes
or_no_module (ok dir) = ok dir
or_no_module (err e) = err (module_not_fetched e)

abbrev pub or_bad_goversion : Result VersionError GoVersion → Result BuildFailure GoVersion
or_bad_goversion (ok v) = ok v
or_bad_goversion (err e) = err (bad_goversion e)

abbrev pub is_removed : Removal → Bool
is_removed removed = true
is_removed not_there = true
is_removed not_removed = false

module _ (c : Host) (bs : BuildSpec) where
  -- `name`, what to "go get"
  unfoldable pub install_target : Bytes
  unfolding eq_bytes
  install_target =
      bs.mod_path ++ ((if eq_bytes bs.dir (codes "/") then [] else bs.dir) ++ (b'@' ∷ bs.version))

  -- The path below the directory of binaries
  unfoldable pub binary_path : Bytes
  unfolding eq_bytes
  binary_path =
      let name =
        if eq_bytes bs.dir (codes "/")
        then c.path.base_path bs.mod_path
        else c.path.base_path (drop 1 bs.dir) in
      let joined = c.path.join_path ([] ∷ name ∷ []) in
      let file = if eq_bytes bs.goos (codes "windows") then joined ++ codes ".exe" else joined in
      if not (eq_bytes bs.goos c.host_goos) || not (eq_bytes bs.goarch c.host_goarch)
      then c.path.join_path ((bs.goos ++ (b'_' ∷ bs.goarch)) ∷ file ∷ [])
      else file

  -- `resultPath`, with the directory of config.BuildGobin if there is one
  unfoldable pub result_path : Option Bytes → Bytes
  unfolding binary_path
  result_path (some dir) = c.path.join_path (dir ∷ binary_path ∷ [])
  result_path none = c.path.join_path (c.home_dir ∷ codes "go" ∷ codes "bin" ∷ binary_path ∷ [])

  abbrev gobin_env : Option Bytes → List Bytes
  gobin_env (some dir) = (codes "GOBUILD_GOBIN=" ++ dir) ∷ []
  gobin_env none = []

  unfoldable pub ldflags : Bytes
  ldflags = codes "-ldflags=-buildid=" ++ (if bs.stripped then codes " -s" else [])

  -- The go command that compiles
  unfoldable pub compile_command : Bytes → GoVersion → Option Bytes → Command
  unfolding ldflags install_target
  compile_command gobin v dir =
      let is_118 = is_from (pos 18) v in
      make_command c bs.goversion (is_from (pos 23) v) c.empty_dir false
        (target_env bs.goos bs.goarch ++ gobin_env dir)
        (gobin
          ∷ (if is_118 then codes "install" else codes "get")
          ∷ codes "-x"
          ∷ codes "-v"
          ∷ codes "-trimpath"
          ∷ ldflags
          ∷ codes "--"
          ∷ install_target
          ∷ [])

-- The output of the go command, and where the binary is.
pub record Compiled : Type 0 where
  pub run : Run
  pub path : Bytes

-- os.MkdirTemp for config.BuildGobin; without it, no directory.
unfoldable pub make_bin_dir : Calls → Result BuildFailure (Option Bytes)
make_bin_dir b =
    if b.build_gobin
    then elim b.bin_dir [ some dir ↦ ok (some dir) | none ↦ err no_bin_dir ]
    else ok none

-- The first part of build. ensurePrimedBuildCache returns nil at once.
unfoldable pub compile : Calls → BuildSpec → Result BuildFailure Compiled
compile b bs = do
  let c = b.machine.host
  gobin ← or_fail (ensure_gobin b.machine bs.goversion) toolchain_missing
  mod_dir ← or_no_module (ensure_module b.machine bs.goversion gobin bs.mod_path bs.version)
  dir ← make_bin_dir b
  guard (is_removed (b.remove (result_path c bs dir))) binary_not_removed
  v ← or_bad_goversion (parse_go_version bs.goversion)
  ok (record {
    run = b.machine.run (compile_command c bs gobin v dir);
    path = result_path c bs dir;
  })
