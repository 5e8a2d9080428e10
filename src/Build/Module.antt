-- ===== src/Build/Module.antt =====
-- fetch.go, gobuild.go: the toolchain's binary, and ensureModule, which fetches a module.
use gobuild.Common.{
  Bool, true, not, ◌&&◌, if◌then◌else◌, Option, none, some, [], ◌∷◌, ◌++◌, Bytes, codes, eq_bytes,
  Result, ok, err,
}
use gobuild.Common.Int.{ℤ, pos, ltb_ℤ}
use gobuild.Sdk.Versions.{GoVersion, VersionError, parse_go_version}
use gobuild.Build.Command.{Host, Command, make_command}

-- What a command has written, and whether it failed.
pub record Run : Type 0 where
  pub output : Bytes
  pub failed : Bool

pub data Stat : Type 0 where
  present absent stat_failed : Stat

-- What the build's calls of other programs and packages answer: os.Stat, module.EscapePath,
-- module.EscapeVersion, and the commands.
pub record Machine : Type 0 where
  pub host : Host
  pub stat : Bytes → Stat
  pub escape_path : Bytes → Option Bytes
  pub escape_version : Bytes → Option Bytes
  pub run : Command → Run

-- goexe
unfoldable pub go_exe : Host → Bytes
unfolding eq_bytes
go_exe c = if eq_bytes c.host_goos (codes "windows") then codes ".exe" else []

abbrev absolute : Host → Bytes → Bytes
absolute c p = if c.path.is_abs p then p else c.path.join_path (c.work_dir ∷ p ∷ [])

-- ensureGobin
unfoldable pub ensure_gobin : Machine → Bytes → Option Bytes
unfolding go_exe
ensure_gobin m goversion =
    let gobin = absolute m.host (
      m.host.path.join_path
        (m.host.sdk_dir ∷ goversion ∷ codes "bin" ∷ (codes "go" ++ go_exe m.host) ∷ [])) in
    elim (m.stat gobin) [ present ↦ some gobin | absent ↦ none | stat_failed ↦ none ]

pub data ModuleError : Type 0 where
  bad_module bad_version module_not_checked : ModuleError
  bad_toolchain : VersionError → ModuleError
  module_download_failed dependency_download_failed get_failed : Bytes → ModuleError

-- gv.major == 1 && gv.minor >= minor
unfoldable pub is_from : ℤ → GoVersion → Bool
is_from minor v =
    not (ltb_ℤ v.major (pos 1)) && not (ltb_ℤ (pos 1) v.major) && not (ltb_ℤ v.minor minor)

module _ (m : Machine) (goversion gobin : Bytes) where
  -- What is downloaded.
  abbrev at_version : Bytes → Bytes → Bytes
  at_version mod_path version = mod_path ++ (b'@' ∷ version)

  unfoldable pub download_module : Bytes → Bytes → Command
  download_module mod_path version = make_command m.host goversion true m.host.empty_dir true [] (
      gobin
      ∷ codes "mod"
      ∷ codes "download"
      ∷ codes "-x"
      ∷ codes "--"
      ∷ at_version mod_path version
      ∷ [])

  unfoldable pub download_dependencies : Bytes → Command
  download_dependencies mod_dir =
      make_command m.host goversion true mod_dir true []
        (gobin ∷ codes "mod" ∷ codes "download" ∷ codes "-x" ∷ [])

  unfoldable pub get_module : Bytes → Bytes → Command
  get_module mod_path version = make_command m.host goversion true m.host.empty_dir true [] (
      gobin
      ∷ codes "get"
      ∷ codes "-d"
      ∷ codes "-x"
      ∷ codes "-v"
      ∷ codes "--"
      ∷ at_version mod_path version
      ∷ [])

  -- The branch for toolchains from go1.18 on
  unfoldable pub fetch_by_download : Bytes → Bytes → Bytes → Result ModuleError (Unit {0})
  fetch_by_download mod_dir mod_path version =
      let first = m.run (download_module mod_path version) in
      let second = m.run (download_dependencies mod_dir) in
      if first.failed
      then err (module_download_failed first.output)
      else if second.failed
      then err (dependency_download_failed (first.output ++ second.output))
      else ok tt

  unfoldable pub fetch_by_get : Bytes → Bytes → Result ModuleError (Unit {0})
  fetch_by_get mod_path version =
      let r = m.run (get_module mod_path version) in
      if r.failed then err (get_failed r.output) else ok tt

  abbrev pub fetch_for :
      Bytes → Bytes → Bytes → Result VersionError GoVersion → Result ModuleError (Unit {0})
  fetch_for mod_dir mod_path version (err e) = err (bad_toolchain e)
  fetch_for mod_dir mod_path version (ok v) =
      if is_from (pos 18) v
      then fetch_by_download mod_dir mod_path version
      else fetch_by_get mod_path version

  -- fetchModule
  unfoldable pub fetch_module : Bytes → Bytes → Bytes → Result ModuleError (Unit {0})
  fetch_module mod_dir mod_path version =
      fetch_for mod_dir mod_path version (parse_go_version goversion)

  -- The directory of the module cache
  unfoldable pub module_dir : Bytes → Bytes → Bytes
  module_dir escaped_path escaped_version = m.host.path.join_path (
      m.host.home_dir
      ∷ codes "go"
      ∷ codes "pkg"
      ∷ codes "mod"
      ∷ (m.host.path.clean_path escaped_path ++ (b'@' ∷ escaped_version))
      ∷ [])

  abbrev pub in_dir : Bytes → Result ModuleError (Unit {0}) → Result ModuleError Bytes
  in_dir dir (ok u) = ok dir
  in_dir dir (err e) = err e

  abbrev pub fetch_unless : Bytes → Bytes → Bytes → Stat → Result ModuleError Bytes
  fetch_unless dir mod_path version present = ok dir
  fetch_unless dir mod_path version absent = in_dir dir (fetch_module dir mod_path version)
  fetch_unless dir mod_path version stat_failed = err module_not_checked

  abbrev pub ensure_escaped : Bytes → Bytes → Option Bytes → Option Bytes → Result ModuleError Bytes
  ensure_escaped mod_path version none v = err bad_module
  ensure_escaped mod_path version (some p) none = err bad_version
  ensure_escaped mod_path version (some p) (some v) =
      fetch_unless (module_dir p v) mod_path version (m.stat (module_dir p v))

  -- ensureModule
  unfoldable pub ensure_module : Bytes → Bytes → Result ModuleError Bytes
  ensure_module mod_path version =
      ensure_escaped mod_path version (m.escape_path mod_path) (m.escape_version version)
