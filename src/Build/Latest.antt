-- ===== src/Build/Latest.antt =====
-- modversion.go: resolveModuleVersion, which asks the go command for the version that a version or
-- "latest" stands for.
use gobuild.Common.{
  Bool, true, false, not, Option, [], ◌∷◌, ◌++◌, Bytes, codes, eq_bytes, Result, ok, err, ◌>>=◌,
  ◌>>◌, guard, or_fail,
}
use gobuild.Sdk.Versions.{GoVersion, version_text}
use gobuild.Sdk.Listing.{RecentError}
use gobuild.Build.Command.{Command, make_command}
use gobuild.Build.Module.{Machine, ensure_gobin}

pub data ResolveError : Type 0 where
  no_most_recent : RecentError → ResolveError
  no_go_command bad_answer no_version_found : ResolveError
  listing_failed : Bytes → ResolveError

abbrev or_no_most_recent : Result RecentError GoVersion → Result ResolveError GoVersion
or_no_most_recent (ok v) = ok v
or_no_most_recent (err e) = err (no_most_recent e)

-- The errors that wrap errTempFailure
abbrev pub is_temp_failure : ResolveError → Bool
is_temp_failure (no_most_recent e) = true
is_temp_failure no_go_command = true
is_temp_failure e = false

module _ (m : Machine) where
  unfoldable pub resolve_command : GoVersion → Bytes → Bytes → Bytes → Command
  resolve_command v gobin mod_path version =
      make_command m.host (version_text v) true m.host.empty_dir false [] (
        gobin
        ∷ codes "list"
        ∷ codes "-x"
        ∷ codes "-m"
        ∷ codes "-json"
        ∷ codes "--"
        ∷ (mod_path ++ (b'@' ∷ version))
        ∷ [])

  -- resolveModuleVersion, from the answer of ensureMostRecentSDK; `version_of` decodes the JSON and
  -- gives its version.
  unfoldable pub resolve_module_version :
      (Bytes → Option Bytes)
      → Result RecentError GoVersion
      → Bytes
      → Bytes
      → Result ResolveError Bytes
  unfolding resolve_command eq_bytes
  resolve_module_version version_of recent mod_path version = do
    v ← or_no_most_recent recent
    gobin ← or_fail (ensure_gobin m (version_text v)) no_go_command
    let r = m.run (resolve_command v gobin mod_path version)
    guard (not r.failed) (listing_failed r.output)
    found ← or_fail (version_of r.output) bad_answer
    guard (not (eq_bytes found [])) no_version_found
    ok found
