-- ===== src/Cleanup.antt =====
-- cleanup.go: the removal of binaries that were not read for some time, and of the go command's
-- cache; coordinate.go: when the latter is called.
pub mod Restored
use gobuild.Common.{
  ℕ, ◌+◌, ◌%◌, ◌==◌, Bool, true, false, if◌then◌else◌, Option, none, some, List, [], ◌∷◌, Bytes,
  codes, Result, ok, err,
}
use gobuild.Common.Int.{ℤ, pos, negsuc, ltb_ℤ}
use gobuild.Sdk.Versions.{GoVersion, version_text}
use gobuild.Sdk.Listing.{RecentError}
use gobuild.Tlog.{Dir, Store}
use gobuild.Build.Command.{Command, make_command}
use gobuild.Build.Module.{Machine, ensure_gobin}
use gobuild.Build.Run.Store.{Outcome, built, failed, crashed}

-- What filepath.WalkDir and the calls on it say of the file binary.gz of one result directory: the
-- walk does not come to it, a call fails, or the nanoseconds since it was read, and whether
-- os.Remove fails.
pub data FileAge : Type 0 where
  not_walked not_stat no_access_time : FileAge
  since : ℤ → Bool → FileAge

abbrev pub without_binary : Dir → Dir
without_binary d = record d { has_binary = false }

-- The function that cleanupBinariesAtime gives to WalkDir, which always goes on.
unfoldable pub clean_dir : ℤ → FileAge → Dir → Dir
clean_dir age (since t remove_fails) d =
    if ltb_ℤ age t then (if remove_fails then d else without_binary d) else d
clean_dir age _ d = d

abbrev pub clean_found : ℤ → FileAge → Option Dir → Option Dir
clean_found age v none = none
clean_found age v (some d) = some (clean_dir age v d)

-- cleanupBinariesAtime
unfoldable pub cleanup_binaries : ℤ → (Bytes → FileAge) → Store → Store
cleanup_binaries age visit s = record s { dirs = λ p. clean_found age (visit p) (s.dirs p) }

abbrev pub clean_with : Machine → GoVersion → Option Bytes → Option Command
clean_with m v none = none
clean_with m v (some gobin) = some (
    make_command m.host (version_text v) false m.host.empty_dir false []
      (gobin ∷ codes "clean" ∷ codes "-cache" ∷ []))

-- cleanupGoBuildCache: the command, from the answer of ensureMostRecentSDK.
unfoldable pub cleanup_go_build_cache : Machine → Result RecentError GoVersion → Option Command
cleanup_go_build_cache m (err e) = none
cleanup_go_build_cache m (ok v) = clean_with m v (ensure_gobin m (version_text v))

abbrev is_twentieth : ℤ → Bool
is_twentieth (pos n) = n % 20 == 0
is_twentieth (negsuc n) = (n + 1) % 20 == 0

-- The end of the goroutine of startBuild
unfoldable pub cleans_cache : Outcome → Bool
cleans_cache (built number br) = is_twentieth number
cleans_cache (failed e) = false
cleans_cache crashed = false
