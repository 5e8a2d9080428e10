-- ===== src/Tests/Sdk.antt =====
-- Toolchains at fixed inputs, and instances of the theorems about them.
use gobuild.Common.{
  ℕ, if◌then◌else◌, ◌≡◌, ◌≢◌, refl, sym, ◌∙◌, arith, false, none, some, [], ◌∷◌, inr, codes,
  eq_bytes, ok, err,
}
use gobuild.Common.Int.{pos, as_int64}
use gobuild.Sdk.Versions.{num}
use gobuild.Sdk.Targets.Use.{Targets, initial_targets, sort}
use gobuild.Sdk.Targets.Use.Order.{IsSorted, used, sort_lem}
use gobuild.Sdk.Ensure.{version_not_allowed}
use gobuild.Sdk.Listing.{
  Toolchains, list_sdk, ensure_most_recent, not_ensured, list_sdk_ignores_stop,
}
use gobuild.Strings.{parse_int, format_int, has_prefix, cut_text, split}
use gobuild.Sdk.Versions.{GoVersion, version_text, strip_more, parse_numbers, parse_go_version}
use gobuild.Sdk.Versions.RoundTrip.{IsVersion}
use gobuild.Sdk.Ensure.{
  SdkError, Sdk, Releases, allowed, zero_version, is_release, install, fetch_sdk, ensure_sdk,
  no_such_version,
}
use gobuild.Sdk.Ensure.Once.{IsSound, ensure_sdk-again, ensure_sdk-IsSound, fetch_sdk_after_wait}

abbrev go1_20_rc1 : GoVersion
go1_20_rc1 = record { major = pos 1; minor = pos 20; patch = pos 0; more = codes "rc1" }

version_text-rc1 : version_text go1_20_rc1 ≡ codes "go1.20rc1"
unfolding version_text format_int
version_text-rc1 = refl

go1_20_rc1-IsVersion : IsVersion go1_20_rc1
go1_20_rc1-IsVersion = record {
  minor_number = 20;
  patch_number = 0;
  suffix = inr (codes "1", refl);
  major_one = refl;
  minor = refl;
  patch = refl;
  recent = omega arith;
  minor_fits = omega arith;
  patch_fits = omega arith;
}

abbrev pub go1_20 : GoVersion
go1_20 = record { major = pos 1; minor = pos 20; patch = pos 2; more = [] }

abbrev pub nothing_installed : Sdk
nothing_installed = record { installed = λ t. false; status = λ t. none }

nothing_installed-IsSound : IsSound nothing_installed
nothing_installed-IsSound t h = cc

abbrev pub reachable : Releases
reachable = record {
  listed = some (codes "go1.20.2" ∷ []);
  file_fails = false;
  temp_dir_fails = false;
  fetch_fails = false;
  rename_fails = false;
}

abbrev unreachable : Releases
unreachable = record {
  listed = none;
  file_fails = false;
  temp_dir_fails = false;
  fetch_fails = false;
  rename_fails = false;
}

ensure_first : (ensure_sdk none reachable (codes "go1.20.2") nothing_installed).1 ≡ ok go1_20
unfolding ensure_sdk allowed parse_go_version parse_numbers strip_more cut_text has_prefix split
    fetch_sdk is_release install eq_bytes parse_int
ensure_first = refl

ok-ne-err : {v : GoVersion} {e : SdkError} → ok v ≢ err e
ok-ne-err q = cc

ensure_differs :
    (ensure_sdk none reachable (codes "go1.20.2") nothing_installed).1 ≢ err no_such_version
ensure_differs q = absurd (ok-ne-err (sym ensure_first ∙ q))

ensure_sdk-again_example :
    ensure_sdk none unreachable
      (codes "go1.20.2")
      (ensure_sdk none reachable (codes "go1.20.2") nothing_installed).0
    ≡ ensure_sdk none reachable (codes "go1.20.2") nothing_installed
ensure_sdk-again_example =
    ensure_sdk-again none reachable unreachable (codes "go1.20.2") nothing_installed
      nothing_installed-IsSound ensure_differs

ensure_sdk-IsSound_example :
    IsSound (ensure_sdk none reachable (codes "go1.20.2") nothing_installed).0
ensure_sdk-IsSound_example =
    ensure_sdk-IsSound none reachable (codes "go1.20.2") nothing_installed nothing_installed-IsSound

fetch_first : (fetch_sdk reachable go1_20 (codes "go1.20.2") nothing_installed).1 ≡ ok go1_20
unfolding fetch_sdk is_release install eq_bytes
fetch_first = refl

fetch_sdk_after_wait_example :
    (fetch_sdk unreachable go1_20
      (codes "go1.20.2")
      (fetch_sdk reachable go1_20 (codes "go1.20.2") nothing_installed).0).1
    ≡ ok zero_version
fetch_sdk_after_wait_example =
    fetch_sdk_after_wait reachable unreachable go1_20 (codes "go1.20.2") nothing_installed refl refl
      fetch_first

-- The list was fetched half an hour ago, and go1.20.2 is not below the stop version.
abbrev half_an_hour_old : Toolchains
half_an_hour_old = record {
  installed = [];
  last_supported = 0;
  supported_list = codes "go1.20.2" ∷ codes "go1.19.7" ∷ [];
  installed_list = [];
}

parse-go1_20 : parse_go_version (codes "go1.20.2") ≡ ok go1_20
unfolding parse_go_version has_prefix parse_numbers split strip_more cut_text parse_int
parse-go1_20 = refl

list_sdk_ignores_stop_example :
    ((list_sdk 1800000000000 (some go1_20) none half_an_hour_old).1 ≡ some (codes "go1.20.2"))
    × ((ensure_most_recent
          (some go1_20)
          reachable
          (list_sdk 1800000000000 (some go1_20) none half_an_hour_old).1
          nothing_installed).1
        ≡ err (not_ensured version_not_allowed))
list_sdk_ignores_stop_example =
    list_sdk_ignores_stop 1800000000000 go1_20 none half_an_hour_old b'g' (codes "o1.20.2")
      (codes "go1.19.7" ∷ []) go1_20 reachable nothing_installed refl refl parse-go1_20
      (unfold num as_int64 in refl)

abbrev counted : Targets
counted = record initial_targets {
  use_counts = λ key. if eq_bytes key (codes "linux/amd64") then some 3 else some 0;
}

sort_lem_example :
    IsSorted counted.use_counts (sort counted).list
    × ((k : ℕ)
        → used counted.use_counts k (sort counted).list ≡ used counted.use_counts k counted.list)
sort_lem_example = sort_lem counted
