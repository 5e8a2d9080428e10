-- ===== src/Sdk/Listing.antt =====
-- gosdk.go: the lists of supported and installed toolchains, and the newest one that is allowed.
use gobuild.Common.{
  ℕ, ◌+◌, ◌≡◌, refl, Bool, true, false, ◌||◌, ◌&&◌, if◌then◌else◌, ltb, ◌==◌, Option, none, some,
  List, [], ◌∷◌, Bytes, codes, eq_bytes, Result, ok, err,
}
use gobuild.Common.Int.{ltb_ℤ}
use gobuild.Strings.{has_prefix}
use gobuild.Sdk.Versions.{GoVersion, VersionError, version_text, num, parse_go_version}
use gobuild.Sdk.Ensure.{Sdk, SdkError, Releases, ensure_sdk, allowed, version_not_allowed}

-- sdk, without the status of the fetches; times are in nanoseconds.
pub record Toolchains : Type 0 where
  pub installed : List Bytes
  pub last_supported : ℕ
  pub supported_list : List Bytes
  pub installed_list : List Bytes

-- The order of Go's strings
unfoldable pub less_bytes : Bytes → Bytes → Bool
less_bytes [] [] = false
less_bytes [] (y ∷ ys) = true
less_bytes (x ∷ xs) [] = false
less_bytes (x ∷ xs) (y ∷ ys) = let rest = less_bytes xs ys in ltb x y || (x == y) && rest

unfoldable pub insert_newest : Bytes → List Bytes → List Bytes
insert_newest v [] = v ∷ []
insert_newest v (w ∷ ws) =
    let rest = insert_newest v ws in if less_bytes w v then v ∷ w ∷ ws else w ∷ rest

-- sdkIsSupported
unfoldable pub is_supported : Bytes → List Bytes → Bool
is_supported v [] = false
is_supported v (w ∷ ws) = eq_bytes w v || is_supported v ws

unfoldable pub unsupported : List Bytes → List Bytes → List Bytes
unsupported supported [] = []
unsupported supported (v ∷ vs) =
    let rest = unsupported supported vs in
    if is_supported v supported then rest else insert_newest v rest

-- sdkUpdateInstalledList
unfoldable pub update_installed_list : Toolchains → Toolchains
update_installed_list s = record s { installed_list = unsupported s.supported_list s.installed }

unfoldable pub toolchain_names : List Bytes → List Bytes
toolchain_names [] = []
toolchain_names (n ∷ ns) =
    let rest = toolchain_names ns in if has_prefix (codes "go") n then n ∷ rest else rest

-- initSDK, from the names in the directory of toolchains
unfoldable pub init_sdk : List Bytes → Toolchains
init_sdk names = update_installed_list (record {
  installed = toolchain_names names;
  last_supported = 0;
  supported_list = [];
  installed_list = [];
})

abbrev pub below_stop : GoVersion → Result VersionError GoVersion → Option Bytes
below_stop stop (err e) = none
below_stop stop (ok v) = if ltb_ℤ (num v) (num stop) then some (version_text v) else none

unfoldable pub newest_before : GoVersion → List Bytes → Option Bytes
newest_before stop [] = none
newest_before stop (r ∷ rs) =
    let rest = newest_before stop rs in
    elim (below_stop stop (parse_go_version r)) [ some v ↦ some v | none ↦ rest ]

-- Go's empty string stands for no version.
abbrev pub first_of : List Bytes → Option Bytes
first_of [] = none
first_of ([] ∷ rs) = none
first_of ((c ∷ r) ∷ rs) = some (c ∷ r)

unfoldable pub first_named : List Bytes → Option Bytes
first_named [] = none
first_named ([] ∷ rs) = first_named rs
first_named ((c ∷ r) ∷ rs) = some (c ∷ r)

-- The loop over the releases; `stop` is sdkVersionStop.
unfoldable pub newest_of : Option GoVersion → List Bytes → Option Bytes
newest_of none rels = first_named rels
newest_of (some stop) rels = newest_before stop rels

abbrev pub hour : ℕ
hour = 3600000000000

-- The list is fetched again; it stays as it is where that fails.
abbrev pub fetched :
    ℕ → Option GoVersion → Option (List Bytes) → Toolchains → Toolchains × Option Bytes
fetched now stop none s = (record s { last_supported = now }, none)
fetched now stop (some rels) s = (
  update_installed_list (record s { last_supported = now; supported_list = rels }),
  newest_of stop rels,
)

unfoldable pub refreshed :
    ℕ → Option GoVersion → Option (List Bytes) → Toolchains → Toolchains × Option Bytes
refreshed now stop answer s =
    if ltb (s.last_supported + hour) now then fetched now stop answer s else (s, none)

abbrev pub or_first : Option Bytes → List Bytes → Option Bytes
or_first none supported = first_of supported
or_first (some v) supported = some v

-- listSDK: the newest allowed version, if there is one; the supported and the other installed ones
-- are the lists of the state.
unfoldable pub list_sdk :
    ℕ → Option GoVersion → Option (List Bytes) → Toolchains → Toolchains × Option Bytes
list_sdk now stop answer s =
    let (s', newest) = refreshed now stop answer s in (s', or_first newest s'.supported_list)

pub data RecentError : Type 0 where
  no_supported_versions : RecentError
  not_ensured : SdkError → RecentError

abbrev pub or_not_ensured : Result SdkError GoVersion → Result RecentError GoVersion
or_not_ensured (ok v) = ok v
or_not_ensured (err e) = err (not_ensured e)

-- ensureMostRecentSDK, from the newest allowed version
unfoldable pub ensure_most_recent :
    Option GoVersion → Releases → Option Bytes → Sdk → Sdk × Result RecentError GoVersion
ensure_most_recent stop r none st = (st, err no_supported_versions)
ensure_most_recent stop r (some v) st =
    let (st', x) = ensure_sdk stop r v st in (st', or_not_ensured x)

-- In the hour after a fetch listSDK returns the first supported version as the newest allowed one,
-- also where the stop version excludes it, and ensureMostRecentSDK then refuses it, whatever else
-- is supported.
pub list_sdk_ignores_stop :
    (now : ℕ) (stop : GoVersion) (answer : Option (List Bytes)) (s : Toolchains) (c : ℕ) (v : Bytes)
    (vs : List Bytes) (gv : GoVersion) (r : Releases) (st : Sdk)
    → ltb (s.last_supported + hour) now ≡ false
    → s.supported_list ≡ (c ∷ v) ∷ vs
    → parse_go_version (c ∷ v) ≡ ok gv
    → ltb_ℤ (num gv) (num stop) ≡ false
    → ((list_sdk now (some stop) answer s).1 ≡ some (c ∷ v))
      × ((ensure_most_recent (some stop) r (list_sdk now (some stop) answer s).1 st).1
          ≡ err (not_ensured version_not_allowed))
list_sdk_ignores_stop now stop answer s c v vs gv r st early first p above =
    (listed, rw listed (unfold ensure_most_recent in rw refused refl))
  where
    listed : (list_sdk now (some stop) answer s).1 ≡ some (c ∷ v)
    listed = unfold list_sdk refreshed in rw (early, first) refl

    refused : ensure_sdk (some stop) r (c ∷ v) st ≡ (st, err version_not_allowed)
    refused = unfold ensure_sdk allowed in rw (p, above) refl
