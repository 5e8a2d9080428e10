-- ===== src/Sdk/Ensure.antt =====
-- gosdk.go: ensureSDK, which installs a toolchain.
pub mod Once
use gobuild.Common.{
  ℕ, ◌≡◌, ◌≢◌, refl, sym, ap, ◌∙◌, Bool, true, false, not, ◌||◌, if◌then◌else◌, Option, none, some,
  List, [], ◌∷◌, Bytes, eq_bytes, eq_bytes_iff, eq_bytes_self, arith, Result, ok, err, ◌>>=◌, ◌>>◌,
  guard,
}
use gobuild.Common.Int.{ℤ, pos, ltb_ℤ}
use gobuild.Sdk.Versions.{GoVersion, VersionError, parse_go_version, num}

pub data SdkError : Type 0 where
  bad_go_version : VersionError → SdkError
  version_not_allowed listing_failed no_release_file no_temp_dir fetch_failed not_in_place
        no_such_version :
      SdkError

-- sdk.installed and sdk.fetch.status; a status of `none` is a nil error.
pub record Sdk : Type 0 where
  pub installed : Bytes → Bool
  pub status : Bytes → Option (Option SdkError)

-- The known releases, if they can be listed, and which calls fail in fetching one.
pub record Releases : Type 0 where
  pub listed : Option (List Bytes)
  pub file_fails : Bool
  pub temp_dir_fails : Bool
  pub fetch_fails : Bool
  pub rename_fails : Bool

abbrev pub or_bad_version : Result VersionError GoVersion → Result SdkError GoVersion
or_bad_version (ok v) = ok v
or_bad_version (err e) = err (bad_go_version e)

abbrev pub is_stopped : Option GoVersion → GoVersion → Bool
is_stopped none v = false
is_stopped (some stop) v = not (ltb_ℤ (num v) (num stop))

-- The checks on the version itself; `stop` is sdkVersionStop.
unfoldable pub allowed : Option GoVersion → Bytes → Result SdkError GoVersion
allowed stop text = do
  v ← or_bad_version (parse_go_version text)
  guard (not (is_stopped stop v)) version_not_allowed
  ok v

abbrev set_status : Bytes → Option SdkError → Sdk → Sdk
set_status text e st = record st { status = λ t. if eq_bytes t text then some e else st.status t }

-- A failure is kept, so that the version is not tried again.
abbrev pub gives_up : Bytes → SdkError → Sdk → Sdk × Result SdkError GoVersion
gives_up text e st = (set_status text (some e) st, err e)

abbrev pub zero_version : GoVersion
zero_version = record { major = pos 0; minor = pos 0; patch = pos 0; more = [] }

unfoldable pub is_release : Bytes → List Bytes → Bool
is_release text [] = false
is_release text (r ∷ rs) = eq_bytes r text || is_release text rs

-- The toolchain is in its place.
abbrev pub put_in : Bytes → Sdk → Sdk
put_in text st = record (set_status text none st) {
  installed = λ t. eq_bytes t text || st.installed t;
}

-- From the listing of the releases on. ensurePrimedBuildCache returns nil at once.
unfoldable pub install : Releases → GoVersion → Bytes → Sdk → Sdk × Result SdkError GoVersion
install r v text st =
    if r.file_fails
    then gives_up text no_release_file st
    else if r.temp_dir_fails
    then gives_up text no_temp_dir st
    else if r.fetch_fails
    then gives_up text fetch_failed st
    else if r.rename_fails
    then gives_up text not_in_place st
    else (put_in text st, ok v)

abbrev pub list_and_install :
    Option (List Bytes) → Releases → GoVersion → Bytes → Sdk → Sdk × Result SdkError GoVersion
list_and_install none r v text st = gives_up text listing_failed st
list_and_install (some rs) r v text st =
    if is_release text rs then install r v text st else (st, err no_such_version)

-- A status that is present is returned as it is, with the zero version.
abbrev pub returned : Option SdkError → Result SdkError GoVersion
returned none = ok zero_version
returned (some e) = err e

-- The part of ensureSDK that holds the lock of sdk.fetch.
unfoldable pub fetch_sdk : Releases → GoVersion → Bytes → Sdk → Sdk × Result SdkError GoVersion
fetch_sdk r v text st = elim (st.status text) [
  | some e ↦ (st, returned e)
  | none ↦ list_and_install r.listed r v text st
]

abbrev pub installed_or_fetch :
    Releases → Bytes → Sdk → Result SdkError GoVersion → Sdk × Result SdkError GoVersion
installed_or_fetch r text st (ok v) =
    if st.installed text then (st, ok v) else fetch_sdk r v text st
installed_or_fetch r text st (err e) = (st, err e)

-- ensureSDK, where no other goroutine comes between its two locks
unfoldable pub ensure_sdk :
    Option GoVersion → Releases → Bytes → Sdk → Sdk × Result SdkError GoVersion
ensure_sdk stop r text st = installed_or_fetch r text st (allowed stop text)
