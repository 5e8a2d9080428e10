-- ===== src/Tests/Index.antt =====
-- Instances of the theorems about the index page.
use gobuild.Common.{◌≡◌, ◌≢◌, refl, arith, true, false, none, some, [], ◌∷◌, codes, Bytes, err, ok}
use gobuild.Strings.{join}
use gobuild.Request.{Request, parse_request}
use gobuild.Sdk.Targets.{available}
use gobuild.Spec.Parse.{target_key}
use gobuild.Web.Index.{
  IndexFacts, no_log, no_response, newer_toolchain, newer_link, list_versions, versions_of,
}
use gobuild.Web.Index.Page.{IndexPage, page_of_output, serve_index}
use gobuild.Web.Index.Links.{HasRows}
use gobuild.Web.Index.Shown.{Shows, serve_index-Shows, serve_index-HasRows_after}
use gobuild.Web.Index.Refused.{newer_link-refused}
use gobuild.Tests.Record.{sherpa_result}
use gobuild.Tests.Tlog.{leaves, leaves-IsHashTree}
use gobuild.Tests.Spec.{sherpa-IsCanonical}
use gobuild.Tests.Build.{small_result}
use gobuild.Tests.History.{emptied, emptied-History}

abbrev offline : IndexFacts
offline = record {
  escape_path = λ p. some p;
  go_proxy = codes "https://proxy.golang.org/";
  request_fails = false;
  http_get = λ url. none;
  sort_versions = λ ls. ls;
  newest_allowed = codes "go1.21.0";
  supported_list = codes "go1.21.0" ∷ [];
  remaining_list = codes "go1.14.1" ∷ [];
  target_list = record { goos = codes "linux"; goarch = codes "amd64" } ∷ [];
  log_file = no_log;
  join_path = join b'/';
  binary_gz_size = some 6;
}

abbrev sherpa_page : IndexPage
sherpa_page = page_of_output leaves emptied.store sherpa_result.spec offline (some small_result) []

sherpa_page_served :
    serve_index leaves emptied.store sherpa_result.spec offline (some small_result)
    ≡ some sherpa_page
unfolding serve_index
sherpa_page_served = refl

serve_index-Shows_example : Shows no_log sherpa_page (some small_result)
serve_index-Shows_example =
    serve_index-Shows leaves emptied.store sherpa_result.spec offline (some small_result)
      sherpa_page sherpa_page_served

linux_amd64 : available (target_key (codes "linux") (codes "amd64")) ≡ true
unfolding available target_key
linux_amd64 = refl

serve_index-HasRows_after_example :
    HasRows leaves (small_result ∷ []) sherpa_result.spec sherpa_page
serve_index-HasRows_after_example =
    serve_index-HasRows_after leaves (small_result ∷ []) emptied sherpa_result.spec offline
      (some small_result) sherpa_page leaves-IsHashTree emptied-History sherpa-IsCanonical
      (
        record {
          is_available = linux_amd64;
          no_dash = (omega arith, omega arith);
          no_slash = (omega arith, omega arith);
        },
        tt,
      )
      ((omega arith, omega arith), tt) ((omega arith, omega arith), tt) sherpa_page_served

unlisted : list_versions leaves emptied.store sherpa_result.spec offline ≡ err no_response
unfolding list_versions
unlisted = refl

newer_link-refused_example :
    (url : Bytes) × (newer_link leaves emptied.store sherpa_result.spec offline
        (versions_of leaves emptied.store sherpa_result.spec offline
          (list_versions leaves emptied.store sherpa_result.spec offline)).latest_version
      ≡ some (newer_toolchain, url))
    × ((r : Request) → parse_request url ≢ ok r)
newer_link-refused_example =
    newer_link-refused leaves emptied.store sherpa_result.spec offline no_response unlisted
      sherpa-IsCanonical (omega arith, omega arith) (λ e. ground (arith, e))
      (λ e. ground (arith, e))
