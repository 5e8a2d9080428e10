-- ===== src/Tests/Web.antt =====
-- Requests at fixed answers, and instances of the theorems about the handlers.
use gobuild.Strings.{chop, split, parse_int, has_suffix}
use gobuild.Common.{arith, Bytes, ◌≡◌, refl, true, false, none, some, [], ◌∷◌, codes, eq_bytes, ok}
use gobuild.Common.Int.{pos}
use gobuild.Record.{parse_variant, parse_record}
use gobuild.Request.{Request, events_page, download_page}
use gobuild.Tlog.Read.{absent, result}
use gobuild.Web.{register, Facts, Served, failed, no_flusher, binary}
use gobuild.Web.Build.{serve_build, serve_new, serve_pending, serve_events}
use gobuild.Web.Build.Listeners.{IsReleased, serve_build-IsReleased}
use gobuild.Web.Results.{serve_result, serve_sum, serve_page}
use gobuild.Web.Results.Sums.{IsServed, IsTakenBack, serve_result-IsServed}
use gobuild.Strings.{has_byte, trim_space, split}
use gobuild.Web.Files.{accepts_gzip}
use gobuild.Web.Files.Accepted.{accepts_gzip_panics}
use gobuild.Web.Home.{Visit, serve_home}
use gobuild.Web.Home.Admitted.{Admits, serve_home-Admits}
use gobuild.Tests.Record.{sherpa_result, sherpa_record}

abbrev not_built : Facts
not_built = record {
  newest = none;
  resolved = none;
  lookup = ok absent;
  is_bad_client = false;
  preparation = ok tt;
  is_flusher = false;
  keepalive_fails = false;
  has_number_file = false;
  rename_fails = false;
  remove_fails = false;
  open_fails = false;
  web_events = [];
}

abbrev for_events : Request
for_events = record { spec = sherpa_result.spec; sum = []; page = events_page }

abbrev not_flushed : Served
not_flushed = record { reply = failed no_flusher; calls = register [] ∷ [] }

-- The listener of a client whose response cannot be flushed stays registered.
serve_build-no_flusher : serve_build not_built for_events ≡ some not_flushed
unfolding serve_build serve_new serve_pending serve_events eq_bytes
serve_build-no_flusher = refl

serve_build-IsReleased_example : IsReleased not_built events_page not_flushed
serve_build-IsReleased_example =
    serve_build-IsReleased not_built for_events not_flushed serve_build-no_flusher

abbrev stored : Facts
stored = record not_built { lookup = ok (result (pos 0) sherpa_result true) }

abbrev for_binary : Request
for_binary = record { spec = sherpa_result.spec; sum = sherpa_result.sum; page = download_page }

abbrev the_binary : Served
the_binary = record { reply = binary sherpa_result.spec; calls = [] }

serve_result-binary : serve_result stored for_binary ≡ some the_binary
unfolding serve_result serve_sum serve_page eq_bytes
serve_result-binary = refl

serve_result-IsServed_example :
    IsServed stored for_binary the_binary.reply × IsTakenBack the_binary.calls
serve_result-IsServed_example =
    serve_result-IsServed stored for_binary the_binary serve_result-binary

abbrev visit : Visit
visit = record {
  method = codes "GET";
  path = codes "/github.com/mjl-/sherpa@v0.6.0/cmd/sherpaclient/linux-amd64-go1.14.1-stripped/";
  form_m = [];
  module_prefixes = codes "github.com/mjl-/" ∷ [];
  most_recent = none;
  resolve = λ m v. some v;
  detected_goos = codes "linux";
  detected_goarch = codes "amd64";
}

serve_home-Admits_example : Admits visit (serve_home visit)
serve_home-Admits_example = serve_home-Admits visit

parse-sherpa : parse_record sherpa_record ≡ ok sherpa_result
unfolding parse_record has_suffix parse_int eq_bytes split chop parse_variant
parse-sherpa = refl

abbrev weighted_header : Bytes
weighted_header = codes "gzip;q=1.0"

accepts_gzip_panics_example : accepts_gzip weighted_header ≡ none
accepts_gzip_panics_example = accepts_gzip_panics weighted_header (omega arith) has_parameter
  where
    has_parameter : has_byte b';' (trim_space weighted_header) ≡ true
    has_parameter = unfold has_byte trim_space in refl
