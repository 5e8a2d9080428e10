-- ===== src/Tests/Request.antt =====
-- Requests at fixed inputs, and instances of their theorems.
use gobuild.Common.{false, ◌≡◌, refl, Bytes, codes, eq_bytes, ok, err}
use gobuild.Strings.{split, join, last_part, init_parts}
use gobuild.Sdk.Targets.{available}
use gobuild.Spec.{to_text}
use gobuild.Spec.Parse.{parse_build_spec, target_key}
use gobuild.Request.{
  Request, log_page, page_part, link, is_sum, page_of, page_name, parse_page, parse_elements,
  parse_request, no_endpoint,
}
use gobuild.Request.RoundTrip.{IsRequest, parse_request-link}
use gobuild.Request.Sound.{parse_request_sound}

abbrev log_request : Request
log_request = record {
  spec = record {
    mod_path = codes "github.com/mjl-/sherpa";
    version = codes "v0.6.0";
    dir = codes "/cmd/sherpaclient";
    goos = codes "linux";
    goarch = codes "amd64";
    goversion = codes "go1.14.1";
    stripped = false;
  };
  sum = codes "0m32pSahHbf-fptQdDyWD87GJNXI";
  page = log_page;
}

abbrev log_path : Bytes
log_path =
    codes
      "/github.com/mjl-/sherpa@v0.6.0/cmd/sherpaclient/linux-amd64-go1.14.1/0m32pSahHbf-fptQdDyWD87GJNXI/log"

link_log : link log_request ≡ log_path
unfolding link to_text page_part
link_log = refl

parse_log : parse_request log_path ≡ ok log_request
unfolding parse_request parse_elements parse_page is_sum page_of parse_build_spec target_key
    available eq_bytes split join last_part init_parts
parse_log = refl

-- A result has no page of events.
parse_events :
    parse_request (
      codes
        "/github.com/mjl-/sherpa@v0.6.0/linux-amd64-go1.14.1/0m32pSahHbf-fptQdDyWD87GJNXI/events")
    ≡ err (no_endpoint (codes "events"))
unfolding parse_request parse_elements parse_page is_sum page_of page_name parse_build_spec
    target_key available eq_bytes split join last_part init_parts
parse_events = refl

parse_request_sound_example : IsRequest log_request
parse_request_sound_example = parse_request_sound log_path parse_log

parse_request-link_example : parse_request (link log_request) ≡ ok log_request
parse_request-link_example = parse_request-link log_request (parse_request_sound log_path parse_log)
