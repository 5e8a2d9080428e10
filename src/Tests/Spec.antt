-- ===== src/Tests/Spec.antt =====
-- Runs of the parsers of build specifications, and instances of their theorems.
use gobuild.Common.{true, ◌≡◌, refl, Bytes, codes, eq_bytes, ok, err}
use gobuild.Sdk.Targets.{available}
use gobuild.Strings.{base}
use gobuild.Spec.{BuildSpec, to_text, output_path}
use gobuild.Spec.Canonical.{IsCanonical}
use gobuild.Spec.RoundTrip.{parse_build_spec-to_text}
use gobuild.Spec.Sound.{IsTextOf, parse_build_spec_sound}
use gobuild.Spec.Parse.{target_key, parse_build_spec, non_canonical_dir, unsupported_target}

abbrev pub sherpa : BuildSpec
sherpa = record {
  mod_path = codes "github.com/mjl-/sherpa";
  version = codes "v0.6.0";
  dir = codes "/cmd/sherpaclient";
  goos = codes "linux";
  goarch = codes "amd64";
  goversion = codes "go1.14.1";
  stripped = true;
}

abbrev sherpa_text : Bytes
sherpa_text = codes "github.com/mjl-/sherpa@v0.6.0/cmd/sherpaclient/linux-amd64-go1.14.1-stripped/"

to_text-sherpa : to_text sherpa ≡ sherpa_text
unfolding to_text
to_text-sherpa = refl

parse-sherpa : parse_build_spec sherpa_text ≡ ok sherpa
unfolding parse_build_spec target_key available eq_bytes
parse-sherpa = refl

parse_dotdot :
    parse_build_spec (codes "a.b@v1/x/../y/linux-amd64-go1.20/")
    ≡ err (non_canonical_dir (codes "/x/../y"))
unfolding parse_build_spec target_key available eq_bytes
parse_dotdot = refl

parse_windows :
    parse_build_spec (codes "a.b@v1/windows-s390x-go1.20/")
    ≡ err (unsupported_target (codes "windows") (codes "s390x"))
unfolding parse_build_spec target_key available eq_bytes
parse_windows = refl

output_path-sherpa : output_path sherpa ≡ codes "linux-amd64/sherpaclient"
unfolding output_path base
output_path-sherpa = refl

parse_build_spec_sound_example : IsCanonical sherpa × IsTextOf sherpa_text sherpa
parse_build_spec_sound_example = parse_build_spec_sound sherpa_text parse-sherpa

pub sherpa-IsCanonical : IsCanonical sherpa
sherpa-IsCanonical = (parse_build_spec_sound sherpa_text parse-sherpa).0

parse_build_spec-to_text_example : parse_build_spec (to_text sherpa) ≡ ok sherpa
parse_build_spec-to_text_example = parse_build_spec-to_text sherpa sherpa-IsCanonical

abbrev root_spec : BuildSpec
root_spec = record sherpa { dir = codes "/" }

parse-root : parse_build_spec (to_text root_spec) ≡ ok root_spec
unfolding to_text parse_build_spec target_key available eq_bytes
parse-root = refl
