-- ===== src/Tests/Record.antt =====
-- A packed result, and instances of the theorems about packing.
use gobuild.Common.{true, ◌≡◌, refl, arith, codes, ok, err, eq_bytes, ◌↔◌, Bytes}
use gobuild.Common.Int.{pos}
use gobuild.Strings.{join, format_int, has_suffix}
use gobuild.Record.{BuildResult, pack_record, parse_record, no_newline}
use gobuild.Record.RoundTrip.{IsPackable, pack_record_iff, parse_record-pack_record}

abbrev pub sherpa_result : BuildResult
sherpa_result = record {
  spec = record {
    mod_path = codes "github.com/mjl-/sherpa";
    version = codes "v0.6.0";
    dir = codes "/cmd/sherpaclient";
    goos = codes "linux";
    goarch = codes "amd64";
    goversion = codes "go1.14.1";
    stripped = true;
  };
  filesize = pos 6139904;
  sum = codes "0ohH4T4-iSGJ4hvhCbHoW_QGgH4x";
}

abbrev pub sherpa_record : Bytes
sherpa_record =
    codes
      "github.com/mjl-/sherpa v0.6.0 /cmd/sherpaclient linux amd64 go1.14.1 6139904 0ohH4T4-iSGJ4hvhCbHoW_QGgH4x stripped\n"

pack-sherpa : pack_record sherpa_result ≡ ok sherpa_record
unfolding pack_record format_int join
pack-sherpa = refl

parse_no_newline : parse_record (codes "a b") ≡ err no_newline
unfolding parse_record has_suffix eq_bytes
parse_no_newline = refl

parse_record-pack_record_example : parse_record sherpa_record ≡ ok sherpa_result
parse_record-pack_record_example =
    parse_record-pack_record sherpa_result sherpa_record (omega arith) pack-sherpa

pack_record_iff_example :
    ((msg : Bytes) × (pack_record sherpa_result ≡ ok msg)) ↔ IsPackable sherpa_result
pack_record_iff_example = pack_record_iff sherpa_result
