-- ===== src/Tests/Get.antt =====
-- A binary that is downloaded, and the instance of the theorem about the get command.
use gobuild.Common.{
  ◌≡◌, refl, if◌then◌else◌, false, ok, err, arith, ◌⊎◌, true, false, none, some, [], codes,
  eq_bytes, Bytes,
}
use gobuild.Strings.{has_suffix, has_byte, trim_right, base, chop, parse_int}
use gobuild.Spec.{filename, to_text}
use gobuild.Spec.Parse.{parse_get_spec}
use gobuild.Record.{parse_record, parse_variant}
use gobuild.Get.{
  Remote, Options, contents, wanted_spec, checked_result, make_client, config_path, put_file, get,
  fetch, put_in_dst, download_result,
}
use gobuild.Get.Verified.{IsVerified, get-IsVerified}
use gobuild.Get.Client.{
  Configs, ClientOps, different_key, new_client, read_config, write_config, write_file, log_url,
}
use gobuild.Tests.Build.{unix}
use gobuild.Strings.{join}
use gobuild.Get.Client.{local_dir_of}
use gobuild.Get.Client.Pinned.{new_client-keeps_key}
use gobuild.Tests.Record.{sherpa_result, sherpa_record}

-- The file in which the client has the latest tree that it has seen.
abbrev latest_path : Bytes
latest_path = codes "/home/gobuild/sumclient/example.org/config/example.org/latest"

abbrev remote : Remote
remote = record {
  host_goos = codes "linux";
  host_goarch = codes "amd64";
  rules = unix.path;
  verifier_name = some (codes "example.org");
  cache_dir = some (codes "/home");
  cannot_read = λ q. false;
  cannot_write = λ q. false;
  lookup = λ ops key f. (put_file latest_path (some (codes "tree")) f, some sherpa_record);
  temp_file = some (codes "./sherpaclient.gobuildget1");
  http_get = λ url. contents (codes "binary");
  sum_of = λ buf. sherpa_result.sum;
  stat_fails = false;
  close_fails = false;
  rename_fails = false;
  remove_fails = false;
}

abbrev options : Options
options = record {
  sum = [];
  bin_dir = codes ".";
  target = [];
  goversion = codes "go1.14.1";
  download = true;
  stripped = true;
  verifier_key = codes "example.org+1";
  url = [];
}

abbrev arg : Bytes
arg = codes "github.com/mjl-/sherpa@v0.6.0/cmd/sherpaclient"

get-binary :
    ((get remote options arg (λ q. none)).0 (codes "./sherpaclient") ≡ some (codes "binary"))
    × ((get remote options arg (λ q. none)).0
          (codes "/home/gobuild/sumclient/example.org/config/key")
        ≡ some (codes "example.org+1"))
    × ((get remote options arg (λ q. none)).0 latest_path ≡ some (codes "tree"))
unfolding get wanted_spec make_client config_path checked_result parse_get_spec parse_record
    download_result fetch put_in_dst filename eq_bytes chop parse_int parse_variant to_text base
    join new_client read_config write_config write_file log_url has_suffix has_byte trim_right
get-binary = (refl, refl, refl)

get-IsVerified_example :
    ((get remote options arg (λ q. none)).0 (codes "./sherpaclient") ≡ none)
    ⊎ IsVerified remote options arg
        (λ q. none)
        (codes "./sherpaclient")
        ((get remote options arg (λ q. none)).0 (codes "./sherpaclient"))
unfolding config_path join eq_bytes
get-IsVerified_example =
    get-IsVerified remote options arg (λ q. none) (codes "./sherpaclient") (λ e. ground arith)
      (λ e. ground (arith, e)) (λ ops key f. refl)

abbrev no_configs : Configs
no_configs = record { files = λ q. none; read_fails = λ q. false; write_fails = λ q. false }

abbrev first_key : Bytes
first_key = codes "beta.gobuilds.org+1"

abbrev second_key : Bytes
second_key = codes "beta.gobuilds.org+2"

abbrev beta_ops : ClientOps
beta_ops = record {
  local_dir = codes "/home/gobuild/sumclient/beta.gobuilds.org";
  base_url = codes "https://beta.gobuilds.org/tlog";
}

abbrev after_client : Configs
after_client =
    (new_client unix.path no_configs first_key (some (codes "beta.gobuilds.org"))
      (some (codes "/home")) []).0

new_client-first :
    (new_client unix.path no_configs first_key
      (some (codes "beta.gobuilds.org"))
      (some (codes "/home"))
      []).1
    ≡ ok beta_ops
unfolding new_client read_config write_config write_file log_url has_suffix has_byte trim_right
    eq_bytes join
new_client-first = refl

new_client-keeps_key_example :
    (new_client unix.path after_client second_key
      (some (codes "beta.gobuilds.org"))
      (some (codes "/home"))
      []).1
    ≡ (if eq_bytes second_key first_key
        then ok (record {
          local_dir = local_dir_of unix.path (codes "/home") (codes "beta.gobuilds.org");
          base_url = log_url (codes "beta.gobuilds.org") [];
        })
        else err (different_key first_key))
new_client-keeps_key_example =
    new_client-keeps_key unix.path no_configs first_key (codes "beta.gobuilds.org") (codes "/home")
      [] second_key [] beta_ops new_client-first
