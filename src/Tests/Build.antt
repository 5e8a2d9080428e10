-- ===== src/Tests/Build.antt =====
-- A build with one verifier, and instances of the theorems about builds.
use gobuild.Common.{
  if◌then◌else◌, ◌≡◌, ◌≤◌, refl, arith, Bool, true, false, none, some, [], ◌∷◌, List, codes,
  eq_bytes, Bytes, ok, length,
}
use gobuild.Common.Int.{pos}
use gobuild.Strings.{
  join, format_int, parse_int, trim_space, has_prefix, has_suffix, split, cut_text, last_part,
}
use gobuild.Spec.{BuildSpec}
use gobuild.Record.{BuildResult, pack_record, parse_record}
use gobuild.Record.{parse_variant}
use gobuild.Strings.{chop}
use gobuild.Sdk.Versions.{parse_numbers, strip_more, GoVersion, parse_go_version}
use gobuild.Sdk.Targets.Use.{initial_targets}
use gobuild.Tlog.{
  add_sum, next_number, tree_size, plan, put_in_place, write_record, write_hashes, write_log,
  write_number,
}
use gobuild.Build.Command.{Host, make_command}
use gobuild.Build.Module.{Machine, present, ensure_gobin, ensure_module}
use gobuild.Build.Prepare.{list_cgo, prepare_build, check_build, check_package, list_name}
use gobuild.Build.Prepared.{IsPrepared, prepare_build-IsPrepared}
use gobuild.Build.Verify.{verify, collect_votes}
use gobuild.Build.Run.{Calls, not_there, contents, compile, make_bin_dir}
use gobuild.Build.Run.Store.{
  Server, built, build, store_result, hash_binary, verify_and_add, add_result, restore,
  previous_number, count_target,
}
use gobuild.Build.Run.Store.Added.{IsNewBuild, build-IsNewBuild}
use gobuild.Build.Run.Store.Restored.{IsRestored, build-IsRestored}
use gobuild.Common.{sym, ◌∙◌}
use gobuild.Build.Run.Store.{crashed, fail_compile, save_failure}
use gobuild.Build.Run.Store.Refused.{IsSameLog, build-refuses, build-bounded}
use gobuild.Sdk.Ensure.{is_release, install, fetch_sdk, allowed, ensure_sdk}
use gobuild.Tests.Record.{sherpa_result, sherpa_record}
use gobuild.Tests.Sdk.{nothing_installed, reachable}
use gobuild.Tests.Tlog.{leaves, sound_disk, empty_store}

abbrev pub unix : Host
unix = record {
  run_prefix = [];
  go_proxy = codes "https://proxy.golang.org/";
  environment = codes "GOOS=plan9" ∷ [];
  home_dir = codes "/home/gobuild";
  empty_dir = codes "/tmp/empty";
  host_goos = codes "linux";
  host_goarch = codes "amd64";
  sdk_dir = codes "/sdk";
  work_dir = codes "/srv";
  path = record {
    join_path = join b'/';
    is_abs = has_prefix (codes "/");
    clean_path = λ p. p;
    base_path = λ p. last_part (split b'/' p);
    from_slash = λ p. p;
  };
}

abbrev is_list : List Bytes → Bool
is_list (gobin ∷ c ∷ flag ∷ args) = eq_bytes flag (codes "-f")
is_list _ = false

-- "go list -f" prints the name of a main package, and every other command prints nothing.
abbrev machine : Machine
machine = record {
  host = unix;
  stat = λ p. present;
  escape_path = λ p. some p;
  escape_version = λ v. some v;
  run = λ c. record { output = if is_list c.argv then codes "main\n" else []; failed = false };
}

abbrev pub calls : Calls
calls = record {
  machine = machine;
  build_gobin = false;
  bin_dir = none;
  remove = λ p. not_there;
  binary = λ p. contents (codes "binary");
  sum_of = λ buf. sherpa_result.sum;
  has_result_dir = true;
  has_fail_dir = true;
  binary_gz_fails = false;
  log_gz_fails = false;
  number_read_fails = false;
  restore_fails = false;
  http_get = λ url. some (record { status = 200; body = some sherpa_record });
  verifier_urls = codes "https://example.org" ∷ [];
}

abbrev pub fresh : Server
fresh = record { targets = initial_targets; store = empty_store; recent_links = [] }

abbrev pub small_result : BuildResult
small_result = record sherpa_result { filesize = pos 6 }

pub build-first :
    (build calls leaves sound_disk sherpa_result.spec [] fresh).1 ≡ built (pos 0) small_result
unfolding build compile ensure_gobin ensure_module make_bin_dir parse_go_version store_result
    hash_binary verify_and_add collect_votes verify parse_record add_result add_sum next_number
    tree_size plan pack_record format_int join put_in_place write_record write_hashes write_log
    write_number eq_bytes has_prefix parse_numbers split strip_more cut_text parse_int has_suffix
    chop parse_variant
build-first = refl

build-IsNewBuild_example :
    IsNewBuild calls leaves sherpa_result.spec
      (count_target sherpa_result.spec fresh)
      (pos 0)
      small_result
      (build calls leaves sound_disk sherpa_result.spec [] fresh).0
build-IsNewBuild_example =
    build-IsNewBuild calls leaves sound_disk sherpa_result.spec fresh (pos 0) small_result
      build-first

abbrev with_result : Server
with_result = record fresh {
  store = record empty_store {
    dirs =
        λ p. some (record { record_number = some (codes "7"); has_log = true; has_binary = false });
  };
}

build-restores :
    (build calls leaves sound_disk sherpa_result.spec sherpa_result.sum with_result).1
    ≡ built (pos 7) small_result
unfolding build compile ensure_gobin ensure_module make_bin_dir parse_go_version store_result
    hash_binary restore previous_number parse_int trim_space eq_bytes has_prefix parse_numbers split
    strip_more cut_text
build-restores = refl

build-IsRestored_example :
    (small_result.spec ≡ sherpa_result.spec)
    × IsRestored leaves sherpa_result.sum
        (count_target sherpa_result.spec with_result)
        (pos 7)
        small_result
        (build calls leaves sound_disk sherpa_result.spec sherpa_result.sum with_result).0
build-IsRestored_example =
    build-IsRestored calls leaves sound_disk sherpa_result.spec sherpa_result.sum with_result
      (pos 7) small_result (λ e. ground arith) build-restores

build-bounded_example :
    length (build calls leaves sound_disk sherpa_result.spec [] fresh).0.recent_links ≤ 10
build-bounded_example =
    build-bounded calls leaves sound_disk sherpa_result.spec [] fresh (omega arith)

-- The go command that compiles fails.
abbrev not_compiling : Calls
not_compiling = record calls {
  machine = record machine {
    run = λ c. record { output = codes "no such package"; failed = true };
  };
}

build-not_compiling :
    (build not_compiling leaves sound_disk sherpa_result.spec [] fresh).1 ≡ crashed
unfolding build compile ensure_gobin ensure_module make_bin_dir parse_go_version eq_bytes has_prefix
    parse_numbers split strip_more cut_text parse_int fail_compile save_failure
build-not_compiling = refl

build-refuses_example :
    IsSameLog fresh (build not_compiling leaves sound_disk sherpa_result.spec [] fresh).0
build-refuses_example =
    build-refuses not_compiling leaves sound_disk sherpa_result.spec [] fresh
      (λ v br e. ground (arith, sym build-not_compiling ∙ e))
      (λ a e. ground (arith, sym build-not_compiling ∙ e))

abbrev sherpa_1_20 : BuildSpec
sherpa_1_20 = record sherpa_result.spec { goversion = codes "go1.20.2" }

prepared : (prepare_build machine sherpa_1_20 none reachable nothing_installed).1 ≡ ok tt
unfolding prepare_build ensure_sdk allowed fetch_sdk install is_release parse_go_version check_build
    check_package ensure_gobin ensure_module list_name list_cgo make_command eq_bytes has_prefix
    parse_numbers split strip_more cut_text parse_int
prepared = refl

prepare_build-IsPrepared_example :
    ((v : GoVersion) × ((ensure_sdk none reachable (codes "go1.20.2") nothing_installed).1 ≡ ok v))
    × IsPrepared machine sherpa_1_20
prepare_build-IsPrepared_example =
    prepare_build-IsPrepared machine sherpa_1_20 none reachable nothing_installed prepared
