-- ===== src/Tests/Tlog.antt =====
-- A result that is added to an empty log, and instances of the theorems about addSum. The hash
-- tree here keeps one hash for each record.
use gobuild.Common.{
  codes, Bytes, ◌≡◌, refl, arith, true, false, none, some, [], ◌∷◌, eq_bytes, replicate, ok, err,
}
use gobuild.Common.Int.{pos}
use gobuild.Strings.{format_int, join}
use gobuild.Spec.{to_text}
use gobuild.Record.{BuildResult, pack_record}
use gobuild.Tlog.{
  disk_record, Store, HashTree, Disk, AddError, next_number, tree_size, plan, put_in_place,
  write_record, write_hashes, write_log, write_number, add_sum, dir_exists,
}
use gobuild.Tlog.Added.{IsHashTree}
use gobuild.Tlog.Refused.{add_sum-refuses}
use gobuild.Common.{inr}
use gobuild.Tlog.State.{Startup, unpacked, verify_sum_state}
use gobuild.Tlog.Lookup.Startup.{IsIndexed, verify_sum_state-add_sum}
use gobuild.Sdk.Targets.{available}
use gobuild.Spec.Parse.{parse_build_spec, target_key}
use gobuild.Spec.Sound.{parse_build_spec_sound}
use gobuild.Tlog.Server.{Answers, other_error, lookup, lookup-add_sum}
use gobuild.Tests.Record.{sherpa_result}

abbrev pub leaves : HashTree
leaves = record {
  stored_hash_count = λ n. n;
  stored_hashes = λ n msg file. some (replicate 32 n ∷ []);
  store_dir = to_text;
}

pub leaves-IsHashTree : IsHashTree leaves
leaves-IsHashTree = record {
  empty = refl;
  counted = λ n msg file hs e. ground arith;
  leaf = λ n. omega arith;
  sized = λ n msg file hs e. ground arith;
}

abbrev pub sound_disk : Disk
sound_disk = record {
  stat_store_fails = false;
  stat_records_fails = false;
  stat_hashes_fails = false;
  number_write = none;
  log_write = none;
  hashes_write = none;
  hashes_sync_fails = false;
  record_write = none;
  records_sync_fails = false;
  rename_fails = false;
}

abbrev pub empty_store : Store
empty_store = record {
  records = [];
  hashes = [];
  sum_log = [];
  dirs = λ p. none;
  tmp_dir = record { record_number = none; has_log = true; has_binary = true };
}

abbrev one_record : Store
one_record = (add_sum leaves sound_disk sherpa_result empty_store).0

add_first : (add_sum leaves sound_disk sherpa_result empty_store).1 ≡ ok 0
unfolding add_sum next_number tree_size plan pack_record format_int join put_in_place write_record
    write_hashes write_log write_number eq_bytes
add_first = refl

-- The same result is not added twice.
add_again : (add_sum leaves sound_disk sherpa_result one_record).1 ≡ err dir_exists
unfolding add_sum next_number tree_size plan pack_record format_int join put_in_place write_record
    write_hashes write_log write_number eq_bytes to_text
add_again = refl

abbrev other_result : BuildResult
other_result = record sherpa_result {
  filesize = pos 77;
  spec = record sherpa_result.spec { stripped = false };
}

add_second : (add_sum leaves sound_disk other_result one_record).1 ≡ ok 1
unfolding add_sum next_number tree_size plan pack_record format_int join put_in_place write_record
    write_hashes write_log write_number eq_bytes to_text disk_record
add_second = refl

-- The hash of a record that was not written.
abbrev torn_store : Store
torn_store = record empty_store { hashes = replicate 32 0 }

add_sum-refuses_example :
    (e : AddError) × (add_sum leaves sound_disk sherpa_result torn_store ≡ (torn_store, err e))
add_sum-refuses_example =
    add_sum-refuses leaves sound_disk sherpa_result torn_store (λ n h k. omega arith)

abbrev answers : Answers
answers = record {
  newest = codes "go1.22.0";
  is_target = λ t. true;
  resolved = some (codes "v0.6.0");
  read_fails = false;
  preparation = other_error;
}

abbrev sherpa_key : Bytes
sherpa_key = codes "github.com/mjl-/sherpa@v0.6.0/cmd/sherpaclient/linux-amd64-go1.14.1-stripped/"

parse-sherpa_key : parse_build_spec sherpa_key ≡ ok sherpa_result.spec
unfolding parse_build_spec target_key available eq_bytes
parse-sherpa_key = refl

lookup-add_sum_example :
    lookup leaves answers (to_text sherpa_result.spec) [] one_record ≡ some (ok (pos 0))
lookup-add_sum_example =
    lookup-add_sum leaves sound_disk sherpa_result 0 empty_store answers [] add_first (omega arith)
      (parse_build_spec_sound sherpa_key parse-sherpa_key).0 (λ q. cc) refl refl refl

abbrev startup : Startup
startup = record {
  stored_hash_index = λ n. n;
  records_stat_fails = false;
  hashes_stat_fails = false;
  binary = λ p. unpacked sherpa_result.sum;
}

startup-IsIndexed : IsIndexed leaves startup
startup-IsIndexed = record { index = λ n. refl; earlier = λ n msg file more e. refl }

verify_sum_state-add_sum_example : verify_sum_state startup leaves one_record ≡ ok 1
verify_sum_state-add_sum_example =
    verify_sum_state-add_sum leaves sound_disk sherpa_result 0 empty_store add_first startup
      leaves-IsHashTree startup-IsIndexed refl refl (inr refl) (omega arith) (omega arith)
      (omega arith)
