-- ===== src/Tests/History.antt =====
-- A server that builds and cleans up, and instances of the theorems about its log.
use gobuild.Build.Verify.{verify, collect_votes}
use gobuild.Common.{
  eq_bytes, ◌≡◌, refl, arith, true, false, none, some, [], ◌∷◌, codes, Bytes, ok, sym, subst,
}
use gobuild.Common.Int.{pos}
use gobuild.Record.{parse_variant, pack_record, parse_record}
use gobuild.Tlog.{
  disk_record, write_number, write_log, write_hashes, write_record, put_in_place, plan, tree_size,
  next_number, add_sum, Dir,
}
use gobuild.Tlog.Read.{read_records, lookup_result}
use gobuild.Tlog.Abstract.{read_log, find_from}
use gobuild.Tlog.Finds.{answer}
use gobuild.Build.Run.Store.{add_result, verify_and_add, Server, Outcome, built, build}
use gobuild.Build.Run.Store.Refused.{IsIntact}
use gobuild.Build.Recent.{read_recent_builds}
use gobuild.Sdk.Targets.Use.{Targets, initial_targets}
use gobuild.Cleanup.{FileAge, since}
use gobuild.Cleanup.Restored.{cleaned, build-cleaned}
use gobuild.History.{History, started, builds, cleans, logged}
use gobuild.History.Refines.{read_records-refines, lookup_result-refines}
use gobuild.Build.Recent.{result_link}
use gobuild.Common.{map}
use gobuild.History.Restart.{read_recent_builds-last_ten}
use gobuild.Strings.{
  chop, has_suffix, join, format_int, parse_int, trim_space, has_prefix, split, cut_text,
}
use gobuild.Sdk.Versions.{parse_numbers, strip_more, parse_go_version}
use gobuild.Build.Module.{ensure_gobin, ensure_module}
use gobuild.Build.Run.{compile, make_bin_dir}
use gobuild.Build.Run.Store.{store_result, hash_binary, restore, previous_number}
use gobuild.Cleanup.{cleanup_binaries, clean_dir}
use gobuild.Tlog.Signed.{Signing, signed}
use gobuild.History.Signed.{SignsTree, signed-covers}
use gobuild.Tests.Record.{sherpa_result}
use gobuild.Tests.Tlog.{leaves, leaves-IsHashTree, sound_disk}
use gobuild.Tests.Build.{calls, fresh, small_result, build-first}

abbrev after_first : Server
after_first = (build calls leaves sound_disk sherpa_result.spec [] fresh).0

-- Every binary was read 101 nanoseconds ago.
abbrev old : Bytes → FileAge
old p = since (pos 101) false

abbrev pub emptied : Server
emptied = cleaned (pos 100) old after_first

fresh-History : History leaves [] fresh
fresh-History =
    started fresh (record { no_records = refl; no_hashes = refl; no_numbers = λ p. refl })

pub emptied-History : History leaves (small_result ∷ []) emptied
emptied-History =
    cleans
      (subst (λ (o : Outcome). History leaves (logged [] o []) after_first) build-first
        (builds fresh-History calls sound_disk sherpa_result.spec []
          (subst IsIntact (sym build-first) tt)))
      (pos 100) old

read_records-refines_example :
    read_records emptied.store.records (pos 0) (pos 1) ≡ read_log (small_result ∷ []) 0 1
read_records-refines_example =
    read_records-refines leaves leaves-IsHashTree emptied-History 0 1 (omega arith)

lookup_result-refines_example :
    lookup_result leaves sherpa_result.spec emptied.store
    ≡ ok (
        answer
          (emptied.store.dirs (leaves.store_dir sherpa_result.spec))
          (find_from leaves.store_dir (leaves.store_dir sherpa_result.spec) 0 (small_result ∷ [])))
lookup_result-refines_example =
    lookup_result-refines leaves leaves-IsHashTree emptied-History sherpa_result.spec
      (omega arith, tt) (omega arith)

read_recent_builds-last_ten_example :
    (after : Targets) × (read_recent_builds emptied.store.records initial_targets []
      ≡ ok (after, map result_link (small_result ∷ [])))
read_recent_builds-last_ten_example =
    read_recent_builds-last_ten leaves leaves-IsHashTree emptied-History (omega arith, tt)
      (omega arith) initial_targets

abbrev numbered : Dir
numbered = record { record_number = some (codes "7"); has_log = true; has_binary = true }

abbrev with_binary : Server
with_binary = record fresh { store = record fresh.store { dirs = λ p. some numbered } }

build-again :
    (build calls leaves sound_disk sherpa_result.spec sherpa_result.sum
      (cleaned (pos 100) old with_binary)).1
    ≡ built (pos 7) small_result
unfolding build compile ensure_gobin ensure_module make_bin_dir parse_go_version store_result
    hash_binary restore previous_number parse_int trim_space eq_bytes has_prefix parse_numbers split
    strip_more cut_text cleanup_binaries clean_dir
build-again = refl

build-cleaned_example :
    lookup_result leaves sherpa_result.spec
      (build calls leaves sound_disk sherpa_result.spec sherpa_result.sum
        (cleaned (pos 100) old with_binary)).0.store
    ≡ lookup_result leaves sherpa_result.spec with_binary.store
build-cleaned_example =
    build-cleaned calls leaves sound_disk (pos 100) old sherpa_result.spec sherpa_result.sum
      with_binary (pos 7) small_result numbered (λ e. ground arith) refl refl build-again

-- A signer that signs with nothing, for trees whose hash is their size.
abbrev signing : Signing Unit
signing = record {
  tree_hash = λ n read. some (n ∷ []);
  read_tile = λ t read. none;
  format_tree = λ n root. n ∷ root;
  sign = λ text. some text;
}

signed-first : signed signing after_first.store ≡ ok (1 ∷ 1 ∷ [])
unfolding signed build compile ensure_gobin ensure_module make_bin_dir parse_go_version store_result
    hash_binary verify_and_add collect_votes verify parse_record add_result add_sum next_number
    tree_size plan pack_record format_int join put_in_place write_record write_hashes write_log
    write_number eq_bytes has_prefix parse_numbers split strip_more cut_text parse_int has_suffix
    chop parse_variant disk_record
signed-first = refl

signed-covers_example : SignsTree signing after_first.store 1 (1 ∷ 1 ∷ [])
signed-covers_example =
    signed-covers signing leaves leaves-IsHashTree fresh-History calls sound_disk sherpa_result.spec
      0 small_result (1 ∷ 1 ∷ []) build-first signed-first
