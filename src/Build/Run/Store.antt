-- ===== src/Build/Run/Store.antt =====
-- gobuild.go: build, from the end of the go command on, and saveFailure.
pub mod Added
pub mod Restored
pub mod Refused
use gobuild.Common.{
  ℕ, ◌+◌, ◌-◌, ◌==◌, ltb, Bool, true, false, not, ◌||◌, if◌then◌else◌, Option, none, some, List, [],
  ◌∷◌, ◌++◌, Bytes, codes, eq_bytes, drop, length, Result, ok, err, ◌>>=◌, ◌>>◌, guard, or_fail,
}
use gobuild.Common.Int.{ℤ, pos}
use gobuild.Strings.{parse_int, trim_space}
use gobuild.Spec.{BuildSpec, to_text}
use gobuild.Record.{BuildResult}
use gobuild.Request.{index_page, link}
use gobuild.Sdk.Targets.Use.{Targets, increase}
use gobuild.Tlog.{Dir, Store, HashTree, Disk, AddError, add_sum, put_dir, no_files}
use gobuild.Build.Module.{Run}
use gobuild.Build.Verify.{Votes, NoVote, verify, collect_votes}
use gobuild.Build.Run.{
  binary_not_read, sums_differ, log_not_stored, bad_previous_number, no_result_dir, sum_not_added,
  number_not_read, binary_not_stored, failure_not_stored, not_restored, sum_mismatch,
  compile_failed, verifier_failed, Calls, BinaryFile, contents, BuildFailure, Compiled, compile,
}

-- The state that build changes; recentBuilds.links is `recent_links`.
pub record Server : Type 0 where
  pub targets : Targets
  pub store : Store
  pub recent_links : List Bytes

-- A nil dereference in the goroutine of a build ends the process.
pub data Outcome : Type 0 where
  built : ℤ → BuildResult → Outcome
  failed : BuildFailure → Outcome
  crashed : Outcome

-- saveFailure from the call of err.Error() on; the files that follow are not reached.
unfoldable pub save_failure : Option Bytes → Bytes → Outcome
save_failure none output = crashed
save_failure (some text) output = failed (compile_failed output)

-- The branch of a failed command: os.MkdirTemp of saveFailure leaves its nil error in `err`.
unfoldable pub fail_compile : Calls → Bytes → Outcome
unfolding save_failure
fail_compile b output =
    if b.has_fail_dir then save_failure none output else failed failure_not_stored

unfoldable pub read_binary : BinaryFile → Result BuildFailure Bytes
read_binary (contents buf) = ok buf
read_binary _ = err binary_not_read

-- The result of the build
unfoldable pub hash_binary : Calls → BuildSpec → BinaryFile → Result BuildFailure BuildResult
unfolding read_binary
hash_binary b bs f = do
  buf ← read_binary f
  ok (record { spec = bs; filesize = pos (length buf); sum = b.sum_of buf })

-- The temporary directory of the build, which a deferred call removes.
abbrev pub put_tmp : Dir → Server → Server
put_tmp t w = record w { store = record w.store { tmp_dir = t } }

abbrev pub build_files : Dir
build_files = record { record_number = none; has_log = true; has_binary = true }

unfoldable pub previous_number : Calls → Option Dir → Result BuildFailure ℤ
previous_number b none = err number_not_read
previous_number b (some dir) = do
  guard (not b.number_read_fails) number_not_read
  text ← or_fail dir.record_number number_not_read
  or_fail (parse_int 64 (trim_space text)) (bad_previous_number text)

abbrev with_binary : Option Dir → Dir
with_binary none = no_files
with_binary (some dir) = record dir { has_binary = true }

abbrev abandon : BuildFailure → Server → Server × Outcome
abandon e w = (put_tmp no_files w, failed e)

-- targets.increase
abbrev pub count_target : BuildSpec → Server → Server
count_target bs w = record w { targets = increase (bs.goos ++ (b'/' ∷ bs.goarch)) w.targets }

-- recentBuilds: the last ten links.
unfoldable pub push_recent : Bytes → List Bytes → List Bytes
push_recent l links =
    let longer = links ++ l ∷ [] in
    if ltb 10 (length longer) then drop (length longer - 10) longer else longer

module _ (b : Calls) (h : HashTree) where
  abbrev put_binary : BuildResult → Server → Server
  put_binary br w =
      let p = h.store_dir br.spec in
      record w {
        store = record w.store {
          tmp_dir = no_files;
          dirs = put_dir p (with_binary (w.store.dirs p)) w.store.dirs;
        };
      }

  abbrev move_binary : BuildResult → Server → Result BuildFailure ℤ → Server × Outcome
  move_binary br w (err e) = abandon e w
  move_binary br w (ok v) =
      if b.restore_fails then abandon not_restored w else (put_binary br w, built v br)

  -- The branch of a build that was done before
  unfoldable pub restore : Bytes → BuildResult → Server → Server × Outcome
  restore exp_sum br w =
      if not (eq_bytes br.sum exp_sum)
      then abandon (sum_mismatch br.sum exp_sum) w
      else if b.binary_gz_fails
      then abandon binary_not_stored w
      else move_binary br w (previous_number b (w.store.dirs (h.store_dir br.spec)))

  module _ (d : Disk) where
    abbrev after_add : BuildResult → Server → Store × Result AddError ℕ → Server × Outcome
    after_add br w (s, err e) = abandon (sum_not_added e) (record w { store = s })
    after_add br w (s, ok n) = (
      record w {
        store = s;
        recent_links =
            push_recent (link (record { spec = br.spec; sum = br.sum; page = index_page }))
              w.recent_links;
      },
      built (pos n) br,
    )

    -- The two files of the temporary directory, and addSum
    unfoldable pub add_result : BuildResult → Server → Server × Outcome
    add_result br w =
        if b.binary_gz_fails
        then abandon binary_not_stored w
        else if b.log_gz_fails
        then abandon log_not_stored w
        else after_add br w (add_sum h d br (put_tmp build_files w).store)

    abbrev after_votes : BuildResult → Server → Result NoVote Votes → Server × Outcome
    after_votes br w (err e) = abandon (verifier_failed e) w
    after_votes br w (ok v) =
        if length v.mismatches == 0
        then add_result br w
        else abandon (sums_differ (length v.matches_from) v.mismatches) w

    -- The branch of a new build
    unfoldable pub verify_and_add : BuildResult → Server → Server × Outcome
    verify_and_add br w = after_votes br w (
        collect_votes (verify b.http_get br.spec) br.sum b.verifier_urls
          (record { matches_from = []; mismatches = [] }))

    abbrev keep_result : Bytes → Server → Result BuildFailure BuildResult → Server × Outcome
    keep_result exp_sum w (err e) = abandon e w
    keep_result exp_sum w (ok br) =
        if not (eq_bytes exp_sum []) then restore exp_sum br w else verify_and_add br w

    -- After a go command without an error
    unfoldable pub store_result : BuildSpec → Bytes → Bytes → Server → Server × Outcome
    store_result bs exp_sum path w =
        if not b.has_result_dir
        then (w, failed no_result_dir)
        else keep_result exp_sum w (hash_binary b bs (b.binary path))

    abbrev after_compile :
        BuildSpec → Bytes → Server → Result BuildFailure Compiled → Server × Outcome
    after_compile bs exp_sum w (err e) = (w, failed e)
    after_compile bs exp_sum w (ok r) =
        if r.run.failed then (w, fail_compile b r.run.output) else store_result bs exp_sum r.path w

    -- build
    unfoldable pub build : BuildSpec → Bytes → Server → Server × Outcome
    build bs exp_sum w = after_compile bs exp_sum (count_target bs w) (compile b bs)
