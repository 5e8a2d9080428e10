-- ===== src/Build/Run/Store/Added.antt =====
-- gobuild.go: what a build that returns a result has done.
use gobuild.Common.{
  ℕ, ◌≡◌, ◌≢◌, refl, sym, ap, ◌∙◌, subst, true, false, [], Bytes, eq_bytes, arith, Bool-cases, ◌==◌,
  ==_iff, inl, inr, length, Result, ok, err,
}
use gobuild.Common.Int.{ℤ, pos}
use gobuild.Spec.{BuildSpec}
use gobuild.Record.{BuildResult}
use gobuild.Request.{index_page, link}
use gobuild.Tlog.{Store, HashTree, Disk, AddError, add_sum}
use gobuild.Tlog.Added.{IsAdded, add_sum-IsAdded}
use gobuild.Build.Verify.Agreed.{AllAgree, collect_votes-AllAgree}
use gobuild.Build.Verify.{Votes, NoVote, VerifyError, verify, collect_votes}
use gobuild.Build.Run.{
  Calls, BinaryFile, contents, not_opened, not_stat, not_read, not_sought, BuildFailure, Compiled,
  compile,
}
use gobuild.Common.{
  List, ◌∷◌, ◌++◌, ◌-◌, ltb, Option, some, take, drop, take-drop, drop-append_short, length-append,
  bind-eq-ok, guard-eq-ok, or_fail-eq-ok,
}
use gobuild.Sdk.Versions.{GoVersion, VersionError, parse_go_version}
use gobuild.Build.Module.{ensure_gobin, ensure_module}
use gobuild.Common.{or_fail}
use gobuild.Build.Run.{
  toolchain_missing, is_removed, make_bin_dir, result_path, compile_command, or_bad_goversion,
  or_no_module,
}
use gobuild.Build.Run.Store.{
  save_failure, read_binary, fail_compile, Server, Outcome, built, put_tmp, build_files,
  push_recent, after_add, add_result, verify_and_add, keep_result, store_result, count_target,
  build, hash_binary,
}

-- The result of a build whose binary has these contents.
abbrev pub result_of : Calls → BuildSpec → Bytes → BuildResult
result_of b bs buf = record { spec = bs; filesize = pos (length buf); sum = b.sum_of buf }

-- The go command that compiles has succeeded, and these are the contents of the file at the path of
-- its result.
pub record IsCompiled (b : Calls) (bs : BuildSpec) (binary : Bytes) : Type 0 where
  pub gobin : Bytes
  pub gobin_eq : ensure_gobin b.machine bs.goversion ≡ some gobin
  pub version : GoVersion
  pub version_eq : parse_go_version bs.goversion ≡ ok version
  pub bin_dir : Option Bytes
  pub bin_dir_eq : make_bin_dir b ≡ ok bin_dir
  pub fine :
      (b.machine.run (compile_command b.machine.host bs gobin version bin_dir)).failed ≡ false
  pub binary_eq : b.binary (result_path b.machine.host bs bin_dir) ≡ contents binary

-- A build that was not done before: its result is added to the log as record `number`.
pub record IsNewBuild (b : Calls) (h : HashTree) (bs : BuildSpec) (w : Server) (v : ℤ)
    (br : BuildResult) (w' : Server) : Type 0 where
  pub number : ℕ
  pub number_eq : v ≡ pos number
  pub binary : Bytes
  pub compiled : IsCompiled b bs binary
  pub hashed : br ≡ result_of b bs binary
  pub agree : AllAgree (verify b.http_get bs) br.sum b.verifier_urls
  pub added : IsAdded h br number (put_tmp build_files w).store w'.store
  pub dropped : List Bytes
  pub kept : List Bytes
  pub kept_eq : w.recent_links ≡ dropped ++ kept
  pub links :
      w'.recent_links ≡ kept ++ link (record { spec = bs; sum = br.sum; page = index_page }) ∷ []

-- A link that is pushed comes last, after all or the later of the others.
push_recent-last :
    (l : Bytes) (links : List Bytes)
    → (dropped kept : List Bytes) × (links ≡ dropped ++ kept)
      × (push_recent l links ≡ kept ++ l ∷ [])
push_recent-last l links = elim (Bool-cases (ltb 10 (length (links ++ l ∷ [])))) [
  | inl long ↦
      let k = length (links ++ l ∷ []) - 10 in
      (
        take k links,
        drop k links,
        sym (take-drop k links),
        unfold push_recent in
            rw long
              (drop-append_short k links (l ∷ []) (omega (arith, length-append links (l ∷ [])))),
      )
  | inr short ↦ ([], links, refl, unfold push_recent in rw short refl)
]

-- What compile has found
compile-ok :
    (b : Calls) (bs : BuildSpec) (r : Compiled) (buf : Bytes)
    → compile b bs ≡ ok r
    → r.run.failed ≡ false
    → b.binary r.path ≡ contents buf
    → IsCompiled b bs buf
unfolding compile
compile-ok b bs r buf h fine file =
    let (gobin, found, h1) =
      bind-eq-ok (or_fail (ensure_gobin b.machine bs.goversion) toolchain_missing) _ h in
    let (mod_dir, fetched, h2) =
      bind-eq-ok (or_no_module (ensure_module b.machine bs.goversion gobin bs.mod_path bs.version))
        _ h1 in
    let (dir, made, h3) = bind-eq-ok (make_bin_dir b) _ h2 in
    let (removed, h4) =
      guard-eq-ok (is_removed (b.remove (result_path b.machine.host bs dir))) _ _ h3 in
    let (v, parsed, h5) = bind-eq-ok (or_bad_goversion (parse_go_version bs.goversion)) _ h4 in
    let whole : Path (Result BuildFailure Compiled)
        (ok (record {
          run = b.machine.run (compile_command b.machine.host bs gobin v dir);
          path = result_path b.machine.host bs dir;
        }))
        (ok r) =
      h5 in
    let same : (record {
      run = b.machine.run (compile_command b.machine.host bs gobin v dir);
      path = result_path b.machine.host bs dir;
    })
        ≡ r =
      ground (arith, whole) in
    record {
      gobin = gobin;
      gobin_eq = or_fail-eq-ok _ _ found;
      version = v;
      version_eq = or_bad_goversion-ok _ v parsed;
      bin_dir = dir;
      bin_dir_eq = made;
      fine = ap (λ (x : Compiled). x.run.failed) same ∙ fine;
      binary_eq = ap (λ (x : Compiled). b.binary x.path) same ∙ file;
    }
  where
    or_bad_goversion-ok :
        (x : Result VersionError GoVersion) (v : GoVersion) → or_bad_goversion x ≡ ok v → x ≡ ok v
    or_bad_goversion-ok (ok w) v e = ground (arith, e)
    or_bad_goversion-ok (err e) v k = absurd (ground (arith, k))

module _ (b : Calls) (h : HashTree) (d : Disk) where
  after_add-built :
      (bs : BuildSpec) (buf : Bytes) (br : BuildResult) (w : Server) (v : ℤ)
      → IsCompiled b bs buf
      → AllAgree (verify b.http_get bs) (b.sum_of buf) b.verifier_urls
      → (x : Store × Result AddError ℕ)
      → add_sum h d (result_of b bs buf) (put_tmp build_files w).store ≡ x
      → (after_add b h d (result_of b bs buf) w x).1 ≡ built v br
      → IsNewBuild b h bs w v br (after_add b h d (result_of b bs buf) w x).0
  after_add-built bs buf br w v compiled agree (s, err e) k q = absurd (ground arith)
  after_add-built bs buf br w v compiled agree (s, ok n) k q =
      let (dropped, kept, kept_eq, last) =
        push_recent-last (link (record { spec = bs; sum = b.sum_of buf; page = index_page }))
          w.recent_links in
      subst (λ r. IsNewBuild b h bs w v r (after_add b h d (result_of b bs buf) w (s, ok n)).0) same
        (record {
          number = n;
          number_eq = ground arith;
          binary = buf;
          compiled = compiled;
          hashed = refl;
          agree = agree;
          added =
              subst
                (λ (t : Store × Result AddError ℕ).
                  IsAdded h (result_of b bs buf) n (put_tmp build_files w).store t.0)
                k
                (add_sum-IsAdded h d (result_of b bs buf) n (put_tmp build_files w).store
                  (rw k refl));
          dropped = dropped;
          kept = kept;
          kept_eq = kept_eq;
          links = last;
        })
    where
      same : result_of b bs buf ≡ br
      same = ground arith

  -- What a part of build comes to when it returns a result.
  abbrev AddsResult : BuildResult → Server → Server × Outcome → Type 0
  AddsResult br w x =
      AllAgree (verify b.http_get br.spec) br.sum b.verifier_urls
      × (x ≡ after_add b h d br w (add_sum h d br (put_tmp build_files w).store))

  add_result-built :
      (br br' : BuildResult) (w : Server) (v : ℤ)
      → (add_result b h d br w).1 ≡ built v br'
      → add_result b h d br w ≡ after_add b h d br w (add_sum h d br (put_tmp build_files w).store)
  unfolding add_result
  add_result-built br br' w v q = rw (binary_there, log_there) refl
    where
      binary_there : b.binary_gz_fails ≡ false
      binary_there = ground arith

      log_there : b.log_gz_fails ≡ false
      log_there = ground (arith, binary_there)

  verify_and_add-built :
      (br br' : BuildResult) (w : Server) (v : ℤ)
      → (verify_and_add b h d br w).1 ≡ built v br'
      → AddsResult br w (verify_and_add b h d br w)
  verify_and_add-built br br' w v q = go (collect_votes ask br.sum b.verifier_urls no_votes) refl
    where
      ask : Bytes → Result VerifyError BuildResult
      ask = verify b.http_get br.spec

      no_votes : Votes
      no_votes = record { matches_from = []; mismatches = [] }

      go :
          (x : Result NoVote Votes)
          → collect_votes ask br.sum b.verifier_urls no_votes ≡ x
          → AddsResult br w (verify_and_add b h d br w)
      go (err e) k = absurd (unfold verify_and_add in ground arith)
      go (ok vs) k = elim (Bool-cases (length vs.mismatches == 0)) [
        | inl none_there ↦ (
          collect_votes-AllAgree ask br.sum b.verifier_urls no_votes vs k
              ((==_iff (length vs.mismatches) 0).0 none_there),
          unfold verify_and_add in
              rw (k, none_there)
                (add_result-built br br' w v (unfold verify_and_add in ground arith)),
        )
        | inr some_there ↦ absurd (unfold verify_and_add in ground arith)
      ]

  fail_compile-not_built :
      (output : Bytes) (v : ℤ) (br : BuildResult) → fail_compile b output ≢ built v br
  unfolding fail_compile save_failure
  fail_compile-not_built output v br q = ground arith

  -- A build that returns a result has read the binary.
  pub build-built :
      (bs : BuildSpec) (exp_sum : Bytes) (w : Server) (v : ℤ) (br : BuildResult)
      → (build b h d bs exp_sum w).1 ≡ built v br
      → (buf : Bytes) × IsCompiled b bs buf
        × (build b h d bs exp_sum w
            ≡ keep_result b h d exp_sum (count_target bs w) (ok (result_of b bs buf)))
  build-built bs exp_sum w v br q = go (compile b bs) refl
    where
      Goal : Type 0
      Goal =
          (buf : Bytes) × IsCompiled b bs buf
          × (build b h d bs exp_sum w
              ≡ keep_result b h d exp_sum (count_target bs w) (ok (result_of b bs buf)))

      read :
          (r : Compiled)
          → compile b bs ≡ ok r
          → r.run.failed ≡ false
          → b.has_result_dir ≡ true
          → (f : BinaryFile) → b.binary r.path ≡ f
          → Goal
      read r k fine dir (contents buf) e = (
        buf,
        compile-ok b bs r buf k fine e,
        unfold build store_result hash_binary read_binary in rw (k, fine, dir, e) refl,
      )
      read r k fine dir not_opened e =
          absurd (unfold build store_result hash_binary read_binary in ground arith)
      read r k fine dir not_stat e =
          absurd (unfold build store_result hash_binary read_binary in ground arith)
      read r k fine dir not_read e =
          absurd (unfold build store_result hash_binary read_binary in ground arith)
      read r k fine dir not_sought e =
          absurd (unfold build store_result hash_binary read_binary in ground arith)

      go : (x : Result BuildFailure Compiled) → compile b bs ≡ x → Goal
      go (err e) k = absurd (unfold build in ground arith)
      go (ok r) k = elim (Bool-cases r.run.failed) [
        | inl broken ↦
            absurd (fail_compile-not_built r.run.output v br (unfold build in ground arith))
        | inr fine ↦ elim (Bool-cases b.has_result_dir) [
          | inl dir ↦ read r k fine dir (b.binary r.path) refl
          | inr none_made ↦ absurd (unfold build store_result in ground arith)
        ]
      ]

  -- When a build for which no sum is expected returns a result, the go command that compiles has
  -- succeeded, the result has the hash and the size of the file at the path of its binary,
  -- each verifier has returned a record with the same sum, the result is added to the log under
  -- the number that is returned, and the link of its page is the last of the recent links, after
  -- all or the later of those that were there, if no other build pushes its link meanwhile.
  pub build-IsNewBuild :
      (bs : BuildSpec) (w : Server) (v : ℤ) (br : BuildResult)
      → (build b h d bs [] w).1 ≡ built v br
      → IsNewBuild b h bs (count_target bs w) v br (build b h d bs [] w).0
  unfolding eq_bytes
  build-IsNewBuild bs w v br q =
      let (buf, compiled, stored) = build-built bs [] w v br q in
      let kept : build b h d bs [] w
          ≡ verify_and_add b h d (result_of b bs buf) (count_target bs w) =
        stored in
      let added =
        verify_and_add-built (result_of b bs buf) br (count_target bs w) v
          (ap (λ (t : Server × Outcome). t.1) (sym kept) ∙ q) in
      let whole = kept ∙ added.1 in
      subst (λ (t : Server × Outcome). IsNewBuild b h bs (count_target bs w) v br t.0) (sym whole)
        (after_add-built bs buf br (count_target bs w) v compiled added.0 _ refl
          (ap (λ (t : Server × Outcome). t.1) (sym whole) ∙ q))
