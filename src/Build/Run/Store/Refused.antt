-- ===== src/Build/Run/Store/Refused.antt =====
-- gobuild.go: what a build leaves as it was.
use gobuild.Common.{
  true, if_intro, if◌then◌else◌, ℕ, ◌-◌, ◌≤◌, ltb, ◌==◌, ◌≡◌, ◌≢◌, refl, Bool, not, List, [], ◌∷◌,
  ◌++◌, Bytes, eq_bytes, arith, Bool-cases, inl, inr, length, length-append, length-drop, Result,
  ok, err,
}
use gobuild.Common.Int.{ℤ, pos}
use gobuild.Spec.{BuildSpec}
use gobuild.Record.{BuildResult}
use gobuild.Tlog.{Dir, Store, HashTree, Disk, AddError}
use gobuild.Tlog.Refused.{is_early, IsKept, add_sum_early-IsKept}
use gobuild.Build.Verify.{NoVote, Votes, verify, collect_votes}
use gobuild.Build.Run.{Calls, BuildFailure, sum_not_added, Compiled, compile}
use gobuild.Build.Run.Store.{
  count_target, Server, Outcome, built, failed, build_files, push_recent, restore, move_binary,
  add_result, after_add, after_votes, verify_and_add, keep_result, store_result, after_compile,
  build, put_tmp,
}

-- The log, its result directories and the recent links are the same.
pub record IsSameLog (w w' : Server) : Type 0 where
  pub records : w'.store.records ≡ w.store.records
  pub hashes : w'.store.hashes ≡ w.store.hashes
  pub sum_log : w'.store.sum_log ≡ w.store.sum_log
  pub dirs : w'.store.dirs ≡ w.store.dirs
  pub links : w'.recent_links ≡ w.recent_links

-- The outcome is not a failure of addSum after its first permanent write.
abbrev pub IsIntact : Outcome → Type 0
IsIntact (failed (sum_not_added a)) = is_early a ≡ true
IsIntact o = Unit

-- What each part of build keeps: the log, if it fails before addSum, and the bound of the links.
record IsTame (w : Server) (x : Server × Outcome) : Type 0 where
  refuses :
      ((v : ℤ) (br : BuildResult) → x.1 ≢ built v br)
      → ((a : AddError) → x.1 ≢ failed (sum_not_added a))
      → IsSameLog w x.0
  stays : IsIntact x.1 → ((v : ℤ) (br : BuildResult) → x.1 ≢ built v br) → IsKept w.store x.0.store
  bounded : length w.recent_links ≤ 10 → length x.0.recent_links ≤ 10

same : (w : Server) (t : Dir) → IsSameLog w (put_tmp t w)
same w t = record { records = refl; hashes = refl; sum_log = refl; dirs = refl; links = refl }

abandoned : (w : Server) (t : Dir) (o : Outcome) → IsTame w (put_tmp t w, o)
abandoned w t o = record {
  refuses = λ i n. same w t;
  stays = λ i n. record { records = refl; hashes = refl; dirs = refl };
  bounded = λ k. k;
}

push_recent-bounded :
    (l : Bytes) (links : List Bytes) → length links ≤ 10 → length (push_recent l links) ≤ 10
unfolding push_recent
push_recent-bounded l links k = elim (Bool-cases (ltb 10 (length (links ++ l ∷ [])))) [
  | inl long ↦
      rw
        (
          long,
          length-drop (length (links ++ l ∷ []) - 10) (links ++ l ∷ []),
          length-append links (l ∷ []),
        )
        (omega arith)
  | inr short ↦ rw short (ground (arith, short))
]

branches :
    (w : Server) (t : Bool) {x y : Server × Outcome}
    → IsTame w x
    → IsTame w y
    → IsTame w (if t then x else y)
branches w t a b = if_intro (IsTame w) t _ _ (λ e. a) (λ e. b)

module _ (b : Calls) (h : HashTree) where
  move_binary-IsTame :
      (br : BuildResult) (w : Server) (x : Result BuildFailure ℤ)
      → IsTame w (move_binary b h br w x)
  move_binary-IsTame br w (err e) = abandoned w _ _
  move_binary-IsTame br w (ok v) = branches w b.restore_fails (abandoned w _ _) (record {
    refuses = λ i n. absurd (i v br refl);
    stays = λ i n. absurd (n v br refl);
    bounded = λ k. k;
  })

  restore-IsTame :
      (exp_sum : Bytes) (br : BuildResult) (w : Server) → IsTame w (restore b h exp_sum br w)
  unfolding restore
  restore-IsTame exp_sum br w =
      branches w (not (eq_bytes br.sum exp_sum)) (abandoned w _ _)
        (branches w b.binary_gz_fails (abandoned w _ _) (move_binary-IsTame br w _))

  module _ (d : Disk) where
    after_add-IsTame :
        (br : BuildResult) (w : Server) (x : Store × Result AddError ℕ)
        → ((a : AddError)
            → x.1 ≡ err a
            → is_early a ≡ true
            → IsKept (put_tmp build_files w).store x.0)
        → IsTame w (after_add b h d br w x)
    after_add-IsTame br w (s, err a) kept = record {
      refuses = λ i n. absurd (n a refl);
      stays = λ i n. record {
        records = (kept a refl i).records;
        hashes = (kept a refl i).hashes;
        dirs = (kept a refl i).dirs;
      };
      bounded = λ k. k;
    }
    after_add-IsTame br w (s, ok n) kept = record {
      refuses = λ i n'. absurd (i (pos n) br refl);
      stays = λ i n'. absurd (n' (pos n) br refl);
      bounded = λ k. push_recent-bounded _ w.recent_links k;
    }

    add_result-IsTame : (br : BuildResult) (w : Server) → IsTame w (add_result b h d br w)
    unfolding add_result
    add_result-IsTame br w = branches w b.binary_gz_fails (abandoned w _ _) (
        branches w b.log_gz_fails (abandoned w _ _)
          (after_add-IsTame br w _ (add_sum_early-IsKept h d br (put_tmp build_files w).store)))

    after_votes-IsTame :
        (br : BuildResult) (w : Server) (x : Result NoVote Votes)
        → IsTame w (after_votes b h d br w x)
    after_votes-IsTame br w (err e) = abandoned w _ _
    after_votes-IsTame br w (ok v) =
        branches w (length v.mismatches == 0) (add_result-IsTame br w) (abandoned w _ _)

    verify_and_add-IsTame : (br : BuildResult) (w : Server) → IsTame w (verify_and_add b h d br w)
    unfolding verify_and_add
    verify_and_add-IsTame br w = after_votes-IsTame br w (
        collect_votes (verify b.http_get br.spec) br.sum b.verifier_urls
          (record { matches_from = []; mismatches = [] }))

    keep_result-IsTame :
        (exp_sum : Bytes) (w : Server) (x : Result BuildFailure BuildResult)
        → IsTame w (keep_result b h d exp_sum w x)
    keep_result-IsTame exp_sum w (err e) = abandoned w _ _
    keep_result-IsTame exp_sum w (ok br) =
        branches w (not (eq_bytes exp_sum [])) (restore-IsTame exp_sum br w)
          (verify_and_add-IsTame br w)

    after_compile-IsTame :
        (bs : BuildSpec) (exp_sum : Bytes) (w : Server) (x : Result BuildFailure Compiled)
        → IsTame w (after_compile b h d bs exp_sum w x)
    unfolding store_result
    after_compile-IsTame bs exp_sum w (err e) = abandoned w _ _
    after_compile-IsTame bs exp_sum w (ok r) =
        branches w r.run.failed (abandoned w _ _)
          (branches w (not b.has_result_dir) (abandoned w _ _) (keep_result-IsTame exp_sum w _))

    -- A build that does not return a result, for any reason but a failure of addSum, leaves the
    -- records, the hashes, the log of sums, the result directories and the recent links as they
    -- were. This includes the go command that does not compile: then saveFailure ends the process
    -- before it stores the failure.
    pub build-refuses :
        (bs : BuildSpec) (exp_sum : Bytes) (w : Server)
        → ((v : ℤ) (br : BuildResult) → (build b h d bs exp_sum w).1 ≢ built v br)
        → ((a : AddError) → (build b h d bs exp_sum w).1 ≢ failed (sum_not_added a))
        → IsSameLog w (build b h d bs exp_sum w).0
    unfolding build
    build-refuses bs exp_sum w i n =
        let x = (after_compile-IsTame bs exp_sum (count_target bs w) (compile b bs)).refuses i n in
        record {
          records = x.records;
          hashes = x.hashes;
          sum_log = x.sum_log;
          dirs = x.dirs;
          links = x.links;
        }

    -- A build that fails, but for a failure of addSum after its first permanent write, leaves the
    -- records, the hashes and the result directories as they were.
    pub build-IsKept :
        (bs : BuildSpec) (exp_sum : Bytes) (w : Server)
        → IsIntact (build b h d bs exp_sum w).1
        → ((v : ℤ) (br : BuildResult) → (build b h d bs exp_sum w).1 ≢ built v br)
        → IsKept w.store (build b h d bs exp_sum w).0.store
    unfolding build
    build-IsKept bs exp_sum w i n =
        let x = (after_compile-IsTame bs exp_sum (count_target bs w) (compile b bs)).stays i n in
        record { records = x.records; hashes = x.hashes; dirs = x.dirs }

    -- No build makes the list of recent links longer than ten.
    pub build-bounded :
        (bs : BuildSpec) (exp_sum : Bytes) (w : Server)
        → length w.recent_links ≤ 10
        → length (build b h d bs exp_sum w).0.recent_links ≤ 10
    unfolding build
    build-bounded bs exp_sum w =
        (after_compile-IsTame bs exp_sum (count_target bs w) (compile b bs)).bounded
