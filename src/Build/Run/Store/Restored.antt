-- ===== src/Build/Run/Store/Restored.antt =====
-- gobuild.go: what a build that restores a binary has done.
use gobuild.Common.{
  ◌≡◌, ◌≢◌, refl, sym, ap, ◌∙◌, subst, true, false, not, Option, none, some, [], Bytes, eq_bytes,
  eq_bytes_iff, eq_bytes_ne, arith, Result, ok, err, guard-eq-ok, or_fail-eq-ok, bind-eq-ok,
}
use gobuild.Common.Int.{ℤ}
use gobuild.Strings.{parse_int, trim_space}
use gobuild.Spec.{BuildSpec}
use gobuild.Record.{BuildResult}
use gobuild.Tlog.{Dir, HashTree, Disk, put_dir}
use gobuild.Build.Run.{Calls, BuildFailure}
use gobuild.Build.Run.Store.{
  Server, Outcome, built, put_binary, previous_number, restore, keep_result, build, count_target,
}
use gobuild.Build.Run.Store.Added.{build-built, result_of}

-- The result directory `dir` of a build that was done before has its binary again; nothing else
-- of the log and of the recent links has changed.
pub record IsRestored (h : HashTree) (exp_sum : Bytes) (w : Server) (v : ℤ) (br : BuildResult)
    (w' : Server) : Type 0 where
  pub sum_eq : br.sum ≡ exp_sum
  pub dir : Dir
  pub was_there : w.store.dirs (h.store_dir br.spec) ≡ some dir
  pub text : Bytes
  pub has_number : dir.record_number ≡ some text
  pub number : parse_int 64 (trim_space text) ≡ some v
  pub dirs :
      w'.store.dirs ≡ put_dir (h.store_dir br.spec) (record dir { has_binary = true }) w.store.dirs
  pub records : w'.store.records ≡ w.store.records
  pub hashes : w'.store.hashes ≡ w.store.hashes
  pub links : w'.recent_links ≡ w.recent_links

previous_number-ok :
    (b : Calls) (o : Option Dir) (v : ℤ)
    → previous_number b o ≡ ok v
    → (dir : Dir) × (o ≡ some dir)
      × (text : Bytes) × (dir.record_number ≡ some text)
      × (parse_int 64 (trim_space text) ≡ some v)
unfolding previous_number
previous_number-ok b none v e = absurd (ground arith)
previous_number-ok b (some dir) v e =
    let (readable, rest) = guard-eq-ok (not b.number_read_fails) _ _ e in
    let (text, there, parsed) = bind-eq-ok _ _ rest in
    (dir, refl, text, or_fail-eq-ok _ _ there, or_fail-eq-ok _ _ parsed)

module _ (b : Calls) (h : HashTree) where
  put_binary-IsRestored :
      (br : BuildResult) (w : Server) (v : ℤ) {exp_sum : Bytes}
      → br.sum ≡ exp_sum
      → previous_number b (w.store.dirs (h.store_dir br.spec)) ≡ ok v
      → IsRestored h exp_sum w v br (put_binary b h br w)
  put_binary-IsRestored br w v same e =
      let (dir, there, text, has_text, parsed) =
        previous_number-ok b (w.store.dirs (h.store_dir br.spec)) v e in
      record {
        sum_eq = same;
        dir = dir;
        was_there = there;
        text = text;
        has_number = has_text;
        number = parsed;
        dirs = rw there refl;
        records = refl;
        hashes = refl;
        links = refl;
      }

  restore-IsRestored :
      (exp_sum : Bytes) (br0 br : BuildResult) (w : Server) (v : ℤ)
      → (restore b h exp_sum br0 w).1 ≡ built v br
      → (br0 ≡ br) × IsRestored h exp_sum w v br (restore b h exp_sum br0 w).0
  restore-IsRestored exp_sum br0 br w v q =
      go (previous_number b (w.store.dirs (h.store_dir br0.spec))) refl
    where
      same_sum : eq_bytes br0.sum exp_sum ≡ true
      same_sum = unfold restore in ground arith

      stored : b.binary_gz_fails ≡ false
      stored = unfold restore in ground (arith, same_sum)

      go :
          (x : Result BuildFailure ℤ)
          → previous_number b (w.store.dirs (h.store_dir br0.spec)) ≡ x
          → (br0 ≡ br) × IsRestored h exp_sum w v br (restore b h exp_sum br0 w).0
      go (err e) k = absurd (unfold restore in ground (arith, same_sum, stored))
      go (ok n) k = (
        same,
        subst (λ (t : Server × Outcome). IsRestored h exp_sum w v br t.0) (sym whole)
            (subst (λ r. IsRestored h exp_sum w v r (put_binary b h br0 w)) same
              (put_binary-IsRestored br0 w v ((eq_bytes_iff br0.sum exp_sum).0 same_sum)
                (k ∙ ap ok same_number))),
      )
        where
          moved : b.restore_fails ≡ false
          moved = unfold restore in ground (arith, same_sum, stored, k)

          whole : restore b h exp_sum br0 w ≡ (put_binary b h br0 w, built n br0)
          whole = unfold restore in rw (same_sum, k, stored, moved) refl

          outcome : built n br0 ≡ built v br
          outcome = ap (λ (t : Server × Outcome). t.1) (sym whole) ∙ q

          same : br0 ≡ br
          same = ground (arith, outcome)

          same_number : n ≡ v
          same_number = ground (arith, outcome)

module _ (b : Calls) (h : HashTree) (d : Disk) where
  -- When a build for which a sum is expected returns a result, the result has that sum, and is that
  -- of the specification, whose directory was there with the number that is returned; the
  -- binary is in it again, and the records, the hashes and the recent links are as they were.
  pub build-IsRestored :
      (bs : BuildSpec) (exp_sum : Bytes) (w : Server) (v : ℤ) (br : BuildResult)
      → exp_sum ≢ []
      → (build b h d bs exp_sum w).1 ≡ built v br
      → (br.spec ≡ bs) × IsRestored h exp_sum (count_target bs w) v br (build b h d bs exp_sum w).0
  build-IsRestored bs exp_sum w v br n q = (
    ap (λ (r : BuildResult). r.spec) (sym restored.0),
    subst (λ (t : Server × Outcome). IsRestored h exp_sum (count_target bs w) v br t.0) (sym whole)
        restored.1,
  )
    where
      read :
          (buf : Bytes) × (build b h d bs exp_sum w
            ≡ keep_result b h d exp_sum (count_target bs w) (ok (result_of b bs buf)))
      read = let (buf, compiled, kept) = build-built b h d bs exp_sum w v br q in (buf, kept)

      whole :
          build b h d bs exp_sum w ≡ restore b h exp_sum (result_of b bs read.0) (count_target bs w)
      whole = read.1 ∙ (rw (eq_bytes_ne exp_sum [] n) refl)

      outcome : (restore b h exp_sum (result_of b bs read.0) (count_target bs w)).1 ≡ built v br
      outcome = ap (λ (t : Server × Outcome). t.1) (sym whole) ∙ q

      restored :
          (result_of b bs read.0 ≡ br)
          × IsRestored h exp_sum
              (count_target bs w)
              v
              br
              (restore b h exp_sum (result_of b bs read.0) (count_target bs w)).0
      restored =
          restore-IsRestored b h exp_sum (result_of b bs read.0) br (count_target bs w) v outcome
