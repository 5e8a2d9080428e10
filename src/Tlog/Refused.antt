-- ===== src/Tlog/Refused.antt =====
-- What addSum leaves where it fails.
use gobuild.Common.{
  ◌≢◌, ℕ, ◌*◌, ◌≡◌, refl, sym, ap, ◌∙◌, Bool, true, false, some, ◌++◌, inl, inr, length, arith,
  Bool-cases, Result, ok, err,
}
use gobuild.Strings.{format_nat}
use gobuild.Record.{BuildResult}
use gobuild.Tlog.{
  Store, HashTree, Disk, AddError, Plan, disk_record_size, hash_size, next_number, plan,
  is_complete, Outcome, disk_record, put_in_place, write_record, write_hashes, write_log,
  write_number, add_sum, planned, written, log_text, hashes_not_written, hashes_not_synced,
  record_not_written, records_not_synced, not_renamed,
}
use gobuild.Tlog.Added.{next_number-ok}

-- The errors that addSum returns before its first permanent write, which is that of the hashes file.
abbrev pub is_early : AddError → Bool
is_early hashes_not_written = false
is_early hashes_not_synced = false
is_early record_not_written = false
is_early records_not_synced = false
is_early not_renamed = false
is_early e = true

-- The records, the hashes and the result directories are the same.
pub record IsKept (s s' : Store) : Type 0 where
  pub records : s'.records ≡ s.records
  pub hashes : s'.hashes ≡ s.hashes
  pub dirs : s'.dirs ≡ s.dirs

kept : (s : Store) → IsKept s s
kept s = record { records = refl; hashes = refl; dirs = refl }

module _ (h : HashTree) (d : Disk) (br : BuildResult) where
  put_in_place-late :
      (p : Plan) (s : Store) (e : AddError)
      → (put_in_place h d br p s).1 ≡ err e
      → is_early e ≡ false
  unfolding put_in_place
  put_in_place-late p s e k = ground arith

  write_record-late :
      (p : Plan) (s : Store) (e : AddError)
      → (write_record h d br p s).1 ≡ err e
      → is_early e ≡ false
  unfolding write_record
  write_record-late p s e k = ground (
    arith,
    put_in_place-late p
        (record s { records = s.records ++ written d.record_write (disk_record p.msg) }) e,
  )

  write_hashes-late :
      (p : Plan) (s : Store) (e : AddError)
      → (write_hashes h d br p s).1 ≡ err e
      → is_early e ≡ false
  unfolding write_hashes
  write_hashes-late p s e k = ground (
    arith,
    write_record-late p (record s { hashes = s.hashes ++ written d.hashes_write p.hash_buf }) e,
  )

  write_log-IsKept :
      (p : Plan) (s : Store) (e : AddError)
      → (write_log h d br p s).1 ≡ err e
      → is_early e ≡ true
      → IsKept s (write_log h d br p s).0
  unfolding write_log
  write_log-IsKept p s e k l = elim (Bool-cases (is_complete d.log_write)) [
    | inl whole ↦ absurd (
        ground (
          arith,
          write_hashes-late p
              (record s { sum_log = s.sum_log ++ written d.log_write (log_text p s) }) e,
        ))
    | inr partial ↦ rw partial (record { records = refl; hashes = refl; dirs = refl })
  ]

  write_number-IsKept :
      (n : ℕ) (s : Store) (e : AddError)
      → (write_number h d br n s).1 ≡ err e
      → is_early e ≡ true
      → IsKept s (write_number h d br n s).0
  write_number-IsKept n s e k l = elim (Bool-cases (is_complete d.number_write)) [
    | inl whole ↦ go (numbered_by whole) (plan h br n store) refl
    | inr partial ↦
        unfold write_number in rw partial (record { records = refl; hashes = refl; dirs = refl })
  ]
    where
      store : Store
      store = record s {
        tmp_dir = record s.tmp_dir { record_number = some (written d.number_write (format_nat n)) };
      }

      numbered_by :
          is_complete d.number_write ≡ true
          → write_number h d br n s ≡ planned h d br store (plan h br n store)
      numbered_by whole = unfold write_number in rw whole refl

      go :
          write_number h d br n s ≡ planned h d br store (plan h br n store)
          → (x : Result AddError Plan) → plan h br n store ≡ x
          → IsKept s (write_number h d br n s).0
      go a (err x) f = rw (a, f) (record { records = refl; hashes = refl; dirs = refl })
      go a (ok p) f =
          let b = a ∙ ap (planned h d br store) f in
          let v = write_log-IsKept p store e (ap (λ (x : Outcome). x.1) (sym b) ∙ k) l in
          rw b (record { records = v.records; hashes = v.hashes; dirs = v.dirs })

  -- Where addSum fails before its first permanent write, the records, the hashes and the result
  -- directories are as before.
  pub add_sum_early-IsKept :
      (s : Store) (e : AddError)
      → (add_sum h d br s).1 ≡ err e
      → is_early e ≡ true
      → IsKept s (add_sum h d br s).0
  add_sum_early-IsKept s e k l = go (next_number h d br s) refl
    where
      go : (x : Result AddError ℕ) → next_number h d br s ≡ x → IsKept s (add_sum h d br s).0
      go (err x) f = unfold add_sum in rw f (kept s)
      go (ok n) f =
          let b : add_sum h d br s ≡ write_number h d br n s = unfold add_sum in rw f refl in
          rw b (write_number-IsKept n s e (ap (λ (x : Outcome). x.1) (sym b) ∙ k) l)

-- While the sizes of the records file and the hashes file disagree, addSum refuses every result, and
-- leaves all files and directories as they are: the records, the hashes, the log of sums, the result
-- directories and that of the build.
pub add_sum-refuses :
    (h : HashTree) (d : Disk) (br : BuildResult) (s : Store)
    → ((n : ℕ)
        → length s.records ≡ n * disk_record_size
        → length s.hashes ≢ h.stored_hash_count n * hash_size)
    → (e : AddError) × (add_sum h d br s ≡ (s, err e))
add_sum-refuses h d br s torn = go (next_number h d br s) refl
  where
    go :
        (x : Result AddError ℕ)
        → next_number h d br s ≡ x
        → (e : AddError) × (add_sum h d br s ≡ (s, err e))
    go (err e) k = (e, unfold add_sum in rw k refl)
    go (ok n) k =
        let (size, hashes_size, _) = next_number-ok h d br s n k in absurd (torn n size hashes_size)
