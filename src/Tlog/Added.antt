-- ===== src/Tlog/Added.antt =====
-- What addSum has done when it succeeds.
use gobuild.Common.{
  ℕ, ◌<◌, ◌+◌, ◌*◌, ◌≤◌, ◌≡◌, refl, sym, ap, ◌∙◌, true, false, Option, none, some, List, ◌++◌, All,
  Bytes, length, arith, Result, ok, err,
}
use gobuild.Strings.{format_nat}
use gobuild.Record.{BuildResult, PackError, pack_record}
use gobuild.Tlog.{
  Store, HashTree, Disk, AddError, Plan, disk_record_size, hash_size, tree_size, next_number, plan,
  disk_record, concat, put_dir, no_files, written, is_complete, Outcome, put_in_place, write_record,
  write_hashes, write_log, write_number, add_sum, is_present, log_text, planned,
}

-- The documented laws of the hash tree: record `n` has its hashes behind those of the records
-- before it, at least one, and a hash has 32 bytes.
pub record IsHashTree (h : HashTree) : Type 0 where
  pub empty : h.stored_hash_count 0 ≡ 0
  pub counted :
      (n : ℕ) (msg file : Bytes) (hs : List Bytes)
      → h.stored_hashes n msg file ≡ some hs
      → h.stored_hash_count n + length hs ≡ h.stored_hash_count (n + 1)
  pub leaf : (n : ℕ) → h.stored_hash_count n < h.stored_hash_count (n + 1)
  pub sized :
      (n : ℕ) (msg file : Bytes) (hs : List Bytes)
      → h.stored_hashes n msg file ≡ some hs
      → All (λ x. length x ≡ hash_size) hs

-- The files hold whole records, and the hashes of these records.
pub record IsConsistent (h : HashTree) (s : Store) : Type 0 where
  pub size : ℕ
  pub records_size : length s.records ≡ size * disk_record_size
  pub hashes_size : length s.hashes ≡ h.stored_hash_count size * hash_size

-- The state `s'` is `s` with the result added as record `n`.
pub record IsAdded (h : HashTree) (br : BuildResult) (n : ℕ) (s s' : Store) : Type 0 where
  pub msg : Bytes
  pub packed : pack_record br ≡ ok msg
  pub small : length msg ≤ 510
  pub hs : List Bytes
  pub hashed : h.stored_hashes n msg s.hashes ≡ some hs
  pub before : length s.records ≡ n * disk_record_size
  pub before_hashes : length s.hashes ≡ h.stored_hash_count n * hash_size
  pub was_absent : is_present (s.dirs (h.store_dir br.spec)) ≡ false
  pub records : s'.records ≡ s.records ++ disk_record msg
  pub hashes : s'.hashes ≡ s.hashes ++ concat hs
  pub dirs :
      s'.dirs
      ≡ put_dir
          (h.store_dir br.spec)
          (record s.tmp_dir { record_number = some (format_nat n) })
          s.dirs

is_complete-written : (o : Option ℕ) (buf : Bytes) → is_complete o ≡ true → written o buf ≡ buf
is_complete-written none buf e = refl
is_complete-written (some k) buf e = cc

module _ (h : HashTree) (d : Disk) (br : BuildResult) where
  put_in_place-ok :
      (p : Plan) (n : ℕ) (s : Store)
      → (put_in_place h d br p s).1 ≡ ok n
      → (p.number ≡ n)
        × ((put_in_place h d br p s).0 ≡ record s {
          dirs = put_dir (h.store_dir br.spec) s.tmp_dir s.dirs;
          tmp_dir = no_files;
        })
  unfolding put_in_place
  put_in_place-ok p n s e = (ground arith, ground arith)

  -- Each write of a call that succeeds is complete, and the next step follows.
  write_record-ok :
      (p : Plan) (n : ℕ) (s : Store)
      → (write_record h d br p s).1 ≡ ok n
      → write_record h d br p s
        ≡ put_in_place h d br p (record s { records = s.records ++ disk_record p.msg })
  unfolding write_record
  write_record-ok p n s e =
      rw (whole, synced, is_complete-written d.record_write (disk_record p.msg) whole) refl
    where
      whole : is_complete d.record_write ≡ true
      whole = ground arith

      synced : d.records_sync_fails ≡ false
      synced = ground (arith, whole)

  write_hashes-ok :
      (p : Plan) (n : ℕ) (s : Store)
      → (write_hashes h d br p s).1 ≡ ok n
      → write_hashes h d br p s
        ≡ write_record h d br p (record s { hashes = s.hashes ++ p.hash_buf })
  unfolding write_hashes
  write_hashes-ok p n s e =
      rw (whole, synced, is_complete-written d.hashes_write p.hash_buf whole) refl
    where
      whole : is_complete d.hashes_write ≡ true
      whole = ground arith

      synced : d.hashes_sync_fails ≡ false
      synced = ground (arith, whole)

  write_log-ok :
      (p : Plan) (n : ℕ) (s : Store)
      → (write_log h d br p s).1 ≡ ok n
      → write_log h d br p s
        ≡ write_hashes h d br p (record s { sum_log = s.sum_log ++ log_text p s })
  unfolding write_log
  write_log-ok p n s e = rw (whole, is_complete-written d.log_write (log_text p s) whole) refl
    where
      whole : is_complete d.log_write ≡ true
      whole = ground arith

  -- The directory of the build with the number of its record.
  abbrev numbered_dir : ℕ → Store → Store
  numbered_dir n s = record s { tmp_dir = record s.tmp_dir { record_number = some (format_nat n) } }

  write_number-ok :
      (k n : ℕ) (s : Store)
      → (write_number h d br k s).1 ≡ ok n
      → write_number h d br k s ≡ planned h d br (numbered_dir k s) (plan h br k (numbered_dir k s))
  unfolding write_number
  write_number-ok k n s e = rw (whole, is_complete-written d.number_write (format_nat k) whole) refl
    where
      whole : is_complete d.number_write ≡ true
      whole = ground arith

  pub next_number-ok :
      (s : Store) (n : ℕ)
      → next_number h d br s ≡ ok n
      → (length s.records ≡ n * disk_record_size)
        × (length s.hashes ≡ h.stored_hash_count n * hash_size)
        × (is_present (s.dirs (h.store_dir br.spec)) ≡ false)
  unfolding next_number tree_size
  next_number-ok s n e = (ground arith, ground arith, ground arith)

  plan-ok :
      (s : Store) (n : ℕ) (p : Plan)
      → plan h br n s ≡ ok p
      → (p.number ≡ n)
        × (pack_record br ≡ ok p.msg)
        × (length p.msg ≤ 510)
        × ((hs : List Bytes) × (h.stored_hashes n p.msg s.hashes ≡ some hs)
            × (p.hash_buf ≡ concat hs))
  plan-ok s n p e = go (pack_record br) refl
    where
      hashed :
          (msg : Bytes)
          → pack_record br ≡ ok msg
          → (o : Option (List Bytes)) → h.stored_hashes n msg s.hashes ≡ o
          → (p.number ≡ n)
            × (pack_record br ≡ ok p.msg)
            × (length p.msg ≤ 510)
            × ((hs : List Bytes) × (h.stored_hashes n p.msg s.hashes ≡ some hs)
                × (p.hash_buf ≡ concat hs))
      hashed msg k none f = absurd (unfold plan in ground arith)
      hashed msg k (some hs) f =
          let same : (p.msg ≡ msg)
              × (p.number ≡ n)
              × (p.hash_buf ≡ concat hs)
              × (length msg ≤ 510) =
            unfold plan in (ground arith, ground arith, ground arith, ground arith) in
          let (m, i, b, l) = same in (i, k ∙ ap ok (sym m), rw m l, (hs, rw m f, b))

      go :
          (x : Result PackError Bytes)
          → pack_record br ≡ x
          → (p.number ≡ n)
            × (pack_record br ≡ ok p.msg)
            × (length p.msg ≤ 510)
            × ((hs : List Bytes) × (h.stored_hashes n p.msg s.hashes ≡ some hs)
                × (p.hash_buf ≡ concat hs))
      go (err x) k = absurd (unfold plan in ground arith)
      go (ok msg) k = hashed msg k (h.stored_hashes n msg s.hashes) refl

  write_log-whole :
      (p : Plan) (n : ℕ) (s : Store)
      → (write_log h d br p s).1 ≡ ok n
      → (p.number ≡ n)
        × ((write_log h d br p s).0 ≡ record s {
          records = s.records ++ disk_record p.msg;
          hashes = s.hashes ++ p.hash_buf;
          sum_log = s.sum_log ++ log_text p s;
          dirs = put_dir (h.store_dir br.spec) s.tmp_dir s.dirs;
          tmp_dir = no_files;
        })
  write_log-whole p n s e =
      let s1 = record s { sum_log = s.sum_log ++ log_text p s } in
      let s2 = record s1 { hashes = s.hashes ++ p.hash_buf } in
      let s3 = record s2 { records = s.records ++ disk_record p.msg } in
      let a = write_log-ok p n s e in
      let b = write_hashes-ok p n s1 (ap (λ (x : Outcome). x.1) (sym a) ∙ e) in
      let c = write_record-ok p n s2 (ap (λ (x : Outcome). x.1) (sym (a ∙ b)) ∙ e) in
      let (i, f) = put_in_place-ok p n s3 (ap (λ (x : Outcome). x.1) (sym (a ∙ b ∙ c)) ∙ e) in
      (i, ap (λ (x : Outcome). x.0) (a ∙ b ∙ c) ∙ f)

  write_number-IsAdded :
      (n m : ℕ) (s : Store)
      → next_number h d br s ≡ ok m
      → (write_number h d br m s).1 ≡ ok n
      → (m ≡ n) × IsAdded h br n s (write_number h d br m s).0
  write_number-IsAdded n m s k e = go (plan h br m (numbered_dir m s)) refl
    where
      go :
          (x : Result AddError Plan)
          → plan h br m (numbered_dir m s) ≡ x
          → (m ≡ n) × IsAdded h br n s (write_number h d br m s).0
      go (err x) f = absurd (ground (arith, write_number-ok m n s e))
      go (ok p) f =
          let a : write_number h d br m s ≡ write_log h d br p (numbered_dir m s) =
            write_number-ok m n s e ∙ ap (planned h d br (numbered_dir m s)) f in
          let (i, w) =
            write_log-whole p n (numbered_dir m s) (ap (λ (x : Outcome). x.1) (sym a) ∙ e) in
          let (j, packed, small, (hs, hashed, buf)) = plan-ok (numbered_dir m s) m p f in
          let (size, hashes_size, none_there) = next_number-ok s m k in
          let same : m ≡ n = sym j ∙ i in
          let end = ap (λ (x : Outcome). x.0) a ∙ w in
          (
            same,
            record {
              msg = p.msg;
              packed = packed;
              small = small;
              hs = hs;
              hashed = rw (sym same) hashed;
              before = rw (sym same) size;
              before_hashes = rw (sym same) hashes_size;
              was_absent = none_there;
              records = rw end refl;
              hashes = rw (end, buf) refl;
              dirs = rw (end, same) refl;
            },
          )

  -- When addSum returns a record number, that is the number of records before, the record and its
  -- hashes stand behind those before them, and the build's directory with the file of the number
  -- is the result directory, where there was none.
  pub add_sum-IsAdded :
      (n : ℕ) (s : Store) → (add_sum h d br s).1 ≡ ok n → IsAdded h br n s (add_sum h d br s).0
  add_sum-IsAdded n s e = go (next_number h d br s) refl
    where
      go :
          (x : Result AddError ℕ) → next_number h d br s ≡ x → IsAdded h br n s (add_sum h d br s).0
      go (err x) k = absurd (unfold add_sum in ground arith)
      go (ok m) k =
          let g : add_sum h d br s ≡ write_number h d br m s = unfold add_sum in rw k refl in
          rw g ((write_number-IsAdded n m s k (ap (λ (x : Outcome). x.1) (sym g) ∙ e)).1)
