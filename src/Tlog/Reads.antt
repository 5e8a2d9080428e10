-- ===== src/Tlog/Reads.antt =====
-- tlogserver.go: what ReadRecords and lookupResult return of the log that the files represent.
use gobuild.Common.{All-drop, All-take}
use gobuild.Common.{All-take, All-drop, ◌==◌, ◌>>=◌, length-drop}
use gobuild.Common.{length-drop, length-take}
use gobuild.Common.{length-take, replicate, ◌%◌, take-append_past}
use gobuild.Common.{◌/◌, take-append_past, drop-drop}
use gobuild.Common.{drop-drop, drop-nil}
use gobuild.Common.{
  drop-nil, ℕ, zero, suc, ◌+◌, ◌-◌, ◌*◌, ◌≤◌, ◌<◌, ◌^◌, ◌≡◌, refl, sym, ap, ◌∙◌, leb, List, [], ◌∷◌,
  ◌++◌, Bytes, All, length, take, drop, if◌then◌else◌, Result, ok, err, Bool, true, false, arith,
  inl, inr, Bool-cases, append_assoc, take-append, drop-append, length-append,
}
use gobuild.Common.Int.{pos}
use gobuild.Record.{BuildResult}
use gobuild.Tlog.{Store, HashTree, disk_record, disk_record_size}
use gobuild.Tlog.Read.{
  ReadError, record_offset, reading_failed, read_records, read_at, contents, content,
}
use gobuild.Tlog.Lookup.{length-disk_record, record_offset-pos}
use gobuild.Tlog.Abstract.{text_of, texts, file_of, IsEntry, Represents, read_log}
use gobuild.Tlog.Refines.{length-file_of}

suc_records : (i : ℕ) → suc i * disk_record_size ≡ disk_record_size + i * disk_record_size
suc_records i = omega arith

-- A multiple of the size of a record cuts the file between records.
drop-file_of :
    (i : ℕ) (log : List BuildResult)
    → All IsEntry log
    → drop (i * disk_record_size) (file_of log) ≡ file_of (drop i log)
unfolding file_of
drop-file_of zero log w = refl
drop-file_of (suc i) [] w = drop-nil (suc i * disk_record_size)
drop-file_of (suc i) (x ∷ log) (e, w) =
    let r = disk_record (text_of x) in
    let size = length-disk_record (text_of x) e.small in
    ap (λ k. drop k (r ++ file_of log)) (suc_records i)
    ∙ sym (drop-drop (i * disk_record_size) disk_record_size (r ++ file_of log))
    ∙ ap (drop (i * disk_record_size)) (drop-append r (file_of log) disk_record_size (sym size))
    ∙ drop-file_of i log w

take-file_of :
    (i : ℕ) (log : List BuildResult)
    → All IsEntry log
    → take (i * disk_record_size) (file_of log) ≡ file_of (take i log)
unfolding file_of
take-file_of zero log w = refl
take-file_of (suc i) [] w = take_nil (suc i * disk_record_size)
  where
    take_nil : (n : ℕ) → take n (file_of []) ≡ []
    take_nil zero = refl
    take_nil (suc n) = refl
take-file_of (suc i) (x ∷ log) (e, w) =
    let r = disk_record (text_of x) in
    let size = length-disk_record (text_of x) e.small in
    take-append_past r (file_of log) _ (i * disk_record_size) (omega (arith, size))
    ∙ ap (λ f. r ++ f) (take-file_of i log w)

content-append : (msg rest : Bytes) → length msg ≤ 510 → content (disk_record msg ++ rest) ≡ ok msg
unfolding disk_record content
content-append msg rest h =
    rw
      (
        size,
        append_assoc msg (replicate (510 - length msg) 0) rest,
        room,
        take-append msg (replicate (510 - length msg) 0 ++ rest) (length msg) refl,
      )
      refl
  where
    size : length msg / 256 % 256 * 256 + length msg % 256 ≡ length msg
    size = omega arith

    room : leb (length msg) (length (msg ++ (replicate (510 - length msg) 0 ++ rest))) ≡ true
    room = ground (arith, length-append msg (replicate (510 - length msg) 0 ++ rest))

-- Each record of the file gives its text.
contents-file_of :
    (log : List BuildResult)
    → All IsEntry log
    → contents (length log) (file_of log) ≡ ok (texts log)
unfolding contents texts file_of
contents-file_of [] w = refl
contents-file_of (x ∷ log) (e, w) =
    rw
      (
        content-append (text_of x) (file_of log) e.small,
        drop-append (disk_record (text_of x)) (file_of log) disk_record_size
            (sym (length-disk_record (text_of x) e.small)),
        contents-file_of log w,
      )
      refl

length-front :
    (i k : ℕ) (log : List BuildResult) → i + k ≤ length log → length (take k (drop i log)) ≡ k
length-front i k log h = omega (arith, length-take k (drop i log), length-drop i log)

contents-counted :
    (n : ℕ) (log : List BuildResult)
    → All IsEntry log
    → length log ≡ n
    → contents n (file_of log) ≡ ok (texts log)
contents-counted n log w e = ap (λ k. contents k (file_of log)) (sym e) ∙ contents-file_of log w

module _ (h : HashTree) (log : List BuildResult) (s : Store) (v : Represents h log s) where
  records_size : length s.records ≡ length log * disk_record_size
  records_size = omega (arith, ap length v.records, length-file_of log v.whole)

  part_of :
      (i k : ℕ)
      → take (k * disk_record_size) (drop (i * disk_record_size) s.records)
        ≡ file_of (take k (drop i log))
  part_of i k =
      rw (v.records, drop-file_of i log v.whole)
        (take-file_of k (drop i log) (All-drop IsEntry i log v.whole))

  read_at-Represents :
      (i k : ℕ)
      → read_at s.records (pos (i * disk_record_size)) (k * disk_record_size) ≡ (
          if leb (i + k) (length log)
          then ok (file_of (take k (drop i log)))
          else err reading_failed)
  unfolding read_at
  read_at-Represents i k =
      if_eq (leb (i * 512 + k * 512) (length s.records)) (leb (i + k) (length log)) _ _ _
        (ground (arith, records_size)) (ap ok (part_of i k))
    where
      if_eq :
          (a b : Bool) (x y z : Result ReadError Bytes)
          → a ≡ b
          → x ≡ y
          → (if a then x else z) ≡ (if b then y else z)
      if_eq a true x y z e q = rw e q
      if_eq a false x y z e q = rw e refl

  read_one :
      (i k : ℕ)
      → i * disk_record_size < 2 ^ 63
      → i + k ≤ length log
      → (read_at s.records (record_offset (pos i)) (k * disk_record_size) >>= contents k)
        ≡ ok (texts (take k (drop i log)))
  read_one i k m inside =
      let within : leb (i + k) (length log) ≡ true = ground arith in
      rw (record_offset-pos i m, read_at-Represents i k, within)
        (contents-counted k (take k (drop i log))
          (All-take IsEntry k (drop i log) (All-drop IsEntry i log v.whole))
          (length-front i k log inside))

  read_none :
      (i k : ℕ)
      → i * disk_record_size < 2 ^ 63
      → leb (i + k) (length log) ≡ false
      → (read_at s.records (record_offset (pos i)) (k * disk_record_size) >>= contents k)
        ≡ err reading_failed
  read_none i k m outside = rw (record_offset-pos i m, read_at-Represents i k, outside) refl

  asked :
      (i k : ℕ)
      → read_records s.records (pos i) (pos (suc k)) ≡ (
          read_at s.records (record_offset (pos i)) (suc k * disk_record_size) >>= contents (suc k))
  unfolding read_records
  asked i k = rw (some_asked) refl
    where
      some_asked : (suc k == 0) ≡ false
      some_asked = ground arith

  -- While the offset fits an int64, ReadRecords returns the texts of the results from a position
  -- on, and fails where the log has not as many.
  pub read_records-Represents :
      (i k : ℕ)
      → i * disk_record_size < 2 ^ 63
      → read_records s.records (pos i) (pos k) ≡ read_log log i k
  read_records-Represents i zero m = unfold read_records read_log in refl
  read_records-Represents i (suc k) m =
      asked i k ∙ elim (Bool-cases (leb (i + suc k) (length log))) [
        | inl inside ↦ unfold read_log in rw inside (read_one i (suc k) m (ground arith))
        | inr outside ↦ unfold read_log in rw outside (read_none i (suc k) m outside)
      ]
