-- ===== src/Tlog/Lookup.antt =====
-- What is read after addSum: the result that was added, and the records before it.
pub mod Startup
use gobuild.Common.{
  append-nil, ℕ, zero, suc, ◌+◌, ◌-◌, ◌*◌, ◌/◌, ◌%◌, ◌^◌, ◌≤◌, ◌<◌, ◌≡◌, refl, sym, ap, ◌∙◌, true,
  leb, some, List, [], ◌∷◌, ◌++◌, All, Bytes, eq_bytes_self, length, length-append,
  length-replicate, take, drop, take-append, drop-append, replicate, arith, ok,
}
use gobuild.Common.Int.{as_int64, pos}
use gobuild.Strings.{format_nat, format_int, parse_int}
use gobuild.Strings.Decimal.{Fits, parse_int-format_int}
use gobuild.Spec.{BuildSpec}
use gobuild.Record.{BuildResult}
use gobuild.Record.RoundTrip.{parse_record-pack_record}
use gobuild.Tlog.{
  Dir, Store, HashTree, Disk, disk_record_size, hash_size, disk_record, concat, add_sum,
}
use gobuild.Tlog.Read.{
  content, contents, record_offset, read_at, read_records, result, read_result, found_in,
  lookup_result,
}
use gobuild.Tlog.Added.{IsHashTree, IsConsistent, IsAdded, add_sum-IsAdded}

pub length-disk_record :
    (msg : Bytes) → length msg ≤ 510 → length (disk_record msg) ≡ disk_record_size
unfolding disk_record
length-disk_record msg h = ground (
  arith,
  length-append msg (replicate (510 - length msg) 0),
  length-replicate {A = ℕ} (510 - length msg) 0,
)

pub length-concat :
    (hs : List Bytes)
    → All (λ x. length x ≡ hash_size) hs
    → length (concat hs) ≡ length hs * hash_size
length-concat [] h = refl
length-concat (x ∷ hs) (e, h) = ground (arith, length-append x (concat hs), length-concat hs h)

-- An offset that fits an int64 does not wrap.
pub record_offset-pos :
    (n : ℕ) → n * disk_record_size < 2 ^ 63 → record_offset (pos n) ≡ pos (n * disk_record_size)
unfolding record_offset as_int64
record_offset-pos n h = ground arith

pub content-disk_record : (msg : Bytes) → length msg ≤ 510 → content (disk_record msg) ≡ ok msg
unfolding disk_record content
content-disk_record msg h =
    rw (size, room, take-append msg (replicate (510 - length msg) 0) (length msg) refl) refl
  where
    size : length msg / 256 % 256 * 256 + length msg % 256 ≡ length msg
    size = omega arith

    room : leb (length msg) (length (msg ++ replicate (510 - length msg) 0)) ≡ true
    room = ground (arith, length-append msg (replicate (510 - length msg) 0))

take-front : (m : ℕ) (r x : Bytes) → m ≤ length r → take m (r ++ x) ≡ take m r
take-front zero r x h = refl
take-front (suc m) [] x h = absurd (omega arith)
take-front (suc m) (c ∷ r) x h = ap (◌∷◌ c) (take-front m r x (omega arith))

pub take-drop_front :
    (m o : ℕ) (r x : Bytes) → o + m ≤ length r → take m (drop o (r ++ x)) ≡ take m (drop o r)
take-drop_front m zero r x h = take-front m r x (omega arith)
take-drop_front zero (suc o) [] x h = refl
take-drop_front (suc m) (suc o) [] x h = absurd (omega arith)
take-drop_front m (suc o) (c ∷ r) x h = take-drop_front m o r x (omega arith)

read_at-append :
    (r x : Bytes) (o m : ℕ) → o + m ≤ length r → read_at (r ++ x) (pos o) m ≡ read_at r (pos o) m
unfolding read_at
read_at-append r x o m h = ground (arith, length-append r x, take-drop_front m o r x h)

read_at-last :
    (r x : Bytes) (o m : ℕ) → o ≡ length r → m ≡ length x → read_at (r ++ x) (pos o) m ≡ ok x
unfolding read_at
read_at-last r x o m e f =
    rw (drop-append r x o e) (ground (arith, length-append r x, take_all x m f))
  where
    take_all : (x : Bytes) (m : ℕ) → m ≡ length x → take m x ≡ x
    take_all x m f = sym (ap (take m) (append-nil x)) ∙ take-append x [] m f

pub lookup_result-some :
    (h : HashTree) (bs : BuildSpec) (s : Store) (dir : Dir)
    → s.dirs (h.store_dir bs) ≡ some dir
    → lookup_result h bs s ≡ found_in s.records dir dir.record_number
unfolding lookup_result
lookup_result-some h bs s dir e = rw (e, lookup_result) refl

module _ (h : HashTree) (d : Disk) (br : BuildResult) (n : ℕ) (s : Store)
    (e : (add_sum h d br s).1 ≡ ok n) where
  added : IsAdded h br n s (add_sum h d br s).0
  added = add_sum-IsAdded h d br n s e

  -- The sizes of the files after addSum
  pub add_sum-sizes :
      IsHashTree h
      → (length (add_sum h d br s).0.records ≡ (n + 1) * disk_record_size)
        × (length (add_sum h d br s).0.hashes ≡ h.stored_hash_count (n + 1) * hash_size)
  add_sum-sizes t =
      let v = added in
      (
        omega (
          arith,
          ap length v.records,
          length-append s.records (disk_record v.msg),
          length-disk_record v.msg v.small,
          v.before,
        ),
        omega (
          arith,
          ap length v.hashes,
          length-append s.hashes (concat v.hs),
          length-concat v.hs (t.sized n v.msg s.hashes v.hs v.hashed),
          v.before_hashes,
          t.counted n v.msg s.hashes v.hs v.hashed,
        ),
      )

  -- Where addSum succeeds, with a hash tree that has its laws, the files hold whole records and the
  -- hashes of these records.
  pub add_sum-IsConsistent : IsHashTree h → IsConsistent h (add_sum h d br s).0
  add_sum-IsConsistent t =
      let (records, hashes) = add_sum-sizes t in
      record { size = n + 1; records_size = records; hashes_size = hashes }

  -- Where addSum succeeds, records that were in the log before are read as before, while offsets
  -- fit an int64.
  pub add_sum-keeps_records :
      (i k : ℕ)
      → i + k ≤ n
      → n * disk_record_size < 2 ^ 63
      → read_records (add_sum h d br s).0.records (pos i) (pos k)
        ≡ read_records s.records (pos i) (pos k)
  unfolding read_records
  add_sum-keeps_records i k b m =
      let v = added in
      rw
        (
          v.records,
          record_offset-pos i (omega arith),
          read_at-append s.records (disk_record v.msg) (i * disk_record_size) (k * disk_record_size)
              (omega (arith, v.before)),
        )
        refl

  read_records-last :
      n * disk_record_size < 2 ^ 63
      → read_records (add_sum h d br s).0.records (pos n) (pos 1) ≡ ok (added.msg ∷ [])
  unfolding read_records contents
  read_records-last m =
      let v = added in
      rw
        (
          v.records,
          record_offset-pos n m,
          read_at-last s.records (disk_record v.msg) (n * disk_record_size) 512 (sym v.before)
              (sym (length-disk_record v.msg v.small)),
          content-disk_record v.msg v.small,
        )
        refl

  read_result-last :
      (dir : Dir)
      → Fits 64 br.filesize
      → n * disk_record_size < 2 ^ 63
      → read_result (add_sum h d br s).0.records dir (format_nat n)
        ≡ ok (result (pos n) br dir.has_binary)
  unfolding read_result
  read_result-last dir f m =
      rw (number_read, read_records-last m, parse_record-pack_record br added.msg f added.packed)
        refl
    where
      number_read : parse_int 64 (format_nat n) ≡ some (pos n)
      number_read = unfold format_int in parse_int-format_int 64 (pos n) (omega arith)

  -- lookupResult finds the result that addSum has added, under the number that it returned, with
  -- the binary if the build's directory has one, where the size of the binary and the offset of
  -- the record fit an int64.
  pub lookup_result-add_sum :
      Fits 64 br.filesize
      → n * disk_record_size < 2 ^ 63
      → lookup_result h br.spec (add_sum h d br s).0 ≡ ok (result (pos n) br s.tmp_dir.has_binary)
  lookup_result-add_sum f m =
      lookup_result-some h br.spec (add_sum h d br s).0 placed
        (rw (added.dirs, eq_bytes_self (h.store_dir br.spec)) refl)
      ∙ read_result-last placed f m
    where
      placed : Dir
      placed = record s.tmp_dir { record_number = some (format_nat n) }
