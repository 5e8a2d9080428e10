-- ===== src/Tlog/Lookup/Startup.antt =====
-- serve.go: the startup check accepts the files that addSum has left.
use gobuild.Common.{
  drop-drop, ==_iff, ℕ, ◌+◌, ◌-◌, ◌*◌, ◌^◌, ◌<◌, ◌≡◌, refl, sym, ap, ◌∙◌, true, false, ◌==◌, ◌⊎◌,
  inl, inr, some, List, [], ◌∷◌, ◌++◌, All, Bytes, eq_bytes_self, length, drop, take-append,
  drop-append, arith, ok,
}
use gobuild.Common.Int.{as_int64, pos}
use gobuild.Strings.{format_nat, format_int, parse_int}
use gobuild.Strings.Decimal.{Fits, parse_int-format_int}
use gobuild.Record.{BuildResult}
use gobuild.Record.RoundTrip.{parse_record-pack_record}
use gobuild.Tlog.{Store, HashTree, Disk, disk_record_size, hash_size, concat, add_sum, tree_size}
use gobuild.Tlog.Read.{read_at}
use gobuild.Tlog.Added.{IsHashTree, IsAdded}
use gobuild.Tlog.Lookup.{added, add_sum-sizes, read_records-last, read_at-last, length-concat}
use gobuild.Tlog.State.{
  BinaryCheck, no_binary, unpacked, Startup, compare_hashes, check_binary, check_result, check_last,
  verify_sum_state,
}

-- The documented laws of the tlog library that the check relies on: the hashes of record `n` stand
-- behind those of the records before it, and are calculated from these alone.
pub record IsIndexed (h : HashTree) (u : Startup) : Type 0 where
  pub index : (n : ℕ) → u.stored_hash_index n ≡ h.stored_hash_count n
  pub earlier :
      (n : ℕ) (msg file more : Bytes)
      → length file ≡ h.stored_hash_count n * hash_size
      → h.stored_hashes n msg (file ++ more) ≡ h.stored_hashes n msg file

compare_hashes-concat :
    (i : ℕ) (hs : List Bytes) (buf : Bytes)
    → All (λ x. length x ≡ hash_size) hs
    → drop (i * hash_size) buf ≡ concat hs
    → compare_hashes i hs buf ≡ ok tt
unfolding compare_hashes
compare_hashes-concat i [] buf l e = refl
compare_hashes-concat i (x ∷ hs) buf (size, l) e =
    rw (e, take-append x (concat hs) hash_size (sym size), eq_bytes_self x)
      (compare_hashes-concat (i + 1) hs buf l rest)
  where
    next : i * hash_size + hash_size ≡ (i + 1) * hash_size
    next = omega arith

    rest : drop ((i + 1) * hash_size) buf ≡ concat hs
    rest =
        ap (λ k. drop k buf) (sym next)
        ∙ sym (drop-drop hash_size (i * hash_size) buf)
        ∙ ap (drop hash_size) e
        ∙ drop-append x (concat hs) hash_size (sym size)

pub tree_size-whole :
    (records : Bytes) (n : ℕ) → length records ≡ n * disk_record_size → tree_size records ≡ some n
unfolding tree_size
tree_size-whole records n e = rw e (ground arith)

check_binary-fine :
    (sum : Bytes) (b : BinaryCheck)
    → (b ≡ no_binary) ⊎ (b ≡ unpacked sum)
    → check_binary sum b ≡ ok tt
unfolding check_binary
check_binary-fine sum b (inl e) = rw e refl
check_binary-fine sum b (inr e) = rw (e, eq_bytes_self sum) refl

module _ (h : HashTree) (d : Disk) (br : BuildResult) (n : ℕ) (s : Store)
    (e : (add_sum h d br s).1 ≡ ok n) (u : Startup) where
  -- The new record is that of the result, whose directory has its number.
  check_result-added :
      (u.binary (h.store_dir br.spec) ≡ no_binary)
        ⊎ (u.binary (h.store_dir br.spec) ≡ unpacked br.sum)
      → Fits 64 br.filesize
      → n * disk_record_size < 2 ^ 63
      → check_result u h (add_sum h d br s).0 n (added h d br n s e).msg ≡ ok tt
  check_result-added bin f m =
      unfold check_result in
      rw
        (
          parse_record-pack_record br v.msg f v.packed,
          v.dirs,
          eq_bytes_self (h.store_dir br.spec),
          number_read,
          same_number,
        )
        (check_binary-fine br.sum (u.binary (h.store_dir br.spec)) bin)
    where
      v : IsAdded h br n s (add_sum h d br s).0
      v = added h d br n s e

      number_read : parse_int 64 (format_nat n) ≡ some (pos n)
      number_read = unfold format_int in parse_int-format_int 64 (pos n) (omega arith)

      same_number : (n == n) ≡ true
      same_number = (==_iff n n).1 refl

  -- The hashes of the new record stand where addSum has written them.
  check_last-added :
      IsHashTree h
      → IsIndexed h u
      → h.stored_hash_count n * hash_size < 2 ^ 63
      → n * disk_record_size < 2 ^ 63
      → check_result u h (add_sum h d br s).0 n (added h d br n s e).msg ≡ ok tt
      → check_last u h (add_sum h d br s).0 n ≡ ok tt
  check_last-added t i k m result_fine =
      unfold check_last in
      rw
        (
          read_records-last h d br n s e m,
          hashed,
          i.index n,
          offset,
          read,
          compare_hashes-concat 0 v.hs (concat v.hs) sized refl,
        )
        result_fine
    where
      v : IsAdded h br n s (add_sum h d br s).0
      v = added h d br n s e

      sized : All (λ x. length x ≡ hash_size) v.hs
      sized = t.sized n v.msg s.hashes v.hs v.hashed

      hashed : h.stored_hashes n v.msg (add_sum h d br s).0.hashes ≡ some v.hs
      hashed =
          ap (h.stored_hashes n v.msg) v.hashes
          ∙ i.earlier n v.msg s.hashes (concat v.hs) v.before_hashes
          ∙ v.hashed

      offset :
          as_int64 (h.stored_hash_count n * hash_size) ≡ pos (h.stored_hash_count n * hash_size)
      offset = unfold as_int64 in ground (arith, k)

      read :
          read_at
            (add_sum h d br s).0.hashes
            (pos (h.stored_hash_count n * hash_size))
            (length v.hs * hash_size)
          ≡ ok (concat v.hs)
      read =
          ap
            (λ file.
              read_at file (pos (h.stored_hash_count n * hash_size)) (length v.hs * hash_size))
            v.hashes
          ∙ read_at-last s.hashes (concat v.hs) (h.stored_hash_count n * hash_size)
              (length v.hs * hash_size) (sym v.before_hashes) (sym (length-concat v.hs sized))

  -- After a successful addSum the startup check accepts the files and counts the new record, where
  -- the offsets and the size of the binary fit an int64, the files can be read, and the
  -- binary of the result is missing or has its sum.
  pub verify_sum_state-add_sum :
      IsHashTree h
      → IsIndexed h u
      → u.records_stat_fails ≡ false
      → u.hashes_stat_fails ≡ false
      → (u.binary (h.store_dir br.spec) ≡ no_binary)
        ⊎ (u.binary (h.store_dir br.spec) ≡ unpacked br.sum)
      → Fits 64 br.filesize
      → n * disk_record_size < 2 ^ 63
      → h.stored_hash_count n * hash_size < 2 ^ 63
      → verify_sum_state u h (add_sum h d br s).0 ≡ ok (n + 1)
  verify_sum_state-add_sum t i rf hf bin f m k =
      unfold verify_sum_state in
      rw
        (
          tree_size-whole s'.records (n + 1) sizes.0,
          sizes.1,
          same_size,
          not_empty,
          before,
          last,
          rf,
          hf,
        )
        refl
    where
      s' : Store
      s' = (add_sum h d br s).0

      sizes :
          (length s'.records ≡ (n + 1) * disk_record_size)
          × (length s'.hashes ≡ h.stored_hash_count (n + 1) * hash_size)
      sizes = add_sum-sizes h d br n s e t

      same_size :
          (h.stored_hash_count (n + 1) * hash_size == h.stored_hash_count (n + 1) * hash_size)
          ≡ true
      same_size =
          (==_iff (h.stored_hash_count (n + 1) * hash_size)
              (h.stored_hash_count (n + 1) * hash_size)).1
            refl

      not_empty : (n + 1 == 0) ≡ false
      not_empty = ground arith

      before : n + 1 - 1 ≡ n
      before = omega arith

      last : check_last u h s' n ≡ ok tt
      last = check_last-added t i k m (check_result-added bin f m)
