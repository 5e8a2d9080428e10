-- ===== src/Tlog/State.antt =====
-- serve.go: verifySumState, which checks the files of the log at startup.
use gobuild.Common.{
  ℕ, ◌+◌, ◌-◌, ◌*◌, Bool, false, not, ◌==◌, if◌then◌else◌, Option, none, some, List, [], ◌∷◌, Bytes,
  eq_bytes, length, take, drop, Result, ok, err, ◌>>=◌, ◌>>◌, guard, or_fail,
}
use gobuild.Common.Int.{ℤ, pos, negsuc, as_int64}
use gobuild.Strings.{parse_int}
use gobuild.Record.{BuildResult, RecordError, parse_record}
use gobuild.Tlog.{Dir, Store, HashTree, hash_size, tree_size}
use gobuild.Tlog.Read.{ReadError, read_at, read_records}

-- The binary of a result directory: its file is missing, a call on it fails, or its contents have
-- a sum.
pub data BinaryCheck : Type 0 where
  no_binary not_opened not_unpacked not_closed : BinaryCheck
  unpacked : Bytes → BinaryCheck

-- tlog.StoredHashIndex at level 0, the calls that fail, and the binaries by directory.
pub record Startup : Type 0 where
  pub stored_hash_index : ℕ → ℕ
  pub records_stat_fails : Bool
  pub hashes_stat_fails : Bool
  pub binary : Bytes → BinaryCheck

pub data StateError : Type 0 where
  no_size hashes_not_stat inconsistent_hashes hashes_not_calculated no_number binary_not_checked :
      StateError
  record_not_read hashes_not_read : ReadError → StateError
  hash_mismatch : ℕ → StateError
  record_not_parsed : RecordError → StateError
  bad_number : Bytes → StateError
  inconsistent_number : ℤ → StateError
  sum_mismatch : Bytes → StateError

-- The loop over the hashes
unfoldable pub compare_hashes : ℕ → List Bytes → Bytes → Result StateError (Unit {0})
compare_hashes i [] buf = ok tt
compare_hashes i (x ∷ xs) buf = do
  guard (eq_bytes x (take hash_size (drop (i * hash_size) buf))) (hash_mismatch i)
  compare_hashes (i + 1) xs buf

abbrev pub or_not_read_record : Result ReadError (List Bytes) → Result StateError (List Bytes)
or_not_read_record (ok rs) = ok rs
or_not_read_record (err e) = err (record_not_read e)

abbrev pub or_not_read_hashes : Result ReadError Bytes → Result StateError Bytes
or_not_read_hashes (ok buf) = ok buf
or_not_read_hashes (err e) = err (hashes_not_read e)

abbrev pub or_not_a_record : Result RecordError BuildResult → Result StateError BuildResult
or_not_a_record (ok br) = ok br
or_not_a_record (err e) = err (record_not_parsed e)

-- records[0]; ReadRecords returns as many records as are asked for.
abbrev pub only_record : List Bytes → Bytes
only_record [] = []
only_record (r ∷ rs) = r

abbrev pub is_number : ℤ → ℕ → Bool
is_number (pos k) n = k == n
is_number (negsuc k) n = false

abbrev pub number_text : Option Dir → Option Bytes
number_text none = none
number_text (some d) = d.record_number

unfoldable pub check_binary : Bytes → BinaryCheck → Result StateError (Unit {0})
check_binary sum no_binary = ok tt
check_binary sum (unpacked found) = guard (eq_bytes found sum) (sum_mismatch found)
check_binary sum _ = err binary_not_checked

module _ (u : Startup) (h : HashTree) (s : Store) where
  -- From the parsing of the last record on
  unfoldable pub check_result : ℕ → Bytes → Result StateError (Unit {0})
  check_result last msg = do
    br ← or_not_a_record (parse_record msg)
    text ← or_fail (number_text (s.dirs (h.store_dir br.spec))) no_number
    num ← or_fail (parse_int 64 text) (bad_number text)
    guard (is_number num last) (inconsistent_number num)
    check_binary br.sum (u.binary (h.store_dir br.spec))

  -- The checks of the last record and its hashes
  unfoldable pub check_last : ℕ → Result StateError (Unit {0})
  check_last last = do
    records ← or_not_read_record (read_records s.records (pos last) (pos 1))
    let msg = only_record records
    hashes ← or_fail (h.stored_hashes last msg s.hashes) hashes_not_calculated
    buf ← or_not_read_hashes (
        read_at s.hashes (as_int64 (u.stored_hash_index last * hash_size))
          (length hashes * hash_size))
    compare_hashes 0 hashes buf
    check_result last msg

  -- verifySumState
  unfoldable pub verify_sum_state : Result StateError ℕ
  verify_sum_state = do
    guard (not u.records_stat_fails) no_size
    n ← or_fail (tree_size s.records) no_size
    guard (not u.hashes_stat_fails) hashes_not_stat
    guard (h.stored_hash_count n * hash_size == length s.hashes) inconsistent_hashes
    if n == 0 then ok 0 else (check_last (n - 1) >> ok n)
