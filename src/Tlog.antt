-- ===== src/Tlog.antt =====
-- tlog.go: the files of the transparency log, and addSum, which adds a result to them.
-- The functions of golang.org/x/mod/sumdb/tlog and the hash that names a result's directory are
-- parameters. A Disk says which of the calls of one addSum fail.
pub mod Read
pub mod Added
pub mod Lookup
pub mod Refused
pub mod Server
pub mod State
pub mod Abstract
pub mod Refines
pub mod Reads
pub mod Finds
pub mod Signed
use gobuild.Common.{
  ℕ, ◌+◌, ◌-◌, ◌*◌, ◌/◌, ◌%◌, Bool, true, false, not, ltb, leb, ◌==◌, if◌then◌else◌, Option, none,
  some, List, [], ◌∷◌, ◌++◌, Bytes, codes, eq_bytes, length, take, drop, replicate, Result, ok, err,
  ◌>>=◌, ◌>>◌, guard, or_fail,
}
use gobuild.Strings.{format_nat}
use gobuild.Spec.{BuildSpec}
use gobuild.Record.{BuildResult, PackError, pack_record}

-- The files of a result directory that the log looks at.
pub record Dir : Type 0 where
  pub record_number : Option Bytes
  pub has_log : Bool
  pub has_binary : Bool

-- The files, the result directories by name, and the directory in which a build has its files.
pub record Store : Type 0 where
  pub records : Bytes
  pub hashes : Bytes
  pub sum_log : Bytes
  pub dirs : Bytes → Option Dir
  pub tmp_dir : Dir

-- tlog.StoredHashCount, tlog.StoredHashes of a record and the hashes file, and storeDir.
pub record HashTree : Type 0 where
  pub stored_hash_count : ℕ → ℕ
  pub stored_hashes : ℕ → Bytes → Bytes → Option (List Bytes)
  pub store_dir : BuildSpec → Bytes

-- Which calls fail. A write that fails has written some first bytes.
pub record Disk : Type 0 where
  pub stat_store_fails : Bool
  pub stat_records_fails : Bool
  pub stat_hashes_fails : Bool
  pub number_write : Option ℕ
  pub log_write : Option ℕ
  pub hashes_write : Option ℕ
  pub hashes_sync_fails : Bool
  pub record_write : Option ℕ
  pub records_sync_fails : Bool
  pub rename_fails : Bool

pub data AddError : Type 0 where
  missing_sum dir_exists stat_store_failed no_tree_size stat_hashes_failed inconsistent_hashes :
      AddError
  number_not_written record_too_large hashes_not_calculated log_not_written : AddError
  bad_record : PackError → AddError
  hashes_not_written hashes_not_synced record_not_written records_not_synced not_renamed : AddError

abbrev pub disk_record_size : ℕ
disk_record_size = 512

abbrev pub hash_size : ℕ
hash_size = 32

-- treeSize, where the file can be read.
unfoldable pub tree_size : Bytes → Option ℕ
tree_size records =
    if length records % disk_record_size == 0
    then some (length records / disk_record_size)
    else none

abbrev pub written : Option ℕ → Bytes → Bytes
written none buf = buf
written (some k) buf = take k buf

abbrev pub is_complete : Option ℕ → Bool
is_complete none = true
is_complete (some k) = false

abbrev pub is_present : Option Dir → Bool
is_present none = false
is_present (some d) = true

-- The checks in front of the first write, up to the consistency of the files.
unfoldable pub next_number : HashTree → Disk → BuildResult → Store → Result AddError ℕ
next_number h d br s = do
  guard (not (eq_bytes br.sum [])) missing_sum
  guard (not d.stat_store_fails) stat_store_failed
  guard (not (is_present (s.dirs (h.store_dir br.spec)))) dir_exists
  guard (not d.stat_records_fails) no_tree_size
  n ← or_fail (tree_size s.records) no_tree_size
  guard (not d.stat_hashes_fails) stat_hashes_failed
  guard (h.stored_hash_count n * hash_size == length s.hashes) inconsistent_hashes
  ok n

-- What is written for a record.
pub record Plan : Type 0 where
  pub number : ℕ
  pub msg : Bytes
  pub hash_buf : Bytes

abbrev pub concat : List Bytes → Bytes
concat [] = []
concat (h ∷ hs) = h ++ concat hs

abbrev pub or_bad_record : Result PackError Bytes → Result AddError Bytes
or_bad_record (ok msg) = ok msg
or_bad_record (err e) = err (bad_record e)

unfoldable pub plan : HashTree → BuildResult → ℕ → Store → Result AddError Plan
plan h br n s = do
  msg ← or_bad_record (pack_record br)
  guard (leb (length msg) (disk_record_size - 2)) record_too_large
  hashes ← or_fail (h.stored_hashes n msg s.hashes) hashes_not_calculated
  ok (record { number = n; msg = msg; hash_buf = concat hashes })

-- Two bytes of size, the content, and zeros.
unfoldable pub disk_record : Bytes → Bytes
disk_record msg =
    (length msg / 256 % 256)
    ∷ (length msg % 256)
    ∷ (msg ++ replicate (disk_record_size - 2 - length msg) 0)

abbrev pub Outcome : Type 0
Outcome = Store × Result AddError ℕ

abbrev pub put_dir : Bytes → Dir → (Bytes → Option Dir) → Bytes → Option Dir
put_dir p d m q = if eq_bytes q p then some d else m q

abbrev pub no_files : Dir
no_files = record { record_number = none; has_log = false; has_binary = false }

-- os.Rename, the last step
unfoldable pub put_in_place : HashTree → Disk → BuildResult → Plan → Store → Outcome
put_in_place h d br p s = if d.rename_fails then (s, err not_renamed) else (
  record s { dirs = put_dir (h.store_dir br.spec) s.tmp_dir s.dirs; tmp_dir = no_files },
  ok p.number,
)

unfoldable pub write_record : HashTree → Disk → BuildResult → Plan → Store → Outcome
write_record h d br p s =
    let s' = record s { records = s.records ++ written d.record_write (disk_record p.msg) } in
    if not (is_complete d.record_write)
    then (s', err record_not_written)
    else if d.records_sync_fails
    then (s', err records_not_synced)
    else put_in_place h d br p s'

unfoldable pub write_hashes : HashTree → Disk → BuildResult → Plan → Store → Outcome
write_hashes h d br p s =
    let s' = record s { hashes = s.hashes ++ written d.hashes_write p.hash_buf } in
    if not (is_complete d.hashes_write)
    then (s', err hashes_not_written)
    else if d.hashes_sync_fails
    then (s', err hashes_not_synced)
    else write_record h d br p s'

unfoldable pub log_text : Plan → Store → Bytes
log_text p s =
    codes "adding record="
    ++ (format_nat p.number
        ++ (codes " at recordoffset="
            ++ (format_nat (p.number * disk_record_size)
                ++ (codes " hashesoffset="
                    ++ (format_nat (length s.hashes) ++ (codes ": " ++ p.msg))))))

unfoldable pub write_log : HashTree → Disk → BuildResult → Plan → Store → Outcome
unfolding log_text
write_log h d br p s =
    let s' = record s { sum_log = s.sum_log ++ written d.log_write (log_text p s) } in
    if not (is_complete d.log_write) then (s', err log_not_written) else write_hashes h d br p s'

abbrev pub planned : HashTree → Disk → BuildResult → Store → Result AddError Plan → Outcome
planned h d br s (ok p) = write_log h d br p s
planned h d br s (err e) = (s, err e)

-- The recordnumber file of the build's directory
unfoldable pub write_number : HashTree → Disk → BuildResult → ℕ → Store → Outcome
write_number h d br n s =
    let s' = record s {
      tmp_dir = record s.tmp_dir { record_number = some (written d.number_write (format_nat n)) };
    } in
    if not (is_complete d.number_write)
    then (s', err number_not_written)
    else planned h d br s' (plan h br n s')

abbrev pub numbered : HashTree → Disk → BuildResult → Store → Result AddError ℕ → Outcome
numbered h d br s (ok n) = write_number h d br n s
numbered h d br s (err e) = (s, err e)

-- addSum
unfoldable pub add_sum : HashTree → Disk → BuildResult → Store → Outcome
add_sum h d br s = numbered h d br s (next_number h d br s)
