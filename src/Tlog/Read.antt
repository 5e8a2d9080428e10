-- ===== src/Tlog/Read.antt =====
-- tlogserver.go: ReadRecords and lookupResult, which read what addSum wrote.
use gobuild.Common.{
  ℕ, suc, zero, ◌+◌, ◌-◌, ◌*◌, ◌%◌, ◌^◌, Bool, not, leb, ◌==◌, if◌then◌else◌, Option, none, some,
  List, [], ◌∷◌, Bytes, length, take, drop, Result, ok, err, ◌>>=◌, ◌>>◌, guard, or_fail,
}
use gobuild.Common.Int.{ℤ, pos, negsuc, as_int64}
use gobuild.Strings.{parse_int}
use gobuild.Spec.{BuildSpec}
use gobuild.Record.{BuildResult, RecordError, parse_record}
use gobuild.Tlog.{Dir, Store, HashTree, disk_record_size}

pub data ReadError : Type 0 where
  bad_count reading_failed out_of_range : ReadError

-- The size that the first two bytes give; the content may reach to the end of the buffer.
unfoldable pub content : Bytes → Result ReadError Bytes
content (a ∷ b ∷ rest) =
    if leb (a * 256 + b) (length rest) then ok (take (a * 256 + b) rest) else err out_of_range
content _ = err out_of_range

-- The loop over the buffer.
unfoldable pub contents : ℕ → Bytes → Result ReadError (List Bytes)
contents zero all = ok []
contents (suc n) all = do r ← content all; rs ← contents n (drop disk_record_size all); ok (r ∷ rs)

-- id * diskRecordSize
unfoldable pub record_offset : ℤ → ℤ
record_offset (pos k) = as_int64 (k * disk_record_size)
record_offset (negsuc k) = as_int64 (2 ^ 64 - ((k + 1) * disk_record_size) % 2 ^ 64)

-- os.File.ReadAt of a whole buffer
unfoldable pub read_at : Bytes → ℤ → ℕ → Result ReadError Bytes
read_at file (negsuc k) n = err reading_failed
read_at file (pos o) n =
    if leb (o + n) (length file) then ok (take n (drop o file)) else err reading_failed

-- serverOps.ReadRecords, for a count whose buffer can be allocated
unfoldable pub read_records : Bytes → ℤ → ℤ → Result ReadError (List Bytes)
read_records file id (negsuc n) = err bad_count
read_records file id (pos n) = do
  guard (not (n == 0)) bad_count
  all ← read_at file (record_offset id) (n * disk_record_size)
  contents n all

pub data LookupError : Type 0 where
  bad_number no_record : LookupError
  not_read : ReadError → LookupError
  not_parsed : RecordError → LookupError

-- The results of lookupResult: nothing, a failed build, or a record with the binary or without.
pub data Found : Type 0 where
  absent failed_build : Found
  result : ℤ → BuildResult → Bool → Found

abbrev pub or_not_read : Result ReadError (List Bytes) → Result LookupError (List Bytes)
or_not_read (ok rs) = ok rs
or_not_read (err e) = err (not_read e)

abbrev pub or_not_parsed : Result RecordError BuildResult → Result LookupError BuildResult
or_not_parsed (ok br) = ok br
or_not_parsed (err e) = err (not_parsed e)

abbrev pub first_record : List Bytes → Result LookupError Bytes
first_record [] = err no_record
first_record (r ∷ rs) = ok r

-- From the text of the recordnumber file.
unfoldable pub read_result : Bytes → Dir → Bytes → Result LookupError Found
read_result records d text = do
  num ← or_fail (parse_int 64 text) bad_number
  rs ← or_not_read (read_records records num (pos 1))
  r ← first_record rs
  br ← or_not_parsed (parse_record r)
  ok (result num br d.has_binary)

abbrev pub found_in : Bytes → Dir → Option Bytes → Result LookupError Found
found_in records d (some text) = read_result records d text
found_in records d none = ok (if d.has_log then failed_build else absent)

-- serverOps.lookupResult, where the files can be read
unfoldable pub lookup_result : HashTree → BuildSpec → Store → Result LookupError Found
lookup_result h bs s = elim (s.dirs (h.store_dir bs)) [
  | none ↦ ok absent
  | some d ↦ found_in s.records d d.record_number
]
