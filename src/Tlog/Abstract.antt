-- ===== src/Tlog/Abstract.antt =====
-- tlog.go, tlogserver.go: the transparency log as a list of results, to which results are added at
-- the end, and how the files represent such a list.
use gobuild.Common.{
  ◌≤◌, ℕ, zero, suc, ◌+◌, ◌*◌, ◌≡◌, leb, List, [], ◌∷◌, ◌++◌, Bytes, All, length, take, drop,
  Option, none, some, if◌then◌else◌, eq_bytes, Result, ok, err,
}
use gobuild.Strings.{format_nat}
use gobuild.Spec.{BuildSpec}
use gobuild.Record.{BuildResult, PackError, pack_record}
use gobuild.Tlog.{Store, HashTree, disk_record, hash_size}
use gobuild.Tlog.Read.{ReadError, bad_count, reading_failed}
use gobuild.Tlog.Server.{number_file}

abbrev pub text_or_empty : Result PackError Bytes → Bytes
text_or_empty (ok msg) = msg
text_or_empty (err e) = []

-- The text of a result, and the texts of the log.
abbrev pub text_of : BuildResult → Bytes
text_of br = text_or_empty (pack_record br)

unfoldable pub texts : List BuildResult → List Bytes
texts [] = []
texts (br ∷ log) = text_of br ∷ texts log

-- The file of the records of a log.
unfoldable pub file_of : List BuildResult → Bytes
file_of [] = []
file_of (br ∷ log) = disk_record (text_of br) ++ file_of log

-- A number of texts from a position on, or the error where there are not as many.
unfoldable pub read_log : List BuildResult → ℕ → ℕ → Result ReadError (List Bytes)
unfolding texts
read_log log i zero = err bad_count
read_log log i (suc k) =
    if leb (i + suc k) (length log)
    then ok (texts (take (suc k) (drop i log)))
    else err reading_failed

-- The result with a directory, and its number.
pub record Entry : Type 0 where
  pub number : ℕ
  pub result : BuildResult

module _ (store_dir : BuildSpec → Bytes) (p : Bytes) where
  unfoldable pub find_from : ℕ → List BuildResult → Option Entry
  find_from i [] = none
  find_from i (br ∷ log) =
      let rest = find_from (i + 1) log in
      if eq_bytes (store_dir br.spec) p then some (record { number = i; result = br }) else rest

abbrev pub entry_text : Option Entry → Option Bytes
entry_text none = none
entry_text (some e) = some (format_nat e.number)

-- A result whose text fits a record of the file.
pub record IsEntry (br : BuildResult) : Type 0 where
  pub packed : pack_record br ≡ ok (text_of br)
  pub small : length (text_of br) ≤ 510

-- The files hold the results of the log in their order with the hashes of these, and the
-- directories with a number are those of the results.
pub record Represents (h : HashTree) (log : List BuildResult) (s : Store) : Type 0 where
  pub records : s.records ≡ file_of log
  pub hashes : length s.hashes ≡ h.stored_hash_count (length log) * hash_size
  pub whole : All IsEntry log
  pub dirs : (p : Bytes) → number_file (s.dirs p) ≡ entry_text (find_from h.store_dir p 0 log)
