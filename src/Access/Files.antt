-- ===== src/Access/Files.antt =====
-- accesslog.go: writeLog, which appends batches of lines to the file of their day.
use gobuild.Common.{
  ℕ, Bool, false, ◌==◌, if◌then◌else◌, Option, none, some, List, [], ◌∷◌, ◌++◌, Bytes, take,
}
use gobuild.Access.{LogLine, log_round}

-- The variable `file`: nil, an open file, or one that is closed, with its date.
pub data Handle : Type 0 where
  no_file : Handle
  opened closed : ℕ → Handle

-- The files by date.
pub record LogFiles : Type 0 where
  pub handle : Handle
  pub files : ℕ → Bytes

-- Whether os.OpenFile fails, and how many bytes a write that fails has written.
pub record LogFaults : Type 0 where
  pub open_fails : Bool
  pub log_write : Option ℕ

unfoldable pub lines_text : List LogLine → Bytes
lines_text [] = []
lines_text (l ∷ ls) = l.text ++ lines_text ls

abbrev append_file : ℕ → Bytes → (ℕ → Bytes) → ℕ → Bytes
append_file d text m e = if e == d then m e ++ text else m e

abbrev pub written_part : Option ℕ → Bytes → Bytes
written_part none text = text
written_part (some n) text = take n text

-- file.Write: a closed file takes nothing.
unfoldable pub append_text : LogFaults → Bytes → LogFiles → LogFiles
append_text f text s = elim s.handle [
  | no_file ↦ s
  | closed d ↦ s
  | opened d ↦ record s { files = append_file d (written_part f.log_write text) s.files }
]

-- Whether the file at hand is that of the date, and the file after its Close.
abbrev pub is_for : ℕ → Handle → Bool
is_for d no_file = false
is_for d (opened e) = d == e
is_for d (closed e) = d == e

abbrev close : Handle → Handle
close no_file = no_file
close (opened d) = closed d
close (closed d) = closed d

-- writeLog, for lines that are not empty
unfoldable pub write_lines : LogFaults → LogLine → List LogLine → LogFiles → LogFiles
unfolding append_text lines_text
write_lines f l ls s =
    if is_for l.date s.handle
    then append_text f (lines_text (l ∷ ls)) s
    else if f.open_fails
    then record s { handle = close s.handle }
    else append_text f (lines_text (l ∷ ls)) (record s { handle = opened l.date })

unfoldable pub write_batches : LogFaults → List (List LogLine) → LogFiles → LogFiles
write_batches f [] s = s
write_batches f ([] ∷ bs) s = write_batches f bs s
write_batches f ((l ∷ ls) ∷ bs) s = write_batches f bs (write_lines f l ls s)

-- A round of the loop of accessLogger, with its writes.
unfoldable pub access_round : LogFaults → LogLine → List LogLine → LogFiles → LogFiles
access_round f l ls s = write_batches f (log_round l ls) s
