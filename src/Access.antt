-- ===== src/Access.antt =====
-- accesslog.go: the lines of the access log.
pub mod Escaped
pub mod Batches
pub mod Files
pub mod Written
pub mod Responses
use gobuild.Common.{
  ◌-◌, ℕ, ◌+◌, ◌/◌, ◌%◌, ltb, leb, ◌==◌, Bool, true, false, not, ◌&&◌, if◌then◌else◌, Option, none,
  some, List, [], ◌∷◌, ◌++◌, take, Bytes, codes,
}

-- A hexadecimal digit
unfoldable pub hex_digit : ℕ → ℕ
hex_digit n = if ltb n 10 then b'0' + n else b'a' + n - 10

-- "\x%02x" of a control character
unfoldable pub hex_escape : ℕ → Bytes
hex_escape c = b'\\' ∷ b'x' ∷ hex_digit (c / 16) ∷ hex_digit (c % 16) ∷ []

abbrev pub is_nil : Bytes → Bool
is_nil [] = true
is_nil (c ∷ s) = false

-- The loop of noctl over the bytes of a valid UTF-8 text, from index `i` on, with `r` for what is built.
unfoldable pub escape_loop : Bytes → ℕ → Bytes → Bytes → Bytes
unfolding hex_escape hex_digit
escape_loop whole i r [] = r
escape_loop whole i r (c ∷ s) =
    let r' = if ltb 0 i && is_nil r then take i whole else r in
    escape_loop whole (i + 1)
      (if not (ltb c b' ') && is_nil r
        then r
        else if ltb c b' '
        then r' ++ hex_escape c
        else r' ++ c ∷ [])
      s

-- noctl
unfoldable pub noctl : Bytes → Bytes
unfolding escape_loop
noctl s = let r = escape_loop s 0 [] s in if is_nil r then s else r

-- logLine; a date is a number.
pub record LogLine : Type 0 where
  pub text : Bytes
  pub date : ℕ

-- The writes of accessLogger from lines that arrive without a pause: `lines` is the batch, and
-- `last` its date.
unfoldable pub gather : List LogLine → ℕ → List LogLine → List (List LogLine)
gather lines last [] = lines ∷ []
gather lines last (l ∷ ls) =
    let same = gather (lines ++ l ∷ []) l.date ls in
    let next = gather (l ∷ []) l.date ls in if l.date == last then same else lines ∷ next

-- A round of accessLogger: the line that it waits for, and those that are there after it.
unfoldable pub log_round : LogLine → List LogLine → List (List LogLine)
log_round l ls = gather (l ∷ []) l.date ls
