-- ===== src/Strings.antt =====
-- What the program uses of Go's packages strings, path and strconv, over texts as lists of bytes.
-- These are standard library functions; the children prove what the parsers need of them.
pub mod Split
pub mod Decimal
pub mod Base
use gobuild.Common.{
  ℕ, zero, suc, ◌+◌, ◌-◌, ◌*◌, ◌/◌, ◌%◌, ◌^◌, ◌≤◌, ◌<◌, Bool, true, false, not, ◌&&◌, ◌||◌, Option,
  none, some, List, [], ◌∷◌, ◌++◌, reverse, length, take, drop, Bytes, codes, eq_bytes, ltb, leb,
  ◌==◌, if◌then◌else◌,
}
use gobuild.Common.Int.{ℤ, pos, negsuc}

-- s[:len(s)-n]
unfoldable pub chop : ℕ → Bytes → Bytes
chop n s = take (length s - n) s

unfoldable pub has_prefix : Bytes → Bytes → Bool
has_prefix [] s = true
has_prefix (p ∷ ps) [] = false
has_prefix (p ∷ ps) (c ∷ s) = p == c && has_prefix ps s

unfoldable pub has_suffix : Bytes → Bytes → Bool
has_suffix suffix s =
    leb (length suffix) (length s) && eq_bytes (drop (length s - length suffix) s) suffix

-- strings.Contains
unfoldable pub contains : Bytes → Bytes → Bool
unfolding has_prefix
contains sub [] = has_prefix sub []
contains sub (c ∷ s) = has_prefix sub (c ∷ s) || contains sub s

-- strings.Contains of one byte
unfoldable pub has_byte : ℕ → Bytes → Bool
has_byte b [] = false
has_byte b (c ∷ s) = c == b || has_byte b s

abbrev pub push_head : ℕ → List Bytes → List Bytes
push_head c [] = (c ∷ []) ∷ []
push_head c (t ∷ ts) = (c ∷ t) ∷ ts

-- strings.Split at one byte; never empty.
unfoldable pub split : ℕ → Bytes → List Bytes
split sep [] = [] ∷ []
split sep (c ∷ s) = let rest = split sep s in if c == sep then [] ∷ rest else push_head c rest

abbrev pub before_sep : ℕ → Option (Bytes × Bytes) → Option (Bytes × Bytes)
before_sep c none = none
before_sep c (some (a, b)) = some (c ∷ a, b)

-- strings.SplitN(s, sep, 2) at one byte: the two parts, or `none` where Go has one part.
unfoldable pub cut : ℕ → Bytes → Option (Bytes × Bytes)
cut sep [] = none
cut sep (c ∷ s) = let rest = cut sep s in if c == sep then some ([], s) else before_sep c rest

-- The same at a longer separator.
unfoldable pub cut_text : Bytes → Bytes → Option (Bytes × Bytes)
unfolding has_prefix
cut_text sep [] = none
cut_text sep (c ∷ s) =
    let rest = cut_text sep s in
    if has_prefix sep (c ∷ s) then some ([], drop (length sep) (c ∷ s)) else before_sep c rest

-- strings.Join at one byte
unfoldable pub join : ℕ → List Bytes → Bytes
join sep [] = []
join sep (p ∷ []) = p
join sep (p ∷ q ∷ ps) = p ++ (sep ∷ join sep (q ∷ ps))

-- The last part of a list of parts, and the parts before it.
unfoldable pub last_part : List Bytes → Bytes
last_part [] = []
last_part (p ∷ []) = p
last_part (p ∷ q ∷ ps) = last_part (q ∷ ps)

unfoldable pub init_parts : List Bytes → List Bytes
init_parts [] = []
init_parts (p ∷ []) = []
init_parts (p ∷ q ∷ ps) = p ∷ init_parts (q ∷ ps)

unfoldable pub drop_front : ℕ → Bytes → Bytes
drop_front b [] = []
drop_front b (c ∷ s) = let rest = drop_front b s in if c == b then rest else c ∷ s

-- strings.TrimRight at one byte
unfoldable pub trim_right : ℕ → Bytes → Bytes
unfolding drop_front
trim_right b s = reverse (drop_front b (reverse s))

unfoldable pub or_else : Bytes → Bytes → Bytes
or_else [] d = d
or_else (c ∷ s) d = c ∷ s

-- path.Base
unfoldable pub base : Bytes → Bytes
unfolding trim_right split last_part or_else
base [] = codes "."
base (c ∷ s) = or_else (last_part (split b'/' (trim_right b'/' (c ∷ s)))) (codes "/")

-- One element of a path in path.Clean; `out` holds the elements kept so far, the last one first.
unfoldable pub clean_up : Bool → List Bytes → List Bytes
unfolding eq_bytes
clean_up rooted [] = if rooted then [] else codes ".." ∷ []
clean_up rooted (p ∷ out) = if eq_bytes p (codes "..") then codes ".." ∷ p ∷ out else out

unfoldable pub clean_parts : Bool → List Bytes → List Bytes → List Bytes
unfolding clean_up eq_bytes
clean_parts rooted [] out = out
clean_parts rooted (p ∷ ps) out = clean_parts rooted ps (
    if eq_bytes p [] || eq_bytes p (codes ".")
    then out
    else if eq_bytes p (codes "..")
    then clean_up rooted out
    else p ∷ out)

-- path.Clean
unfoldable pub clean : Bytes → Bytes
unfolding has_prefix clean_parts split join or_else
clean s =
    let rooted = has_prefix (codes "/") s in
    let kept = join b'/' (reverse (clean_parts rooted (split b'/' s) [])) in
    or_else (if rooted then b'/' ∷ kept else kept) (codes ".")

unfoldable pub is_digit : ℕ → Bool
is_digit c = leb b'0' c && leb c b'9'

unfoldable pub all_digits : Bytes → Bool
unfolding is_digit
all_digits [] = true
all_digits (c ∷ s) = is_digit c && all_digits s

-- The number that digits spell behind `n`.
unfoldable pub value : ℕ → Bytes → ℕ
value n [] = n
value n (c ∷ s) = value (n * 10 + (c - b'0')) s

-- strconv.ParseUint in base 10 with no bound
unfoldable pub parse_digits : Bytes → Option ℕ
unfolding all_digits value
parse_digits [] = none
parse_digits (c ∷ s) = if all_digits (c ∷ s) then some (value 0 (c ∷ s)) else none

abbrev pub at_most : ℕ → Option ℕ → Option ℕ
at_most m none = none
at_most m (some n) = if leb n m then some n else none

abbrev pub as_pos : Option ℕ → Option ℤ
as_pos none = none
as_pos (some n) = some (pos n)

abbrev pub as_neg : Option ℕ → Option ℤ
as_neg none = none
as_neg (some zero) = some (pos 0)
as_neg (some (suc n)) = some (negsuc n)

-- strconv.ParseInt(s, 10, bits); `none` is an error, of syntax or of range.
unfoldable pub parse_int : ℕ → Bytes → Option ℤ
unfolding parse_digits
parse_int bits [] = none
parse_int bits (c ∷ s) =
    if c == b'-'
    then as_neg (at_most (2 ^ (bits - 1)) (parse_digits s))
    else if c == b'+'
    then as_pos (at_most (2 ^ (bits - 1) - 1) (parse_digits s))
    else as_pos (at_most (2 ^ (bits - 1) - 1) (parse_digits (c ∷ s)))

-- The digits of a number; fuel `n` suffices, since each round divides by ten.
unfoldable pub digits : ℕ → ℕ → Bytes
digits zero n = (b'0' + n % 10) ∷ []
digits (suc f) n =
    let rest = digits f (n / 10) ++ (b'0' + n % 10) ∷ [] in
    if ltb n 10 then (b'0' + n) ∷ [] else rest

-- %d
unfoldable pub format_nat : ℕ → Bytes
unfolding digits
format_nat n = digits n n

unfoldable pub format_int : ℤ → Bytes
unfolding format_nat
format_int (pos n) = format_nat n
format_int (negsuc n) = b'-' ∷ format_nat (suc n)

-- unicode.IsSpace of an ASCII character
unfoldable pub is_space : ℕ → Bool
is_space c = c == b' ' || leb 9 c && leb c 13

unfoldable pub drop_space : Bytes → Bytes
unfolding is_space
drop_space [] = []
drop_space (c ∷ s) = let rest = drop_space s in if is_space c then rest else c ∷ s

-- strings.TrimSpace of an ASCII text
unfoldable pub trim_space : Bytes → Bytes
unfolding drop_space
trim_space s = reverse (drop_space (reverse (drop_space s)))
