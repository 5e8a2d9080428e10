-- ===== src/Sdk/Versions.antt =====
-- gosdk.go: the versions of Go toolchains, their texts and numbers.
pub mod RoundTrip
use Prim.Native.Nat.{bit_or}
use gobuild.Common.{
  ℕ, ◌+◌, ◌-◌, ◌*◌, ◌%◌, ◌^◌, Bool, true, false, not, ◌&&◌, ◌||◌, if◌then◌else◌, Option, none, some,
  List, [], ◌∷◌, ◌++◌, Bytes, codes, drop, Result, ok, err, ◌>>=◌, ◌>>◌, guard, or_fail,
}
use gobuild.Common.Int.{ℤ, pos, negsuc, ltb_ℤ, as_int64}
use gobuild.Strings.{has_prefix, cut_text, split, parse_int, format_int}

pub record GoVersion : Type 0 where
  pub major : ℤ
  pub minor : ℤ
  pub patch : ℤ
  pub more : Bytes

-- From go1.21 on, the first release has a patch number too.
unfoldable pub has_patch : GoVersion → Bool
has_patch v =
    ltb_ℤ (pos 0) v.patch
    || not (ltb_ℤ v.major (pos 1)) && not (ltb_ℤ (pos 1) v.major) && not (ltb_ℤ v.minor (pos 21))

unfoldable pub patch_text : GoVersion → Bytes
unfolding has_patch
patch_text v = if has_patch v then b'.' ∷ format_int v.patch else []

-- goVersion.String
unfoldable pub version_text : GoVersion → Bytes
unfolding patch_text
version_text v =
    codes "go" ++ (format_int v.major ++ (b'.' ∷ (format_int v.minor ++ (patch_text v ++ v.more))))

-- The 64 bits of an int.
abbrev bits : ℤ → ℕ
bits (pos n) = n % 2 ^ 64
bits (negsuc n) = 2 ^ 64 - 1 - n % 2 ^ 64

-- goVersion.num
unfoldable pub num : GoVersion → ℤ
num v = as_int64 (
    bit_or (bit_or (bits v.major * 2 ^ 16 % 2 ^ 64) (bits v.minor * 2 ^ 8 % 2 ^ 64)) (bits v.patch))

pub data VersionError : Type 0 where
  no_go_prefix too_many_dots bad_minor bad_patch old_version : VersionError

-- The number in front of "rc" or "beta", and the rest.
unfoldable pub strip_more : Bytes → Bytes × Bytes
strip_more s = elim (cut_text (codes "rc") s) [
  | some (a, b) ↦ (a, codes "rc" ++ b)
  | none ↦ elim (cut_text (codes "beta") s) [
    | some (a, b) ↦ (a, codes "beta" ++ b)
    | none ↦ (s, [])
  ]
]

abbrev go_version : ℤ → ℤ → Bytes → GoVersion
go_version minor patch more = record { major = pos 1; minor = minor; patch = patch; more = more }

abbrev at_least_13 : ℤ → Bool
at_least_13 minor = not (ltb_ℤ minor (pos 13))

unfoldable pub parse_numbers : List Bytes → Bytes → Result VersionError GoVersion
parse_numbers (m ∷ []) more = do
  minor ← or_fail (parse_int 32 m) bad_minor
  guard (at_least_13 minor) old_version
  ok (go_version minor (pos 0) more)
parse_numbers (m ∷ p ∷ []) more = do
  minor ← or_fail (parse_int 32 m) bad_minor
  patch ← or_fail (parse_int 32 p) bad_patch
  guard (at_least_13 minor) old_version
  ok (go_version minor patch more)
parse_numbers t more = err too_many_dots

-- parseGoVersion
unfoldable pub parse_go_version : Bytes → Result VersionError GoVersion
parse_go_version s = do
  guard (has_prefix (codes "go1.") s) no_go_prefix
  let (number, more) = strip_more (drop 4 s)
  parse_numbers (split b'.' number) more
