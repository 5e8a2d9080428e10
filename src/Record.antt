-- ===== src/Record.antt =====
-- parse.go: a build result and the record that stands for it in the transparency log.
pub mod RoundTrip
use gobuild.Common.{
  ℕ, ◌+◌, Bool, true, false, not, ◌&&◌, ltb, leb, ◌==◌, if◌then◌else◌, List, [], ◌∷◌, ◌++◌, Bytes,
  codes, eq_bytes, length, Result, ok, err, ◌>>=◌, ◌>>◌, guard, or_fail,
}
use gobuild.Common.Int.{ℤ, pos, negsuc}
use gobuild.Strings.{chop, has_suffix, split, join, parse_int, format_int}
use gobuild.Spec.{BuildSpec}

pub record BuildResult : Type 0 where
  pub spec : BuildSpec
  pub filesize : ℤ
  pub sum : Bytes

pub data RecordError : Type 0 where
  no_newline : RecordError
  bad_field_count : ℕ → RecordError
  bad_filesize bad_variant : Bytes → RecordError

-- The ninth field.
unfoldable pub parse_variant : Bytes → Result RecordError Bool
unfolding eq_bytes
parse_variant v =
    if eq_bytes v []
    then ok false
    else if eq_bytes v (codes "stripped")
    then ok true
    else err (bad_variant v)

abbrev build_result : Bytes → Bytes → Bytes → Bytes → Bytes → Bytes → Bool → ℤ → Bytes → BuildResult
build_result m version dir goos goarch goversion stripped size sum = record {
  spec = record {
    mod_path = m;
    version = version;
    dir = dir;
    goos = goos;
    goarch = goarch;
    goversion = goversion;
    stripped = stripped;
  };
  filesize = size;
  sum = sum;
}

unfoldable pub parse_fields : List Bytes → Result RecordError BuildResult
parse_fields (m ∷ version ∷ dir ∷ os ∷ arch ∷ gov ∷ size ∷ sum ∷ []) = do
  n ← or_fail (parse_int 64 size) (bad_filesize size)
  ok (build_result m version dir os arch gov false n sum)
parse_fields (m ∷ version ∷ dir ∷ os ∷ arch ∷ gov ∷ size ∷ sum ∷ v ∷ []) = do
  n ← or_fail (parse_int 64 size) (bad_filesize size)
  stripped ← parse_variant v
  ok (build_result m version dir os arch gov stripped n sum)
parse_fields t = err (bad_field_count (length t))

-- parseRecord
unfoldable pub parse_record : Bytes → Result RecordError BuildResult
unfolding parse_fields
parse_record msg = do
  guard (has_suffix (codes "\n") msg) no_newline
  parse_fields (split b' ' (chop 1 msg))

pub data PackError : Type 0 where
  empty_field bad_field : ℕ → PackError
  bad_sum_length zero_filesize : PackError

-- `for _, c := range f`: no character is a space or a control character.
unfoldable pub no_blank : Bytes → Bool
no_blank [] = true
no_blank (c ∷ f) = not (leb c b' ') && no_blank f

-- The loop over the fields, from index `i` on.
unfoldable pub check_fields : ℕ → List Bytes → Result PackError (Unit {0})
unfolding no_blank eq_bytes
check_fields i [] = ok tt
check_fields i (f ∷ fs) = do
  guard (not (eq_bytes f [] && not (i == 8))) (empty_field i)
  guard (no_blank f) (bad_field i)
  check_fields (i + 1) fs

unfoldable pub fields : BuildResult → List Bytes
fields br =
    br.spec.mod_path
    ∷ br.spec.version
    ∷ br.spec.dir
    ∷ br.spec.goos
    ∷ br.spec.goarch
    ∷ br.spec.goversion
    ∷ format_int br.filesize
    ∷ br.sum
    ∷ (if br.spec.stripped then codes "stripped" else [])
    ∷ []

unfoldable pub is_zero : ℤ → Bool
is_zero (pos n) = n == 0
is_zero (negsuc n) = false

-- packRecord
unfoldable pub pack_record : BuildResult → Result PackError Bytes
unfolding check_fields fields is_zero
pack_record br = do
  check_fields 0 (fields br)
  guard (length br.sum == 28) bad_sum_length
  guard (not (is_zero br.filesize)) zero_filesize
  ok (join b' ' (fields br) ++ codes "\n")
