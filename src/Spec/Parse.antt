-- ===== src/Spec/Parse.antt =====
-- parse.go: parseBuildSpec and parseGetSpec. An error text is a constructor with its arguments.
use gobuild.Common.{
  Bool, true, false, not, if◌then◌else◌, none, some, List, [], ◌∷◌, ◌++◌, Bytes, codes, eq_bytes,
  length, Result, ok, err, ◌>>=◌, ◌>>◌, guard, or_fail,
}
use gobuild.Strings.{chop, has_suffix, contains, split, cut, last_part, trim_right, clean}
use gobuild.Sdk.Targets.{available}
use gobuild.Spec.{BuildSpec}

pub data SpecError : Type 0 where
  missing_trailing_slash missing_version empty_module module_without_dot : SpecError
  missing_package_slash empty_version missing_dir_slash : SpecError
  bad_target unrecognized_variant non_canonical_module non_canonical_dir : Bytes → SpecError
  unsupported_target : Bytes → Bytes → SpecError

-- goos-goarch-goversion[-stripped]
pub record TargetPart : Type 0 where
  pub goos : Bytes
  pub goarch : Bytes
  pub goversion : Bytes
  pub stripped : Bool

unfoldable pub target_key : Bytes → Bytes → Bytes
target_key goos goarch = goos ++ (b'/' ∷ goarch)

unfoldable pub parse_target : Bytes → List Bytes → Result SpecError TargetPart
parse_target last (os ∷ arch ∷ v ∷ []) = do
  guard (available (target_key os arch)) (unsupported_target os arch)
  ok (record { goos = os; goarch = arch; goversion = v; stripped = false })
parse_target last (os ∷ arch ∷ v ∷ variant ∷ []) = do
  guard (available (target_key os arch)) (unsupported_target os arch)
  guard (eq_bytes variant (codes "stripped")) (unrecognized_variant variant)
  ok (record { goos = os; goarch = arch; goversion = v; stripped = true })
parse_target last _ = err (bad_target last)

-- The package directory, from the text behind the version's slash.
unfoldable pub parse_dir : Bytes → Result SpecError Bytes
unfolding eq_bytes has_suffix chop
parse_dir rest =
    let dir = b'/' ∷ rest in
    if eq_bytes dir (codes "/")
    then ok dir
    else (do guard (has_suffix (codes "/") dir) missing_dir_slash; ok (chop 1 dir))

-- module@version/dir/, in front of the target
unfoldable pub parse_package : Bytes → TargetPart → Result SpecError BuildSpec
unfolding cut contains parse_dir clean
parse_package s t = do
  (m, s') ← or_fail (cut b'@' s) missing_version
  guard (not (eq_bytes m [])) empty_module
  guard (contains (codes ".") m) module_without_dot
  (v, rest) ← or_fail (cut b'/' s') missing_package_slash
  guard (not (eq_bytes v [])) empty_version
  dir ← parse_dir rest
  guard (eq_bytes (clean m) m) (non_canonical_module m)
  guard (eq_bytes (clean dir) dir) (non_canonical_dir dir)
  ok (record {
    mod_path = m;
    version = v;
    dir = dir;
    goos = t.goos;
    goarch = t.goarch;
    goversion = t.goversion;
    stripped = t.stripped;
  })

-- parseBuildSpec
unfoldable pub parse_build_spec : Bytes → Result SpecError BuildSpec
unfolding parse_target parse_package split last_part
parse_build_spec s = do
  guard (has_suffix (codes "/") s) missing_trailing_slash
  let s' = chop 1 s
  let last = last_part (split b'/' s')
  t ← parse_target last (split b'-' last)
  parse_package (chop (length last) s') t

pub data GetError : Type 0 where
  non_canonical_module_directory get_empty_module get_empty_version : GetError
  get_non_canonical_module get_non_canonical_dir : Bytes → GetError

-- `bs.Version` and `bs.Dir` from the text behind the '@'.
unfoldable pub version_and_dir : Bytes → Bytes × Bytes
unfolding cut trim_right
version_and_dir s = elim (cut b'/' s) [
  | none ↦ (s, codes "/")
  | some (v, rest) ↦ (v, b'/' ∷ trim_right b'/' rest)
]

abbrev get_spec : Bytes → Bytes → Bytes → BuildSpec
get_spec m v dir = record {
  mod_path = m;
  version = v;
  dir = dir;
  goos = [];
  goarch = [];
  goversion = [];
  stripped = false;
}

-- The branch for a text with an '@'.
unfoldable pub parse_get_at : Bytes × Bytes → Result GetError BuildSpec
unfolding eq_bytes version_and_dir clean
parse_get_at (m, s') = do
  guard (not (eq_bytes m [])) get_empty_module
  let (v, dir) = version_and_dir s'
  guard (not (eq_bytes v [])) get_empty_version
  guard (eq_bytes (clean m) m) (get_non_canonical_module m)
  guard (eq_bytes (clean dir) dir) (get_non_canonical_dir dir)
  ok (get_spec m v dir)

-- parseGetSpec
unfoldable pub parse_get_spec : Bytes → Result GetError BuildSpec
unfolding cut parse_get_at clean eq_bytes
parse_get_spec s = elim (cut b'@' s) [
  | none ↦ (do
    guard (eq_bytes (clean s) s) non_canonical_module_directory
    ok (get_spec s (codes "latest") (codes "/")))
  | some parts ↦ parse_get_at parts
]
