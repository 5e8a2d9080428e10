-- ===== src/Spec.antt =====
-- parse.go: a build specification, its texts, and the parsers of the texts.
pub mod Parse
pub mod Canonical
pub mod RoundTrip
pub mod Sound
pub mod Equality
use gobuild.Common.{
  Bool, true, false, if◌then◌else◌, List, [], ◌∷◌, ◌++◌, Bytes, codes, eq_bytes, drop,
}
use gobuild.Strings.{base}

pub record BuildSpec : Type 0 where
  pub mod_path : Bytes
  pub version : Bytes
  pub dir : Bytes
  pub goos : Bytes
  pub goarch : Bytes
  pub goversion : Bytes
  pub stripped : Bool

-- The name of the binary without an extension: the last element of the package or the module.
unfoldable pub binary_name : BuildSpec → Bytes
unfolding eq_bytes
binary_name bs = if eq_bytes bs.dir (codes "/") then base bs.mod_path else base bs.dir

unfoldable pub extension : BuildSpec → Bytes
unfolding eq_bytes
extension bs = if eq_bytes bs.goos (codes "windows") then codes ".exe" else []

-- buildSpec.filename
unfoldable pub filename : BuildSpec → Bytes
unfolding binary_name extension
filename bs = binary_name bs ++ extension bs

-- buildSpec.appendDir
unfoldable pub append_dir : BuildSpec → Bytes
unfolding eq_bytes
append_dir bs = if eq_bytes bs.dir (codes "/") then [] else drop 1 bs.dir ++ codes "/"

unfoldable pub variant : BuildSpec → Bytes
variant bs = if bs.stripped then codes "-stripped" else []

-- "%s-%s-%s%s" of the target and the toolchain
unfoldable pub target_text : BuildSpec → Bytes
unfolding variant
target_text bs = bs.goos ++ (b'-' ∷ (bs.goarch ++ (b'-' ∷ (bs.goversion ++ variant bs))))

-- buildSpec.String
unfoldable pub to_text : BuildSpec → Bytes
unfolding append_dir target_text
to_text bs =
    bs.mod_path
    ++ (b'@' ∷ (bs.version ++ (b'/' ∷ (append_dir bs ++ (target_text bs ++ codes "/")))))

-- buildSpec.outputPath
unfoldable pub output_path : BuildSpec → Bytes
unfolding filename
output_path bs = bs.goos ++ (b'-' ∷ (bs.goarch ++ (b'/' ∷ filename bs)))
