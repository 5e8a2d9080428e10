-- ===== src/Spec/Canonical.antt =====
-- The build specifications that have a text of their own, and the pieces of that text.
use gobuild.Common.{
  ◌≡◌, ◌≢◌, Bool, true, false, inl, inr, if◌then◌else◌, [], ◌∷◌, ◌++◌, append_assoc, Bytes, codes,
  eq_bytes, drop, All-append, Lacks, arith, Bool-cases,
}
use gobuild.Strings.{contains, clean}
use gobuild.Sdk.Targets.{available}
use gobuild.Spec.{BuildSpec, append_dir, target_text, to_text}
use gobuild.Spec.Parse.{target_key}

pub record IsCanonical (bs : BuildSpec) : Type 0 where
  pub mod_ne_nil : bs.mod_path ≢ []
  pub mod_no_at : Lacks b'@' bs.mod_path
  pub mod_dot : contains (codes ".") bs.mod_path ≡ true
  pub mod_clean : clean bs.mod_path ≡ bs.mod_path
  pub version_ne_nil : bs.version ≢ []
  pub version_no_slash : Lacks b'/' bs.version
  pub dir_rooted : (d : Bytes) × (bs.dir ≡ b'/' ∷ d)
  pub dir_clean : clean bs.dir ≡ bs.dir
  pub target_available : available (target_key bs.goos bs.goarch) ≡ true
  pub no_dash : Lacks b'-' bs.goos × Lacks b'-' bs.goarch × Lacks b'-' bs.goversion
  pub no_slash : Lacks b'/' bs.goos × Lacks b'/' bs.goarch × Lacks b'/' bs.goversion

-- module@version/dir/, the text in front of the target
abbrev pub package_text : BuildSpec → Bytes
package_text bs = bs.mod_path ++ (b'@' ∷ (bs.version ++ (b'/' ∷ append_dir bs)))

pub to_text-package :
    (bs : BuildSpec) → to_text bs ≡ (package_text bs ++ target_text bs) ++ codes "/"
unfolding to_text
to_text-package bs = simp append_assoc

-- The text in front of the target ends with a slash.
pub package_text_slash : (bs : BuildSpec) → (front : Bytes) × (package_text bs ≡ front ++ codes "/")
unfolding append_dir
package_text_slash bs = elim (Bool-cases (eq_bytes bs.dir (codes "/"))) [
  | inl root ↦ (bs.mod_path ++ (b'@' ∷ bs.version), rw (root, append_dir) (simp append_assoc))
  | inr sub ↦ (
    bs.mod_path ++ (b'@' ∷ (bs.version ++ (b'/' ∷ drop 1 bs.dir))),
    rw (sub, append_dir) (simp append_assoc),
  )
]

pub target_text-Lacks : (bs : BuildSpec) → IsCanonical bs → Lacks b'/' (target_text bs)
unfolding target_text
target_text-Lacks bs c =
    let (os, arch, v) = c.no_slash in
    All-append _ bs.goos _ os (
      omega arith,
      All-append _ bs.goarch _ arch (omega arith, All-append _ bs.goversion _ v (end bs.stripped)),
    )
  where
    end : (b : Bool) → Lacks b'/' (if b then codes "-stripped" else [])
    end true = omega arith
    end false = tt

-- The text with a second slash in place of an empty package directory.
abbrev pub doubled_slash_text : BuildSpec → Bytes
doubled_slash_text bs =
    bs.mod_path ++ (b'@' ∷ (bs.version ++ (b'/' ∷ b'/' ∷ (target_text bs ++ codes "/"))))
