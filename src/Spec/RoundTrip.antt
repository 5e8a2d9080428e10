-- ===== src/Spec/RoundTrip.antt =====
-- The text of a canonical build specification parses back to it.
use gobuild.Common.{
  ◌≡◌, refl, sym, ap, ◌∙◌, false, inl, inr, if◌then◌else◌, List, [], ◌∷◌, ◌++◌, append-nil,
  append_assoc, Bytes, codes, eq_bytes, eq_bytes_iff, eq_bytes_self, eq_bytes_ne, length, drop,
  arith, Bool-cases, ok,
}
use mathlib.Core.List.{concat-ne-nil}
use gobuild.Strings.{chop, has_suffix, split, last_part}
use gobuild.Strings.Split.{
  chop-append, has_suffix-append, split-append, split-Lacks, split-append_last, last_part-append,
  cut-append,
}
use gobuild.Spec.{BuildSpec, append_dir, variant, target_text, to_text}
use gobuild.Spec.Parse.{TargetPart, parse_target, parse_dir, parse_package, parse_build_spec}
use gobuild.Spec.Canonical.{
  IsCanonical, to_text-package, package_text_slash, doubled_slash_text, target_text-Lacks,
}

abbrev target_part : BuildSpec → TargetPart
target_part bs = record {
  goos = bs.goos;
  goarch = bs.goarch;
  goversion = bs.goversion;
  stripped = bs.stripped;
}

abbrev target_parts : BuildSpec → List Bytes
target_parts bs =
    bs.goos ∷ bs.goarch ∷ bs.goversion ∷ (if bs.stripped then codes "stripped" ∷ [] else [])

-- A package directory below the root, with the slash that follows it in the text.
sub_dir : (d : Bytes) → parse_dir (d ++ codes "/") ≡ ok (b'/' ∷ d)
unfolding parse_dir
sub_dir d =
    let longer : eq_bytes (b'/' ∷ (d ++ codes "/")) (codes "/") ≡ false =
      eq_bytes_ne (b'/' ∷ (d ++ codes "/")) (codes "/") (ground (arith, concat-ne-nil b'/' d)) in
    rw (longer, has_suffix-append (b'/' ∷ d) (codes "/"), chop-append (b'/' ∷ d) (codes "/") 1 refl)

module _ (bs : BuildSpec) (c : IsCanonical bs) where
  split_version :
      split b'-' (bs.goversion ++ variant bs)
      ≡ bs.goversion ∷ (if bs.stripped then codes "stripped" ∷ [] else [])
  unfolding variant
  split_version = elim (Bool-cases bs.stripped) [
    | inl e ↦ rw e (
        split-append b'-' bs.goversion (codes "stripped") c.no_dash.2
        ∙ ap (◌∷◌ bs.goversion) (split-Lacks b'-' (codes "stripped") (omega arith)))
    | inr e ↦ rw (e, append-nil) (split-Lacks b'-' bs.goversion c.no_dash.2)
  ]

  split-target_text : split b'-' (target_text bs) ≡ target_parts bs
  unfolding target_text
  split-target_text = rw (
    split-append b'-' bs.goos _ c.no_dash.0,
    split-append b'-' bs.goarch _ c.no_dash.1,
    split_version,
  )

  parse_target-target_text :
      (last : Bytes) → parse_target last (target_parts bs) ≡ ok (target_part bs)
  parse_target-target_text last = elim (Bool-cases bs.stripped) [
    | inl e ↦
        rw e (unfold parse_target in rw (c.target_available, eq_bytes_self (codes "stripped")))
    | inr e ↦ rw e (unfold parse_target in rw c.target_available)
  ]

  -- The root directory is written as nothing, any other one without its first slash.
  parse_dir-append_dir : parse_dir (append_dir bs) ≡ ok bs.dir
  unfolding append_dir
  parse_dir-append_dir = elim (Bool-cases (eq_bytes bs.dir (codes "/"))) [
    | inl root ↦
        rw (root, append_dir)
          (unfold parse_dir in ap ok (sym ((eq_bytes_iff bs.dir (codes "/")).0 root)))
    | inr sub ↦ rw (sub, append_dir) (below c.dir_rooted sub)
  ]
    where
      below :
          (d : Bytes) × (bs.dir ≡ b'/' ∷ d)
          → eq_bytes bs.dir (codes "/") ≡ false
          → parse_dir (drop 1 bs.dir ++ codes "/") ≡ ok bs.dir
      below (d, e) sub = rw e (sub_dir d)

  -- The text in front of the target, with any text for the directory that parse_dir reads back.
  module _ (rest : Bytes) (reads : parse_dir rest ≡ ok bs.dir) where
    before_target : Bytes
    before_target = bs.mod_path ++ (b'@' ∷ (bs.version ++ (b'/' ∷ rest)))

    parse_package-before_target : parse_package before_target (target_part bs) ≡ ok bs
    unfolding parse_package before_target
    parse_package-before_target = rw (
      cut-append b'@' bs.mod_path _ c.mod_no_at,
      eq_bytes_ne bs.mod_path [] c.mod_ne_nil,
      c.mod_dot,
      cut-append b'/' bs.version rest c.version_no_slash,
      eq_bytes_ne bs.version [] c.version_ne_nil,
      reads,
      c.mod_clean,
      eq_bytes_self bs.mod_path,
      c.dir_clean,
      eq_bytes_self bs.dir,
    )

    module _ (front : Bytes) (slash : before_target ≡ front ++ codes "/") where
      last_part-target : last_part (split b'/' (before_target ++ target_text bs)) ≡ target_text bs
      last_part-target =
          rw
            (
              slash,
              append_assoc,
              split-append_last b'/' front (target_text bs) (target_text-Lacks bs c),
            )
            (last_part-append (split b'/' front) (target_text bs))

      parse_build_spec-before_target :
          parse_build_spec ((before_target ++ target_text bs) ++ codes "/") ≡ ok bs
      unfolding parse_build_spec
      parse_build_spec-before_target =
          rw
            (
              has_suffix-append (before_target ++ target_text bs) (codes "/"),
              chop-append (before_target ++ target_text bs) (codes "/") 1 refl,
              last_part-target,
              split-target_text,
              parse_target-target_text (target_text bs),
              chop-append before_target (target_text bs) (length (target_text bs)) refl,
            )
            parse_package-before_target

  -- parseBuildSpec gives back every canonical specification from the text that String writes.
  pub parse_build_spec-to_text : parse_build_spec (to_text bs) ≡ ok bs
  unfolding before_target
  parse_build_spec-to_text =
      let (front, e) = package_text_slash bs in
      rw (to_text-package bs)
        (parse_build_spec-before_target (append_dir bs) parse_dir-append_dir front e)

  -- A canonical specification of the root package is also read from its text with a second slash.
  pub parse_build_spec-doubled_slash_text :
      bs.dir ≡ codes "/" → parse_build_spec (doubled_slash_text bs) ≡ ok bs
  unfolding before_target
  parse_build_spec-doubled_slash_text root =
      let reads : parse_dir (codes "/") ≡ ok bs.dir =
        rw root (unfold parse_dir has_suffix chop eq_bytes in refl) in
      let front = bs.mod_path ++ (b'@' ∷ (bs.version ++ codes "/")) in
      let e : bs.mod_path ++ (b'@' ∷ (bs.version ++ codes "//")) ≡ front ++ codes "/" =
        simp append_assoc in
      let shape : doubled_slash_text bs
          ≡ ((bs.mod_path ++ (b'@' ∷ (bs.version ++ codes "//"))) ++ target_text bs) ++ codes "/" =
        simp append_assoc in
      rw shape (parse_build_spec-before_target (codes "/") reads front e)
