-- ===== src/Spec/Sound.antt =====
-- What parseBuildSpec accepts.
use gobuild.Common.{
  length, All-left, All-right, All, append_assoc, subst, append-nil, ap, ◌∙◌, sym, ◌≡◌, ◌≢◌, refl,
  true, false, ◌⊎◌, inl, inr, if◌then◌else◌, Option, none, some, List, [], ◌∷◌, ◌++◌, Bytes, codes,
  eq_bytes, eq_bytes_iff, Lacks, arith, Bool-cases, Result, ok, err,
}
use gobuild.Strings.{split, join, last_part, contains, clean, chop, cut}
use gobuild.Strings.Split.{
  join-split, All-split, last_part-Lacks, chop-last_part, has_suffix-chop, cut_sound,
}
use gobuild.Sdk.Targets.{available}
use gobuild.Spec.{append_dir, variant, target_text, to_text, BuildSpec}
use gobuild.Spec.Canonical.{IsCanonical, doubled_slash_text}
use gobuild.Spec.Parse.{
  parse_build_spec, TargetPart, target_key, parse_target, parse_dir, parse_package,
}

-- What parse_package has found in the text `s`.
record IsPackage (s : Bytes) (t : TargetPart) (bs : BuildSpec) : Type 0 where
  rest : Bytes
  text : s ≡ bs.mod_path ++ (b'@' ∷ (bs.version ++ (b'/' ∷ rest)))
  dir_of_rest : parse_dir rest ≡ ok bs.dir
  mod_ne_nil : bs.mod_path ≢ []
  mod_no_at : Lacks b'@' bs.mod_path
  mod_dot : contains (codes ".") bs.mod_path ≡ true
  mod_clean : clean bs.mod_path ≡ bs.mod_path
  version_ne_nil : bs.version ≢ []
  version_no_slash : Lacks b'/' bs.version
  dir_clean : clean bs.dir ≡ bs.dir
  target :
      (bs.goos ≡ t.goos)
      × (bs.goarch ≡ t.goarch)
      × (bs.goversion ≡ t.goversion)
      × (bs.stripped ≡ t.stripped)

Result-cases : {E A : Type 0} (r : Result E A) → ((a : A) × (r ≡ ok a)) ⊎ ((e : E) × (r ≡ err e))
Result-cases (ok a) = inl (a, refl)
Result-cases (err e) = inr (e, refl)

module _ (s : Bytes) (t : TargetPart) (bs : BuildSpec) (h : parse_package s t ≡ ok bs) where
  IsPackage-parts :
      (m s' v rest : Bytes)
      → cut b'@' s ≡ some (m, s')
      → cut b'/' s' ≡ some (v, rest)
      → IsPackage s t bs
  unfolding parse_package
  IsPackage-parts m s' v rest e e' =
      let (sm, lm) = cut_sound b'@' s m s' e in
      let (sv, lv) = cut_sound b'/' s' v rest e' in
      record {
        rest = rest;
        text = ground arith;
        dir_of_rest = ground arith;
        mod_ne_nil = ground (arith, eq_bytes_iff m []);
        mod_no_at = ground arith;
        mod_dot = ground arith;
        mod_clean = ground (arith, eq_bytes_iff (clean m) m);
        version_ne_nil = ground (arith, eq_bytes_iff v []);
        version_no_slash = ground arith;
        dir_clean = ground (arith, eq_bytes_iff (clean bs.dir) bs.dir);
        target = ground arith;
      }

  IsPackage-intro : IsPackage s t bs
  IsPackage-intro = first (cut b'@' s) refl
    where
      second :
          (m s' : Bytes)
          → cut b'@' s ≡ some (m, s')
          → (r : Option (Bytes × Bytes)) → cut b'/' s' ≡ r
          → IsPackage s t bs
      second m s' e none e' = absurd (unfold parse_package in ground arith)
      second m s' e (some (v, rest)) e' = IsPackage-parts m s' v rest e e'

      first : (r : Option (Bytes × Bytes)) → cut b'@' s ≡ r → IsPackage s t bs
      first none e = absurd (unfold parse_package in ground arith)
      first (some (m, s')) e = second m s' e (cut b'/' s') refl

-- The text behind the version, and the directory that it stands for.
parse_dir_sound :
    (rest d : Bytes)
    → parse_dir rest ≡ ok d
    → ((rest ≡ []) × (d ≡ codes "/")) ⊎ ((d' : Bytes) × (rest ≡ d' ++ codes "/") × (d ≡ b'/' ∷ d'))
unfolding parse_dir
parse_dir_sound rest d h = elim (Bool-cases (eq_bytes (b'/' ∷ rest) (codes "/"))) [
  | inl root ↦ inl (
    ground (arith, eq_bytes_iff (b'/' ∷ rest) (codes "/")),
    ground (arith, eq_bytes_iff (b'/' ∷ rest) (codes "/")),
  )
  | inr sub ↦ inr (
      below (chop 1 (b'/' ∷ rest)) (has_suffix-chop (codes "/") (b'/' ∷ rest) (ground arith))
        (ground arith) sub)
]
  where
    below :
        (w : Bytes)
        → b'/' ∷ rest ≡ w ++ codes "/"
        → d ≡ w
        → eq_bytes (b'/' ∷ rest) (codes "/") ≡ false
        → (d' : Bytes) × (rest ≡ d' ++ codes "/") × (d ≡ b'/' ∷ d')
    below [] e k sub = absurd (ground (arith, eq_bytes_iff (b'/' ∷ rest) (codes "/")))
    below (c ∷ d') e k sub = (d', ground arith, ground arith)

abbrev parts_of : TargetPart → List Bytes
parts_of t = t.goos ∷ t.goarch ∷ t.goversion ∷ (if t.stripped then codes "stripped" ∷ [] else [])

parse_target_sound :
    (last : Bytes) (ps : List Bytes) (t : TargetPart)
    → parse_target last ps ≡ ok t
    → (available (target_key t.goos t.goarch) ≡ true) × (ps ≡ parts_of t)
unfolding parse_target
parse_target_sound last [] t h = absurd (cc)
parse_target_sound last (a ∷ []) t h = absurd (cc)
parse_target_sound last (a ∷ b ∷ []) t h = absurd (cc)
parse_target_sound last (a ∷ b ∷ c ∷ []) t h = (ground arith, ground arith)
parse_target_sound last (a ∷ b ∷ c ∷ d ∷ []) t h =
    (ground arith, ground (arith, eq_bytes_iff d (codes "stripped")))
parse_target_sound last (a ∷ b ∷ c ∷ d ∷ e ∷ ps) t h = absurd (cc)

abbrev pub IsTextOf : Bytes → BuildSpec → Type 0
IsTextOf s bs = (s ≡ to_text bs) ⊎ ((bs.dir ≡ codes "/") × (s ≡ doubled_slash_text bs))

module _ (s last : Bytes) (t : TargetPart) (bs : BuildSpec) where
  module _ (p : IsPackage s t bs) (available : available (target_key t.goos t.goarch) ≡ true)
      (parts : split b'-' last ≡ parts_of t) (whole : Lacks b'/' last) where
    text_of_target : last ≡ target_text bs
    unfolding join target_text variant
    text_of_target =
        sym (join-split b'-' last) ∙ ap (join b'-') parts ∙ ground (arith, append-nil bs.goversion)

    no_dashes : Lacks b'-' bs.goos × Lacks b'-' bs.goarch × Lacks b'-' bs.goversion
    no_dashes =
        let (os, arch, v, _) = p.target in
        let l = subst (All (Lacks b'-')) parts (All-split b'-' last) in
        rw (os, arch, v) (l.0, l.1.0, l.1.1.0)

    no_slashes : Lacks b'/' bs.goos × Lacks b'/' bs.goarch × Lacks b'/' bs.goversion
    unfolding target_text
    no_slashes =
        let l = subst (Lacks b'/') text_of_target whole in
        let l1 = All-right (λ c. c ≢ b'/') bs.goos _ l in
        let l2 = All-right (λ c. c ≢ b'/') bs.goarch _ l1.1 in
        (All-left _ bs.goos _ l, All-left _ bs.goarch _ l1.1, All-left _ bs.goversion _ l2.1)

    dir_rooted : (d : Bytes) × (bs.dir ≡ b'/' ∷ d)
    dir_rooted = elim (parse_dir_sound p.rest bs.dir p.dir_of_rest) [
      | inl (_, root) ↦ ([], root)
      | inr (d, _, e) ↦ (d, e)
    ]

    IsPackage-IsCanonical : IsCanonical bs
    IsPackage-IsCanonical = record {
      mod_ne_nil = p.mod_ne_nil;
      mod_no_at = p.mod_no_at;
      mod_dot = p.mod_dot;
      mod_clean = p.mod_clean;
      version_ne_nil = p.version_ne_nil;
      version_no_slash = p.version_no_slash;
      dir_rooted = dir_rooted;
      dir_clean = p.dir_clean;
      target_available = rw (p.target.0, p.target.1) available;
      no_dash = no_dashes;
      no_slash = no_slashes;
    }

    IsPackage-IsTextOf : IsTextOf ((s ++ last) ++ codes "/") bs
    unfolding to_text append_dir
    IsPackage-IsTextOf = elim (parse_dir_sound p.rest bs.dir p.dir_of_rest) [
      | inl (none_left, root) ↦
          inl (rw (p.text, text_of_target, none_left, root) (simp append_assoc))
      | inr (d, below, e) ↦ sub d below e
    ]
      where
        sub :
            (d : Bytes)
            → p.rest ≡ d ++ codes "/"
            → bs.dir ≡ b'/' ∷ d
            → IsTextOf ((s ++ last) ++ codes "/") bs
        sub [] r e = inr (e, rw (p.text, text_of_target, r) (simp append_assoc))
        sub (c ∷ d) r e = inl (rw (p.text, text_of_target, r, e) (simp append_assoc))

-- parseBuildSpec accepts only canonical specifications, and a text it accepts is the one that
-- String writes, or that one with a second slash in place of an empty package directory.
pub parse_build_spec_sound :
    (s : Bytes) {bs : BuildSpec} → parse_build_spec s ≡ ok bs → IsCanonical bs × IsTextOf s bs
unfolding parse_build_spec
parse_build_spec_sound s {bs} h = elim (Result-cases (parse_target last (split b'-' last))) [
  | inl (t, e) ↦
      let (key, parts) = parse_target_sound last (split b'-' last) t e in
      let p = IsPackage-intro front t bs (ground arith) in
      let whole = last_part-Lacks b'/' (chop 1 s) in
      (
        IsPackage-IsCanonical front last t bs p key parts whole,
        rw split_off (IsPackage-IsTextOf front last t bs p key parts whole),
      )
  | inr (e, refused) ↦ absurd (ground arith)
]
  where
    last : Bytes
    last = last_part (split b'/' (chop 1 s))

    front : Bytes
    front = chop (length last) (chop 1 s)

    split_off : s ≡ (front ++ last) ++ codes "/"
    split_off =
        has_suffix-chop (codes "/") s (ground arith)
        ∙ ap (λ (x : Bytes). x ++ codes "/") (chop-last_part b'/' (chop 1 s))
