-- ===== src/Request/Versionless.antt =====
-- parse.go, request.go: a link without a version leads nowhere.
use gobuild.Request.Names.{is_sum-target_text}
use gobuild.Sdk.Targets.{available}
use gobuild.Common.{
  ◌≡◌, ◌≢◌, inl, inr, refl, sym, ap, ◌∙◌, true, false, Option, some, [], ◌∷◌, ◌++◌, Bytes, codes,
  Result, ok, err, arith, append_assoc, append-nil, Lacks,
}
use gobuild.Strings.{cut, split, join, last_part}
use gobuild.Strings.Split.{
  cut-append, split-append_last, last_part-append, init_parts-append, join-split,
}
use gobuild.Spec.{BuildSpec, to_text, target_text, append_dir}
use gobuild.Spec.Parse.{target_key, SpecError, parse_build_spec}
use gobuild.Spec.Canonical.{package_text_slash, package_text, to_text-package, IsCanonical}
use gobuild.Spec.Sound.{IsTextOf, parse_build_spec_sound}
use gobuild.Request.{
  page_part, is_sum, Request, index_page, link, parse_page, parse_elements, parse_request,
}

-- What follows the '@' of a text
after_at :
    (bs r : BuildSpec) (x y : Bytes)
    → Lacks b'@' bs.mod_path
    → Lacks b'@' r.mod_path
    → bs.mod_path ++ (b'@' ∷ x) ≡ r.mod_path ++ (b'@' ∷ y)
    → x ≡ y
after_at bs r x y n m e =
    let both : Path (Option (Bytes × Bytes)) (some (bs.mod_path, x)) (some (r.mod_path, y)) =
      sym (cut-append b'@' bs.mod_path x n) ∙ ap (cut b'@') e ∙ cut-append b'@' r.mod_path y m in
    ground (arith, both)

no_version : (v rest x : Bytes) → v ≢ [] → Lacks b'/' v → b'/' ∷ x ≢ v ++ (b'/' ∷ rest)
no_version [] rest x n l e = n refl
no_version (c ∷ v) rest x n l e = ground (arith, l.0, e)

-- The text of a specification without a version is not one that parseBuildSpec accepts.
parse_build_spec-versionless :
    (bs r : BuildSpec)
    → Lacks b'@' bs.mod_path
    → bs.version ≡ []
    → parse_build_spec (to_text bs) ≢ ok r
parse_build_spec-versionless bs r n empty e = go (parse_build_spec_sound (to_text bs) e)
  where
    tail : Bytes
    tail = append_dir bs ++ (target_text bs ++ codes "/")

    text : to_text bs ≡ bs.mod_path ++ (b'@' ∷ b'/' ∷ tail)
    text = unfold to_text in rw empty refl

    refuse :
        (rest : Bytes)
        → IsCanonical r
        → to_text bs ≡ r.mod_path ++ (b'@' ∷ (r.version ++ (b'/' ∷ rest)))
        → ⊥
    refuse rest c same =
        no_version r.version rest tail c.version_ne_nil c.version_no_slash
          (after_at bs r (b'/' ∷ tail) (r.version ++ (b'/' ∷ rest)) n c.mod_no_at (sym text ∙ same))

    go : IsCanonical r × IsTextOf (to_text bs) r → ⊥
    go (c, inl same) =
        let shape : to_text r
            ≡ r.mod_path
              ++ (b'@' ∷ (r.version ++ (b'/' ∷ (append_dir r ++ (target_text r ++ codes "/"))))) =
          unfold to_text in refl in
        refuse (append_dir r ++ (target_text r ++ codes "/")) c (same ∙ shape)
    go (c, inr (root, same)) = refuse _ c same

module _ (bs : BuildSpec) (empty : bs.version ≡ []) (n : Lacks b'@' bs.mod_path)
    (slash : Lacks b'/' (target_text bs))
    (target : available (target_key bs.goos bs.goarch) ≡ true) where
  path_text : Bytes
  path_text = package_text bs ++ target_text bs

  path_text-slash : to_text bs ≡ path_text ++ codes "/"
  unfolding path_text
  path_text-slash = to_text-package bs

  last_part-path_text : last_part (split b'/' path_text) ≡ target_text bs
  unfolding path_text
  last_part-path_text =
      let (front, e) = package_text_slash bs in
      rw
        (
          e,
          append_assoc front (codes "/") (target_text bs),
          split-append_last b'/' front (target_text bs) slash,
        )
        (last_part-append (split b'/' front) (target_text bs))

  parse_page-versionless : (r : Request) → parse_page (split b'/' path_text) [] [] ≢ ok r
  unfolding parse_page
  parse_page-versionless r e = go (parse_build_spec (to_text bs)) refl
    where
      joined : join b'/' (split b'/' path_text) ++ codes "/" ≡ to_text bs
      joined = ap (λ (x : Bytes). x ++ codes "/") (join-split b'/' path_text) ∙ sym path_text-slash

      go : (x : Result SpecError BuildSpec) → parse_build_spec (to_text bs) ≡ x → ⊥
      go (ok q) k = parse_build_spec-versionless bs q n empty k
      go (err x) k = ground (arith, e, joined, k)

  -- The link of a specification without a version is one that parseRequest refuses.
  pub parse_request-versionless :
      (r : Request)
      → parse_request (link (record { spec = bs; sum = []; page = index_page })) ≢ ok r
  parse_request-versionless r e = parse_page-versionless r (sym whole ∙ e)
    where
      no_sum : is_sum (last_part (split b'/' path_text)) ≡ false
      no_sum = rw last_part-path_text (is_sum-target_text bs target)

      linked :
          link (record { spec = bs; sum = []; page = index_page }) ≡ b'/' ∷ (path_text ++ codes "/")
      linked =
          unfold link page_part in rw path_text-slash (ap (λ (x : Bytes). b'/' ∷ x) (append-nil _))

      whole :
          parse_request (link (record { spec = bs; sum = []; page = index_page }))
          ≡ parse_page (split b'/' path_text) [] []
      whole =
          ap parse_request linked
          ∙ (unfold parse_request parse_elements in
              rw
                (
                  split-append_last b'/' path_text [] tt,
                  init_parts-append (split b'/' path_text) [],
                  last_part-append (split b'/' path_text) [],
                  no_sum,
                )
                (ground arith))
