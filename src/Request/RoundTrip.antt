-- ===== src/Request/RoundTrip.antt =====
-- parseRequest gives back every request from its link.
use gobuild.Common.{
  ℕ, ◌≤◌, ◌≡◌, ◌≢◌, refl, sym, ap, subst, true, false, not, ◌&&◌, leb, ltb, List, [], ◌∷◌, ◌++◌,
  inl, inr, ◌⊎◌, Bytes, codes, eq_bytes, length, length-append, arith, append_assoc, ok,
}
use gobuild.Strings.{split, last_part}
use gobuild.Strings.Split.{
  split-append_last, split-ne-nil, last_part-append, init_parts-append, join-split,
}
use gobuild.Spec.{target_text, to_text}
use gobuild.Spec.Canonical.{
  IsCanonical, package_text, package_text_slash, to_text-package, target_text-Lacks,
}
use gobuild.Spec.RoundTrip.{parse_build_spec-to_text}
use gobuild.Request.{
  Request, link, page_part, is_sum, needs_build, parse_page, parse_elements, parse_request,
}
use gobuild.Request.Names.{page_of-page_part, is_sum-target_text, is_sum-Lacks, page_part-Lacks}

-- A request that has a link: of a build, or of a result for the pages that results have.
pub record IsRequest (r : Request) : Type 0 where
  pub canonical : IsCanonical r.spec
  pub sum_of_result : (r.sum ≡ []) ⊎ (is_sum r.sum ≡ true)
  pub served : (r.sum ≡ []) ⊎ (needs_build r.page ≡ false)

module _ (r : Request) (v : IsRequest r) where
  -- The path of the build, without the slash at its end.
  build_path : Bytes
  build_path = package_text r.spec ++ target_text r.spec

  split-build_path :
      (ps : List Bytes) × (ps ≢ []) × (split b'/' build_path ≡ ps ++ target_text r.spec ∷ [])
  unfolding build_path
  split-build_path =
      let (front, e) = package_text_slash r.spec in
      (
        split b'/' front,
        split-ne-nil b'/' front,
        rw (e, append_assoc front (codes "/") (target_text r.spec))
            (split-append_last b'/' front (target_text r.spec)
              (target_text-Lacks r.spec v.canonical)),
      )

  at_least_two : 2 ≤ length (split b'/' build_path)
  at_least_two = let (ps, n, e) = split-build_path in go ps n e
    where
      go :
          (ps : List Bytes)
          → ps ≢ []
          → split b'/' build_path ≡ ps ++ target_text r.spec ∷ []
          → 2 ≤ length (split b'/' build_path)
      go [] n e = absurd (n refl)
      go (p ∷ ps) n e = omega (arith, ap length e, length-append (p ∷ ps) (target_text r.spec ∷ []))

  build_path-slash : build_path ++ codes "/" ≡ to_text r.spec
  unfolding build_path
  build_path-slash = sym (to_text-package r.spec)

  parse_page-build_path : parse_page (split b'/' build_path) r.sum (page_part r.spec r.page) ≡ ok r
  unfolding parse_page
  parse_page-build_path =
      rw
        (
          at_least_two_b,
          join-split b'/' build_path,
          build_path-slash,
          parse_build_spec-to_text r.spec v.canonical,
          page_of-page_part r.spec r.page,
          served,
        )
        refl
    where
      at_least_two_b : leb 2 (length (split b'/' build_path)) ≡ true
      at_least_two_b = ground (arith, at_least_two)

      served : (not (eq_bytes r.sum []) && needs_build r.page) ≡ false
      served = elim v.served [
        | inl none_given ↦ rw none_given (unfold eq_bytes in refl)
        | inr result_page ↦ ground (arith, result_page)
      ]

  parse_elements-build :
      r.sum ≡ [] → parse_elements (split b'/' build_path) (page_part r.spec r.page) ≡ ok r
  unfolding parse_elements
  parse_elements-build e =
      let (ps, n, h) = split-build_path in
      let no_sum : is_sum (last_part (split b'/' build_path)) ≡ false =
        rw (h, last_part-append ps (target_text r.spec))
          (is_sum-target_text r.spec v.canonical.target_available) in
      let read : parse_page (split b'/' build_path) [] (page_part r.spec r.page) ≡ ok r =
        subst (λ (s : Bytes). parse_page (split b'/' build_path) s (page_part r.spec r.page) ≡ ok r)
          e parse_page-build_path in
      rw no_sum (ground (arith, read))

  parse_elements-result :
      is_sum r.sum ≡ true
      → parse_elements (split b'/' build_path ++ r.sum ∷ []) (page_part r.spec r.page) ≡ ok r
  unfolding parse_elements
  parse_elements-result h =
      let three : ltb 2 (length (split b'/' build_path ++ r.sum ∷ [])) ≡ true =
        ground (arith, at_least_two, length-append (split b'/' build_path) (r.sum ∷ [])) in
      rw
        (
          three,
          last_part-append (split b'/' build_path) r.sum,
          h,
          init_parts-append (split b'/' build_path) r.sum,
        )
        parse_page-build_path

  -- The elements of the path, from a text that ends in the page part.
  parse_request-page :
      (s : Bytes)
      → parse_request (b'/' ∷ (s ++ b'/' ∷ page_part r.spec r.page))
        ≡ parse_elements (split b'/' s) (page_part r.spec r.page)
  unfolding parse_request
  parse_request-page s =
      let p = page_part r.spec r.page in
      rw
        (
          split-append_last b'/' s p (page_part-Lacks r.spec r.page v.canonical),
          init_parts-append (split b'/' s) p,
          last_part-append (split b'/' s) p,
        )
        refl

  link-build : r.sum ≡ [] → link r ≡ b'/' ∷ (build_path ++ b'/' ∷ page_part r.spec r.page)
  unfolding link
  link-build e = rw (e, sym build_path-slash) (simp append_assoc)

  link-result :
      (c : ℕ) (s : Bytes)
      → r.sum ≡ c ∷ s
      → link r ≡ b'/' ∷ ((build_path ++ b'/' ∷ r.sum) ++ b'/' ∷ page_part r.spec r.page)
  unfolding link
  link-result c s e = rw (e, sym build_path-slash) (simp append_assoc)

  -- parseRequest gives back every request from its link: a build or a result of a canonical
  -- specification, at any page, but for the pages of events and retry only without a sum.
  pub parse_request-link : parse_request (link r) ≡ ok r
  parse_request-link = go r.sum refl v.sum_of_result
    where
      go :
          (s : Bytes)
          → r.sum ≡ s
          → (r.sum ≡ []) ⊎ (is_sum r.sum ≡ true)
          → parse_request (link r) ≡ ok r
      go [] e d = rw (link-build e, parse_request-page build_path) (parse_elements-build e)
      go (c ∷ s) e (inl d) = absurd (cc)
      go (c ∷ s) e (inr h) =
          rw
            (
              link-result c s e,
              parse_request-page (build_path ++ b'/' ∷ r.sum),
              split-append_last b'/' build_path r.sum (is_sum-Lacks r.sum h),
            )
            (parse_elements-result h)
