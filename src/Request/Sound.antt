-- ===== src/Request/Sound.antt =====
-- What parseRequest accepts has a link.
use gobuild.Common.{
  ◌≡◌, refl, true, false, not, ◌&&◌, ltb, Option, none, some, List, [], ◌∷◌, ◌++◌, inl, inr, ◌⊎◌,
  Bytes, codes, eq_bytes, eq_bytes_iff, length, subst, guard-eq-ok, arith, Bool-cases, Result, ok,
  err, ◌>>=◌, ◌>>◌, guard,
}
use gobuild.Strings.{split, join, last_part, init_parts}
use gobuild.Spec.{BuildSpec}
use gobuild.Spec.Parse.{SpecError, parse_build_spec}
use gobuild.Spec.Canonical.{IsCanonical}
use gobuild.Spec.Sound.{parse_build_spec_sound}
use gobuild.Request.{
  Request, RequestError, Page, is_sum, page_of, page_name, needs_build, parse_page, parse_elements,
  parse_request, or_unknown, no_endpoint,
}
use gobuild.Request.RoundTrip.{IsRequest}

parse_page_sound :
    (t : List Bytes) (sum p : Bytes) (r : Request)
    → (sum ≡ []) ⊎ (is_sum sum ≡ true)
    → parse_page t sum p ≡ ok r
    → IsRequest r
unfolding parse_page
parse_page_sound t sum p r d h = go (parse_build_spec (join b'/' t ++ codes "/")) refl
  where
    paged :
        (bs : BuildSpec)
        → IsCanonical bs
        → (o : Option Page)
        → (or_unknown o >>= λ q.
            guard (not (not (eq_bytes sum []) && needs_build q)) (no_endpoint (page_name q))
            >> ok (record { spec = bs; sum = sum; page = q }))
          ≡ ok r
        → IsRequest r
    paged bs c none k = cc
    paged bs c (some q) k =
        let (free, e) =
          guard-eq-ok (not (not (eq_bytes sum []) && needs_build q)) (no_endpoint (page_name q))
            (ok (record { spec = bs; sum = sum; page = q })) k in
        subst IsRequest (found bs q e)
          (record { canonical = c; sum_of_result = d; served = serves q free })
      where
        found :
            (bs : BuildSpec) (q : Page)
            → Path
                (Result RequestError Request)
                (ok (record { spec = bs; sum = sum; page = q }))
                (ok r)
            → record { spec = bs; sum = sum; page = q } ≡ r
        found bs q e = ground arith

        serves :
            (q : Page)
            → not (not (eq_bytes sum []) && needs_build q) ≡ true
            → (sum ≡ []) ⊎ (needs_build q ≡ false)
        serves q f = elim (Bool-cases (needs_build q)) [
          | inl wanted ↦ inl ((eq_bytes_iff sum []).0 (ground arith))
          | inr other ↦ inr other
        ]

    go :
        (x : Result SpecError BuildSpec)
        → parse_build_spec (join b'/' t ++ codes "/") ≡ x
        → IsRequest r
    go (err e) k = absurd (ground arith)
    go (ok bs) k =
        paged bs (parse_build_spec_sound (join b'/' t ++ codes "/") k).0 (page_of bs p)
          (ground arith)

-- parseRequest accepts only requests of canonical specifications, with no sum or a well-formed
-- one, and the pages of events and retry only without a sum.
pub parse_request_sound : (s : Bytes) {r : Request} → parse_request s ≡ ok r → IsRequest r
unfolding parse_request parse_elements
parse_request_sound [] h = cc
parse_request_sound (c ∷ s) {r} h =
    let t = init_parts (split b'/' s) in
    let p = last_part (split b'/' s) in
    elim (Bool-cases (ltb 2 (length t) && is_sum (last_part t))) [
      | inl given ↦
          parse_page_sound (init_parts t) (last_part t) p r (inr (ground arith)) (ground arith)
      | inr absent ↦ parse_page_sound t [] p r (inl refl) (ground arith)
    ]
