-- ===== src/Web/Index/Links.antt =====
-- index.go: where the rows of the index page lead, and what they say of the pages there.
use gobuild.Common.{
  Bool, true, false, ◌≡◌, ◌↔◌, refl, sym, ap, ◌∙◌, subst, Option, none, some, List, [], ◌∷◌, map,
  Bytes, codes, eq_bytes, eq_bytes_iff, Result, ok, All, All-append, Lacks, arith, inl,
}
use gobuild.Spec.{BuildSpec}
use gobuild.Spec.Parse.{target_key}
use gobuild.Spec.Canonical.{IsCanonical}
use gobuild.Record.{BuildResult}
use gobuild.Request.{Request, RequestError, index_page, parse_request}
use gobuild.Request.RoundTrip.{IsRequest, parse_request-link}
use gobuild.Sdk.Targets.{Target, available}
use gobuild.Tlog.{Store, HashTree}
use gobuild.Tlog.Abstract.{Represents, Entry, find_from, entry_text}
use gobuild.Web.Index.{
  PageLink, GoversionLink, TargetLink, VariantLink, IndexFacts, is_some, index_link, page_link,
  goversion_link, target_link,
}
use gobuild.Web.Index.Page.{IndexPage, output_of, page_of_output, serve_index}

abbrev pub index_request : BuildSpec → Request
index_request bs = record { spec = bs; sum = []; page = index_page }

-- The row of a specification on the page of `bs`: its link leads to the index page of the
-- specification, it is marked as a success if the log has a result with the directory of the
-- specification, and as active on the specification's own page only.
pub record IsRow (h : HashTree) (log : List BuildResult) (bs to : BuildSpec) (l : PageLink)
    : Type 0 where
  pub leads : parse_request l.url ≡ ok (index_request to)
  pub has_result : l.success ≡ is_some (find_from h.store_dir (h.store_dir to) 0 log)
  pub is_active : (l.active ≡ true) ↔ (to ≡ bs)

index_request-IsRequest : (bs : BuildSpec) → IsCanonical bs → IsRequest (index_request bs)
index_request-IsRequest bs c = record { canonical = c; sum_of_result = inl refl; served = inl refl }

pub parse_request-index_link :
    (bs : BuildSpec) → IsCanonical bs → parse_request (index_link bs) ≡ ok (index_request bs)
unfolding index_link
parse_request-index_link bs c = parse_request-link (index_request bs) (index_request-IsRequest bs c)

is_some-entry_text : (o : Option Entry) → is_some (entry_text o) ≡ is_some o
is_some-entry_text none = refl
is_some-entry_text (some e) = refl

module _ (h : HashTree) (log : List BuildResult) (s : Store) (v : Represents h log s)
    (bs : BuildSpec) (c : IsCanonical bs) where
  page_link-IsRow : (to : BuildSpec) → IsCanonical to → IsRow h log bs to (page_link h s bs to)
  unfolding page_link
  page_link-IsRow to d = record {
    leads = parse_request-index_link to d;
    has_result = ap is_some (v.dirs (h.store_dir to)) ∙ is_some-entry_text _;
    is_active = (same, λ e. other e);
  }
    where
      same : eq_bytes (index_link to) (index_link bs) ≡ true → to ≡ bs
      same e =
          let links : index_link to ≡ index_link bs =
            (eq_bytes_iff (index_link to) (index_link bs)).0 e in
          let requests : Path (Result RequestError Request) (ok (index_request to))
              (ok (index_request bs)) =
            sym (parse_request-index_link to d)
            ∙ ap parse_request links
            ∙ parse_request-index_link bs c in
          ground (arith, requests)

      other : to ≡ bs → eq_bytes (index_link to) (index_link bs) ≡ true
      other e = (eq_bytes_iff (index_link to) (index_link bs)).1 (ap index_link e)

-- A target of the list, and the text of a toolchain.
pub record IsPlainTarget (t : Target) : Type 0 where
  pub is_available : available (target_key t.goos t.goarch) ≡ true
  pub no_dash : Lacks b'-' t.goos × Lacks b'-' t.goarch
  pub no_slash : Lacks b'/' t.goos × Lacks b'/' t.goarch

abbrev pub IsPlain : Bytes → Type 0
IsPlain v = Lacks b'-' v × Lacks b'/' v

with_target-IsCanonical :
    (bs : BuildSpec) (t : Target)
    → IsCanonical bs
    → IsPlainTarget t
    → IsCanonical (record bs { goos = t.goos; goarch = t.goarch })
with_target-IsCanonical bs t c p = record {
  mod_ne_nil = c.mod_ne_nil;
  mod_no_at = c.mod_no_at;
  mod_dot = c.mod_dot;
  mod_clean = c.mod_clean;
  version_ne_nil = c.version_ne_nil;
  version_no_slash = c.version_no_slash;
  dir_rooted = c.dir_rooted;
  dir_clean = c.dir_clean;
  target_available = p.is_available;
  no_dash = (p.no_dash.0, p.no_dash.1, c.no_dash.2);
  no_slash = (p.no_slash.0, p.no_slash.1, c.no_slash.2);
}

pub with_goversion-IsCanonical :
    (bs : BuildSpec) (v : Bytes) (stripped : Bool)
    → IsCanonical bs
    → IsPlain v
    → IsCanonical (record bs { goversion = v; stripped = stripped })
with_goversion-IsCanonical bs v stripped c p = record {
  mod_ne_nil = c.mod_ne_nil;
  mod_no_at = c.mod_no_at;
  mod_dot = c.mod_dot;
  mod_clean = c.mod_clean;
  version_ne_nil = c.version_ne_nil;
  version_no_slash = c.version_no_slash;
  dir_rooted = c.dir_rooted;
  dir_clean = c.dir_clean;
  target_available = c.target_available;
  no_dash = (c.no_dash.0, c.no_dash.1, p.0);
  no_slash = (c.no_slash.0, c.no_slash.1, p.1);
}

All-map {ℓ κ μ ν} :
    {A : Type ℓ} {B : Type κ} {P : A → Type μ} (Q : B → Type ν) (f : A → B)
    → ((a : A) → P a → Q (f a))
    → (xs : List A) → All P xs
    → All Q (map f xs)
All-map Q f g [] h = tt
All-map Q f g (x ∷ xs) (p, h) = (g x p, All-map Q f g xs h)

module _ (h : HashTree) (log : List BuildResult) (bs : BuildSpec) where
  abbrev pub IsTargetRow : TargetLink → Type 0
  IsTargetRow l = IsRow h log bs (record bs { goos = l.goos; goarch = l.goarch }) l.page

  abbrev pub IsGoversionRow : GoversionLink → Type 0
  IsGoversionRow l = IsRow h log bs (record bs { goversion = l.goversion }) l.page

  abbrev pub IsVariantRow : VariantLink → Type 0
  IsVariantRow l =
      IsRow h log bs (record bs { stripped = eq_bytes l.variant (codes "stripped") }) l.page

  -- The rows of a page are rows of their targets, toolchains and variants.
  pub record HasRows (p : IndexPage) : Type 0 where
    pub targets : All IsTargetRow p.target_links
    pub goversions : All IsGoversionRow p.goversion_links
    pub variants : All IsVariantRow p.variant_links

module _ (h : HashTree) (log : List BuildResult) (s : Store) (v : Represents h log s)
    (bs : BuildSpec) (c : IsCanonical bs) (f : IndexFacts)
    (targets : All IsPlainTarget f.target_list) (supported : All IsPlain f.supported_list)
    (remaining : All IsPlain f.remaining_list) where
  variant-IsRow :
      (b : Bool)
      → IsRow h log bs (record bs { stripped = b }) (page_link h s bs (record bs { stripped = b }))
  variant-IsRow b =
      page_link-IsRow h log s v bs c (record bs { stripped = b })
        (with_goversion-IsCanonical bs bs.goversion b c (c.no_dash.2, c.no_slash.2))

  goversion-IsRow :
      (b : Bool) (g : Bytes)
      → IsPlain g
      → IsRow h log bs (record bs { goversion = g }) (goversion_link h s bs b g).page
  unfolding goversion_link
  goversion-IsRow b g p =
      page_link-IsRow h log s v bs c (record bs { goversion = g })
        (with_goversion-IsCanonical bs g bs.stripped c p)

  target-IsRow :
      (t : Target)
      → IsPlainTarget t
      → IsRow h log bs (record bs { goos = t.goos; goarch = t.goarch }) (target_link h s bs t).page
  unfolding target_link
  target-IsRow t p =
      page_link-IsRow h log s v bs c (record bs { goos = t.goos; goarch = t.goarch })
        (with_target-IsCanonical bs t c p)

  page_of_output-HasRows :
      (br : Option BuildResult) (output : Bytes)
      → HasRows h log bs (page_of_output h s bs f br output)
  unfolding page_of_output
  page_of_output-HasRows br output = record {
    targets =
        All-map (IsTargetRow h log bs) (target_link h s bs) target-IsRow f.target_list targets;
    goversions =
        All-append (IsGoversionRow h log bs) (map (goversion_link h s bs true) f.supported_list) _
          (All-map (IsGoversionRow h log bs) (goversion_link h s bs true) (goversion-IsRow true)
            f.supported_list supported)
          (All-map (IsGoversionRow h log bs) (goversion_link h s bs false) (goversion-IsRow false)
            f.remaining_list remaining);
    variants = (variant-IsRow false, (variant-IsRow true, tt));
  }

  pub serve_index-HasRows :
      (br : Option BuildResult) (p : IndexPage)
      → serve_index h s bs f br ≡ some p
      → HasRows h log bs p
  serve_index-HasRows br p e = go (output_of h s bs f br f.log_file) refl
    where
      go : (o : Option Bytes) → output_of h s bs f br f.log_file ≡ o → HasRows h log bs p
      go none k = absurd (unfold serve_index in ground (arith, e, k))
      go (some output) k =
          let same : page_of_output h s bs f br output ≡ p =
            unfold serve_index in ground (arith, e, k) in
          subst (HasRows h log bs) same (page_of_output-HasRows br output)
