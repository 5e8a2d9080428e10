-- ===== src/Web/Home/Admitted.antt =====
-- home.go: the requests that serveHome hands to serveBuild and serveResult.
use gobuild.Common.{
  ap, drop, ◌∙◌, ◌≡◌, ◌≢◌, refl, sym, true, not, if_intro, Option, none, some, [], ◌∷◌, Bytes,
  codes, eq_bytes, eq_bytes_iff, arith, Result, ok, err,
}
use gobuild.Request.{Request, RequestError, parse_request}
use gobuild.Strings.{has_byte, split, cut}
use gobuild.Web.Home.{
  first_part, short_path, Visit, Route, to_modules, to_build, to_result, is_allowed, is_method,
  hand_over, after_resolve, serve_request, short_or_request, serve_root, serve_module, serve_short,
  redirect_detected, serve_home,
}

-- The path is a request by the right method for a module that is allowed, at a version that
-- resolves to itself.
pub record IsAdmitted (v : Visit) (req : Request) : Type 0 where
  pub parsed : parse_request v.path ≡ ok req
  pub method : is_method req.page v.method ≡ true
  pub allowed : is_allowed v.module_prefixes req.spec.mod_path ≡ true
  pub resolved : v.resolve req.spec.mod_path req.spec.version ≡ some req.spec.version

-- What holds where a handler is reached.
abbrev pub Admits : Visit → Route → Type 0
Admits v (to_build req) = IsAdmitted v req × (req.sum ≡ [])
Admits v (to_result req) = IsAdmitted v req × (req.sum ≢ [])
Admits v (to_modules p) = (v.method ≡ codes "GET") × (is_allowed v.module_prefixes p ≡ true)
Admits v _ = Unit

hand_over-Admits :
    (v : Visit) (req : Request) (sum : Bytes)
    → req.sum ≡ sum
    → IsAdmitted v req
    → Admits v (hand_over req sum)
hand_over-Admits v req [] e h = (h, e)
hand_over-Admits v req (c ∷ s) e h = (h, λ q. ground arith)

module _ (v : Visit) where
  after_resolve-Admits :
      (req : Request)
      → parse_request v.path ≡ ok req
      → is_method req.page v.method ≡ true
      → is_allowed v.module_prefixes req.spec.mod_path ≡ true
      → (x : Option Bytes) → v.resolve req.spec.mod_path req.spec.version ≡ x
      → Admits v (after_resolve req x)
  after_resolve-Admits req p m a none r = tt
  after_resolve-Admits req p m a (some version) r =
      if_intro (Admits v) (not (eq_bytes req.spec.version version)) _ _ (λ e. tt)
        (λ e. hand_over-Admits v req req.sum refl (record {
          parsed = p;
          method = m;
          allowed = a;
          resolved =
              r ∙ ap some (sym ((eq_bytes_iff req.spec.version version).0 (ground (arith, e))));
        }))

  serve_request-Admits :
      (x : Result RequestError Request) → parse_request v.path ≡ x → Admits v (serve_request v x)
  serve_request-Admits (err e) p = tt
  serve_request-Admits (ok req) p =
      if_intro (Admits v) (not (is_method req.page v.method)) _ _ (λ e. tt)
        (λ e.
          if_intro (Admits v) (not (is_allowed v.module_prefixes req.spec.mod_path)) _ _ (λ k. tt)
            (λ k.
              after_resolve-Admits req p (ground (arith, e)) (ground (arith, k))
                (v.resolve req.spec.mod_path req.spec.version) refl))

  serve_short-Admits : (m version : Bytes) (x : Option Bytes) → Admits v (serve_short v m version x)
  serve_short-Admits m version none = tt
  serve_short-Admits m version (some g) = resolved (v.resolve m version)
    where
      resolved : (x : Option Bytes) → Admits v (redirect_detected v m g x)
      resolved none = tt
      resolved (some w) = tt

  short_or_request-Admits : (x : Option (Bytes × Bytes)) → Admits v (short_or_request v x)
  short_or_request-Admits (some (m, version)) = serve_short-Admits m version v.most_recent
  short_or_request-Admits none = serve_request-Admits (parse_request v.path) refl

  serve_root-Admits : Admits v (serve_root v)
  unfolding serve_root
  serve_root-Admits =
      if_intro (Admits v) (not (eq_bytes v.method (codes "GET"))) _ _ (λ e. tt)
        (λ e. if_intro (Admits v) (not (eq_bytes v.form_m [])) _ _ (λ k. tt) (λ k. tt))

  serve_module-Admits : Admits v (serve_module v)
  unfolding serve_module
  serve_module-Admits =
      if_intro (Admits v) (not (eq_bytes v.method (codes "GET"))) _ _ (λ e. tt)
        (λ e.
          if_intro (Admits v) (not (is_allowed v.module_prefixes (drop 1 v.path))) _ _ (λ k. tt)
            (λ k. ((eq_bytes_iff v.method (codes "GET")).0 (ground (arith, e)), ground (arith, k))))

  -- Where a request reaches serveBuild or serveResult, its path parses to it, its method is the one
  -- that the page wants, its module is allowed, its version resolves to itself, and it reaches
  -- serveBuild without a sum and serveResult with one. Where it reaches serveModules, its method
  -- is GET and the path is allowed.
  pub serve_home-Admits : Admits v (serve_home v)
  unfolding serve_home
  serve_home-Admits =
      if_intro (Admits v) (eq_bytes v.path (codes "/")) _ _ (λ e. serve_root-Admits)
        (λ e.
          if_intro (Admits v) (not (has_byte b'.' (first_part (split b'/' (drop 1 v.path))))) _ _
            (λ k. tt)
            (λ k.
              if_intro (Admits v) (not (has_byte b'@' v.path)) _ _ (λ n. serve_module-Admits)
                (λ n. short_or_request-Admits (short_path (cut b'@' (drop 1 v.path))))))
