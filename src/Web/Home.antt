-- ===== src/Web/Home.antt =====
-- home.go: serveHome, which hands requests to the other handlers.
pub mod Admitted
use gobuild.Common.{
  ℕ, Bool, true, false, not, ◌&&◌, ◌||◌, if◌then◌else◌, Option, none, some, List, [], ◌∷◌, ◌++◌,
  Bytes, codes, eq_bytes, drop, Result, ok, err,
}
use gobuild.Strings.{split, cut, has_byte, has_prefix}
use gobuild.Spec.{BuildSpec}
use gobuild.Request.{Page, Request, RequestError, index_page, retry_page, link, parse_request}

-- An HTTP request, the configured prefixes, and what ensureMostRecentSDK, resolveModuleVersion and
-- autodetectTarget answer. A path starts with a slash.
pub record Visit : Type 0 where
  pub method : Bytes
  pub path : Bytes
  pub form_m : Bytes
  pub module_prefixes : List Bytes
  pub most_recent : Option Bytes
  pub resolve : Bytes → Bytes → Option Bytes
  pub detected_goos : Bytes
  pub detected_goarch : Bytes

-- Where a request ends: in a reply, or in one of the other handlers.
pub data Route : Type 0 where
  home_page not_found method_not_allowed forbidden no_toolchain not_resolved : Route
  no_request : RequestError → Route
  redirect : Bytes → Route
  to_modules : Bytes → Route
  to_build to_result : Request → Route

abbrev pub first_part : List Bytes → Bytes
first_part [] = []
first_part (t ∷ ts) = t

-- checkAllowedRespond
unfoldable pub is_allowed : List Bytes → Bytes → Bool
is_allowed [] m = true
is_allowed (p ∷ []) m = has_prefix p m
is_allowed (p ∷ q ∷ ps) m = has_prefix p m || is_allowed (q ∷ ps) m

unfoldable pub serve_root : Visit → Route
unfolding eq_bytes
serve_root v =
    if not (eq_bytes v.method (codes "GET"))
    then method_not_allowed
    else if not (eq_bytes v.form_m [])
    then redirect (b'/' ∷ v.form_m)
    else home_page

unfoldable pub serve_module : Visit → Route
unfolding eq_bytes
serve_module v =
    if not (eq_bytes v.method (codes "GET"))
    then method_not_allowed
    else if not (is_allowed v.module_prefixes (drop 1 v.path))
    then forbidden
    else to_modules (drop 1 v.path)

-- A module and a version without a slash behind it.
abbrev pub short_path : Option (Bytes × Bytes) → Option (Bytes × Bytes)
short_path none = none
short_path (some (m, version)) =
    if not (eq_bytes m [])
      && not (eq_bytes version [])
      && not (has_byte b'@' version)
      && not (has_byte b'/' version)
    then some (m, version)
    else none

abbrev pub redirect_detected : Visit → Bytes → Bytes → Option Bytes → Route
redirect_detected v m goversion none = not_resolved
redirect_detected v m goversion (some version) = redirect (
    link (record {
      spec = record {
        mod_path = m;
        version = version;
        dir = codes "/";
        goos = v.detected_goos;
        goarch = v.detected_goarch;
        goversion = goversion;
        stripped = false;
      };
      sum = [];
      page = index_page;
    }))

-- A path like /github.com/mjl-/sherpa@v0.6.0
abbrev pub serve_short : Visit → Bytes → Bytes → Option Bytes → Route
serve_short v m version none = no_toolchain
serve_short v m version (some goversion) = redirect_detected v m goversion (v.resolve m version)

abbrev is_retry : Page → Bool
is_retry retry_page = true
is_retry p = false

-- The method that the page wants
unfoldable pub is_method : Page → Bytes → Bool
unfolding eq_bytes
is_method p method = eq_bytes method (if is_retry p then codes "POST" else codes "GET")

abbrev pub hand_over : Request → Bytes → Route
hand_over req [] = to_build req
hand_over req (c ∷ s) = to_result req

abbrev pub after_resolve : Request → Option Bytes → Route
after_resolve req none = not_resolved
after_resolve req (some version) =
    if not (eq_bytes req.spec.version version)
    then redirect (link (record req { spec = record req.spec { version = version } }))
    else hand_over req req.sum

abbrev pub serve_request : Visit → Result RequestError Request → Route
serve_request v (err e) = no_request e
serve_request v (ok req) =
    if not (is_method req.page v.method)
    then method_not_allowed
    else if not (is_allowed v.module_prefixes req.spec.mod_path)
    then forbidden
    else after_resolve req (v.resolve req.spec.mod_path req.spec.version)

abbrev pub short_or_request : Visit → Option (Bytes × Bytes) → Route
short_or_request v (some (m, version)) = serve_short v m version v.most_recent
short_or_request v none = serve_request v (parse_request v.path)

-- serveHome
unfoldable pub serve_home : Visit → Route
unfolding eq_bytes
serve_home v =
    if eq_bytes v.path (codes "/")
    then serve_root v
    else if not (has_byte b'.' (first_part (split b'/' (drop 1 v.path))))
    then not_found
    else if not (has_byte b'@' v.path)
    then serve_module v
    else short_or_request v (short_path (cut b'@' (drop 1 v.path)))
