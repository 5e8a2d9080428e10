-- ===== src/Web/Index.antt =====
-- index.go: serveIndex, the page of a build or a result, as what is given to its template.
pub mod Links
pub mod Refused
pub mod Page
pub mod Shown
use gobuild.Common.{
  ℕ, Bool, true, false, not, ◌&&◌, ◌==◌, if◌then◌else◌, Option, none, some, List, [], ◌∷◌, ◌++◌,
  map, Bytes, codes, eq_bytes, drop, Result, ok, err, ◌>>=◌, ◌>>◌, guard, or_fail,
}
use gobuild.Strings.{split}
use gobuild.Spec.{BuildSpec, append_dir}
use gobuild.Record.{BuildResult}
use gobuild.Request.{Request, index_page, link, download_filename}
use gobuild.Sdk.Targets.{Target}
use gobuild.Tlog.{Dir, Store, HashTree}
use gobuild.Tlog.Server.{number_file}
use gobuild.Build.Verify.{Response}

-- Where a link leads, whether there is a result, and whether it is the page at hand.
pub record PageLink : Type 0 where
  pub url : Bytes
  pub success : Bool
  pub active : Bool

pub record VersionLink : Type 0 where
  pub version : Bytes
  pub page : PageLink

pub record GoversionLink : Type 0 where
  pub goversion : Bytes
  pub page : PageLink
  pub supported : Bool

pub record TargetLink : Type 0 where
  pub goos : Bytes
  pub goarch : Bytes
  pub page : PageLink

pub record VariantLink : Type 0 where
  pub variant : Bytes
  pub title : Bytes
  pub page : PageLink

abbrev pub is_some {ℓ} : {A : Type ℓ} → Option A → Bool
is_some none = false
is_some (some a) = true

unfoldable pub index_link : BuildSpec → Bytes
index_link bs = link (record { spec = bs; sum = []; page = index_page })

-- The steps of the request to the module proxy that fail
pub data ListError : Type 0 where
  bad_module_path no_request no_response bad_status not_read : ListError

-- The answer of the module proxy, with the newest version, which is "" without one.
pub record ModVersions : Type 0 where
  pub list_error : Option ListError
  pub latest_version : Bytes
  pub version_links : List VersionLink

-- log.gz: there is none, it cannot be read, or its text.
pub data LogFile : Type 0 where
  no_log log_not_read : LogFile
  log_text : Bytes → LogFile

-- What the page is made from: module.EscapePath, config.GoProxy, the HTTP client, sort.Slice with
-- the newer version first, the state of the toolchains and the targets, the log, and the size of
-- binary.gz where it is there.
pub record IndexFacts : Type 0 where
  pub escape_path : Bytes → Option Bytes
  pub go_proxy : Bytes
  pub request_fails : Bool
  pub http_get : Bytes → Option Response
  pub sort_versions : List VersionLink → List VersionLink
  pub newest_allowed : Bytes
  pub supported_list : List Bytes
  pub remaining_list : List Bytes
  pub target_list : List Target
  pub log_file : LogFile
  pub join_path : List Bytes → Bytes
  pub binary_gz_size : Option ℕ

pub data Newer : Type 0 where
  newer_both newer_module newer_toolchain : Newer

abbrev no_versions : ListError → ModVersions
no_versions e = record { list_error = some e; latest_version = []; version_links = [] }

abbrev pub first_version : List VersionLink → Bytes
first_version [] = []
first_version (l ∷ ls) = l.version

module _ (h : HashTree) (s : Store) (bs : BuildSpec) where
  -- The link to the index page of a specification, on that of `bs`
  unfoldable pub page_link : BuildSpec → PageLink
  unfolding index_link eq_bytes
  page_link to = record {
    url = index_link to;
    success = is_some (number_file (s.dirs (h.store_dir to)));
    active = eq_bytes (index_link to) (index_link bs);
  }

  unfoldable pub version_link : Bytes → VersionLink
  version_link v = record { version = v; page = page_link (record bs { version = v }) }

  -- The loop over the lines of the list
  unfoldable pub line_links : List Bytes → List VersionLink
  unfolding eq_bytes version_link
  line_links [] = []
  line_links (l ∷ ls) =
      let rest = line_links ls in if eq_bytes l [] then rest else version_link l ∷ rest

  unfoldable pub goversion_link : Bool → Bytes → GoversionLink
  goversion_link supported v = record {
    goversion = v;
    page = page_link (record bs { goversion = v });
    supported = supported;
  }

  unfoldable pub target_link : Target → TargetLink
  target_link t = record {
    goos = t.goos;
    goarch = t.goarch;
    page = page_link (record bs { goos = t.goos; goarch = t.goarch });
  }

  -- addVariant
  unfoldable pub variant_link : Bytes → Bytes → Bool → VariantLink
  variant_link v title stripped = record {
    variant = v;
    title = title;
    page = page_link (record bs { stripped = stripped });
  }

  module _ (f : IndexFacts) where
    abbrev pub listed_body : Option Bytes → Result ListError (List VersionLink)
    listed_body none = err not_read
    listed_body (some body) = ok (f.sort_versions (line_links (split b'\n' body)))

    abbrev pub listed_response : Response → Result ListError (List VersionLink)
    listed_response r = if r.status == 200 then listed_body r.body else err bad_status

    -- The goroutine that asks the module proxy
    unfoldable pub list_versions : Result ListError (List VersionLink)
    unfolding line_links
    list_versions = do
      path ← or_fail (f.escape_path bs.mod_path) bad_module_path
      guard (not f.request_fails) no_request
      r ← or_fail (f.http_get (f.go_proxy ++ (path ++ codes "/@v/list"))) no_response
      listed_response r

    abbrev pub versions_of : Result ListError (List VersionLink) → ModVersions
    versions_of (err e) = no_versions e
    versions_of (ok ls) = record {
      list_error = none;
      latest_version = first_version ls;
      version_links = ls;
    }

    abbrev differs : Bytes → Bytes → Bool
    differs a b = not (eq_bytes a b) && not (eq_bytes b [])

    -- newerText
    unfoldable pub newer_kind : Bytes → Option Newer
    unfolding eq_bytes
    newer_kind latest =
        if differs bs.goversion f.newest_allowed && differs bs.version latest
        then some newer_both
        else if differs bs.version latest
        then some newer_module
        else if differs bs.goversion f.newest_allowed
        then some newer_toolchain
        else none

    abbrev newer_spec : Bytes → BuildSpec
    newer_spec latest = record bs { version = latest; goversion = f.newest_allowed }

    abbrev pub with_newer_url : Bytes → Option Newer → Option (Newer × Bytes)
    with_newer_url latest none = none
    with_newer_url latest (some n) = some (n, index_link (newer_spec latest))

    -- newerText and newerURL
    unfoldable pub newer_link : Bytes → Option (Newer × Bytes)
    unfolding newer_kind index_link
    newer_link latest = with_newer_url latest (newer_kind latest)
