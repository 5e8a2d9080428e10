-- ===== src/Web/Index/Page.antt =====
-- index.go: the arguments of the template of serveIndex.
use gobuild.Common.{
  ℕ, Bool, true, false, not, ◌&&◌, if◌then◌else◌, Option, none, some, List, [], ◌∷◌, ◌++◌, map,
  Bytes, codes, eq_bytes, drop,
}
use gobuild.Spec.{BuildSpec, append_dir}
use gobuild.Record.{BuildResult}
use gobuild.Request.{Request, index_page, download_filename}
use gobuild.Tlog.{Store, HashTree}
use gobuild.Web.Index.{
  GoversionLink, TargetLink, VariantLink, ModVersions, Newer, IndexFacts, LogFile, no_log,
  log_not_read, log_text, goversion_link, target_link, variant_link, versions_of, list_versions,
  newer_link,
}

pub record IndexPage : Type 0 where
  pub favicon : Bytes
  pub success : Bool
  pub sum : Bytes
  pub req : Request
  pub dir_append : Bytes
  pub dir_prepend : Bytes
  pub goversion_links : List GoversionLink
  pub target_links : List TargetLink
  pub variant_links : List VariantLink
  pub mod_versions : ModVersions
  pub filename : Bytes
  pub pkg_go_dev_url : Bytes
  pub newer : Option (Newer × Bytes)
  pub in_progress : Bool
  pub output : Bytes
  pub filesize_gz : Option ℕ
  pub no_store : Bool

module _ (h : HashTree) (s : Store) (bs : BuildSpec) (f : IndexFacts) where
  abbrev pub result_sum : Option BuildResult → Bytes
  result_sum none = []
  result_sum (some br) = br.sum

  -- `output`: the log of a failed build, which is looked for where there is no result; `none`
  -- where it cannot be read.
  abbrev pub output_of : Option BuildResult → LogFile → Option Bytes
  output_of (some br) l = some []
  output_of none no_log = some []
  output_of none log_not_read = none
  output_of none (log_text t) = some t

  unfoldable pub favicon_of : Bytes → Bytes → Bytes
  unfolding eq_bytes
  favicon_of output sum =
      if not (eq_bytes output [])
      then codes "/favicon-error.png"
      else if eq_bytes sum []
      then codes "/favicon-building.png"
      else codes "/favicon.ico"

  abbrev size_if : Option BuildResult → Option ℕ
  size_if none = none
  size_if (some br) = f.binary_gz_size

  unfoldable pub page_of_output : Option BuildResult → Bytes → IndexPage
  unfolding eq_bytes append_dir download_filename list_versions newer_link favicon_of goversion_link
      target_link variant_link
  page_of_output br output =
      let resp = versions_of h s bs f (list_versions h s bs f) in
      let sum = result_sum br in
      record {
        favicon = favicon_of output sum;
        success = not (eq_bytes sum []);
        sum = sum;
        req = record { spec = bs; sum = []; page = index_page };
        dir_append = append_dir bs;
        dir_prepend = if eq_bytes bs.dir (codes "/") then [] else bs.dir;
        goversion_links =
            map (goversion_link h s bs true) f.supported_list
            ++ map (goversion_link h s bs false) f.remaining_list;
        target_links = map (target_link h s bs) f.target_list;
        variant_links =
            variant_link h s bs (codes "default") [] false
            ∷ variant_link h s bs (codes "stripped")
                (codes "Symbol table and debug information stripped, reducing binary size.") true
            ∷ [];
        mod_versions = resp;
        filename = download_filename bs;
        pkg_go_dev_url =
            codes "https://pkg.go.dev/"
            ++ (f.join_path ((bs.mod_path ++ (b'@' ∷ bs.version)) ∷ drop 1 bs.dir ∷ [])
                ++ codes "?tab=doc");
        newer = newer_link h s bs f resp.latest_version;
        in_progress = eq_bytes sum [] && eq_bytes output [];
        output = output;
        filesize_gz = size_if br;
        no_store = eq_bytes sum [];
      }

  abbrev pub page_if_read : Option BuildResult → Option Bytes → Option IndexPage
  page_if_read br none = none
  page_if_read br (some output) = some (page_of_output br output)

  -- serveIndex; `none` where the log cannot be read.
  unfoldable pub serve_index : Option BuildResult → Option IndexPage
  unfolding page_of_output
  serve_index br = page_if_read br (output_of br f.log_file)
