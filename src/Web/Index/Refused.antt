-- ===== src/Web/Index/Refused.antt =====
-- index.go: the link to a newer page where the module's versions could not be listed.
use gobuild.Common.{◌≡◌, ◌≢◌, refl, some, [], Bytes, eq_bytes, eq_bytes_ne, ok, err, Lacks, arith}
use gobuild.Spec.{BuildSpec, target_text}
use gobuild.Spec.Canonical.{IsCanonical, target_text-Lacks}
use gobuild.Request.{Request, parse_request}
use gobuild.Request.Versionless.{parse_request-versionless}
use gobuild.Tlog.{Store, HashTree}
use gobuild.Web.Index.{
  IndexFacts, ListError, newer_toolchain, newer_kind, newer_link, list_versions, versions_of,
  index_link,
}
use gobuild.Web.Index.Links.{IsPlain, with_goversion-IsCanonical}

module _ (h : HashTree) (s : Store) (bs : BuildSpec) (f : IndexFacts) where
  -- Where the module proxy does not list the versions and the newest toolchain is not that of the
  -- page, the page has a link to a newer one, and that link is refused by parseRequest.
  pub newer_link-refused :
      (e : ListError)
      → list_versions h s bs f ≡ err e
      → IsCanonical bs
      → IsPlain f.newest_allowed
      → f.newest_allowed ≢ []
      → bs.goversion ≢ f.newest_allowed
      → (url : Bytes) × (newer_link h s bs f
            (versions_of h s bs f (list_versions h s bs f)).latest_version
          ≡ some (newer_toolchain, url))
        × ((r : Request) → parse_request url ≢ ok r)
  newer_link-refused e q c p n d = (
    index_link bare,
    rw q (unfold newer_link in rw (kind, newer_link) refl),
    unfold index_link in parse_request-versionless bare refl c.mod_no_at slash c.target_available,
  )
    where
      bare : BuildSpec
      bare = record bs { version = []; goversion = f.newest_allowed }

      slash : Lacks b'/' (target_text bare)
      slash =
          unfold target_text in
          target_text-Lacks (record bs { goversion = f.newest_allowed })
            (with_goversion-IsCanonical bs f.newest_allowed bs.stripped c p)

      kind : newer_kind h s bs f [] ≡ some newer_toolchain
      kind =
          unfold newer_kind eq_bytes in
          rw (eq_bytes_ne bs.goversion f.newest_allowed d, eq_bytes_ne f.newest_allowed [] n)
            (ground arith)
