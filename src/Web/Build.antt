-- ===== src/Web/Build.antt =====
-- build.go: serveBuild, for a request without a sum.
pub mod Listeners
use gobuild.Common.{
  not, ℕ, Bool, true, false, if◌then◌else◌, Option, none, some, List, [], ◌∷◌, Bytes, codes,
  eq_bytes, Result, ok, err,
}
use gobuild.Spec.{BuildSpec}
use gobuild.Record.{BuildResult}
use gobuild.Request.{
  Page, Request, index_page, log_page, download_redirect_page, download_page, download_gz_page,
  record_page, events_page, retry_page, link,
}
use gobuild.Coordinate.{BuildUpdate, BuildError, UpdateMsg}
use gobuild.Tlog.Read.{Found, LookupError, absent, failed_build, result}
use gobuild.Build.Prepare.{PrepareError}
use gobuild.Web.{
  Facts, Failure, Reply, Call, Served, WebEvent, wait_concluded, reply_only, listened,
  no_toolchains, resolving_failed, has_record_number, not_moved_away, not_all_removed,
  see_index_page, no_flusher, lookup_failed, preparing_failed, build_failed, forbidden, gone,
  failed, temporary_redirect, see_other, log_file, index, events, register, done, received,
}

-- pageRetry of a failed build; the directory is moved away and removed.
unfoldable pub serve_retry : Facts → Request → Reply
serve_retry f req =
    if f.has_number_file
    then failed has_record_number
    else if f.rename_fails
    then failed not_moved_away
    else if f.remove_fails
    then failed not_all_removed
    else see_other (link (record req { page = index_page }))

-- The switch on the page, for a failed build
unfoldable pub serve_failed : Facts → Request → Page → Reply
serve_failed f req retry_page = serve_retry f req
serve_failed f req log_page = log_file req.spec
serve_failed f req index_page = index req.spec none
serve_failed f req _ = failed see_index_page

-- The loop of pageEvents: the updates that were sent, until one is the last or cannot be written.
unfoldable pub stream : List WebEvent → Option (List UpdateMsg)
stream [] = none
stream (done ∷ es) = some []
stream (received u writes ∷ es) =
    let rest = stream es in
    if writes
    then if u.done
      then some (u.msg ∷ [])
      else elim rest [ none ↦ none | some ms ↦ some (u.msg ∷ ms) ]
    else some []

abbrev streamed : Option (List UpdateMsg) → Option Served
streamed none = none
streamed (some ms) = listened [] (events ms)

-- pageEvents, after the registration
unfoldable pub serve_events : Facts → Option Served
serve_events f =
    if not f.is_flusher
    then some (record { reply = failed no_flusher; calls = register [] ∷ [] })
    else if f.keepalive_fails
    then some (record { reply = gone; calls = register [] ∷ [] })
    else streamed (stream f.web_events)

abbrev result_reply : Request → Option BuildResult → Reply
result_reply req none = gone
result_reply req (some br) =
    temporary_redirect (link (record { spec = br.spec; sum = br.sum; page = req.page }))

abbrev concluded_reply : Request → BuildUpdate → Page → Option BuildError → Reply
concluded_reply req u log_page e = log_file req.spec
concluded_reply req u p (some e) = failed (build_failed e)
concluded_reply req u p none = result_reply req u.result

abbrev pub build_waited : Request → Option (Option BuildUpdate) → Option Served
build_waited req none = none
build_waited req (some none) = listened [] gone
build_waited req (some (some u)) = listened [] (concluded_reply req u req.page u.error)

-- From the registration on
unfoldable pub serve_pending : Facts → Request → Page → Option Served
serve_pending f req events_page = serve_events f
serve_pending f req p = build_waited req (wait_concluded f.web_events)

abbrev pub build_prepared : Facts → Request → Page → Result PrepareError (Unit {0}) → Option Served
build_prepared f req p (err e) = reply_only (failed (preparing_failed e))
build_prepared f req index_page (ok u) = reply_only (index req.spec none)
build_prepared f req p (ok u) = serve_pending f req p

-- From the check of the client on
unfoldable pub serve_new : Facts → Request → Option Served
serve_new f req =
    if f.is_bad_client then reply_only forbidden else build_prepared f req req.page f.preparation

abbrev pub build_looked_up : Facts → Request → Result LookupError Found → Option Served
build_looked_up f req (err e) = reply_only (failed (lookup_failed e))
build_looked_up f req (ok absent) = serve_new f req
build_looked_up f req (ok failed_build) = reply_only (serve_failed f req req.page)
build_looked_up f req (ok (result n br present)) =
    reply_only
      (temporary_redirect (link (record { spec = br.spec; sum = br.sum; page = req.page })))

abbrev redirect_version : Request → Option Bytes → Reply
redirect_version req none = failed resolving_failed
redirect_version req (some v) =
    temporary_redirect (link (record req { spec = record req.spec { version = v } }))

abbrev redirect_goversion : Request → Option Bytes → Reply
redirect_goversion req none = failed no_toolchains
redirect_goversion req (some v) =
    temporary_redirect (link (record req { spec = record req.spec { goversion = v } }))

-- serveBuild; `none` while it waits
unfoldable pub serve_build : Facts → Request → Option Served
unfolding eq_bytes
serve_build f req =
    if eq_bytes req.spec.goversion (codes "latest")
    then reply_only (redirect_goversion req f.newest)
    else if eq_bytes req.spec.version (codes "latest")
    then reply_only (redirect_version req f.resolved)
    else build_looked_up f req f.lookup
