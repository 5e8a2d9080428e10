-- ===== src/Web/Results.antt =====
-- result.go: serveResult, for a request with a sum.
pub mod Sums
use gobuild.Common.{
  ℕ, Bool, true, false, if◌then◌else◌, Option, none, some, List, [], ◌∷◌, Bytes, eq_bytes, Result,
  ok, err,
}
use gobuild.Spec.{BuildSpec}
use gobuild.Record.{BuildResult, PackError, pack_record}
use gobuild.Request.{
  Page, Request, index_page, log_page, download_redirect_page, download_page, download_gz_page,
  record_page, events_page, retry_page, link,
}
use gobuild.Coordinate.{BuildUpdate, BuildError}
use gobuild.Tlog.Read.{Found, LookupError, absent, failed_build, result}
use gobuild.Build.Prepare.{PrepareError}
use gobuild.Web.{
  Facts, Reply, Served, wait_concluded, reply_only, listened, unknown_page, binary_not_opened,
  lookup_failed, preparing_failed, build_failed, packing_failed, not_found, forbidden, gone, failed,
  temporary_redirect, log_file, binary, binary_gz, record_text, index,
}

abbrev packed : Result PackError Bytes → Reply
packed (ok msg) = record_text msg
packed (err e) = failed (packing_failed e)

-- The switch on the page
unfoldable pub serve_page : Facts → Request → BuildResult → Page → Reply
serve_page f req br log_page = log_file req.spec
serve_page f req br download_redirect_page =
    temporary_redirect (link (record { spec = req.spec; sum = br.sum; page = download_page }))
serve_page f req br download_page =
    if f.open_fails then failed binary_not_opened else binary req.spec
serve_page f req br download_gz_page = binary_gz req.spec
serve_page f req br record_page = packed (pack_record br)
serve_page f req br index_page = index req.spec (some br)
serve_page f req br _ = failed unknown_page

-- From the comparison of the sums on
unfoldable pub serve_sum : Facts → Request → BuildResult → Reply
serve_sum f req br = if eq_bytes br.sum req.sum then serve_page f req br req.page else not_found

abbrev pub update_reply : Facts → Request → Option BuildError → Option BuildResult → Reply
update_reply f req (some e) br = failed (build_failed e)
update_reply f req none (some br) = serve_sum f req br
update_reply f req none none = gone

abbrev pub result_waited : Facts → Request → Bytes → Option (Option BuildUpdate) → Option Served
result_waited f req exp_sum none = none
result_waited f req exp_sum (some none) = listened exp_sum gone
result_waited f req exp_sum (some (some u)) = listened exp_sum (update_reply f req u.error u.result)

abbrev pub result_prepared :
    Facts → Request → Bytes → Result PrepareError (Unit {0}) → Option Served
result_prepared f req exp_sum (err e) = reply_only (failed (preparing_failed e))
result_prepared f req exp_sum (ok u) = result_waited f req exp_sum (wait_concluded f.web_events)

-- The branch without a binary
unfoldable pub serve_rebuilt : Facts → Request → Bytes → Option Served
serve_rebuilt f req exp_sum =
    if f.is_bad_client then reply_only forbidden else result_prepared f req exp_sum f.preparation

abbrev pub result_looked_up : Facts → Request → Result LookupError Found → Option Served
result_looked_up f req (err e) = reply_only (failed (lookup_failed e))
result_looked_up f req (ok absent) = serve_rebuilt f req []
result_looked_up f req (ok failed_build) = reply_only not_found
result_looked_up f req (ok (result n br true)) = reply_only (serve_sum f req br)
result_looked_up f req (ok (result n br false)) = serve_rebuilt f req br.sum

-- serveResult; `none` while it waits. A concluding update has an error or a result.
unfoldable pub serve_result : Facts → Request → Option Served
serve_result f req = result_looked_up f req f.lookup
