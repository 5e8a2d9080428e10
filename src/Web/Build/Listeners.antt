-- ===== src/Web/Build/Listeners.antt =====
-- build.go: the listeners that serveBuild registers and takes back.
use gobuild.Common.{if_intro}
use gobuild.Common.{
  if_intro, ◌≡◌, refl, true, false, not, ◌⊎◌, inl, inr, subst, Option, none, some, List, [], ◌∷◌,
  codes, eq_bytes, arith, Result, ok, err,
}
use gobuild.Request.{
  Page, Request, index_page, log_page, download_redirect_page, download_page, download_gz_page,
  record_page, events_page, retry_page,
}
use gobuild.Coordinate.{BuildUpdate, UpdateMsg}
use gobuild.Tlog.Read.{Found, LookupError, absent, failed_build, result}
use gobuild.Build.Prepare.{PrepareError}
use gobuild.Web.{Facts, Served, register, unregister, wait_concluded}
use gobuild.Web.Build.{
  streamed, stream, serve_events, build_waited, serve_pending, build_prepared, serve_new,
  build_looked_up, serve_build,
}

-- The listener is taken back, or the page is that of the events, and nothing could be sent.
abbrev pub IsReleased : Facts → Page → Served → Type 0
IsReleased f p s =
    (s.calls ≡ [])
    ⊎ (s.calls ≡ register [] ∷ unregister ∷ [])
    ⊎ ((p ≡ events_page)
        × ((f.is_flusher ≡ false) ⊎ (f.keepalive_fails ≡ true))
        × (s.calls ≡ register [] ∷ []))

-- A reply, if there is one, that leaves no listener behind.
abbrev Releases : Facts → Page → Option Served → Type 0
Releases f p none = Unit
Releases f p (some s) = IsReleased f p s

streamed-Releases : (f : Facts) (p : Page) (x : Option (List UpdateMsg)) → Releases f p (streamed x)
streamed-Releases f p none = tt
streamed-Releases f p (some ms) = inr (inl refl)

serve_events-Releases : (f : Facts) → Releases f events_page (serve_events f)
unfolding serve_events
serve_events-Releases f =
    if_intro (Releases f events_page) (not f.is_flusher) _ _
      (λ e. inr (inr (refl, inl (ground arith), refl)))
      (λ e.
        if_intro (Releases f events_page) f.keepalive_fails _ _ (λ k. inr (inr (refl, inr k, refl)))
          (λ k. streamed-Releases f events_page (stream f.web_events)))

build_waited-Releases :
    (f : Facts) (req : Request) (p : Page) (x : Option (Option BuildUpdate))
    → Releases f p (build_waited req x)
build_waited-Releases f req p none = tt
build_waited-Releases f req p (some none) = inr (inl refl)
build_waited-Releases f req p (some (some u)) = inr (inl refl)

serve_pending-Releases :
    (f : Facts) (req : Request) (p : Page) → Releases f p (serve_pending f req p)
unfolding serve_pending
serve_pending-Releases f req events_page = serve_events-Releases f
serve_pending-Releases f req index_page =
    build_waited-Releases f req _ (wait_concluded f.web_events)
serve_pending-Releases f req log_page = build_waited-Releases f req _ (wait_concluded f.web_events)
serve_pending-Releases f req download_redirect_page =
    build_waited-Releases f req _ (wait_concluded f.web_events)
serve_pending-Releases f req download_page =
    build_waited-Releases f req _ (wait_concluded f.web_events)
serve_pending-Releases f req download_gz_page =
    build_waited-Releases f req _ (wait_concluded f.web_events)
serve_pending-Releases f req record_page =
    build_waited-Releases f req _ (wait_concluded f.web_events)
serve_pending-Releases f req retry_page =
    build_waited-Releases f req _ (wait_concluded f.web_events)

build_prepared-Releases :
    (f : Facts) (req : Request) (p : Page) (x : Result PrepareError (Unit {0}))
    → Releases f p (build_prepared f req p x)
build_prepared-Releases f req p (err e) = inl refl
build_prepared-Releases f req index_page (ok u) = inl refl
build_prepared-Releases f req log_page (ok u) = serve_pending-Releases f req log_page
build_prepared-Releases f req download_redirect_page (ok u) =
    serve_pending-Releases f req download_redirect_page
build_prepared-Releases f req download_page (ok u) = serve_pending-Releases f req download_page
build_prepared-Releases f req download_gz_page (ok u) =
    serve_pending-Releases f req download_gz_page
build_prepared-Releases f req record_page (ok u) = serve_pending-Releases f req record_page
build_prepared-Releases f req events_page (ok u) = serve_pending-Releases f req events_page
build_prepared-Releases f req retry_page (ok u) = serve_pending-Releases f req retry_page

build_looked_up-Releases :
    (f : Facts) (req : Request) (x : Result LookupError Found)
    → Releases f req.page (build_looked_up f req x)
unfolding serve_new
build_looked_up-Releases f req (err e) = inl refl
build_looked_up-Releases f req (ok absent) =
    if_intro (Releases f req.page) f.is_bad_client _ _ (λ e. inl refl)
      (λ e. build_prepared-Releases f req req.page f.preparation)
build_looked_up-Releases f req (ok failed_build) = inl refl
build_looked_up-Releases f req (ok (result n br present)) = inl refl

-- When serveBuild returns, it has registered no listener, or has taken it back, or the page is
-- that of the events and the response cannot be flushed or the first write has failed: then
-- the listener stays registered.
pub serve_build-IsReleased :
    (f : Facts) (req : Request) (s : Served) → serve_build f req ≡ some s → IsReleased f req.page s
serve_build-IsReleased f req s h = subst (Releases f req.page) h whole
  where
    whole : Releases f req.page (serve_build f req)
    whole =
        unfold serve_build in
        if_intro (Releases f req.page) (eq_bytes req.spec.goversion (codes "latest")) _ _
          (λ e. inl refl)
          (λ e.
            if_intro (Releases f req.page) (eq_bytes req.spec.version (codes "latest")) _ _
              (λ e. inl refl) (λ k. build_looked_up-Releases f req f.lookup))
