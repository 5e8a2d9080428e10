-- ===== src/Web/Results/Sums.antt =====
-- result.go: what serveResult serves has the sum of the request.
use gobuild.Common.{if_intro}
use gobuild.Common.Int.{ℤ}
use gobuild.Common.{
  if_intro, ◌≡◌, refl, true, false, ◌⊎◌, inl, inr, Bool-cases, Option, none, some, List, [], ◌∷◌,
  Bytes, eq_bytes, eq_bytes_iff, subst, Result, ok, err,
}
use gobuild.Record.{BuildResult}
use gobuild.Request.{Request}
use gobuild.Coordinate.{BuildUpdate, BuildError}
use gobuild.Tlog.Read.{Found, LookupError, absent, failed_build, result}
use gobuild.Build.Prepare.{PrepareError}
use gobuild.Web.{
  Facts, Reply, Served, Call, register, unregister, wait_concluded, not_found, forbidden, gone,
  failed,
}
use gobuild.Web.Results.{
  serve_page, serve_sum, update_reply, result_waited, result_prepared, serve_rebuilt,
  result_looked_up, serve_result,
}

-- The result is the one on disk, with its binary, or that of the build that was waited for.
abbrev IsSource : Facts → BuildResult → Type 0
IsSource f br =
    ((n : ℤ) × (f.lookup ≡ ok (result n br true)))
    ⊎ ((u : BuildUpdate) × (wait_concluded f.web_events ≡ some (some u))
        × (u.error ≡ none)
        × (u.result ≡ some br))

-- A reply that serves nothing of a result.
abbrev IsRefusal : Reply → Type 0
IsRefusal not_found = Unit
IsRefusal forbidden = Unit
IsRefusal gone = Unit
IsRefusal (failed e) = Unit
IsRefusal _ = ⊥

abbrev pub IsServed : Facts → Request → Reply → Type 0
IsServed f req r =
    ((br : BuildResult) × IsSource f br × (br.sum ≡ req.sum) × (r ≡ serve_page f req br req.page))
    ⊎ IsRefusal r

-- No listener stays registered.
abbrev pub IsTakenBack : List Call → Type 0
IsTakenBack cs = (cs ≡ []) ⊎ ((e : Bytes) × (cs ≡ register e ∷ unregister ∷ []))

abbrev Serves : Facts → Request → Option Served → Type 0
Serves f req none = Unit
Serves f req (some s) = IsServed f req s.reply × IsTakenBack s.calls

module _ (f : Facts) (req : Request) where
  serve_sum-IsServed : (br : BuildResult) → IsSource f br → IsServed f req (serve_sum f req br)
  unfolding serve_sum
  serve_sum-IsServed br h = elim (Bool-cases (eq_bytes br.sum req.sum)) [
    | inl same ↦ inl (br, h, (eq_bytes_iff br.sum req.sum).0 same, rw same refl)
    | inr other ↦ inr (rw other tt)
  ]

  update_reply-IsServed :
      (u : BuildUpdate)
      → wait_concluded f.web_events ≡ some (some u)
      → (e : Option BuildError) → u.error ≡ e
      → (br : Option BuildResult) → u.result ≡ br
      → IsServed f req (update_reply f req e br)
  update_reply-IsServed u h (some e) p br q = inr tt
  update_reply-IsServed u h none p (some br) q = serve_sum-IsServed br (inr (u, h, p, q))
  update_reply-IsServed u h none p none q = inr tt

  result_waited-Serves :
      (e : Bytes) (x : Option (Option BuildUpdate))
      → wait_concluded f.web_events ≡ x
      → Serves f req (result_waited f req e x)
  result_waited-Serves e none h = tt
  result_waited-Serves e (some none) h = (inr tt, inr (e, refl))
  result_waited-Serves e (some (some u)) h =
      (update_reply-IsServed u h u.error refl u.result refl, inr (e, refl))

  result_prepared-Serves :
      (e : Bytes) (x : Result PrepareError (Unit {0})) → Serves f req (result_prepared f req e x)
  result_prepared-Serves e (err x) = (inr tt, inl refl)
  result_prepared-Serves e (ok u) = result_waited-Serves e (wait_concluded f.web_events) refl

  serve_rebuilt-Serves : (e : Bytes) → Serves f req (serve_rebuilt f req e)
  unfolding serve_rebuilt
  serve_rebuilt-Serves e =
      if_intro (Serves f req) f.is_bad_client _ _ (λ k. (inr tt, inl refl))
        (λ k. result_prepared-Serves e f.preparation)

  result_looked_up-Serves :
      (x : Result LookupError Found) → f.lookup ≡ x → Serves f req (result_looked_up f req x)
  result_looked_up-Serves (err e) h = (inr tt, inl refl)
  result_looked_up-Serves (ok absent) h = serve_rebuilt-Serves []
  result_looked_up-Serves (ok failed_build) h = (inr tt, inl refl)
  result_looked_up-Serves (ok (result n br true)) h = (serve_sum-IsServed br (inl (n, h)), inl refl)
  result_looked_up-Serves (ok (result n br false)) h = serve_rebuilt-Serves br.sum

  -- When serveResult returns, no listener stays registered, and it has refused the request or
  -- served the page of a result that has the sum of the request, which was on disk with its
  -- binary or is that of the build that was waited for.
  pub serve_result-IsServed :
      (s : Served) → serve_result f req ≡ some s → IsServed f req s.reply × IsTakenBack s.calls
  serve_result-IsServed s h =
      subst (Serves f req) h (unfold serve_result in result_looked_up-Serves f.lookup refl)
