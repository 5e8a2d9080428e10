-- ===== src/Web/Index/Shown.antt =====
-- index.go: what a page shows of its build, and of the log that a server has written.
use gobuild.Common.{
  true, false, ◌≡◌, ◌≢◌, inl, inr, refl, subst, Option, none, some, List, [], ◌∷◌, Bytes, codes,
  eq_bytes, All, arith, Bool-cases,
}
use gobuild.Spec.{BuildSpec}
use gobuild.Spec.Canonical.{IsCanonical}
use gobuild.Record.{BuildResult}
use gobuild.Tlog.{Store, HashTree}
use gobuild.Tlog.Added.{IsHashTree}
use gobuild.Build.Run.Store.{Server}
use gobuild.History.{History}
use gobuild.History.Refines.{History-Represents}
use gobuild.Web.Index.{IndexFacts, LogFile, no_log, log_not_read, log_text}
use gobuild.Common.{◌⊎◌, ap, Bool, not, eq_bytes_iff}
use gobuild.Web.Index.Page.{IndexPage, output_of, page_of_output, serve_index, favicon_of}
use gobuild.Web.Index.Links.{IsPlainTarget, IsPlain, HasRows, serve_index-HasRows}

abbrev pub has_sum : Option BuildResult → Bool
has_sum none = false
has_sum (some br) = not (eq_bytes br.sum [])

-- What a page shows for a result or none and the log of a failed build: the result, with its sum; a
-- build in progress, where there is no log or an empty one; or the log. The browser keeps only the
-- first. A result without a sum, which no build has, counts as one that is in progress.
pub data Shows (l : LogFile) (p : IndexPage) : Option BuildResult → Type 0 where
  shows_result :
      (br : BuildResult)
      → br.sum ≢ []
      → p.success ≡ true
      → p.sum ≡ br.sum
      → p.in_progress ≡ false
      → p.output ≡ []
      → p.no_store ≡ false
      → p.favicon ≡ codes "/favicon.ico"
      → Shows l p (some br)
  shows_progress :
      (br : Option BuildResult)
      → has_sum br ≡ false
      → (br ≡ none → (l ≡ no_log) ⊎ (l ≡ log_text []))
      → p.success ≡ false
      → p.sum ≡ []
      → p.in_progress ≡ true
      → p.output ≡ []
      → p.no_store ≡ true
      → p.favicon ≡ codes "/favicon-building.png"
      → Shows l p br
  shows_failure :
      (output : Bytes)
      → output ≢ []
      → l ≡ log_text output
      → p.success ≡ false
      → p.sum ≡ []
      → p.in_progress ≡ false
      → p.output ≡ output
      → p.no_store ≡ true
      → p.favicon ≡ codes "/favicon-error.png"
      → Shows l p none

module _ (h : HashTree) (s : Store) (bs : BuildSpec) (f : IndexFacts) where
  without_result :
      (l : LogFile) (output : Bytes)
      → output_of h s bs f none l ≡ some output
      → Shows l (page_of_output h s bs f none output) none
  unfolding page_of_output favicon_of eq_bytes
  without_result no_log [] e =
      shows_progress none refl (λ k. inl refl) refl refl refl refl refl refl
  without_result no_log (c ∷ o) e = absurd (ground (arith, e))
  without_result log_not_read output e = absurd (ground (arith, e))
  without_result (log_text t) [] e =
      let same : t ≡ [] = ground (arith, e) in
      shows_progress none refl (λ k. inr (ap log_text same)) refl refl refl refl refl refl
  without_result (log_text t) (c ∷ o) e =
      let same : t ≡ c ∷ o = ground (arith, e) in
      shows_failure (c ∷ o) (λ k. ground (arith, k)) (ap log_text same) refl refl refl refl refl
        refl

  with_result :
      (l : LogFile) (br : BuildResult) → Shows l (page_of_output h s bs f (some br) []) (some br)
  with_result l br = elim (Bool-cases (eq_bytes br.sum [])) [
    | inl none_given ↦
        shows_progress (some br) (rw none_given refl) (λ k. absurd (ground (arith, k)))
          (unfold page_of_output in rw none_given refl)
          (unfold page_of_output in (eq_bytes_iff br.sum []).0 none_given)
          (unfold page_of_output eq_bytes in rw none_given refl) (unfold page_of_output in refl)
          (unfold page_of_output in rw none_given refl)
          (unfold page_of_output favicon_of eq_bytes in rw none_given refl)
    | inr given ↦
        shows_result br (λ k. ground (arith, given, (eq_bytes_iff br.sum []).1 k))
          (unfold page_of_output in rw given refl) (unfold page_of_output in refl)
          (unfold page_of_output in rw given refl) (unfold page_of_output in refl)
          (unfold page_of_output in rw given refl)
          (unfold page_of_output favicon_of eq_bytes in rw given refl)
  ]

  -- A page that is served shows one of three things: the result that is given, with its sum; that the
  -- build is in progress, where there is no result and no log or an empty one, or a result without a
  -- sum; or the log of a build that failed, where there is no result. Only the first may be stored
  -- by the client.
  pub serve_index-Shows :
      (br : Option BuildResult) (p : IndexPage)
      → serve_index h s bs f br ≡ some p
      → Shows f.log_file p br
  serve_index-Shows (some br) p e =
      let same : page_of_output h s bs f (some br) [] ≡ p =
        unfold serve_index in ground (arith, e) in
      subst (λ x. Shows f.log_file x (some br)) same (with_result f.log_file br)
  serve_index-Shows none p e = go (output_of h s bs f none f.log_file) refl
    where
      go : (o : Option Bytes) → output_of h s bs f none f.log_file ≡ o → Shows f.log_file p none
      go none k = absurd (unfold serve_index in ground (arith, e, k))
      go (some output) k =
          let same : page_of_output h s bs f none output ≡ p =
            unfold serve_index in ground (arith, e, k) in
          subst (λ x. Shows f.log_file x none) same (without_result f.log_file output k)

-- After a history, in which no addSum fails after its first permanent write, with a hash tree that
-- has its laws, the rows of a page lead to the pages of their targets, toolchains and variants,
-- are marked as successes where the builds of the history have added a result with the directory
-- of that page, and as active on that page itself: for a canonical specification, with
-- targets that are available and toolchains without a dash or a slash in their names.
pub serve_index-HasRows_after :
    (h : HashTree) (log : List BuildResult) (w : Server) (bs : BuildSpec) (f : IndexFacts)
    (br : Option BuildResult) (p : IndexPage)
    → IsHashTree h
    → History h log w
    → IsCanonical bs
    → All IsPlainTarget f.target_list
    → All IsPlain f.supported_list
    → All IsPlain f.remaining_list
    → serve_index h w.store bs f br ≡ some p
    → HasRows h log bs p
serve_index-HasRows_after h log w bs f br p t r c targets supported remaining =
    serve_index-HasRows h log w.store (History-Represents h t r) bs c f targets supported remaining
      br p
