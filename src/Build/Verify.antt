-- ===== src/Build/Verify.antt =====
-- gobuild.go: the verifiers of a build, servers whose results must have the same sum.
pub mod Agreed
use gobuild.Common.{
  ℕ, ◌==◌, if◌then◌else◌, Option, List, [], ◌∷◌, ◌++◌, Bytes, codes, eq_bytes, Result, ok, err,
  ◌>>=◌, ◌>>◌, guard, or_fail,
}
use gobuild.Spec.{BuildSpec}
use gobuild.Record.{BuildResult, RecordError, parse_record}
use gobuild.Request.{record_page, link}

-- What httpGet returns; a body of `none` cannot be read.
pub record Response : Type 0 where
  pub status : ℕ
  pub body : Option Bytes

pub data VerifyError : Type 0 where
  no_response body_not_read : VerifyError
  bad_status : ℕ → VerifyError
  not_a_record : RecordError → VerifyError

abbrev pub or_not_a_record : Result RecordError BuildResult → Result VerifyError BuildResult
or_not_a_record (ok br) = ok br
or_not_a_record (err e) = err (not_a_record e)

-- verify, the function in build
unfoldable pub verify :
    (Bytes → Option Response) → BuildSpec → Bytes → Result VerifyError BuildResult
verify http_get bs base_url = do
  resp ←
      or_fail (http_get (base_url ++ link (record { spec = bs; sum = []; page = record_page })))
        no_response
  guard (resp.status == 200) (bad_status resp.status)
  msg ← or_fail resp.body body_not_read
  or_not_a_record (parse_record msg)

-- matchesFrom and mismatches
pub record Votes : Type 0 where
  pub matches_from : List Bytes
  pub mismatches : List Bytes

pub record NoVote : Type 0 where
  pub url : Bytes
  pub error : VerifyError

unfoldable pub count_vote : Bytes → Bytes → BuildResult → Votes → Votes
count_vote sum url br v =
    if eq_bytes br.sum sum
    then record v { matches_from = v.matches_from ++ url ∷ [] }
    else record v { mismatches = v.mismatches ++ (url ++ (codes " got " ++ br.sum)) ∷ [] }

-- The loop over the results, which arrive from the verifiers in the order of the list. The first
-- error ends it.
unfoldable pub collect_votes :
    (Bytes → Result VerifyError BuildResult) → Bytes → List Bytes → Votes → Result NoVote Votes
unfolding count_vote
collect_votes ask sum [] v = ok v
collect_votes ask sum (url ∷ urls) v = elim (ask url) [
  | err e ↦ err (record { url = url; error = e })
  | ok br ↦ collect_votes ask sum urls (count_vote sum url br v)
]
