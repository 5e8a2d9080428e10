-- ===== src/Build/Verify/Agreed.antt =====
-- gobuild.go: what the votes of the verifiers say when no mismatch is found.
use gobuild.Common.{
  codes, ◌≤◌, ◌≡◌, refl, List, [], ◌∷◌, ◌++◌, All, Bytes, eq_bytes, eq_bytes_iff, arith, Bool-cases,
  inl, inr, length, length-append, Result, ok, err,
}
use gobuild.Record.{BuildResult}
use gobuild.Build.Verify.{Votes, VerifyError, count_vote, collect_votes}

-- Each of the verifiers has returned a record with this sum.
abbrev pub AllAgree : (Bytes → Result VerifyError BuildResult) → Bytes → List Bytes → Type 0
AllAgree ask sum = All (λ url. (br : BuildResult) × (ask url ≡ ok br) × (br.sum ≡ sum))

count_vote-mismatches :
    (sum url : Bytes) (br : BuildResult) (v : Votes)
    → length v.mismatches ≤ length (count_vote sum url br v).mismatches
unfolding count_vote
count_vote-mismatches sum url br v = elim (Bool-cases (eq_bytes br.sum sum)) [
  | inl same ↦ rw same (omega arith)
  | inr other ↦ rw (other, length-append v.mismatches) (omega arith)
]

-- A result with another sum is a mismatch.
count_vote-agrees :
    (sum url : Bytes) (br : BuildResult) (v : Votes)
    → length (count_vote sum url br v).mismatches ≡ 0
    → br.sum ≡ sum
unfolding count_vote
count_vote-agrees sum url br v h = elim (Bool-cases (eq_bytes br.sum sum)) [
  | inl same ↦ (eq_bytes_iff br.sum sum).0 same
  | inr other ↦
      absurd (
        ground (arith, other, length-append v.mismatches ((url ++ (codes " got " ++ br.sum)) ∷ [])))
]

module _ (ask : Bytes → Result VerifyError BuildResult) (sum : Bytes) where
  -- Mismatches are never taken back.
  collect_votes-mismatches :
      (urls : List Bytes) (v v' : Votes)
      → collect_votes ask sum urls v ≡ ok v'
      → length v.mismatches ≤ length v'.mismatches
  collect_votes-mismatches [] v v' h = unfold collect_votes in ground arith
  collect_votes-mismatches (url ∷ urls) v v' h =
      go (ask url) refl (λ w. collect_votes-mismatches urls w v')
    where
      go :
          (x : Result VerifyError BuildResult)
          → ask url ≡ x
          → ((w : Votes)
              → collect_votes ask sum urls w ≡ ok v'
              → length w.mismatches ≤ length v'.mismatches)
          → length v.mismatches ≤ length v'.mismatches
      go (err e) k ih = absurd (unfold collect_votes in ground arith)
      go (ok br) k ih =
          let more = ih (count_vote sum url br v) (unfold collect_votes in ground arith) in
          let first = count_vote-mismatches sum url br v in omega arith

  -- If no mismatch was found, the verifiers agree.
  pub collect_votes-AllAgree :
      (urls : List Bytes) (v v' : Votes)
      → collect_votes ask sum urls v ≡ ok v'
      → length v'.mismatches ≡ 0
      → AllAgree ask sum urls
  collect_votes-AllAgree [] v v' h z = tt
  collect_votes-AllAgree (url ∷ urls) v v' h z =
      go (ask url) refl (λ w k. collect_votes-AllAgree urls w v' k z)
    where
      go :
          (x : Result VerifyError BuildResult)
          → ask url ≡ x
          → ((w : Votes) → collect_votes ask sum urls w ≡ ok v' → AllAgree ask sum urls)
          → AllAgree ask sum (url ∷ urls)
      go (err e) k ih = absurd (unfold collect_votes in ground arith)
      go (ok br) k ih =
          let rest : collect_votes ask sum urls (count_vote sum url br v) ≡ ok v' =
            unfold collect_votes in ground arith in
          let none_now = collect_votes-mismatches urls (count_vote sum url br v) v' rest in
          ((br, k, count_vote-agrees sum url br v (omega arith)), ih (count_vote sum url br v) rest)
