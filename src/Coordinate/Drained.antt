-- ===== src/Coordinate/Drained.antt =====
-- Builds that run end one after another, in any order, while no client registers: the coordinator
-- starts the queued ones as slots and paths become free, until nothing waits and nothing runs.
use gobuild.Common.{length-eq-zero}
use gobuild.Coordinate.Progress.{IsBusy, IsSaturated}
use gobuild.Common.{
  length-eq-zero, zero, suc, All, ap, ◌<◌, ℕ, ◌+◌, ◌≤◌, ◌≡◌, refl, true, inl, inr, List, [], ◌∷◌,
  length, arith, Result, ok, err, ◌>>=◌,
}
use gobuild.Coordinate.{new_coordinator, BuildRequest, Coordinator, Fault}
use gobuild.Coordinate.Steps.{BuildOutcome, finish}
use gobuild.Coordinate.Members.{has_path, path_of, has_spec}
use gobuild.Coordinate.Safety.{finish-Inv}
use gobuild.Coordinate.Invariant.{Inv, Ensures, IfOk}
use gobuild.Coordinate.Light.{IsLight, finish-IsLight}
use gobuild.Coordinate.Runs.{finishes, Reach, next, run-Inv}
use gobuild.Coordinate.Limit.{Reach-HasMax, new_coordinator_positive}
use gobuild.Coordinate.Saturation.{run-IsSaturated}

-- The next build ends, `n` times or until none runs: `next_to_end` says which of those that run,
-- and `build_of` what each returns.
unfoldable pub drain :
    (BuildRequest → List BuildRequest → BuildRequest)
    → (BuildRequest → BuildOutcome)
    → ℕ
    → Coordinator
    → Result Fault Coordinator
drain next_to_end build_of zero c = ok c
drain next_to_end build_of (suc n) c = elim c.running [
  | [] ↦ ok c
  | r ∷ rs ↦
      finish (next_to_end r rs) (build_of (next_to_end r rs)) c >>= drain next_to_end build_of n
]

pub record IsDrained (c : Coordinator) : Type 0 where
  pub none_waits : c.queue ≡ []
  pub none_runs : c.running ≡ []

-- A slot is free where nothing runs, so a queued build would have started.
idle-IsDrained :
    (c : Coordinator) → Inv c → IsSaturated c → 0 < c.max_builds → c.running ≡ [] → IsDrained c
idle-IsDrained c v (inl full) positive e =
    absurd (omega (arith, v.counted, ap (length {A = BuildRequest}) e))
idle-IsDrained c v (inr busy) positive e = record {
  none_waits = go c.queue refl busy;
  none_runs = e;
}
  where
    go : (q : List BuildRequest) → c.queue ≡ q → All (IsBusy c) q → q ≡ []
    go [] h b = refl
    go (r ∷ rs) h b =
        absurd
          (unfold has_path in ground (arith, b.0, v.busy (path_of r), ap (has_path (path_of r)) e))

module _ (next_to_end : BuildRequest → List BuildRequest → BuildRequest)
    (build_of : BuildRequest → BuildOutcome)
    (runs : (r : BuildRequest) (rs : List BuildRequest)
      → has_spec (next_to_end r rs).bs (r ∷ rs) ≡ true)
    (config_max num_cpu : ℕ) where
  -- In every state that a run reaches, as many ends of builds as builds wait or run are enough, in
  -- whatever order the running builds end and whatever each returns: none of them stops the
  -- coordinator, and after them no build waits and none runs.
  pub drain-IsDrained :
      (n : ℕ) (c : Coordinator)
      → Reach (new_coordinator config_max num_cpu) c
      → length c.queue + length c.running ≤ n
      → Ensures IsDrained (drain next_to_end build_of n c)
  unfolding drain
  drain-IsDrained zero c reach enough = record {
    none_waits = length-eq-zero c.queue (omega arith);
    none_runs = length-eq-zero c.running (omega arith);
  }
  drain-IsDrained (suc n) c reach enough = go c.running refl λ d. drain-IsDrained n d
    where
      v : Inv c
      v = run-Inv config_max num_cpu reach

      running_one :
          (r : BuildRequest) (rs : List BuildRequest)
          → c.running ≡ r ∷ rs
          → has_spec (next_to_end r rs).bs c.running ≡ true
      running_one r rs e = rw e (runs r rs)

      Later : Type 0
      Later =
          (d : Coordinator)
          → Reach (new_coordinator config_max num_cpu) d
          → length d.queue + length d.running ≤ n
          → Ensures IsDrained (drain next_to_end build_of n d)

      after :
          (r : BuildRequest) (k : Result Fault Coordinator)
          → has_spec r.bs c.running ≡ true
          → finish r (build_of r) c ≡ k
          → Ensures Inv k
          → IfOk (IsLight c.max_builds n) k
          → Later
          → Ensures IsDrained (k >>= drain next_to_end build_of n)
      after r (ok d) h e w light ih = ih d (next reach (finishes r (build_of r) h e)) light.1
      after r (err x) h e w light ih = absurd w

      go :
          (rs : List BuildRequest)
          → c.running ≡ rs
          → Later
          → Ensures IsDrained (drain next_to_end build_of (suc n) c)
      go [] e ih =
          unfold drain in
          rw (drain, e)
            (idle-IsDrained c v (run-IsSaturated config_max num_cpu reach)
              (rw (Reach-HasMax _ refl reach) (new_coordinator_positive config_max num_cpu)) e)
      go (r ∷ rs) e ih =
          unfold drain in
          rw (drain, e)
            (after (next_to_end r rs) _ (running_one r rs e) refl
              (finish-Inv _ c v (running_one r rs e) _)
              (finish-IsLight c.max_builds n _ _ c (refl, omega (arith, enough))
                (running_one r rs e))
              ih)
