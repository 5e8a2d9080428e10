-- ===== src/Coordinate/Light.antt =====
-- kick starts and drops builds and adds none, and a build that ends is gone from the counts.
use gobuild.Common.{
  ℕ, ◌+◌, ◌≤◌, ◌≡◌, refl, true, inl, inr, List, [], ◌∷◌, ◌++◌, length, length-append, leb, Option,
  none, some, arith, Bool-cases, Result, ok, err, ◌>>=◌,
}
use gobuild.Coordinate.{
  BuildUpdate, BuildRequest, WipBuild, Coordinator, Fault, Verdict, wait, abandoned, missing, start,
  verdict, kick_start, kick_loop, kick, start_build, notify_rest, send_pending,
}
use gobuild.Coordinate.Steps.{BuildOutcome, finish}
use gobuild.Coordinate.Members.{has_spec}
use gobuild.Coordinate.Safety.{length-without_running}
use gobuild.Coordinate.Invariant.{IfOk}

-- How many builds wait or run is at most `n`, of which at most `m` may run.
abbrev pub IsLight : ℕ → ℕ → Coordinator → Type 0
IsLight m n c = (c.max_builds ≡ m) × (length c.queue + length c.running ≤ n)

module _ (m n : ℕ) where
  kick_start-IsLight :
      (c : Coordinator) (before rest : List BuildRequest) (r : BuildRequest) (b : WipBuild)
      → c.max_builds ≡ m
      → length before + length (r ∷ rest) + length c.running ≤ n
      → IfOk (IsLight m n) (kick_start c before r rest b)
  kick_start-IsLight c before rest r b e h =
      unfold kick_start in
      go (notify_rest c.builds (length before) rest (send_pending b 0 c.buffers))
    where
      go :
          (k : Result Fault (ℕ → List BuildUpdate))
          → IfOk
              (IsLight m n)
              (k >>= λ s. ok (record (start_build c r) { queue = before ++ rest; buffers = s }))
      go (ok s) = unfold start_build in (e, omega (arith, h, length-append before rest))
      go (err x) = tt

  kick_loop-IsLight :
      (c : Coordinator) (before rest : List BuildRequest)
      → c.max_builds ≡ m
      → length before + length rest + length c.running ≤ n
      → IfOk (IsLight m n) (kick_loop c before rest)
  kick_loop-IsLight c before [] e h = unfold kick_loop in (e, omega (arith, h))
  kick_loop-IsLight c before (r ∷ rest) e h =
      go (verdict c r) refl
        (kick_loop-IsLight c (before ++ r ∷ []) rest e
          (omega (arith, h, length-append before (r ∷ []))))
        (kick_loop-IsLight c before rest e (omega (arith, h)))
    where
      go :
          (w : Verdict)
          → verdict c r ≡ w
          → IfOk (IsLight m n) (kick_loop c (before ++ r ∷ []) rest)
          → IfOk (IsLight m n) (kick_loop c before rest)
          → IfOk (IsLight m n) (kick_loop c before (r ∷ rest))
      go wait v skip drop = unfold kick_loop in rw (v, kick_loop) skip
      go abandoned v skip drop = unfold kick_loop in rw (v, kick_loop) drop
      go missing v skip drop = unfold kick_loop in rw (v, kick_loop) tt
      go (start b) v skip drop =
          unfold kick_loop in rw (v, kick_loop) (kick_start-IsLight c before rest r b e h)

  pub kick-IsLight : (c : Coordinator) → IsLight m n c → IfOk (IsLight m n) (kick c)
  unfolding kick
  kick-IsLight c (e, h) = elim (Bool-cases (leb c.max_builds c.active)) [
    | inl full ↦ rw full (e, h)
    | inr room ↦ rw room (kick_loop-IsLight c [] c.queue e (omega (arith, h)))
  ]

  -- The build that ends is no longer counted.
  pub finish-IsLight :
      (r : BuildRequest) (o : BuildOutcome) (c : Coordinator)
      → IsLight m (n + 1) c
      → has_spec r.bs c.running ≡ true
      → IfOk (IsLight m n) (finish r o c)
  unfolding finish
  finish-IsLight r o c (e, h) running = go (c.builds r.bs) refl
    where
      go : (b : Option WipBuild) → c.builds r.bs ≡ b → IfOk (IsLight m n) (finish r o c)
      go none q = rw q tt
      go (some b) q =
          rw q (kick-IsLight _ (e, omega (arith, h, length-without_running r.bs c.running running)))
