-- ===== src/Coordinate/Progress.antt =====
-- No slot stays free while a queued build could run, and builds start in the order of the queue.
use gobuild.Common.{
  ℕ, ◌+◌, ◌≤◌, ◌≡◌, refl, true, false, ◌⊎◌, inl, inr, List, [], ◌∷◌, ◌++◌, length, leb, Bytes,
  eq_bytes_iff, arith, Bool-cases, Result, ok, err, ◌>>=◌, All, All-append, All-mono,
}
use gobuild.Coordinate.{
  BuildUpdate, BuildRequest, WipBuild, Coordinator, Fault, Verdict, wait, abandoned, missing, start,
  verdict, kick_start, kick_loop, kick, start_build, notify_rest, send_pending,
}
use gobuild.Coordinate.Members.{path_of}
use gobuild.Coordinate.Invariant.{Means, verdict-Means, IfOk}

abbrev pub IsBusy : Coordinator → BuildRequest → Type 0
IsBusy c r = c.path_busy (path_of r) ≡ true

-- The maximum of builds runs, or every queued request waits for its output path.
abbrev pub IsSaturated : Coordinator → Type 0
IsSaturated c = (c.max_builds ≤ c.active) ⊎ All (IsBusy c) c.queue

-- One slot, or one output path, may be free.
abbrev pub AlmostSaturated : Coordinator → Bytes → List BuildRequest → Type 0
AlmostSaturated c p rs = (c.max_builds ≤ c.active + 1) ⊎ All (λ r. IsBusy c r ⊎ (path_of r ≡ p)) rs

start_build-IsSaturated :
    (c : Coordinator) (p : Bytes) (before rest : List BuildRequest) (r : BuildRequest)
    (m : ℕ → List BuildUpdate)
    → c.path_busy (path_of r) ≡ false
    → AlmostSaturated c p (r ∷ rest)
    → All (IsBusy c) before
    → IsSaturated (record (start_build c r) { queue = before ++ rest; buffers = m })
unfolding start_build
start_build-IsSaturated c p before rest r m free (inl full) b = inl (omega arith)
start_build-IsSaturated c p before rest r m free (inr (one, others)) b = inr (
    All-append _ before rest (All-mono (λ x h. ground arith) before b)
      (All-mono (λ x h. ground (arith, eq_bytes_iff (path_of x) (path_of r))) rest others))

kick_start-IsSaturated :
    (c : Coordinator) (p : Bytes) (before rest : List BuildRequest) (r : BuildRequest)
    (b : WipBuild)
    → c.path_busy (path_of r) ≡ false
    → AlmostSaturated c p (r ∷ rest)
    → All (IsBusy c) before
    → IfOk IsSaturated (kick_start c before r rest b)
kick_start-IsSaturated c p before rest r b free a h =
    unfold kick_start in go (notify_rest c.builds (length before) rest (send_pending b 0 c.buffers))
  where
    go :
        (n : Result Fault (ℕ → List BuildUpdate))
        → IfOk IsSaturated
            (n >>= λ m. ok (record (start_build c r) { queue = before ++ rest; buffers = m }))
    go (ok m) = start_build-IsSaturated c p before rest r m free a h
    go (err e) = tt

fewer :
    (c : Coordinator) (p : Bytes) (r : BuildRequest) (rest : List BuildRequest)
    → AlmostSaturated c p (r ∷ rest)
    → AlmostSaturated c p rest
fewer c p r rest (inl full) = inl full
fewer c p r rest (inr h) = inr h.1

kick_loop-IsSaturated :
    (c : Coordinator) (p : Bytes) (before rest : List BuildRequest)
    → AlmostSaturated c p rest
    → All (IsBusy c) before
    → IfOk IsSaturated (kick_loop c before rest)
kick_loop-IsSaturated c p before [] a h = unfold kick_loop in inr h
kick_loop-IsSaturated c p before (r ∷ rest) a h =
    go (verdict c r) refl (verdict-Means c r)
      (λ b.
        kick_loop-IsSaturated c p (before ++ r ∷ []) rest (fewer c p r rest a)
          (All-append _ before (r ∷ []) h (b, tt)))
      (kick_loop-IsSaturated c p before rest (fewer c p r rest a) h)
  where
    go :
        (w : Verdict)
        → verdict c r ≡ w
        → Means c r (verdict c r)
        → (IsBusy c r → IfOk IsSaturated (kick_loop c (before ++ r ∷ []) rest))
        → IfOk IsSaturated (kick_loop c before rest)
        → IfOk IsSaturated (kick_loop c before (r ∷ rest))
    go wait e means skip drop = unfold kick_loop in rw (e, kick_loop) (skip (rw e at means))
    go abandoned e means skip drop = unfold kick_loop in rw (e, kick_loop) drop
    go missing e means skip drop = unfold kick_loop in rw (e, kick_loop) tt
    go (start b) e means skip drop =
        let (free, _, _) = rw e at means in
        unfold kick_loop in rw (e, kick_loop) (kick_start-IsSaturated c p before rest r b free a h)

pub kick-IsSaturated :
    (c : Coordinator) (p : Bytes) → AlmostSaturated c p c.queue → IfOk IsSaturated (kick c)
unfolding kick
kick-IsSaturated c p a = elim (Bool-cases (leb c.max_builds c.active)) [
  | inl full ↦ rw full (inl (ground arith))
  | inr room ↦ rw room (kick_loop-IsSaturated c p [] c.queue a tt)
]
