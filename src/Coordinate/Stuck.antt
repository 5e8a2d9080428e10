-- ===== src/Coordinate/Stuck.antt =====
-- A build that kick drops from the queue keeps its entry, and is then never built.
use gobuild.Common.{
  ℕ, ◌≡◌, refl, true, false, inl, inr, List, [], ◌∷◌, ◌++◌, append_assoc, append-nil, length, leb,
  ltb, Option, none, some, arith, Bool-cases, Result, ok, err, ◌>>=◌,
}
use gobuild.Spec.{BuildSpec}
use gobuild.Spec.Equality.{eq_spec_iff}
use gobuild.Coordinate.{
  BuildUpdate, BuildRequest, WipBuild, Coordinator, Fault, Verdict, wait, abandoned, missing, start,
  send, channel_capacity, verdict, kick_start, kick_loop, kick, start_build, notify_rest,
  send_pending, put_build,
}
use gobuild.Coordinate.Steps.{tell_position, tell_final, register_new}
use gobuild.Coordinate.Members.{has_spec, has_spec-append, has_spec-middle}
use gobuild.Coordinate.Invariant.{IfOk, is_pending}

-- The entry is not concluded, and the build is neither queued nor running.
pub record IsStuck (s : BuildSpec) (c : Coordinator) : Type 0 where
  pub pending : is_pending (c.builds s) ≡ true
  pub not_queued : has_spec s c.queue ≡ false
  pub not_running : has_spec s c.running ≡ false

module _ (s : BuildSpec) where
  kick_start-IsStuck :
      (c : Coordinator) (before rest : List BuildRequest) (r : BuildRequest) (b : WipBuild)
      → IsStuck s (record c { queue = before ++ r ∷ rest })
      → IfOk (IsStuck s) (kick_start c before r rest b)
  kick_start-IsStuck c before rest r b v =
      unfold kick_start in
      go (notify_rest c.builds (length before) rest (send_pending b 0 c.buffers))
    where
      go :
          (n : Result Fault (ℕ → List BuildUpdate))
          → IfOk
              (IsStuck s)
              (n >>= λ m. ok (record (start_build c r) { queue = before ++ rest; buffers = m }))
      go (ok m) =
          unfold start_build in
          record {
            pending = v.pending;
            not_queued = ground (arith, v.not_queued, has_spec-middle s before rest r);
            not_running =
                unfold has_spec in
                ground (arith, v.not_queued, v.not_running, has_spec-middle s before rest r);
          }
      go (err e) = tt

  pub kick_loop-IsStuck :
      (c : Coordinator) (before rest : List BuildRequest)
      → IsStuck s (record c { queue = before ++ rest })
      → IfOk (IsStuck s) (kick_loop c before rest)
  kick_loop-IsStuck c before [] v = unfold kick_loop in rw (append-nil before) at v
  kick_loop-IsStuck c before (r ∷ rest) v =
      go (verdict c r) refl (kick_loop-IsStuck c (before ++ r ∷ []) rest (rw append_assoc v)) (
        kick_loop-IsStuck c before rest (record {
          pending = v.pending;
          not_queued = ground (arith, v.not_queued, has_spec-middle s before rest r);
          not_running = v.not_running;
        }))
    where
      go :
          (w : Verdict)
          → verdict c r ≡ w
          → IfOk (IsStuck s) (kick_loop c (before ++ r ∷ []) rest)
          → IfOk (IsStuck s) (kick_loop c before rest)
          → IfOk (IsStuck s) (kick_loop c before (r ∷ rest))
      go wait e skip drop = unfold kick_loop in rw (e, kick_loop) skip
      go abandoned e skip drop = unfold kick_loop in rw (e, kick_loop) drop
      go missing e skip drop = unfold kick_loop in rw (e, kick_loop) tt
      go (start b) e skip drop =
          unfold kick_loop in rw (e, kick_loop) (kick_start-IsStuck c before rest r b v)

  pub kick-IsStuck : (c : Coordinator) → IsStuck s c → IfOk (IsStuck s) (kick c)
  unfolding kick
  kick-IsStuck c v = elim (Bool-cases (leb c.max_builds c.active)) [
    | inl full ↦ rw full v
    | inr room ↦ rw room (kick_loop-IsStuck c [] c.queue v)
  ]

  -- Changes outside the queue and the running builds, with the entry still pending.
  pub frame :
      (c c' : Coordinator)
      → IsStuck s c
      → is_pending (c'.builds s) ≡ true
      → c'.queue ≡ c.queue
      → c'.running ≡ c.running
      → IsStuck s c'
  frame c c' v p q r = record {
    pending = p;
    not_queued = rw q v.not_queued;
    not_running = rw r v.not_running;
  }

  send-IsStuck :
      (n : ℕ) (u : BuildUpdate) (c : Coordinator)
      → IsStuck s c
      → IfOk (IsStuck s) (send n u c.buffers >>= λ m. ok (record c { buffers = m }))
  unfolding send
  send-IsStuck n u c v = elim (Bool-cases (ltb (length (c.buffers n)) channel_capacity)) [
    | inl room ↦ rw room (frame c _ v v.pending refl refl)
    | inr full ↦ rw full tt
  ]

  pub tell_position-IsStuck :
      (n : ℕ) (c : Coordinator) → IsStuck s c → IfOk (IsStuck s) (tell_position n c)
  unfolding tell_position
  tell_position-IsStuck n c v = send-IsStuck n _ c v

  pub tell_final-IsStuck :
      (n : ℕ) (u : BuildUpdate) (c : Coordinator)
      → IsStuck s c
      → IfOk (IsStuck s) (tell_final n u c)
  unfolding tell_final
  tell_final-IsStuck n u c v = send-IsStuck n u c v

  -- A registration for another specification, which has no entry.
  pub register_new-IsStuck :
      (r : BuildRequest) (f : Option BuildUpdate) (c : Coordinator)
      → IsStuck s c
      → c.builds r.bs ≡ none
      → IfOk (IsStuck s) (register_new r f c)
  register_new-IsStuck r (some u) c v e =
      unfold register_new in
      tell_final-IsStuck r.eventc u _
        (frame c _ v (ground (arith, v.pending, eq_spec_iff s r.bs)) refl refl)
  register_new-IsStuck r none c v e =
      unfold register_new in go (kick queued) (kick-IsStuck queued stuck)
    where
      queued : Coordinator
      queued = record c {
        builds = put_build r.bs (some (record { events = r.eventc ∷ []; final = none })) c.builds;
        queue = c.queue ++ r ∷ [];
      }

      stuck : IsStuck s queued
      stuck = record {
        pending = ground (arith, v.pending, eq_spec_iff s r.bs);
        not_queued =
            unfold has_spec in
            ground (
              arith,
              v.not_queued,
              v.pending,
              has_spec-append s c.queue (r ∷ []),
              eq_spec_iff r.bs s,
            );
        not_running = v.not_running;
      }

      go :
          (k : Result Fault Coordinator)
          → IfOk (IsStuck s) k
          → IfOk (IsStuck s) (k >>= tell_position r.eventc)
      go (ok c') h = tell_position-IsStuck r.eventc c' h
      go (err x) h = tt
