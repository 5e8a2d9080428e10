-- ===== src/Coordinate/Limit.antt =====
-- The maximum of builds is set at the start and stays.
use gobuild.Spec.{BuildSpec}
use gobuild.Common.{
  ◌>>◌, guard, Bool, ◌<◌, ltb, ℕ, ◌+◌, ◌≡◌, refl, true, false, inl, inr, [], ◌∷◌, ◌++◌, length,
  Option, none, some, arith, Bool-cases, Result, ok, err, ◌>>=◌,
}
use gobuild.Coordinate.{
  channel_not_found, BuildSpec, new_coordinator, put_build, channel_capacity, send, BuildUpdate,
  BuildRequest, WipBuild, Coordinator, Fault, kick,
}
use gobuild.Coordinate.Steps.{
  unregister, add_listener, final_of_lookup, register_known, register, tell_position, tell_final,
  Lookup, register_new, BuildOutcome, finish,
}
use gobuild.Coordinate.Invariant.{IfOk}
use gobuild.Coordinate.Light.{IsLight, kick-IsLight}
use gobuild.Coordinate.Runs.{Step, registers, unregisters, receives, finishes, Reach, here, next}

abbrev pub HasMax : ℕ → Coordinator → Type 0
HasMax m c = c.max_builds ≡ m

IsLight-HasMax : (m n : ℕ) (k : Result Fault Coordinator) → IfOk (IsLight m n) k → IfOk (HasMax m) k
IsLight-HasMax m n (ok c) h = h.0
IsLight-HasMax m n (err x) h = tt

kick-HasMax : (m : ℕ) (c : Coordinator) → HasMax m c → IfOk (HasMax m) (kick c)
kick-HasMax m c e =
    IsLight-HasMax m _ (kick c)
      (kick-IsLight m (length c.queue + length c.running) c (e, omega arith))

send-HasMax :
    (m n : ℕ) (u : BuildUpdate) (c : Coordinator)
    → HasMax m c
    → IfOk (HasMax m) (send n u c.buffers >>= λ s. ok (record c { buffers = s }))
unfolding send
send-HasMax m n u c e = elim (Bool-cases (ltb (length (c.buffers n)) channel_capacity)) [
  | inl room ↦ rw room e
  | inr full ↦ rw full tt
]

module _ (m : ℕ) where
  tell_position-HasMax :
      (n : ℕ) (c : Coordinator) → HasMax m c → IfOk (HasMax m) (tell_position n c)
  unfolding tell_position
  tell_position-HasMax n c e = send-HasMax m n _ c e

  tell_final-HasMax :
      (n : ℕ) (u : BuildUpdate) (c : Coordinator) → HasMax m c → IfOk (HasMax m) (tell_final n u c)
  unfolding tell_final
  tell_final-HasMax n u c e = send-HasMax m n u c e

  register_new-HasMax :
      (r : BuildRequest) (f : Option BuildUpdate) (c : Coordinator)
      → HasMax m c
      → IfOk (HasMax m) (register_new r f c)
  unfolding register_new
  register_new-HasMax r (some u) c e = tell_final-HasMax r.eventc u _ e
  register_new-HasMax r none c e = go (kick queued) (kick-HasMax m queued e)
    where
      queued : Coordinator
      queued = record c {
        builds = put_build r.bs (some (record { events = r.eventc ∷ []; final = none })) c.builds;
        queue = c.queue ++ r ∷ [];
      }

      go :
          (k : Result Fault Coordinator)
          → IfOk (HasMax m) k
          → IfOk (HasMax m) (k >>= tell_position r.eventc)
      go (ok c') h = tell_position-HasMax r.eventc c' h
      go (err x) h = tt

  register-HasMax :
      (r : BuildRequest) (l : Lookup) (c : Coordinator)
      → HasMax m c
      → IfOk (HasMax m) (register r l c)
  register-HasMax r l c e = go (c.builds r.bs) refl
    where
      joined : WipBuild → Coordinator
      joined b = record c { builds = put_build r.bs (some (add_listener b r.eventc)) c.builds }

      known : (b : WipBuild) (f : Option BuildUpdate) → IfOk (HasMax m) (register_known r b f c)
      known b (some u) = unfold register_known in tell_final-HasMax r.eventc u (joined b) e
      known b none = unfold register_known in tell_position-HasMax r.eventc (joined b) e

      go : (o : Option WipBuild) → c.builds r.bs ≡ o → IfOk (HasMax m) (register r l c)
      go none q =
          unfold register in rw (q, register) (register_new-HasMax r (final_of_lookup r.bs l) c e)
      go (some b) q = unfold register in rw (q, register) (known b b.final)

  unregister-HasMax :
      (bs : BuildSpec) (n : ℕ) (c : Coordinator) → HasMax m c → IfOk (HasMax m) (unregister bs n c)
  unregister-HasMax bs n c e = go (c.builds bs) refl
    where
      left :
          (t : Bool) (o : Option WipBuild)
          → IfOk
              (HasMax m)
              (guard t channel_not_found >> ok (record c { builds = put_build bs o c.builds }))
      left true o = e
      left false o = tt

      go : (o : Option WipBuild) → c.builds bs ≡ o → IfOk (HasMax m) (unregister bs n c)
      go none q = unfold unregister in rw q tt
      go (some b) q = unfold unregister in rw q (left _ _)

  finish-HasMax :
      (r : BuildRequest) (o : BuildOutcome) (c : Coordinator)
      → HasMax m c
      → IfOk (HasMax m) (finish r o c)
  unfolding finish
  finish-HasMax r o c e = go (c.builds r.bs) refl
    where
      go : (b : Option WipBuild) → c.builds r.bs ≡ b → IfOk (HasMax m) (finish r o c)
      go none q = rw q tt
      go (some b) q = rw q (kick-HasMax m _ e)

  Step-HasMax : {c c' : Coordinator} → Step c c' → HasMax m c → HasMax m c'
  Step-HasMax {c} (registers r l h) e = rw h at (register-HasMax r l c e)
  Step-HasMax {c} (unregisters bs n h) e = rw h at (unregister-HasMax bs n c e)
  Step-HasMax {c} (receives n u us q h) e = rw h e
  Step-HasMax {c} (finishes r o k h) e = rw h at (finish-HasMax r o c e)

  pub Reach-HasMax : {c c' : Coordinator} → HasMax m c → Reach c c' → HasMax m c'
  Reach-HasMax e here = e
  Reach-HasMax e (next r s) = Step-HasMax s (Reach-HasMax e r)

pub new_coordinator_positive :
    (config_max num_cpu : ℕ) → 0 < (new_coordinator config_max num_cpu).max_builds
unfolding new_coordinator
new_coordinator_positive k n = ground arith
