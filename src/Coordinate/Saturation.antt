-- ===== src/Coordinate/Saturation.antt =====
-- Every run of the coordinator keeps its slots in use.
use gobuild.Common.{
  guard, ℕ, ◌-◌, ◌≡◌, refl, Bool, true, false, ◌&&◌, ◌⊎◌, inl, inr, List, [], ◌∷◌, ◌++◌,
  if◌then◌else◌, length, ltb, Option, none, some, Bytes, eq_bytes_iff, arith, Bool-cases, Result,
  ok, err, ◌>>=◌, ◌>>◌, All, All-append, All-mono,
}
use gobuild.Spec.{BuildSpec, output_path}
use gobuild.Coordinate.{
  try_send_all, send, channel_capacity, put_build, channel_not_found, BuildUpdate, BuildRequest,
  WipBuild, Coordinator, Fault, kick, put_path, new_coordinator,
}
use gobuild.Coordinate.Steps.{
  outcome_update, is_final, is_empty, Lookup, BuildOutcome, final_of_lookup, tell_position,
  tell_final, register_new, register_known, register, unregister, finish, without, without_running,
}
use gobuild.Coordinate.Runs.{Step, registers, unregisters, receives, finishes, Reach, here, next}
use gobuild.Coordinate.Members.{path_of}
use gobuild.Coordinate.Invariant.{IfOk}
use gobuild.Coordinate.Progress.{IsBusy, IsSaturated, AlmostSaturated, kick-IsSaturated}

IsBusy-or :
    (c : Coordinator) (p : Bytes) (rs : List BuildRequest)
    → All (IsBusy c) rs
    → All (λ r. IsBusy c r ⊎ (path_of r ≡ p)) rs
IsBusy-or c p rs h = All-mono (λ r b. inl b) rs h

send-IfOk :
    (n : ℕ) (u : BuildUpdate) (c : Coordinator)
    → IsSaturated c
    → IfOk IsSaturated (send n u c.buffers >>= λ m. ok (record c { buffers = m }))
unfolding send
send-IfOk n u c v = elim (Bool-cases (ltb (length (c.buffers n)) channel_capacity)) [
  | inl room ↦ rw room v
  | inr full ↦ rw full tt
]

tell_position-IsSaturated :
    (n : ℕ) (c : Coordinator) → IsSaturated c → IfOk IsSaturated (tell_position n c)
unfolding tell_position
tell_position-IsSaturated n c v = send-IfOk n _ c v

tell_final-IsSaturated :
    (n : ℕ) (u : BuildUpdate) (c : Coordinator)
    → IsSaturated c
    → IfOk IsSaturated (tell_final n u c)
unfolding tell_final
tell_final-IsSaturated n u c v = send-IfOk n u c v

register_new-IsSaturated :
    (r : BuildRequest) (f : Option BuildUpdate) (c : Coordinator)
    → IsSaturated c
    → IfOk IsSaturated (register_new r f c)
register_new-IsSaturated r (some u) c v =
    unfold register_new in tell_final-IsSaturated r.eventc u _ v
register_new-IsSaturated r none c v =
    unfold register_new in go (kick queued) (kick-IsSaturated queued (path_of r) (almost v))
  where
    queued : Coordinator
    queued = record c {
      builds = put_build r.bs (some (record { events = r.eventc ∷ []; final = none })) c.builds;
      queue = c.queue ++ r ∷ [];
    }

    almost : IsSaturated c → AlmostSaturated queued (path_of r) (c.queue ++ r ∷ [])
    almost (inl full) = inl (omega arith)
    almost (inr busy) =
        inr (All-append _ c.queue (r ∷ []) (IsBusy-or c (path_of r) c.queue busy) (inr refl, tt))

    go :
        (k : Result Fault Coordinator)
        → IfOk IsSaturated k
        → IfOk IsSaturated (k >>= tell_position r.eventc)
    go (ok c') h = tell_position-IsSaturated r.eventc c' h
    go (err x) h = tt

register_known-IsSaturated :
    (r : BuildRequest) (b : WipBuild) (f : Option BuildUpdate) (c : Coordinator)
    → IsSaturated c
    → IfOk IsSaturated (register_known r b f c)
register_known-IsSaturated r b (some u) c v =
    unfold register_known in tell_final-IsSaturated r.eventc u _ v
register_known-IsSaturated r b none c v =
    unfold register_known in tell_position-IsSaturated r.eventc _ v

register-IsSaturated :
    (r : BuildRequest) (l : Lookup) (c : Coordinator)
    → IsSaturated c
    → IfOk IsSaturated (register r l c)
register-IsSaturated r l c v = go (c.builds r.bs) refl
  where
    go : (o : Option WipBuild) → c.builds r.bs ≡ o → IfOk IsSaturated (register r l c)
    go none e =
        unfold register in
        rw (e, register) (register_new-IsSaturated r (final_of_lookup r.bs l) c v)
    go (some b) e = unfold register in rw (e, register) (register_known-IsSaturated r b b.final c v)

unregister-IsSaturated :
    (bs : BuildSpec) (n : ℕ) (c : Coordinator)
    → IsSaturated c
    → IfOk IsSaturated (unregister bs n c)
unregister-IsSaturated bs n c v = go (c.builds bs) refl
  where
    left :
        (b : WipBuild) (t : Bool) (l : List ℕ)
        → IfOk IsSaturated (
            guard t channel_not_found
            >> ok (record c {
              builds =
                  put_build bs
                    (if is_empty l && is_final b.final
                      then none
                      else some (record b { events = l }))
                    c.builds;
            }))
    left b true l = v
    left b false l = tt

    go : (o : Option WipBuild) → c.builds bs ≡ o → IfOk IsSaturated (unregister bs n c)
    go none e = unfold unregister in rw e tt
    go (some b) e = unfold unregister in rw e (left b _ (without n b.events))

-- A build that ends frees one slot and one path.
finish-IsSaturated :
    (r : BuildRequest) (o : BuildOutcome) (c : Coordinator)
    → IsSaturated c
    → IfOk IsSaturated (finish r o c)
unfolding finish
finish-IsSaturated r o c v = go (c.builds r.bs) refl
  where
    after : (x : Option WipBuild) (m : ℕ → List BuildUpdate) → Coordinator
    after x m = record c {
      builds = put_build r.bs x c.builds;
      active = c.active - 1;
      path_busy = put_path (output_path r.bs) false c.path_busy;
      buffers = m;
      running = without_running r.bs c.running;
    }

    almost :
        IsSaturated c
        → (x : Option WipBuild) (m : ℕ → List BuildUpdate)
        → AlmostSaturated (after x m) (output_path r.bs) c.queue
    almost (inl full) x m = inl (omega arith)
    almost (inr busy) x m =
        inr (
          All-mono (λ q h. ground (arith, eq_bytes_iff (path_of q) (output_path r.bs))) c.queue
            busy)

    go : (b : Option WipBuild) → c.builds r.bs ≡ b → IfOk IsSaturated (finish r o c)
    go none e = rw e tt
    go (some b) e =
        let x : Option WipBuild =
          if is_empty b.events
          then none
          else some (record b { final = some (outcome_update r o) }) in
        let m = try_send_all b.events (outcome_update r o) c.buffers in
        rw e (kick-IsSaturated (after x m) (output_path r.bs) (almost v x m))

Step-IsSaturated : {c c' : Coordinator} → Step c c' → IsSaturated c → IsSaturated c'
Step-IsSaturated {c} (registers r l h) v = rw h at (register-IsSaturated r l c v)
Step-IsSaturated {c} (unregisters bs n h) v = rw h at (unregister-IsSaturated bs n c v)
Step-IsSaturated {c} (receives n u us e h) v = rw h v
Step-IsSaturated {c} (finishes r o k h) v = rw h at (finish-IsSaturated r o c v)

-- In every state that a run reaches, either the maximum of builds is active, or every queued
-- request waits for an output path that an active build writes: no slot is left idle.
pub run-IsSaturated :
    (config_max num_cpu : ℕ) {c : Coordinator}
    → Reach (new_coordinator config_max num_cpu) c
    → IsSaturated c
run-IsSaturated k n here = unfold new_coordinator in inr tt
run-IsSaturated k n (next r s) = Step-IsSaturated s (run-IsSaturated k n r)
