-- ===== src/Coordinate/Abandoned.antt =====
-- An abandoned build is stuck for good: no later step of the coordinator, its clients or its
-- builds concludes it or queues it again.
use gobuild.Common.{
  ℕ, ◌-◌, ◌<◌, ◌≡◌, refl, subst, Bool, true, false, ◌&&◌, List, [], ◌∷◌, if◌then◌else◌, Option,
  none, some, arith, ok, ◌>>◌, guard,
}
use gobuild.Spec.{BuildSpec, output_path}
use gobuild.Spec.Equality.{eq_spec, eq_spec_iff, eq_spec_self}
use gobuild.Coordinate.{
  BuildUpdate, BuildRequest, WipBuild, Coordinator, abandoned, listened, channel_not_found, verdict,
  kick_loop, kick, put_path, put_build, try_send_all,
}
use gobuild.Coordinate.Steps.{
  outcome_update, is_final, is_empty, Lookup, BuildOutcome, final_of_lookup, register_known,
  register, unregister, finish, without, without_running,
}
use gobuild.Coordinate.Members.{has_spec, DistinctSpecs, has_spec-without}
use gobuild.Coordinate.Invariant.{Inv, IfOk}
use gobuild.Coordinate.Runs.{Step, registers, unregisters, receives, finishes, Reach, here, next}
use gobuild.Coordinate.Stuck.{
  IsStuck, kick-IsStuck, kick_loop-IsStuck, frame, tell_position-IsStuck, tell_final-IsStuck,
  register_new-IsStuck,
}

register_known-IsStuck :
    (s : BuildSpec) (r : BuildRequest) (b : WipBuild) (f : Option BuildUpdate) (c : Coordinator)
    → IsStuck s c
    → c.builds r.bs ≡ some b
    → IfOk (IsStuck s) (register_known r b f c)
register_known-IsStuck s r b (some u) c v e =
    unfold register_known in
    tell_final-IsStuck s r.eventc u _
      (frame s c _ v (ground (arith, v.pending, eq_spec_iff s r.bs)) refl refl)
register_known-IsStuck s r b none c v e =
    unfold register_known in
    tell_position-IsStuck s r.eventc _
      (frame s c _ v (ground (arith, v.pending, eq_spec_iff s r.bs)) refl refl)

register-IsStuck :
    (s : BuildSpec) (r : BuildRequest) (l : Lookup) (c : Coordinator)
    → IsStuck s c
    → IfOk (IsStuck s) (register r l c)
register-IsStuck s r l c v = go (c.builds r.bs) refl
  where
    go : (o : Option WipBuild) → c.builds r.bs ≡ o → IfOk (IsStuck s) (register r l c)
    go none e =
        unfold register in
        rw (e, register) (register_new-IsStuck s r (final_of_lookup r.bs l) c v e)
    go (some b) e = unfold register in rw (e, register) (register_known-IsStuck s r b b.final c v e)

unregister-IsStuck :
    (s bs : BuildSpec) (n : ℕ) (c : Coordinator)
    → IsStuck s c
    → IfOk (IsStuck s) (unregister bs n c)
unregister-IsStuck s bs n c v = go (c.builds bs) refl
  where
    left :
        (b : WipBuild) (t : Bool) (l : List ℕ)
        → c.builds bs ≡ some b
        → IfOk (IsStuck s) (
            guard t channel_not_found
            >> ok (record c {
              builds =
                  put_build bs
                    (if is_empty l && is_final b.final
                      then none
                      else some (record b { events = l }))
                    c.builds;
            }))
    left b true l e = frame s c _ v (ground (arith, v.pending, eq_spec_iff s bs)) refl refl
    left b false l e = tt

    go : (o : Option WipBuild) → c.builds bs ≡ o → IfOk (IsStuck s) (unregister bs n c)
    go none e = unfold unregister in rw e tt
    go (some b) e = unfold unregister in rw e (left b _ (without n b.events) e)

finish-IsStuck :
    (s : BuildSpec) (r : BuildRequest) (o : BuildOutcome) (c : Coordinator)
    → IsStuck s c
    → has_spec r.bs c.running ≡ true
    → IfOk (IsStuck s) (finish r o c)
unfolding finish
finish-IsStuck s r o c v h = go (c.builds r.bs) refl
  where
    other : eq_spec s r.bs ≡ false
    other = ground (arith, v.not_running, eq_spec_iff s r.bs)

    after : (x : Option WipBuild) (m : ℕ → List BuildUpdate) → Coordinator
    after x m = record c {
      builds = put_build r.bs x c.builds;
      active = c.active - 1;
      path_busy = put_path (output_path r.bs) false c.path_busy;
      buffers = m;
      running = without_running r.bs c.running;
    }

    stuck : (x : Option WipBuild) (m : ℕ → List BuildUpdate) → IsStuck s (after x m)
    stuck x m = record {
      pending = ground (arith, other, v.pending);
      not_queued = v.not_queued;
      not_running = ground (arith, v.not_running, has_spec-without r.bs s c.running);
    }

    go : (b : Option WipBuild) → c.builds r.bs ≡ b → IfOk (IsStuck s) (finish r o c)
    go none e = rw e tt
    go (some b) e =
        let x : Option WipBuild =
          if is_empty b.events
          then none
          else some (record b { final = some (outcome_update r o) }) in
        let m = try_send_all b.events (outcome_update r o) c.buffers in
        rw e (kick-IsStuck s (after x m) (stuck x m))

Step-IsStuck : (s : BuildSpec) {c c' : Coordinator} → Step c c' → IsStuck s c → IsStuck s c'
Step-IsStuck s {c} (registers r l h) v = rw h at (register-IsStuck s r l c v)
Step-IsStuck s {c} (unregisters bs n h) v = rw h at (unregister-IsStuck s bs n c v)
Step-IsStuck s {c} (receives n u us e h) v = rw h (frame s c _ v v.pending refl refl)
Step-IsStuck s {c} (finishes r o k h) v = rw h at (finish-IsStuck s r o c v k)

Reach-IsStuck : (s : BuildSpec) {c c' : Coordinator} → IsStuck s c → Reach c c' → IsStuck s c'
Reach-IsStuck s v here = v
Reach-IsStuck s v (next r t) = Step-IsStuck s t (Reach-IsStuck s v r)

dropped-IsStuck :
    (c : Coordinator) (r : BuildRequest) (rest : List BuildRequest)
    → Inv c
    → c.queue ≡ r ∷ rest
    → IsStuck r.bs (record c { queue = rest })
dropped-IsStuck c r rest v q = record {
  pending = v.queued r.bs first;
  not_queued = (subst DistinctSpecs q v.unrepeated).0;
  not_running = v.apart r.bs first;
}
  where
    first : has_spec r.bs c.queue ≡ true
    first = rw q (unfold has_spec in ground (arith, eq_spec_self r.bs))

-- In a state with the invariant, where a slot and its output path are free and its listeners have
-- left, kick drops the first
-- request of the queue and leaves its entry as it is. From then on the build is stuck, whatever
-- clients register: it is not queued, it does not run, and its entry is never concluded.
pub abandoned_forever :
    (c : Coordinator) (r : BuildRequest) (rest : List BuildRequest) (b : WipBuild)
    {c' c'' : Coordinator}
    → Inv c
    → c.queue ≡ r ∷ rest
    → c.active < c.max_builds
    → c.path_busy (output_path r.bs) ≡ false
    → c.builds r.bs ≡ some b
    → b.events ≡ []
    → kick c ≡ ok c'
    → Reach c' c''
    → IsStuck r.bs c''
abandoned_forever c r rest b {c'} v q room free e n k reach =
    Reach-IsStuck r.bs (rw k at dropped) reach
  where
    drops : verdict c r ≡ abandoned
    drops = unfold verdict in rw (free, e, listened, n) refl

    loop : kick c ≡ kick_loop c [] rest
    loop = unfold kick kick_loop in rw (q, kick_loop, drops) (ground arith)

    dropped : IfOk (IsStuck r.bs) (kick c)
    dropped = rw loop (kick_loop-IsStuck r.bs c [] rest (dropped-IsStuck c r rest v q))
