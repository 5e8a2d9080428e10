-- ===== src/Coordinate/Safety.antt =====
-- Every case of the select keeps the invariant, and so does every run of the coordinator.
use gobuild.Common.{
  ℕ, ◌+◌, ◌-◌, ◌≡◌, refl, Bool, true, false, ◌&&◌, inl, inr, List, [], ◌∷◌, ◌++◌, if◌then◌else◌,
  length, ltb, Option, none, some, eq_bytes_self, arith, Bool-cases, Result, ok, err, ◌>>=◌, ◌>>◌,
  guard,
}
use gobuild.Spec.{BuildSpec, output_path}
use gobuild.Spec.Equality.{eq_spec, eq_spec_iff}
use gobuild.Coordinate.{
  BuildUpdate, BuildRequest, WipBuild, Coordinator, Fault, blocked, channel_not_found, kick, send,
  channel_capacity, put_build, put_path,
}
use gobuild.Coordinate.Steps.{
  is_final, is_empty, Lookup, BuildOutcome, tell_position, tell_final, register_new, register_known,
  register, unregister, finish, without, without_running,
}
use gobuild.Coordinate.Members.{
  has_spec, DistinctPaths, has_spec-append, DistinctSpecs-concat, has_path-without,
  has_path-has_spec, has_spec-without, DistinctPaths-without,
}
use gobuild.Coordinate.Invariant.{Inv, is_pending, Ensures, IfOk, kick-Inv}

-- The operation returns a state with the property, or waits on a full channel.
abbrev pub EnsuresOrBlocks : (Coordinator → Type 0) → Result Fault Coordinator → Type 0
EnsuresOrBlocks P (ok c) = P c
EnsuresOrBlocks P (err blocked) = Unit
EnsuresOrBlocks P (err e) = ⊥

-- The invariant says nothing of the channels.
pub buffers-Inv :
    (c : Coordinator) (m : ℕ → List BuildUpdate) → Inv c → Inv (record c { buffers = m })
buffers-Inv c m v = record {
  counted = v.counted;
  bounded = v.bounded;
  busy = v.busy;
  exclusive = v.exclusive;
  queued = v.queued;
  building = v.building;
  unrepeated = v.unrepeated;
  apart = v.apart;
}

send-EnsuresOrBlocks :
    (n : ℕ) (u : BuildUpdate) (c : Coordinator)
    → Inv c
    → EnsuresOrBlocks Inv (send n u c.buffers >>= λ m. ok (record c { buffers = m }))
unfolding send
send-EnsuresOrBlocks n u c v = elim (Bool-cases (ltb (length (c.buffers n)) channel_capacity)) [
  | inl room ↦ rw room (buffers-Inv c _ v)
  | inr full ↦ rw full tt
]

tell_position-Inv : (n : ℕ) (c : Coordinator) → Inv c → EnsuresOrBlocks Inv (tell_position n c)
unfolding tell_position
tell_position-Inv n c v = send-EnsuresOrBlocks n _ c v

tell_final-Inv :
    (n : ℕ) (u : BuildUpdate) (c : Coordinator) → Inv c → EnsuresOrBlocks Inv (tell_final n u c)
unfolding tell_final
tell_final-Inv n u c v = send-EnsuresOrBlocks n u c v

-- A specification without an entry is neither queued nor being built.
pub absent_spec :
    (c : Coordinator) (s : BuildSpec)
    → Inv c
    → c.builds s ≡ none
    → (has_spec s c.queue ≡ false) × (has_spec s c.running ≡ false)
absent_spec c s v e = (ground (arith, v.queued s), ground (arith, v.building s))

-- An entry changes, and stays pending if it was.
put_build-Inv :
    (c : Coordinator) (s : BuildSpec) (o : Option WipBuild)
    → Inv c
    → (is_pending (c.builds s) ≡ true → is_pending o ≡ true)
    → Inv (record c { builds = put_build s o c.builds })
put_build-Inv c s o v keep = record {
  counted = v.counted;
  bounded = v.bounded;
  busy = v.busy;
  exclusive = v.exclusive;
  queued = λ q h. ground (arith, v.queued q, eq_spec_iff q s);
  building = λ q h. ground (arith, v.building q, eq_spec_iff q s);
  unrepeated = v.unrepeated;
  apart = v.apart;
}

enqueue-Inv :
    (c : Coordinator) (r : BuildRequest) (b : WipBuild)
    → Inv c
    → c.builds r.bs ≡ none
    → is_final b.final ≡ false
    → Inv (record c { builds = put_build r.bs (some b) c.builds; queue = c.queue ++ r ∷ [] })
enqueue-Inv c r b v e f =
    let (q0, r0) = absent_spec c r.bs v e in
    record {
      counted = v.counted;
      bounded = v.bounded;
      busy = v.busy;
      exclusive = v.exclusive;
      queued = λ q h. ground (
        arith,
        v.queued q,
        eq_spec_iff q r.bs,
        eq_spec_iff r.bs q,
        has_spec-append q c.queue (r ∷ []),
        one_spec q r,
      );
      building = λ q h. ground (arith, v.building q, eq_spec_iff q r.bs);
      unrepeated = DistinctSpecs-concat c.queue r v.unrepeated q0;
      apart = λ q h. ground (
        arith,
        v.apart q,
        eq_spec_iff q r.bs,
        eq_spec_iff r.bs q,
        has_spec-append q c.queue (r ∷ []),
        one_spec q r,
      );
    }
  where
    one_spec : (q : BuildSpec) (r : BuildRequest) → has_spec q (r ∷ []) ≡ eq_spec r.bs q
    one_spec q r = unfold has_spec in ground arith

register_new-Inv :
    (r : BuildRequest) (f : Option BuildUpdate) (c : Coordinator)
    → Inv c
    → c.builds r.bs ≡ none
    → EnsuresOrBlocks Inv (register_new r f c)
register_new-Inv r (some u) c v e =
    unfold register_new in tell_final-Inv _ u _ (put_build-Inv c r.bs _ v (λ h. ground arith))
register_new-Inv r none c v e =
    unfold register_new in go (kick queued) (kick-Inv queued (enqueue-Inv c r _ v e refl))
  where
    queued : Coordinator
    queued = record c {
      builds = put_build r.bs (some (record { events = r.eventc ∷ []; final = none })) c.builds;
      queue = c.queue ++ r ∷ [];
    }

    go :
        (k : Result Fault Coordinator)
        → Ensures Inv k
        → EnsuresOrBlocks Inv (k >>= tell_position r.eventc)
    go (ok c') v' = tell_position-Inv r.eventc c' v'
    go (err x) v' = absurd v'

register_known-Inv :
    (r : BuildRequest) (b : WipBuild) (f : Option BuildUpdate) (c : Coordinator)
    → Inv c
    → c.builds r.bs ≡ some b
    → b.final ≡ f
    → EnsuresOrBlocks Inv (register_known r b f c)
register_known-Inv r b (some u) c v e g =
    unfold register_known in tell_final-Inv _ u _ (put_build-Inv c r.bs _ v (λ h. ground arith))
register_known-Inv r b none c v e g =
    unfold register_known in tell_position-Inv _ _ (put_build-Inv c r.bs _ v (λ h. ground arith))

-- A registration keeps the invariant, and stops the coordinator only where the new listener's
-- channel is full: it meets no nil entry.
pub register-Inv :
    (r : BuildRequest) (l : Lookup) (c : Coordinator) → Inv c → EnsuresOrBlocks Inv (register r l c)
register-Inv r l c v = go (c.builds r.bs) refl
  where
    go : (o : Option WipBuild) → c.builds r.bs ≡ o → EnsuresOrBlocks Inv (register r l c)
    go none e = unfold register in rw (e, register) (register_new-Inv r _ c v e)
    go (some b) e = unfold register in rw (e, register) (register_known-Inv r b b.final c v e refl)

unregister-IfOk : (bs : BuildSpec) (n : ℕ) (c : Coordinator) → Inv c → IfOk Inv (unregister bs n c)
unregister-IfOk bs n c v = go (c.builds bs) refl
  where
    left :
        (b : WipBuild)
        → c.builds bs ≡ some b
        → (l : List ℕ) (t : Bool)
        → IfOk Inv (
            guard t channel_not_found
            >> ok (record c {
              builds =
                  put_build bs
                    (if is_empty l && is_final b.final
                      then none
                      else some (record b { events = l }))
                    c.builds;
            }))
    left b e l true = put_build-Inv c bs _ v (λ h. ground arith)
    left b e l false = tt

    go : (o : Option WipBuild) → c.builds bs ≡ o → IfOk Inv (unregister bs n c)
    go none e = unfold unregister in rw e tt
    go (some b) e = unfold unregister in rw e (left b e (without n b.events) _)

-- A listener leaves: the invariant is kept.
pub unregister-Inv :
    (bs : BuildSpec) (n : ℕ) (c : Coordinator) {c' : Coordinator}
    → Inv c
    → unregister bs n c ≡ ok c'
    → Inv c'
unregister-Inv bs n c v h = rw h at (unregister-IfOk bs n c v)

pub length-without_running :
    (s : BuildSpec) (rs : List BuildRequest)
    → has_spec s rs ≡ true
    → length (without_running s rs) + 1 ≡ length rs
unfolding without_running has_spec
length-without_running s [] h = cc
length-without_running s (r ∷ rs) h = ground (arith, length-without_running s rs)

has_spec-without_self :
    (s : BuildSpec) (rs : List BuildRequest)
    → DistinctPaths rs
    → has_spec s rs ≡ true
    → has_spec s (without_running s rs) ≡ false
has_spec-without_self s rs d h = ground (
  arith,
  has_path-has_spec s (without_running s rs),
  has_path-without s (output_path s) rs d h,
  eq_bytes_self (output_path s),
)

module _ (r : BuildRequest) (c : Coordinator) (v : Inv c) (h : has_spec r.bs c.running ≡ true) where
  concluded-Inv :
      (o : Option WipBuild) (m : ℕ → List BuildUpdate)
      → Inv (record c {
        builds = put_build r.bs o c.builds;
        active = c.active - 1;
        path_busy = put_path (output_path r.bs) false c.path_busy;
        buffers = m;
        running = without_running r.bs c.running;
      })
  concluded-Inv o m = record {
    counted = omega (arith, v.counted, length-without_running r.bs c.running h);
    bounded = omega (arith, v.bounded);
    busy = λ p. ground (arith, v.busy p, has_path-without r.bs p c.running v.exclusive h);
    exclusive = DistinctPaths-without r.bs c.running v.exclusive;
    queued = λ q k. ground (arith, v.queued q k, v.apart q k, eq_spec_iff q r.bs);
    building = λ q k. ground (
      arith,
      v.building q,
      has_spec-without r.bs q c.running k,
      eq_spec_iff q r.bs,
      has_spec-without_self r.bs c.running v.exclusive h,
    );
    unrepeated = v.unrepeated;
    apart = λ q k. ground (arith, v.apart q k, has_spec-without r.bs q c.running);
  }

  -- In a state with the invariant, the end of a build that runs does not stop the coordinator, and
  -- keeps the invariant.
  pub finish-Inv : (o : BuildOutcome) → Ensures Inv (finish r o c)
  finish-Inv o = go (c.builds r.bs) refl (v.building r.bs h)
    where
      go :
          (b : Option WipBuild)
          → c.builds r.bs ≡ b
          → is_pending (c.builds r.bs) ≡ true
          → Ensures Inv (finish r o c)
      go none e p = absurd (ground arith)
      go (some b) e p = unfold finish in rw e (kick-Inv _ (concluded-Inv _ _))
