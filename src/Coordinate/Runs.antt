-- ===== src/Coordinate/Runs.antt =====
-- The coordinator with its clients and builds as a step relation: in each step a client registers
-- or leaves, a client receives an update, or a build that runs ends, in any order.
use gobuild.Common.{ℕ, ◌≡◌, refl, true, if◌then◌else◌, ◌==◌, List, ◌∷◌, arith, ok}
use gobuild.Spec.{BuildSpec}
use gobuild.Coordinate.{BuildUpdate, BuildRequest, Coordinator, new_coordinator}
use gobuild.Coordinate.Steps.{Lookup, BuildOutcome, register, unregister, finish}
use gobuild.Coordinate.Members.{has_path, has_spec}
use gobuild.Coordinate.Invariant.{Inv}
use gobuild.Coordinate.Safety.{register-Inv, unregister-Inv, finish-Inv, buffers-Inv}

abbrev pub set_buffer : ℕ → List BuildUpdate → (ℕ → List BuildUpdate) → ℕ → List BuildUpdate
set_buffer n us m k = if k == n then us else m k

pub data Step (c c' : Coordinator) : Type 0 where
  registers : (r : BuildRequest) (l : Lookup) → register r l c ≡ ok c' → Step c c'
  unregisters : (bs : BuildSpec) (n : ℕ) → unregister bs n c ≡ ok c' → Step c c'
  receives :
      (n : ℕ) (u : BuildUpdate) (us : List BuildUpdate)
      → c.buffers n ≡ u ∷ us
      → c' ≡ record c { buffers = set_buffer n us c.buffers }
      → Step c c'
  finishes :
      (r : BuildRequest) (o : BuildOutcome)
      → has_spec r.bs c.running ≡ true
      → finish r o c ≡ ok c'
      → Step c c'

pub data Reach (c : Coordinator) : Coordinator → Type 0 where
  here : Reach c c
  next : {d e : Coordinator} → Reach c d → Step d e → Reach c e

Step-Inv : {c c' : Coordinator} → Step c c' → Inv c → Inv c'
Step-Inv {c} {c'} (registers r l h) v = rw h at (register-Inv r l c v)
Step-Inv {c} {c'} (unregisters bs n h) v = unregister-Inv bs n c v h
Step-Inv {c} {c'} (receives n u us e h) v = rw h (buffers-Inv c _ v)
Step-Inv {c} {c'} (finishes r o k h) v = rw h at (finish-Inv r c v k o)

Reach-Inv : {c c' : Coordinator} → Inv c → Reach c c' → Inv c'
Reach-Inv v here = v
Reach-Inv v (next r s) = Step-Inv s (Reach-Inv v r)

new_coordinator-Inv : (config_max num_cpu : ℕ) → Inv (new_coordinator config_max num_cpu)
unfolding new_coordinator has_spec
new_coordinator-Inv k n = record {
  counted = refl;
  bounded = omega arith;
  busy = λ p. unfold has_path in refl;
  exclusive = tt;
  queued = λ s h. cc;
  building = λ s h. cc;
  unrepeated = tt;
  apart = λ s h. cc;
}

-- In every state that a run reaches, the count of active builds is the number of builds that run
-- and at most the maximum, no two of these write the same output path, no specification is queued
-- twice or queued while it is being built, and every specification that is queued or built has an
-- entry that is not concluded.
pub run-Inv :
    (config_max num_cpu : ℕ) {c : Coordinator}
    → Reach (new_coordinator config_max num_cpu) c
    → Inv c
run-Inv k n r = Reach-Inv (new_coordinator-Inv k n) r
