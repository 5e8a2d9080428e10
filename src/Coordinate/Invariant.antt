-- ===== src/Coordinate/Invariant.antt =====
-- The invariant of the coordinator, and that kick keeps it and meets no nil entry.
use gobuild.Common.{
  ◌≢◌, ℕ, ◌+◌, ◌≤◌, ◌<◌, ◌≡◌, refl, Bool, true, false, not, inl, inr, List, [], ◌∷◌, ◌++◌,
  if◌then◌else◌, append_assoc, append-nil, length, leb, Option, none, some, Bytes, eq_bytes_iff,
  arith, Bool-cases, Result, ok, err,
}
use gobuild.Spec.{BuildSpec, output_path}
use gobuild.Spec.Equality.{eq_spec_iff, eq_spec_self}
use gobuild.Coordinate.{
  listened, with_events, BuildUpdate, BuildRequest, WipBuild, Coordinator, Fault, Verdict, wait,
  abandoned, missing, start, verdict, kick_start, kick_loop, kick, start_build, notify_rest,
  send_pending,
}
use gobuild.Coordinate.Steps.{is_final}
use gobuild.Coordinate.Members.{
  path_of, has_spec, has_path, DistinctSpecs, DistinctPaths, has_spec-append, has_spec-middle,
  DistinctSpecs-middle,
}

-- The entry exists and its build has not ended.
abbrev pub is_pending : Option WipBuild → Bool
is_pending none = false
is_pending (some b) = not (is_final b.final)

pub record Inv (c : Coordinator) : Type 0 where
  pub counted : c.active ≡ length c.running
  pub bounded : c.active ≤ c.max_builds
  pub busy : (p : Bytes) → c.path_busy p ≡ has_path p c.running
  pub exclusive : DistinctPaths c.running
  pub queued : (s : BuildSpec) → has_spec s c.queue ≡ true → is_pending (c.builds s) ≡ true
  pub building : (s : BuildSpec) → has_spec s c.running ≡ true → is_pending (c.builds s) ≡ true
  pub unrepeated : DistinctSpecs c.queue
  pub apart : (s : BuildSpec) → has_spec s c.queue ≡ true → has_spec s c.running ≡ false

-- The operation returns, and the state that it returns has the property.
abbrev pub Ensures : (Coordinator → Type 0) → Result Fault Coordinator → Type 0
Ensures P (ok c) = P c
Ensures P (err e) = ⊥

-- The operation returns a state with the property, if it returns.
abbrev pub IfOk : (Coordinator → Type 0) → Result Fault Coordinator → Type 0
IfOk P (ok c) = P c
IfOk P (err e) = Unit

notify_rest_total :
    (builds : BuildSpec → Option WipBuild) (i : ℕ) (rs : List BuildRequest)
    (m : ℕ → List BuildUpdate)
    → ((s : BuildSpec) → has_spec s rs ≡ true → is_pending (builds s) ≡ true)
    → (m' : ℕ → List BuildUpdate) × (notify_rest builds i rs m ≡ ok m')
notify_rest_total builds i [] m q = (m, unfold notify_rest in refl)
notify_rest_total builds i (r ∷ rs) m q = go (builds r.bs) refl (λ b.
    notify_rest_total builds (i + 1) rs (send_pending b (i + 1) m)
      (λ s h. q s (unfold has_spec in ground arith)))
  where
    here : is_pending (builds r.bs) ≡ true
    here = q r.bs (unfold has_spec in ground (arith, eq_spec_self r.bs))

    go :
        (o : Option WipBuild)
        → builds r.bs ≡ o
        → ((b : WipBuild)
            → (m' : ℕ → List BuildUpdate) × (notify_rest builds
                  (i + 1)
                  rs
                  (send_pending b (i + 1) m)
                ≡ ok m'))
        → (m' : ℕ → List BuildUpdate) × (notify_rest builds i (r ∷ rs) m ≡ ok m')
    go none e ih = absurd (ground (arith, here))
    go (some b) e ih = let (m', h) = ih b in (m', unfold notify_rest in rw e h)

-- The state in the loop of kick, with the queue put together again.
abbrev at : Coordinator → List BuildRequest → Coordinator
at c q = record c { queue = q }

drop_queued :
    (c : Coordinator) (before rest : List BuildRequest) (r : BuildRequest)
    → Inv (at c (before ++ r ∷ rest))
    → Inv (at c (before ++ rest))
drop_queued c before rest r v = record {
  counted = v.counted;
  bounded = v.bounded;
  busy = v.busy;
  exclusive = v.exclusive;
  queued = λ s h. v.queued s (ground (arith, has_spec-middle s before rest r));
  building = v.building;
  unrepeated = (DistinctSpecs-middle before rest r v.unrepeated).0;
  apart = λ s h. v.apart s (ground (arith, has_spec-middle s before rest r));
}

start_queued :
    (c : Coordinator) (before rest : List BuildRequest) (r : BuildRequest)
    (m : ℕ → List BuildUpdate)
    → Inv (at c (before ++ r ∷ rest))
    → c.active < c.max_builds
    → c.path_busy (output_path r.bs) ≡ false
    → Inv (record (start_build c r) { queue = before ++ rest; buffers = m })
unfolding start_build
start_queued c before rest r m v room free = record {
  counted = omega (arith, v.counted);
  bounded = omega arith;
  busy = λ p.
      unfold has_path in
      ground (arith, v.busy p, eq_bytes_iff p (path_of r), eq_bytes_iff (path_of r) p);
  exclusive = (ground (arith, v.busy (path_of r)), v.exclusive);
  queued = λ s h. v.queued s (ground (arith, has_spec-middle s before rest r));
  building = λ s h.
      unfold has_spec in ground (arith, v.queued s, v.building s, has_spec-middle s before rest r);
  unrepeated = (DistinctSpecs-middle before rest r v.unrepeated).0;
  apart = λ s h.
      unfold has_spec in
      ground (
        arith,
        v.apart s,
        has_spec-middle s before rest r,
        eq_spec_iff r.bs s,
        (DistinctSpecs-middle before rest r v.unrepeated).1,
      );
}

-- What the verdict on a request says of the state.
abbrev pub Means : Coordinator → BuildRequest → Verdict → Type 0
Means c r wait = c.path_busy (output_path r.bs) ≡ true
Means c r abandoned =
    (c.path_busy (output_path r.bs) ≡ false)
    × ((b : WipBuild) × (c.builds r.bs ≡ some b) × (b.events ≡ []))
Means c r missing = c.builds r.bs ≡ none
Means c r (start b) =
    (c.path_busy (output_path r.bs) ≡ false) × (c.builds r.bs ≡ some b) × (b.events ≢ [])

pub verdict-Means : (c : Coordinator) (r : BuildRequest) → Means c r (verdict c r)
unfolding verdict
verdict-Means c r = go (c.path_busy (output_path r.bs)) refl (c.builds r.bs) refl
  where
    heard :
        (b : WipBuild)
        → c.builds r.bs ≡ some b
        → c.path_busy (output_path r.bs) ≡ false
        → (es : List ℕ) → b.events ≡ es
        → Means c r (with_events b es)
    heard b e free [] n = (free, (b, e, n))
    heard b e free (x ∷ xs) n = (free, e, ground arith)

    go :
        (t : Bool)
        → c.path_busy (output_path r.bs) ≡ t
        → (o : Option WipBuild) → c.builds r.bs ≡ o
        → Means c r (if t then wait else listened o)
    go true e o e' = e
    go false e none e' = e'
    go false e (some b) e' = heard b e' e b.events refl

queued_here :
    (before rest : List BuildRequest) (r : BuildRequest) → has_spec r.bs (before ++ r ∷ rest) ≡ true
queued_here before rest r = ground (arith, has_spec-middle r.bs before rest r, eq_spec_self r.bs)

pub kick_start-Inv :
    (c : Coordinator) (before rest : List BuildRequest) (r : BuildRequest) (b : WipBuild)
    → Inv (at c (before ++ r ∷ rest))
    → c.active < c.max_builds
    → c.path_busy (output_path r.bs) ≡ false
    → Ensures Inv (kick_start c before r rest b)
kick_start-Inv c before rest r b v room free =
    let (m, e) =
      notify_rest_total c.builds (length before) rest (send_pending b 0 c.buffers) (λ s h.
        v.queued s (
          ground (
            arith,
            has_spec-append s before (r ∷ rest),
            has_spec-middle s before rest r,
            has_spec-append s before rest,
          ))) in
    unfold kick_start in rw e (start_queued c before rest r m v room free)

-- The loop of kick returns, and keeps the invariant, if a build may be started.
kick_loop-Inv :
    (c : Coordinator) (before rest : List BuildRequest)
    → Inv (at c (before ++ rest))
    → c.active < c.max_builds
    → Ensures Inv (kick_loop c before rest)
kick_loop-Inv c before [] v room = unfold kick_loop in rw (append-nil before) at v
kick_loop-Inv c before (r ∷ rest) v room =
    go (verdict c r) refl (verdict-Means c r)
      (kick_loop-Inv c (before ++ r ∷ []) rest (rw append_assoc v) room)
      (kick_loop-Inv c before rest (drop_queued c before rest r v) room)
  where
    go :
        (w : Verdict)
        → verdict c r ≡ w
        → Means c r (verdict c r)
        → Ensures Inv (kick_loop c (before ++ r ∷ []) rest)
        → Ensures Inv (kick_loop c before rest)
        → Ensures Inv (kick_loop c before (r ∷ rest))
    go wait e means skip drop = unfold kick_loop in rw (e, kick_loop) skip
    go abandoned e means skip drop = unfold kick_loop in rw (e, kick_loop) drop
    go missing e means skip drop =
        absurd (ground (arith, rw e at means, v.queued r.bs (queued_here before rest r)))
    go (start b) e means skip drop =
        let (free, _, _) = rw e at means in
        unfold kick_loop in rw (e, kick_loop) (kick_start-Inv c before rest r b v room free)

pub kick-Inv : (c : Coordinator) → Inv c → Ensures Inv (kick c)
unfolding kick
kick-Inv c v = elim (Bool-cases (leb c.max_builds c.active)) [
  | inl full ↦ rw full v
  | inr room ↦ rw room (kick_loop-Inv c [] c.queue v (ground arith))
]
