-- ===== src/Coordinate/Delivery.antt =====
-- What the listeners receive: buffers only grow in a step of the coordinator, and the end of a
-- build reaches every listener whose channel has room.
use gobuild.Common.{
  ◌-◌, ℕ, ◌+◌, ◌<◌, ◌≡◌, refl, sym, ap, ◌∙◌, Bool, true, false, ◌||◌, inl, inr, List, [], ◌∷◌, ◌++◌,
  if◌then◌else◌, append_assoc, append-nil, length, leb, ltb, ◌==◌, Option, none, some, arith,
  Bool-cases, Result, ok, err, ◌>>=◌,
}
use gobuild.Spec.{BuildSpec, output_path}
use gobuild.Coordinate.{
  BuildUpdate, BuildRequest, WipBuild, Coordinator, Fault, Verdict, wait, abandoned, missing, start,
  channel_capacity, verdict, kick_start, kick_loop, kick, start_build, notify_rest, send_pending,
  try_send, try_send_all, put_path, put_build,
}
use gobuild.Coordinate.Steps.{BuildOutcome, outcome_update, finish, without_running, is_empty}
use gobuild.Coordinate.Invariant.{IfOk}

abbrev Buffers : Type 0
Buffers = ℕ → List BuildUpdate

-- Channel `n` holds what it held, and possibly more behind it.
abbrev Grows : ℕ → Buffers → Buffers → Type 0
Grows n m m' = (us : List BuildUpdate) × (m' n ≡ m n ++ us)

Grows-refl : (n : ℕ) (m : Buffers) → Grows n m m
Grows-refl n m = ([], sym (append-nil (m n)))

Grows-trans : (n : ℕ) (m m' m'' : Buffers) → Grows n m m' → Grows n m' m'' → Grows n m m''
Grows-trans n m m' m'' (us, e) (vs, f) =
    (us ++ vs, f ∙ ap (λ (x : List BuildUpdate). x ++ vs) e ∙ append_assoc (m n) us vs)

try_send-Grows : (n c : ℕ) (u : BuildUpdate) (m : Buffers) → Grows n m (try_send c u m)
unfolding try_send
try_send-Grows n c u m = elim (Bool-cases (ltb (length (m c)) channel_capacity)) [
  | inl room ↦ rw room (elim (Bool-cases (n == c)) [
    | inl hit ↦ (u ∷ [], rw hit)
    | inr miss ↦ ([], rw miss (sym (append-nil (m n))))
  ])
  | inr full ↦ rw full (Grows-refl n m)
]

try_send_all-Grows :
    (n : ℕ) (cs : List ℕ) (u : BuildUpdate) (m : Buffers) → Grows n m (try_send_all cs u m)
unfolding try_send_all
try_send_all-Grows n [] u m = Grows-refl n m
try_send_all-Grows n (c ∷ cs) u m =
    Grows-trans n m (try_send c u m) (try_send_all cs u (try_send c u m)) (try_send-Grows n c u m)
      (try_send_all-Grows n cs u (try_send c u m))

send_pending-Grows : (n : ℕ) (b : WipBuild) (i : ℕ) (m : Buffers) → Grows n m (send_pending b i m)
unfolding send_pending
send_pending-Grows n b i m = try_send_all-Grows n b.events _ m

abbrev GrowsIfOk : ℕ → Buffers → Result Fault Buffers → Type 0
GrowsIfOk n m (ok m') = Grows n m m'
GrowsIfOk n m (err e) = Unit

notify_rest-Grows :
    (n : ℕ) (builds : BuildSpec → Option WipBuild) (i : ℕ) (rs : List BuildRequest) (m : Buffers)
    → GrowsIfOk n m (notify_rest builds i rs m)
notify_rest-Grows n builds i [] m = unfold notify_rest in Grows-refl n m
notify_rest-Grows n builds i (r ∷ rs) m =
    go (builds r.bs) refl (λ b. notify_rest-Grows n builds (i + 1) rs (send_pending b (i + 1) m))
  where
    after :
        (b : WipBuild) (x : Result Fault Buffers)
        → GrowsIfOk n (send_pending b (i + 1) m) x
        → GrowsIfOk n m x
    after b (ok m') g =
        Grows-trans n m (send_pending b (i + 1) m) m' (send_pending-Grows n b (i + 1) m) g
    after b (err e) g = tt

    go :
        (o : Option WipBuild)
        → builds r.bs ≡ o
        → ((b : WipBuild)
            → GrowsIfOk n
                (send_pending b (i + 1) m)
                (notify_rest builds (i + 1) rs (send_pending b (i + 1) m)))
        → GrowsIfOk n m (notify_rest builds i (r ∷ rs) m)
    go none e ih = unfold notify_rest in rw e tt
    go (some b) e ih = unfold notify_rest in rw e (after b _ (ih b))

-- The same of an operation that returns a state.
abbrev StepGrows : ℕ → Buffers → Coordinator → Type 0
StepGrows n m c = Grows n m c.buffers

kick_start-Grows :
    (n : ℕ) (c : Coordinator) (before rest : List BuildRequest) (r : BuildRequest) (b : WipBuild)
    → IfOk (StepGrows n c.buffers) (kick_start c before r rest b)
kick_start-Grows n c before rest r b =
    unfold kick_start in
    go (notify_rest c.builds (length before) rest (send_pending b 0 c.buffers))
      (notify_rest-Grows n c.builds (length before) rest (send_pending b 0 c.buffers))
  where
    go :
        (x : Result Fault Buffers)
        → GrowsIfOk n (send_pending b 0 c.buffers) x
        → IfOk
            (StepGrows n c.buffers)
            (x >>= λ m. ok (record (start_build c r) { queue = before ++ rest; buffers = m }))
    go (ok m) g =
        Grows-trans n c.buffers (send_pending b 0 c.buffers) m (send_pending-Grows n b 0 c.buffers)
          g
    go (err e) g = tt

kick_loop-Grows :
    (n : ℕ) (c : Coordinator) (before rest : List BuildRequest)
    → IfOk (StepGrows n c.buffers) (kick_loop c before rest)
kick_loop-Grows n c before [] = unfold kick_loop in Grows-refl n c.buffers
kick_loop-Grows n c before (r ∷ rest) =
    go (verdict c r) refl (kick_loop-Grows n c (before ++ r ∷ []) rest)
      (kick_loop-Grows n c before rest)
  where
    go :
        (w : Verdict)
        → verdict c r ≡ w
        → IfOk (StepGrows n c.buffers) (kick_loop c (before ++ r ∷ []) rest)
        → IfOk (StepGrows n c.buffers) (kick_loop c before rest)
        → IfOk (StepGrows n c.buffers) (kick_loop c before (r ∷ rest))
    go wait e skip drop = unfold kick_loop in rw (e, kick_loop) skip
    go abandoned e skip drop = unfold kick_loop in rw (e, kick_loop) drop
    go missing e skip drop = unfold kick_loop in rw (e, kick_loop) tt
    go (start b) e skip drop =
        unfold kick_loop in rw (e, kick_loop) (kick_start-Grows n c before rest r b)

kick-Grows : (n : ℕ) (c : Coordinator) → IfOk (StepGrows n c.buffers) (kick c)
unfolding kick
kick-Grows n c = elim (Bool-cases (leb c.max_builds c.active)) [
  | inl full ↦ rw full (Grows-refl n c.buffers)
  | inr room ↦ rw room (kick_loop-Grows n c [] c.queue)
]

abbrev listens : ℕ → List ℕ → Bool
listens n [] = false
listens n (c ∷ cs) = c == n || listens n cs

-- The update stands in the channel.
abbrev pub Holds : ℕ → BuildUpdate → Buffers → Type 0
Holds n u m = (before : List BuildUpdate) × (after : List BuildUpdate) × (m n ≡ before ++ u ∷ after)

Holds-Grows : (n : ℕ) (u : BuildUpdate) (m m' : Buffers) → Holds n u m → Grows n m m' → Holds n u m'
Holds-Grows n u m m' (xs, ys, e) (us, f) =
    (xs, ys ++ us, f ∙ ap (λ (x : List BuildUpdate). x ++ us) e ∙ append_assoc xs (u ∷ ys) us)

try_send-other :
    (n c : ℕ) (u : BuildUpdate) (m : Buffers) → (c == n) ≡ false → try_send c u m n ≡ m n
unfolding try_send
try_send-other n c u m h = ground arith

try_send-Holds :
    (n c : ℕ) (u : BuildUpdate) (m : Buffers)
    → (c == n) ≡ true
    → length (m n) < channel_capacity
    → Holds n u (try_send c u m)
unfolding try_send
try_send-Holds n c u m h room = (m n, [], ground arith)

-- The first send to a channel with room puts the update there; what follows only adds to it.
try_send_all-Holds :
    (n : ℕ) (cs : List ℕ) (u : BuildUpdate) (m : Buffers)
    → listens n cs ≡ true
    → length (m n) < channel_capacity
    → Holds n u (try_send_all cs u m)
unfolding try_send_all
try_send_all-Holds n [] u m h room = absurd (cc)
try_send_all-Holds n (c ∷ cs) u m h room = elim (Bool-cases (c == n)) [
  | inl hit ↦
      Holds-Grows n u (try_send c u m) (try_send_all cs u (try_send c u m))
        (try_send-Holds n c u m hit room) (try_send_all-Grows n cs u (try_send c u m))
  | inr other ↦
      try_send_all-Holds n cs u (try_send c u m) (ground arith)
        (ground (arith, try_send-other n c u m other))
]

-- When a build ends that has an entry, a client that listens and whose channel has room receives
-- the concluding update, whatever other builds the same step starts.
pub finish_delivers :
    (n : ℕ) (r : BuildRequest) (o : BuildOutcome) (c : Coordinator) (b : WipBuild)
    {c' : Coordinator}
    → c.builds r.bs ≡ some b
    → listens n b.events ≡ true
    → length (c.buffers n) < channel_capacity
    → finish r o c ≡ ok c'
    → Holds n (outcome_update r o) c'.buffers
finish_delivers n r o c b e l room h = rw h at sent
  where
    after : Coordinator
    after = record c {
      builds =
          put_build r.bs
            (if is_empty b.events
              then none
              else some (record b { final = some (outcome_update r o) }))
            c.builds;
      active = c.active - 1;
      path_busy = put_path (output_path r.bs) false c.path_busy;
      buffers = try_send_all b.events (outcome_update r o) c.buffers;
      running = without_running r.bs c.running;
    }

    grown :
        (x : Result Fault Coordinator)
        → IfOk (StepGrows n after.buffers) x
        → IfOk (λ d. Holds n (outcome_update r o) d.buffers) x
    grown (ok d) g =
        Holds-Grows n (outcome_update r o) after.buffers d.buffers
          (try_send_all-Holds n b.events (outcome_update r o) c.buffers l room) g
    grown (err x) g = tt

    sent : IfOk (λ d. Holds n (outcome_update r o) d.buffers) (finish r o c)
    sent = unfold finish in rw e (grown (kick after) (kick-Grows n after))
