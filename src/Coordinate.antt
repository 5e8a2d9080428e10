-- ===== src/Coordinate.antt =====
-- coordinate.go: the goroutine that queues, starts and concludes builds. The closures of
-- coordinateBuilds are functions on its local variables, and each case of its select is one step.
-- A channel is a number; `buffers` holds what was sent to it and not received yet.
pub mod Steps
pub mod Members
pub mod Invariant
pub mod Safety
pub mod Runs
pub mod Progress
pub mod Saturation
pub mod Stuck
pub mod Abandoned
pub mod Light
pub mod Limit
pub mod Drained
pub mod Delivery
use gobuild.Common.{
  ℕ, suc, ◌+◌, ◌-◌, Bool, true, false, not, ◌&&◌, ◌||◌, ltb, leb, ◌==◌, if◌then◌else◌, Option, none,
  some, List, [], ◌∷◌, ◌++◌, Bytes, codes, eq_bytes, length, Result, ok, err, ◌>>=◌, ◌>>◌, guard,
  or_fail,
}
use gobuild.Common.Int.{ℤ, pos, negsuc}
use gobuild.Spec.{BuildSpec, output_path}
use gobuild.Spec.Equality.{eq_spec}
use gobuild.Record.{BuildResult}

-- An error of a build: its text, and whether errTempFailure is in its chain.
pub record BuildError : Type 0 where
  pub text : Bytes
  pub is_temporary : Bool

-- buildUpdateMsg, before its JSON encoding
pub data UpdateMsg : Type 0 where
  queue_position_msg : ℕ → UpdateMsg
  temp_failed_msg perm_failed_msg : Bytes → UpdateMsg
  success_msg : Option BuildResult → UpdateMsg

-- buildUpdate; the progress updates do not set `bs`.
pub record BuildUpdate : Type 0 where
  pub bs : Option BuildSpec
  pub done : Bool
  pub error : Option BuildError
  pub result : Option BuildResult
  pub record_number : ℤ
  pub queue_position : ℕ
  pub msg : UpdateMsg

pub record BuildRequest : Type 0 where
  pub bs : BuildSpec
  pub exp_sum : Bytes
  pub eventc : ℕ

pub record WipBuild : Type 0 where
  pub events : List ℕ
  pub final : Option BuildUpdate

pub record Coordinator : Type 0 where
  pub builds : BuildSpec → Option WipBuild
  pub active : ℕ
  pub max_builds : ℕ
  pub queue : List BuildRequest
  pub path_busy : Bytes → Bool
  pub buffers : ℕ → List BuildUpdate
  -- The goroutines that run `build`, the last one started first.
  pub running : List BuildRequest

-- What stops the goroutine: a nil map entry is used, a listener is not found, or a send that
-- waits finds the channel full.
pub data Fault : Type 0 where
  nil_build channel_not_found blocked : Fault

-- The start of coordinateBuilds.
unfoldable pub new_coordinator : ℕ → ℕ → Coordinator
new_coordinator config_max_builds num_cpu = record {
  builds = λ _. none;
  active = 0;
  max_builds = if config_max_builds == 0 then num_cpu + 1 else config_max_builds;
  queue = [];
  path_busy = λ _. false;
  buffers = λ _. [];
  running = [];
}

-- make(chan buildUpdate, 100) of every client
abbrev pub channel_capacity : ℕ
channel_capacity = 100

abbrev pub put_build :
    BuildSpec → Option WipBuild → (BuildSpec → Option WipBuild) → BuildSpec → Option WipBuild
put_build k b m s = if eq_spec s k then b else m s

abbrev put_path : Bytes → Bool → (Bytes → Bool) → Bytes → Bool
put_path p b m q = if eq_bytes q p then b else m q

abbrev append_to : ℕ → BuildUpdate → (ℕ → List BuildUpdate) → ℕ → List BuildUpdate
append_to c u m d = if d == c then m d ++ u ∷ [] else m d

-- select { case c <- update: default: }
unfoldable pub try_send : ℕ → BuildUpdate → (ℕ → List BuildUpdate) → ℕ → List BuildUpdate
try_send c u m = if ltb (length (m c)) channel_capacity then append_to c u m else m

unfoldable pub try_send_all : List ℕ → BuildUpdate → (ℕ → List BuildUpdate) → ℕ → List BuildUpdate
unfolding try_send
try_send_all [] u m = m
try_send_all (c ∷ cs) u m = try_send_all cs u (try_send c u m)

-- c <- update
unfoldable pub send : ℕ → BuildUpdate → (ℕ → List BuildUpdate) → Result Fault (ℕ → List BuildUpdate)
send c u m = if ltb (length (m c)) channel_capacity then ok (append_to c u m) else err blocked

unfoldable pub pending_update : ℕ → BuildUpdate
pending_update position = record {
  bs = none;
  done = false;
  error = none;
  result = none;
  record_number = pos 0;
  queue_position = position;
  msg = queue_position_msg position;
}

-- sendPending
unfoldable pub send_pending : WipBuild → ℕ → (ℕ → List BuildUpdate) → ℕ → List BuildUpdate
unfolding try_send_all pending_update
send_pending b position m = try_send_all b.events (pending_update position) m

-- startBuild
unfoldable pub start_build : Coordinator → BuildRequest → Coordinator
unfolding eq_bytes
start_build c r = record c {
  active = c.active + 1;
  path_busy = put_path (output_path r.bs) true c.path_busy;
  running = r ∷ c.running;
}

-- for j, wbreq := range queue[i:] { sendPending(builds[wbreq.bs], i+j+1) }, from position `i`
unfoldable pub notify_rest :
    (BuildSpec → Option WipBuild)
    → ℕ
    → List BuildRequest
    → (ℕ → List BuildUpdate)
    → Result Fault (ℕ → List BuildUpdate)
unfolding send_pending
notify_rest builds i [] m = ok m
notify_rest builds i (r ∷ rs) m = do
  b ← or_fail (builds r.bs) nil_build
  notify_rest builds (i + 1) rs (send_pending b (i + 1) m)

-- What kick does with one request of the queue.
pub data Verdict : Type 0 where
  wait abandoned missing : Verdict
  start : WipBuild → Verdict

abbrev pub with_events : WipBuild → List ℕ → Verdict
with_events b [] = abandoned
with_events b (e ∷ es) = start b

abbrev pub listened : Option WipBuild → Verdict
listened none = missing
listened (some b) = with_events b b.events

unfoldable pub verdict : Coordinator → BuildRequest → Verdict
verdict c r = if c.path_busy (output_path r.bs) then wait else listened (c.builds r.bs)

-- The branch that starts a build: `before` is queue[:i], `rest` is queue[i:] without the request.
unfoldable pub kick_start :
    Coordinator
    → List BuildRequest
    → BuildRequest
    → List BuildRequest
    → WipBuild
    → Result Fault Coordinator
kick_start c before r rest b = do
  m ← notify_rest c.builds (length before) rest (send_pending b 0 c.buffers)
  ok (record (start_build c r) { queue = before ++ rest; buffers = m })

-- The loop of kick.
unfoldable pub kick_loop :
    Coordinator → List BuildRequest → List BuildRequest → Result Fault Coordinator
kick_loop c before [] = ok (record c { queue = before })
kick_loop c before (r ∷ rest) = elim (verdict c r) [
  | wait ↦ kick_loop c (before ++ r ∷ []) rest
  | abandoned ↦ kick_loop c before rest
  | missing ↦ err nil_build
  | start b ↦ kick_start c before r rest b
]

unfoldable pub kick : Coordinator → Result Fault Coordinator
kick c = if leb c.max_builds c.active then ok c else kick_loop c [] c.queue
