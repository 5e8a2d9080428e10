-- ===== src/Coordinate/Steps.antt =====
-- coordinate.go: the cases of the select of coordinateBuilds, and the update that a build sends.
use gobuild.Common.{
  ℕ, ◌+◌, ◌-◌, Bool, true, false, ◌&&◌, ◌==◌, if◌then◌else◌, Option, none, some, List, [], ◌∷◌,
  ◌++◌, Bytes, codes, length, Result, ok, ◌>>=◌, ◌>>◌, guard, or_fail,
}
use gobuild.Common.Int.{ℤ, pos}
use gobuild.Spec.{BuildSpec, output_path}
use gobuild.Spec.Equality.{eq_spec}
use gobuild.Record.{BuildResult}
use gobuild.Coordinate.{
  BuildError, UpdateMsg, temp_failed_msg, perm_failed_msg, success_msg, BuildUpdate, BuildRequest,
  WipBuild, Coordinator, Fault, nil_build, channel_not_found, put_build, put_path, try_send_all,
  send, pending_update, kick,
}

-- What `build` returns.
pub record BuildOutcome : Type 0 where
  pub record_number : ℤ
  pub result : Option BuildResult
  pub output : Bytes
  pub error : Option BuildError

outcome_msg : BuildOutcome → Option BuildError → UpdateMsg
outcome_msg o none = success_msg o.result
outcome_msg o (some e) =
    let text = e.text ++ (codes "\n\n" ++ o.output) in
    if e.is_temporary then temp_failed_msg text else perm_failed_msg text

-- The update that the goroutine of startBuild sends.
unfoldable pub outcome_update : BuildRequest → BuildOutcome → BuildUpdate
unfolding outcome_msg
outcome_update r o = record {
  bs = some r.bs;
  done = true;
  error = o.error;
  result = o.result;
  record_number = o.record_number;
  queue_position = 0;
  msg = outcome_msg o o.error;
}

-- What lookupResult returns.
pub record Lookup : Type 0 where
  pub record_number : ℤ
  pub result : Option BuildResult
  pub binary_present : Bool
  pub failed : Bool
  pub error : Option BuildError

failed_update : BuildSpec → BuildError → BuildUpdate
failed_update bs e = record {
  bs = some bs;
  done = true;
  error = some e;
  result = none;
  record_number = pos 0;
  queue_position = 0;
  msg = temp_failed_msg e.text;
}

found_update : BuildSpec → ℤ → BuildResult → BuildUpdate
found_update bs n br = record {
  bs = some bs;
  done = true;
  error = none;
  result = some br;
  record_number = n;
  queue_position = 0;
  msg = success_msg (some br);
}

abbrev build_failed : BuildError
build_failed = record { text = codes "build failed"; is_temporary = false }

found_result : BuildSpec → Lookup → Option BuildResult → Option BuildUpdate
unfolding found_update
found_result bs l none = none
found_result bs l (some br) =
    if l.binary_present then some (found_update bs l.record_number br) else none

-- The concluding update of a new entry, if a result or a failure is on disk.
unfoldable pub final_of_lookup : BuildSpec → Lookup → Option BuildUpdate
unfolding failed_update found_result
final_of_lookup bs l = elim l.error [
  | some e ↦ some (failed_update bs e)
  | none ↦ if l.failed then some (failed_update bs build_failed) else found_result bs l l.result
]

abbrev pub add_listener : WipBuild → ℕ → WipBuild
add_listener b c = record b { events = b.events ++ c ∷ [] }

-- The end of the case: the listener is told its place in the queue.
unfoldable pub tell_position : ℕ → Coordinator → Result Fault Coordinator
unfolding send pending_update
tell_position eventc c = do
  m ← send eventc (pending_update (length c.queue)) c.buffers
  ok (record c { buffers = m })

unfoldable pub tell_final : ℕ → BuildUpdate → Coordinator → Result Fault Coordinator
unfolding send
tell_final eventc u c = do m ← send eventc u c.buffers; ok (record c { buffers = m })

-- case reg := <-coordinate.register, for a specification that has no entry
unfoldable pub register_new :
    BuildRequest → Option BuildUpdate → Coordinator → Result Fault Coordinator
register_new r (some u) c = tell_final r.eventc u (record c {
  builds = put_build r.bs (some (record { events = r.eventc ∷ []; final = some u })) c.builds;
})
register_new r none c = do
  c' ← kick (record c {
    builds = put_build r.bs (some (record { events = r.eventc ∷ []; final = none })) c.builds;
    queue = c.queue ++ r ∷ [];
  })
  tell_position r.eventc c'

-- The same for a specification that has an entry.
unfoldable pub register_known :
    BuildRequest → WipBuild → Option BuildUpdate → Coordinator → Result Fault Coordinator
register_known r b (some u) c =
    tell_final r.eventc u
      (record c { builds = put_build r.bs (some (add_listener b r.eventc)) c.builds })
register_known r b none c =
    tell_position r.eventc
      (record c { builds = put_build r.bs (some (add_listener b r.eventc)) c.builds })

unfoldable pub register : BuildRequest → Lookup → Coordinator → Result Fault Coordinator
register r l c = elim (c.builds r.bs) [
  | none ↦ register_new r (final_of_lookup r.bs l) c
  | some b ↦ register_known r b b.final c
]

unfoldable pub without : ℕ → List ℕ → List ℕ
without c [] = []
without c (d ∷ ds) = let rest = without c ds in if d == c then rest else d ∷ rest

abbrev pub is_final : Option BuildUpdate → Bool
is_final none = false
is_final (some u) = true

abbrev pub is_empty : List ℕ → Bool
is_empty [] = true
is_empty (c ∷ cs) = false

-- case reg := <-coordinate.unregister
unfoldable pub unregister : BuildSpec → ℕ → Coordinator → Result Fault Coordinator
unfolding without
unregister bs eventc c = do
  b ← or_fail (c.builds bs) nil_build
  let l = without eventc b.events
  guard (length l + 1 == length b.events) channel_not_found
  let b' = record b { events = l }
  ok (record c {
    builds = put_build bs (if is_empty l && is_final b.final then none else some b') c.builds;
  })

unfoldable pub without_running : BuildSpec → List BuildRequest → List BuildRequest
without_running bs [] = []
without_running bs (r ∷ rs) =
    let rest = without_running bs rs in if eq_spec r.bs bs then rs else r ∷ rest

-- case update := <-updatec, for the update that the build of `r` sends when it ends
unfoldable pub finish : BuildRequest → BuildOutcome → Coordinator → Result Fault Coordinator
finish r o c = do
  let u = outcome_update r o
  b ← or_fail (c.builds r.bs) nil_build
  let b' = record b { final = some u }
  kick (record c {
    builds = put_build r.bs (if is_empty b.events then none else some b') c.builds;
    active = c.active - 1;
    path_busy = put_path (output_path r.bs) false c.path_busy;
    buffers = try_send_all b.events u c.buffers;
    running = without_running r.bs c.running;
  })
