-- ===== src/Tests/Coordinate.antt =====
-- Runs of the coordinator with two clients, and instances of its theorems.
use gobuild.Common.{
  List, length, ℕ, true, false, ◌≡◌, refl, arith, [], ◌∷◌, none, some, codes, Result, ok, err,
}
use gobuild.Common.Int.{pos}
use gobuild.Strings.{base}
use gobuild.Spec.{BuildSpec, output_path}
use gobuild.Spec.Equality.{eq_spec_self, eq_spec, eq_spec_iff}
use gobuild.Coordinate.{
  BuildRequest, Coordinator, Fault, new_coordinator, kick, kick_loop, kick_start, verdict,
  notify_rest, try_send_all, put_build, start_build,
}
use gobuild.Coordinate.Steps.{
  BuildOutcome, Lookup, outcome_update, register, register_new, register_known, tell_position,
  finish, final_of_lookup,
}
use gobuild.Coordinate.Members.{has_spec, has_path}
use gobuild.Coordinate.Invariant.{Inv, Ensures}
use gobuild.Coordinate.Runs.{registers, finishes, Reach, here, next, run-Inv}
use gobuild.Coordinate.Progress.{IsSaturated}
use gobuild.Coordinate.Saturation.{run-IsSaturated}
use gobuild.Coordinate.Stuck.{IsStuck}
use gobuild.Coordinate.Abandoned.{abandoned_forever}
use gobuild.Coordinate.Drained.{IsDrained, drain, drain-IsDrained}
use gobuild.Coordinate.Delivery.{Holds, finish_delivers}

abbrev spec_of : ℕ → BuildSpec
spec_of n = record {
  mod_path = codes "a.b/c";
  version = n ∷ [];
  dir = codes "/";
  goos = codes "linux";
  goarch = codes "amd64";
  goversion = codes "go1.20";
  stripped = false;
}

abbrev request : ℕ → BuildRequest
request n = record { bs = spec_of n; exp_sum = []; eventc = n }

abbrev not_found : Lookup
not_found = record {
  record_number = pos 0;
  result = none;
  binary_present = false;
  failed = false;
  error = none;
}

abbrev built : BuildOutcome
built = record { record_number = pos 3; result = none; output = []; error = none }

abbrev or_new : Result Fault Coordinator → Coordinator
or_new (ok c) = c
or_new (err e) = new_coordinator 0 0

-- One client waits for the build of its request.
abbrev one_client : Coordinator
one_client = or_new (register (request 7) not_found (new_coordinator 1 4))

-- A second client asks for another version of the module, whose output path is busy.
abbrev two_clients : Coordinator
two_clients = or_new (register (request 8) not_found one_client)

abbrev after_build : Coordinator
after_build = or_new (finish (request 7) built two_clients)

register_first : register (request 7) not_found (new_coordinator 1 4) ≡ ok one_client
unfolding register register_new new_coordinator final_of_lookup kick kick_loop kick_start verdict
    tell_position notify_rest output_path eq_spec try_send_all start_build base
register_first = refl

register_second : register (request 8) not_found one_client ≡ ok two_clients
unfolding register register_new new_coordinator final_of_lookup kick kick_loop kick_start verdict
    tell_position notify_rest output_path eq_spec try_send_all start_build base
register_second = refl

finish_first : finish (request 7) built two_clients ≡ ok after_build
unfolding finish register register_new new_coordinator final_of_lookup kick kick_loop kick_start
    verdict tell_position notify_rest output_path eq_spec try_send_all start_build base
finish_first = refl

started : (after_build.active ≡ 1) × (after_build.queue ≡ [])
unfolding finish register register_new new_coordinator final_of_lookup kick kick_loop kick_start
    verdict tell_position notify_rest output_path eq_spec try_send_all start_build base
started = (refl, refl)

two_clients_reached : Reach (new_coordinator 1 4) two_clients
two_clients_reached =
    next (next here (registers (request 7) not_found register_first))
      (registers (request 8) not_found register_second)

first_runs : has_spec (spec_of 7) two_clients.running ≡ true
unfolding has_spec register register_new new_coordinator final_of_lookup kick kick_loop kick_start
    verdict tell_position notify_rest output_path eq_spec try_send_all start_build base
first_runs = refl

after_build_reached : Reach (new_coordinator 1 4) after_build
after_build_reached = next two_clients_reached (finishes (request 7) built first_runs finish_first)

run-Inv_example : Inv after_build
run-Inv_example = run-Inv 1 4 after_build_reached

run-IsSaturated_example : IsSaturated two_clients
run-IsSaturated_example = run-IsSaturated 1 4 two_clients_reached

first_entry : two_clients.builds (spec_of 7) ≡ some (record { events = 7 ∷ []; final = none })
unfolding register register_new new_coordinator final_of_lookup kick kick_loop kick_start verdict
    tell_position notify_rest output_path eq_spec try_send_all start_build base
first_entry = refl

finish_delivers_example : Holds 7 (outcome_update (request 7) built) after_build.buffers
unfolding register register_new new_coordinator final_of_lookup kick kick_loop kick_start verdict
    tell_position notify_rest output_path eq_spec try_send_all start_build base
finish_delivers_example =
    finish_delivers 7 (request 7) built two_clients (record { events = 7 ∷ []; final = none })
      first_entry refl (omega arith) finish_first

-- A slot is free, and the only listener of the queued request has left.
abbrev left_alone : Coordinator
left_alone = record (new_coordinator 1 4) {
  builds = put_build (spec_of 7) (some (record { events = []; final = none })) (λ _. none);
  queue = request 7 ∷ [];
}

left_alone-Inv : Inv left_alone
unfolding new_coordinator has_spec has_path
left_alone-Inv = record {
  counted = refl;
  bounded = omega arith;
  busy = λ p. refl;
  exclusive = tt;
  queued = λ s h. ground (arith, eq_spec_iff s (spec_of 7), eq_spec_iff (spec_of 7) s);
  building = λ s h. cc;
  unrepeated = (refl, tt);
  apart = λ s h. refl;
}

abbrev dropped : Coordinator
dropped = or_new (kick left_alone)

kick_drops : kick left_alone ≡ ok dropped
unfolding new_coordinator kick kick_loop verdict eq_spec output_path
kick_drops = refl

abbrev asked_again : Coordinator
asked_again = or_new (register (request 7) not_found dropped)

register_again : register (request 7) not_found dropped ≡ ok asked_again
unfolding register register_known new_coordinator kick kick_loop verdict tell_position eq_spec
    output_path
register_again = refl

abandoned_forever_example : IsStuck (spec_of 7) asked_again
abandoned_forever_example =
    abandoned_forever left_alone (request 7) [] (record { events = []; final = none })
      left_alone-Inv (unfold new_coordinator in refl) (unfold new_coordinator in omega arith)
      (unfold new_coordinator in refl) (unfold new_coordinator eq_spec in refl) refl kick_drops
      (next here (registers (request 7) not_found register_again))

both_wait : (length two_clients.queue ≡ 1) × (length two_clients.running ≡ 1)
unfolding register register_new new_coordinator final_of_lookup kick kick_loop kick_start verdict
    tell_position notify_rest output_path eq_spec try_send_all start_build base
both_wait = (refl, refl)

abbrev first_started : BuildRequest → List BuildRequest → BuildRequest
first_started r rs = r

drain-IsDrained_example : Ensures IsDrained (drain first_started (λ r. built) 2 two_clients)
drain-IsDrained_example =
    drain-IsDrained first_started (λ r. built) first_runs_now 1 4 2 two_clients two_clients_reached
      (omega (arith, both_wait.0, both_wait.1))
  where
    first_runs_now :
        (r : BuildRequest) (rs : List BuildRequest)
        → has_spec (first_started r rs).bs (r ∷ rs) ≡ true
    first_runs_now r rs = unfold has_spec in ground (arith, eq_spec_self r.bs)
