-- ===== src/Web.antt =====
-- serve.go, home.go, build.go, result.go: the HTTP handlers, as what they reply and which listeners
-- they register with the coordinator.
pub mod Build
pub mod Results
pub mod Home
pub mod Clients
pub mod Modules
pub mod Files
pub mod Index
use gobuild.Common.{
  ℕ, Bool, true, false, if◌then◌else◌, Option, none, some, List, [], ◌∷◌, Bytes, Result,
}
use gobuild.Spec.{BuildSpec}
use gobuild.Record.{BuildResult, PackError}
use gobuild.Request.{Page}
use gobuild.Coordinate.{BuildUpdate, UpdateMsg, BuildError}
use gobuild.Tlog.Read.{Found, LookupError}
use gobuild.Build.Prepare.{PrepareError}

-- The texts of failf
pub data Failure : Type 0 where
  no_toolchains resolving_failed has_record_number not_moved_away not_all_removed see_index_page
        no_flusher unknown_page binary_not_opened :
      Failure
  lookup_failed : LookupError → Failure
  preparing_failed : PrepareError → Failure
  build_failed : BuildError → Failure
  packing_failed : PackError → Failure

-- What a handler writes. `gone` is the end of the client's request without a reply; files are
-- served from the directory of the specification's results.
pub data Reply : Type 0 where
  not_found forbidden method_not_allowed gone : Reply
  failed : Failure → Reply
  temporary_redirect see_other : Bytes → Reply
  log_file binary binary_gz : BuildSpec → Reply
  record_text : Bytes → Reply
  index : BuildSpec → Option BuildResult → Reply
  events : List UpdateMsg → Reply

pub data Call : Type 0 where
  register : Bytes → Call
  unregister : Call

-- A reply, and the calls of registerBuild, with the expected sum, and unregisterBuild.
pub record Served : Type 0 where
  pub reply : Reply
  pub calls : List Call

-- What reaches a handler that waits: the end of the request's context, or an update, with
-- whether it can be written to the client.
pub data WebEvent : Type 0 where
  done : WebEvent
  received : BuildUpdate → Bool → WebEvent

-- What the handlers ask: listSDK, resolveModuleVersion, lookupResult, handleBadClient,
-- prepareBuild, the response writer, the calls that move a failed
-- result away or open a binary, and the events.
pub record Facts : Type 0 where
  pub newest : Option Bytes
  pub resolved : Option Bytes
  pub lookup : Result LookupError Found
  pub is_bad_client : Bool
  pub preparation : Result PrepareError (Unit {0})
  pub is_flusher : Bool
  pub keepalive_fails : Bool
  pub has_number_file : Bool
  pub rename_fails : Bool
  pub remove_fails : Bool
  pub open_fails : Bool
  pub web_events : List WebEvent

-- The loop that waits for the concluding update; `none` while no event ends it, and no update
-- where the client has gone.
unfoldable pub wait_concluded : List WebEvent → Option (Option BuildUpdate)
wait_concluded [] = none
wait_concluded (done ∷ es) = some none
wait_concluded (received u writes ∷ es) =
    let rest = wait_concluded es in if u.done then some (some u) else rest

abbrev pub reply_only : Reply → Option Served
reply_only r = some (record { reply = r; calls = [] })

-- A reply after a registration that is taken back.
abbrev pub listened : Bytes → Reply → Option Served
listened sum r = some (record { reply = r; calls = register sum ∷ unregister ∷ [] })
