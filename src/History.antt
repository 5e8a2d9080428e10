-- ===== src/History.antt =====
-- gobuild.go, cleanup.go, tlog.go: what builds and cleanups do to the files of a server, with the log
-- that they are to write.
pub mod Refines
pub mod Restart
pub mod Signed
use gobuild.Common.{ℕ, ◌≡◌, ◌≢◌, refl, sym, ap, ◌∙◌, Option, none, List, [], ◌∷◌, ◌++◌, Bytes, ok}
use gobuild.Common.Int.{ℤ}
use gobuild.Spec.{BuildSpec}
use gobuild.Record.{BuildResult}
use gobuild.Tlog.{Dir, Store, HashTree, Disk}
use gobuild.Tlog.Server.{number_file}
use gobuild.Build.Run.{Calls}
use gobuild.Build.Run.Store.{Server, Outcome, built, build}
use gobuild.Build.Run.Store.Refused.{IsIntact}
use gobuild.Sdk.Targets.Use.{Targets}
use gobuild.Build.Recent.{read_recent_builds}
use gobuild.Cleanup.{FileAge}
use gobuild.Cleanup.Restored.{cleaned}

-- A new result is the last of the log; a build for which a sum is expected, or that fails, adds none.
abbrev pub logged : Bytes → Outcome → List BuildResult → List BuildResult
logged [] (built v br) log = log ++ br ∷ []
logged [] o log = log
logged (x ∷ exp_sum) o log = log

-- There are no records, and no directory has a number.
pub record IsFresh (s : Store) : Type 0 where
  pub no_records : s.records ≡ []
  pub no_hashes : s.hashes ≡ []
  pub no_numbers : (p : Bytes) → number_file (s.dirs p) ≡ none

-- What happens to a server, with the log: no addSum fails after its first permanent write. Builds run
-- at the same time, but what one does to the files of others it does in addSum, under addSumMutex,
-- or in the one rename that restores a binary: a step `builds` stands for that moment. The counts of
-- the targets and the recent links have locks of their own, so that builds change them in any
-- order, which is not that of the log: `others` lets them be anything.
pub data History (h : HashTree) : List BuildResult → Server → Type 0 where
  started : (w : Server) → IsFresh w.store → History h [] w
  builds :
      {log : List BuildResult} {w : Server}
      → History h log w
      → (b : Calls) (d : Disk) (bs : BuildSpec) (exp_sum : Bytes)
      → IsIntact (build b h d bs exp_sum w).1
      → History h (logged exp_sum (build b h d bs exp_sum w).1 log) (build b h d bs exp_sum w).0
  cleans :
      {log : List BuildResult} {w : Server}
      → History h log w
      → (age : ℤ) (visit : Bytes → FileAge) → History h log (cleaned age visit w)
  others :
      {log : List BuildResult} {w : Server}
      → History h log w
      → (targets : Targets) (links : List Bytes)
      → History h log (record w { targets = targets; recent_links = links })
