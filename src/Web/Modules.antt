-- ===== src/Web/Modules.antt =====
-- module.go: serveModules, which lists the main packages of a module.
use gobuild.Common.{
  ℕ, ◌+◌, ltb, Bool, true, false, not, ◌&&◌, ◌||◌, if◌then◌else◌, Option, none, some, List, [], ◌∷◌,
  ◌++◌, Bytes, codes, eq_bytes, drop, length, map, Result, ok, err, ◌>>=◌, or_fail,
}
use gobuild.Common.Int.{pos, ltb_ℤ}
use gobuild.Strings.{contains, has_prefix, has_suffix, split, trim_right}
use gobuild.Request.{index_page, link}
use gobuild.Sdk.Versions.{GoVersion, version_text}
use gobuild.Sdk.Targets.{Target}
use gobuild.Build.Command.{Command, make_command}
use gobuild.Build.Module.{Machine, ModuleError, ensure_gobin, ensure_module, is_from}
use gobuild.Web.Clients.{to_lower}

-- The names that stand for a target in a user agent in lower case
unfoldable pub names_goos : Bytes → Bytes → Bool
unfolding contains eq_bytes
names_goos ua goos =
    contains goos ua
    || (eq_bytes goos (codes "darwin")
        && (contains (codes "macos") ua
            || contains (codes "macintosh") ua
            || contains (codes "mac os x") ua))

unfoldable pub names_goarch : Bytes → Bytes → Bool
unfolding contains eq_bytes
names_goarch ua goarch =
    contains goarch ua
    || (eq_bytes goarch (codes "amd64")
        && (contains (codes "x86_64") ua
            || contains (codes "x86-64") ua
            || contains (codes "x64; ") ua
            || contains (codes "win64") ua
            || contains (codes "wow64") ua))
    || (eq_bytes goarch (codes "386")
        && (contains (codes "i686") ua
            || contains (codes "x86; ") ua
            || contains (codes "win32") ua))

-- The target that matches best so far, and the text that has matched.
pub record Guess : Type 0 where
  pub guessed : Option Target
  pub matched : Bytes

unfoldable pub match_text : Bytes → Target → Bytes
unfolding names_goos names_goarch
match_text ua t =
    (if names_goos ua t.goos then t.goos else [])
    ++ (if names_goarch ua t.goarch then t.goarch else [])

unfoldable pub better_guess : Bytes → Target → Guess → Guess
unfolding match_text
better_guess ua t g =
    let m = match_text ua t in
    if ltb (length g.matched) (length m) then record { guessed = some t; matched = m } else g

unfoldable pub guess_loop : Bytes → List Target → Guess → Guess
unfolding better_guess
guess_loop ua [] g = g
guess_loop ua (t ∷ ts) g = guess_loop ua ts (better_guess ua t g)

abbrev pub or_first_target : List Target → Option Target → Option Target
or_first_target ts (some t) = some t
or_first_target [] none = none
or_first_target (t ∷ ts) none = some t

-- autodetectTarget, from the list of targets; `none` is the panic for an empty list.
unfoldable pub autodetect_target : Bytes → List Target → Option Target
unfolding guess_loop to_lower
autodetect_target agent ts =
    or_first_target ts
      (guess_loop (to_lower agent) ts (record { guessed = none; matched = [] })).guessed

-- The directory of one line of the output, if it is that of a main package in the module; `sep`
-- is filepath.Separator.
unfoldable pub main_dir : ℕ → Bytes → Bytes → Option Bytes
unfolding has_prefix eq_bytes
main_dir sep mod_dir line =
    if not (has_prefix (codes "main ") line)
    then none
    else (let s = drop 5 line in
        if eq_bytes s mod_dir
        then some []
        else if not (has_prefix (mod_dir ++ sep ∷ []) s)
        then none
        else (let d = drop (length mod_dir + 1) s in
            some (if eq_bytes d [] then d else d ++ sep ∷ [])))

unfoldable pub main_dirs : ℕ → Bytes → List Bytes → List Bytes
unfolding main_dir
main_dirs sep mod_dir [] = []
main_dirs sep mod_dir (l ∷ ls) =
    let rest = main_dirs sep mod_dir ls in
    elim (main_dir sep mod_dir l) [ none ↦ rest | some d ↦ d ∷ rest ]

-- From go1.21.1 on, "go list" is told not to change go.mod.
unfoldable pub is_readonly : GoVersion → Bool
is_readonly v = is_from (pos 22) v || is_from (pos 21) v && not (ltb_ℤ v.patch (pos 1))

unfoldable pub list_command : Machine → GoVersion → Bytes → Bytes → Command
unfolding is_readonly
list_command m v gobin mod_dir = make_command m.host (version_text v) true mod_dir true [] (
    gobin
    ∷ codes "list"
    ∷ ((if is_readonly v then codes "-mod=readonly" ∷ [] else [])
        ++ codes "-f" ∷ codes "{{.Name}} {{ .Dir }}" ∷ codes "./..." ∷ []))

-- listMainPackages; `none` where the command fails
unfoldable pub list_main_packages : ℕ → Machine → GoVersion → Bytes → Bytes → Option (List Bytes)
unfolding list_command
list_main_packages sep m v gobin mod_dir =
    let r = m.run (list_command m v gobin mod_dir) in
    if r.failed then none else some (main_dirs sep mod_dir (split b'\n' r.output))

pub data ModulesError : Type 0 where
  version_not_resolved no_recent_toolchain no_gobin not_listed no_main_packages : ModulesError
  not_fetched : ModuleError → ModulesError

-- A redirect, or the page with the links and the names of the main packages.
pub data ModulesReply : Type 0 where
  redirect_to : Bytes → ModulesReply
  main_packages : List (Bytes × Bytes) → ModulesReply

-- The request's path without its slash, the target for the client, and what resolveModuleVersion
-- and ensureMostRecentSDK answer; `to_slash` is filepath.ToSlash.
pub record ModulesRequest : Type 0 where
  pub mod_path : Bytes
  pub detected : Target
  pub latest : Option Bytes
  pub most_recent : Option GoVersion
  pub separator : ℕ
  pub to_slash : Bytes → Bytes

abbrev or_not_fetched : Result ModuleError Bytes → Result ModulesError Bytes
or_not_fetched (ok dir) = ok dir
or_not_fetched (err e) = err (not_fetched e)

-- The link to the index page of the package in a directory
unfoldable pub package_link : ModulesRequest → Bytes → GoVersion → Bytes → Bytes
package_link q version v dir = link (record {
  spec = record {
    mod_path = q.mod_path;
    version = version;
    dir = b'/' ∷ q.to_slash dir;
    goos = q.detected.goos;
    goarch = q.detected.goarch;
    goversion = version_text v;
    stripped = false;
  };
  sum = [];
  page = index_page;
})

abbrev named_link : ModulesRequest → Bytes → GoVersion → Bytes → Bytes × Bytes
named_link q version v dir =
    (package_link q version v dir, if eq_bytes dir [] then codes "/" else dir)

abbrev modules_reply :
    ModulesRequest → Bytes → GoVersion → List Bytes → Result ModulesError ModulesReply
modules_reply q version v [] = err no_main_packages
modules_reply q version v (d ∷ []) = ok (redirect_to (package_link q version v d))
modules_reply q version v (d ∷ e ∷ ds) =
    ok (main_packages (map (named_link q version v) (d ∷ e ∷ ds)))

-- The part of serveModules for a path that does not end with a slash
unfoldable pub list_module : Machine → ModulesRequest → Result ModulesError ModulesReply
unfolding package_link list_main_packages
list_module m q = do
  version ← or_fail q.latest version_not_resolved
  v ← or_fail q.most_recent no_recent_toolchain
  gobin ← or_fail (ensure_gobin m (version_text v)) no_gobin
  mod_dir ← or_not_fetched (ensure_module m (version_text v) gobin q.mod_path version)
  dirs ← or_fail (list_main_packages q.separator m v gobin mod_dir) not_listed
  modules_reply q version v dirs

-- serveModules
unfoldable pub serve_modules : Machine → ModulesRequest → Result ModulesError ModulesReply
unfolding list_module has_suffix trim_right
serve_modules m q =
    if has_suffix (codes "/") q.mod_path
    then ok (redirect_to (b'/' ∷ trim_right b'/' q.mod_path))
    else list_module m q
