-- ===== src/Build/Prepared.antt =====
-- gobuild.go: what prepareBuild has found when it succeeds.
use gobuild.Common.{
  length-eq-zero, guard_only-eq-ok, not-eq-true, ◌==◌, ==_iff, ◌≡◌, refl, false, not, Option, some,
  [], Bytes, codes, eq_bytes, eq_bytes_iff, length, arith, Result, ok, err, guard-eq-ok,
  or_fail-eq-ok, bind-eq-ok,
}
use gobuild.Spec.{BuildSpec}
use gobuild.Common.{true, sym, subst, ap, ◌∙◌, Bool-cases, inl, inr, none}
use gobuild.Common.Int.{pos}
use gobuild.Sdk.Versions.{GoVersion, VersionError, parse_go_version}
use gobuild.Sdk.Ensure.{Sdk, SdkError, Releases, ensure_sdk}
use gobuild.Build.Module.{
  Machine, Stat, present, absent, stat_failed, ModuleError, is_from, download_module,
  download_dependencies, get_module, fetch_by_download, fetch_by_get, fetch_module, module_dir,
  in_dir, fetch_unless, ensure_gobin, ensure_module,
}
use gobuild.Build.Prepare.{
  or_module_failed, package_dir, list_name, list_cgo, check_package, check_build, prepare_build,
}

-- The module was in its directory of the cache, or the go commands that fetch it have succeeded: for
-- a toolchain from go1.18 on the downloads of the module and of its dependencies.
pub data HasModule (m : Machine) (bs : BuildSpec) (gobin mod_dir : Bytes) : Type 0 where
  was_there : m.stat mod_dir ≡ present → HasModule m bs gobin mod_dir
  downloaded :
      (v : GoVersion)
      → parse_go_version bs.goversion ≡ ok v
      → is_from (pos 18) v ≡ true
      → (m.run (download_module m bs.goversion gobin bs.mod_path bs.version)).failed ≡ false
      → (m.run (download_dependencies m bs.goversion gobin mod_dir)).failed ≡ false
      → HasModule m bs gobin mod_dir
  got :
      (v : GoVersion)
      → parse_go_version bs.goversion ≡ ok v
      → is_from (pos 18) v ≡ false
      → (m.run (get_module m bs.goversion gobin bs.mod_path bs.version)).failed ≡ false
      → HasModule m bs gobin mod_dir

-- The directory is that of the escaped path and version.
pub record IsInCache (m : Machine) (bs : BuildSpec) (gobin mod_dir : Bytes) : Type 0 where
  pub escaped_path : Bytes
  pub path_eq : m.escape_path bs.mod_path ≡ some escaped_path
  pub escaped_version : Bytes
  pub version_eq : m.escape_version bs.version ≡ some escaped_version
  pub dir_eq : mod_dir ≡ module_dir m bs.goversion gobin escaped_path escaped_version
  pub there : HasModule m bs gobin mod_dir

-- The toolchain and the module are there, and the package of the specification is a main package
-- that no package with cgo files is needed for.
pub record IsPrepared (m : Machine) (bs : BuildSpec) : Type 0 where
  pub gobin : Bytes
  pub has_gobin : ensure_gobin m bs.goversion ≡ some gobin
  pub mod_dir : Bytes
  pub has_module : IsInCache m bs gobin mod_dir
  pub listed : (m.run (list_name m bs gobin (package_dir m.host mod_dir bs))).failed ≡ false
  pub is_main :
      (m.run (list_name m bs gobin (package_dir m.host mod_dir bs))).output ≡ codes "main\n"
  pub cgo_listed : (m.run (list_cgo m bs gobin (package_dir m.host mod_dir bs))).failed ≡ false
  pub no_cgo : (m.run (list_cgo m bs gobin (package_dir m.host mod_dir bs))).output ≡ []

module _ (m : Machine) (bs : BuildSpec) where
  or_module_failed-ok :
      (x : Result ModuleError Bytes) (dir : Bytes) → or_module_failed x ≡ ok dir → x ≡ ok dir
  or_module_failed-ok (ok d) dir h = ground arith
  or_module_failed-ok (err e) dir h = absurd (ground arith)

  module _ (gobin : Bytes) where
    fetched-HasModule :
        (dir : Bytes)
        → fetch_module m bs.goversion gobin dir bs.mod_path bs.version ≡ ok tt
        → HasModule m bs gobin dir
    fetched-HasModule dir h = go (parse_go_version bs.goversion) refl
      where
        go :
            (x : Result VersionError GoVersion)
            → parse_go_version bs.goversion ≡ x
            → HasModule m bs gobin dir
        go (err e) k = absurd (unfold fetch_module in ground (arith, h, k))
        go (ok v) k = elim (Bool-cases (is_from (pos 18) v)) [
          | inl new ↦
              let fetched : fetch_by_download m bs.goversion gobin dir bs.mod_path bs.version
                  ≡ ok tt =
                (unfold fetch_module in ground (arith, h, k, new)) in
              downloaded v k new (unfold fetch_by_download in ground (arith, fetched))
                (unfold fetch_by_download in ground (arith, fetched))
          | inr old ↦
              let fetched : fetch_by_get m bs.goversion gobin bs.mod_path bs.version ≡ ok tt =
                (unfold fetch_module in ground (arith, h, k, old)) in
              got v k old (unfold fetch_by_get in ground (arith, fetched))
        ]

    ensure_module-IsInCache :
        (dir : Bytes)
        → ensure_module m bs.goversion gobin bs.mod_path bs.version ≡ ok dir
        → IsInCache m bs gobin dir
    ensure_module-IsInCache dir h =
        go (m.escape_path bs.mod_path) refl (m.escape_version bs.version) refl
      where
        fetch : Bytes → Stat → Result ModuleError Bytes
        fetch p = fetch_unless m bs.goversion gobin p bs.mod_path bs.version

        found :
            (p : Bytes) (x : Stat)
            → m.stat p ≡ x
            → fetch p x ≡ ok dir
            → (dir ≡ p) × HasModule m bs gobin dir
        found p present k e =
            let same : dir ≡ p = ground (arith, e) in (same, was_there (ap m.stat same ∙ k))
        found p absent k e =
            fetched p (fetch_module m bs.goversion gobin p bs.mod_path bs.version) refl e
          where
            fetched :
                (p : Bytes) (y : Result ModuleError (Unit {0}))
                → fetch_module m bs.goversion gobin p bs.mod_path bs.version ≡ y
                → in_dir m bs.goversion gobin p y ≡ ok dir
                → (dir ≡ p) × HasModule m bs gobin dir
            fetched p (err z) l e = absurd (ground (arith, e))
            fetched p (ok u) l e =
                let same : p ≡ dir = ground (arith, e) in
                (sym same, subst (HasModule m bs gobin) same (fetched-HasModule p l))
        found p stat_failed k e = absurd (ground (arith, e))

        go :
            (x : Option Bytes)
            → m.escape_path bs.mod_path ≡ x
            → (y : Option Bytes) → m.escape_version bs.version ≡ y
            → IsInCache m bs gobin dir
        go none k y l = absurd (unfold ensure_module in ground (arith, h, k))
        go (some p) k none l = absurd (unfold ensure_module in ground (arith, h, k, l))
        go (some p) k (some v) l =
            let whole : fetch (module_dir m bs.goversion gobin p v)
                  (m.stat (module_dir m bs.goversion gobin p v))
                ≡ ok dir =
              (unfold ensure_module in ground (arith, h, k, l)) in
            let (same, there) = found (module_dir m bs.goversion gobin p v) _ refl whole in
            record {
              escaped_path = p;
              path_eq = k;
              escaped_version = v;
              version_eq = l;
              dir_eq = same;
              there = there;
            }

  check_build-IsPrepared : check_build m bs ≡ ok tt → IsPrepared m bs
  unfolding check_build check_package
  check_build-IsPrepared h =
      let (gobin, found, h1) = bind-eq-ok _ _ h in
      let (dir, fetched, h2) = bind-eq-ok _ _ h1 in
      let p = package_dir m.host dir bs in
      let (listed, h3) = guard-eq-ok (not (m.run (list_name m bs gobin p)).failed) _ _ h2 in
      let (main, h4) =
        guard-eq-ok (eq_bytes (m.run (list_name m bs gobin p)).output (codes "main\n")) _ _ h3 in
      let (cgo_listed, h5) = guard-eq-ok (not (m.run (list_cgo m bs gobin p)).failed) _ _ h4 in
      let no_output = guard_only-eq-ok (length (m.run (list_cgo m bs gobin p)).output == 0) _ h5 in
      record {
        gobin = gobin;
        has_gobin = or_fail-eq-ok _ _ found;
        mod_dir = dir;
        has_module = ensure_module-IsInCache gobin dir (or_module_failed-ok _ dir fetched);
        listed = not-eq-true _ listed;
        is_main = (eq_bytes_iff _ _).0 main;
        cgo_listed = not-eq-true _ cgo_listed;
        no_cgo = length-eq-zero _ ((==_iff _ 0).0 no_output);
      }

  -- When prepareBuild succeeds, ensureSDK has returned the toolchain, the directory of the module was
  -- in the cache or the go commands that fetch it have succeeded, and the go command has named the
  -- package in it "main" and no package with cgo files.
  pub prepare_build-IsPrepared :
      (stop : Option GoVersion) (r : Releases) (st : Sdk)
      → (prepare_build m bs stop r st).1 ≡ ok tt
      → ((v : GoVersion) × ((ensure_sdk stop r bs.goversion st).1 ≡ ok v)) × IsPrepared m bs
  prepare_build-IsPrepared stop r st h = go (ensure_sdk stop r bs.goversion st) refl
    where
      go :
          (x : Sdk × Result SdkError GoVersion)
          → ensure_sdk stop r bs.goversion st ≡ x
          → ((v : GoVersion) × ((ensure_sdk stop r bs.goversion st).1 ≡ ok v)) × IsPrepared m bs
      go (st', err e) k = absurd (unfold prepare_build in ground arith)
      go (st', ok v) k =
          ((v, rw k refl), check_build-IsPrepared (unfold prepare_build in ground arith))
