-- ===== src/Build/Command.antt =====
-- command.go: the command of the toolchain that is run, and its environment.
use gobuild.Common.{Bool, if◌then◌else◌, List, [], ◌∷◌, ◌++◌, Bytes, codes, eq_bytes}

-- The functions of path/filepath, whose rules are those of the host.
pub record PathRules : Type 0 where
  pub join_path : List Bytes → Bytes
  pub is_abs : Bytes → Bool
  pub clean_path : Bytes → Bytes
  pub base_path : Bytes → Bytes
  pub from_slash : Bytes → Bytes

-- config.Run, config.GoProxy, config.Environment, config.SDKDir, homedir, emptyDir, workdir, runtime.GOOS
-- and runtime.GOARCH.
pub record Host : Type 0 where
  pub run_prefix : List Bytes
  pub go_proxy : Bytes
  pub environment : List Bytes
  pub home_dir : Bytes
  pub empty_dir : Bytes
  pub host_goos : Bytes
  pub host_goarch : Bytes
  pub sdk_dir : Bytes
  pub work_dir : Bytes
  pub path : PathRules

pub record Command : Type 0 where
  pub argv : List Bytes
  pub dir : Bytes
  pub env : List Bytes

-- The switch on runtime.GOOS
unfoldable pub home_env : Host → List Bytes
unfolding eq_bytes
home_env c =
    if eq_bytes c.host_goos (codes "windows")
    then (codes "USERPROFILE=" ++ c.home_dir)
      ∷ (codes "AppData=" ++ c.path.join_path (c.home_dir ∷ codes "AppData" ∷ []))
      ∷ (codes "LocalAppData=" ++ c.path.join_path (c.home_dir ∷ codes "LocalAppData" ∷ []))
      ∷ []
    else if eq_bytes c.host_goos (codes "plan9")
    then (codes "home=" ++ c.home_dir) ∷ []
    else (codes "HOME=" ++ c.home_dir) ∷ []

-- The variables in front of config.Environment
unfoldable pub base_env : Host → Bytes → Bool → Bool → List Bytes
unfolding home_env
base_env c goversion with_goproxy cgo_enabled =
    (if with_goproxy then codes "GOPROXY=" ++ c.go_proxy else codes "GOPROXY=off")
    ∷ (if cgo_enabled then codes "CGO_ENABLED=1" else codes "CGO_ENABLED=0")
    ∷ codes "GO111MODULE=on"
    ∷ codes "GO19CONCURRENTCOMPILATION=0"
    ∷ (codes "GOTOOLCHAIN=" ++ goversion)
    ∷ home_env c

-- makeCommand
unfoldable pub make_command : Host → Bytes → Bool → Bytes → Bool → List Bytes → List Bytes → Command
unfolding base_env
make_command c goversion with_goproxy dir cgo_enabled extra_env argv = record {
  argv = c.run_prefix ++ argv;
  dir = dir;
  env = base_env c goversion with_goproxy cgo_enabled ++ (c.environment ++ extra_env);
}

-- The variables of the target
unfoldable pub target_env : Bytes → Bytes → List Bytes
target_env goos goarch = (codes "GOOS=" ++ goos) ∷ (codes "GOARCH=" ++ goarch) ∷ []
