-- ===== src/Build/Environment.antt =====
-- command.go: the values that a command finds in its environment.
use gobuild.Common.{
  ◌≡◌, refl, Bool, if◌then◌else◌, Option, none, some, List, [], ◌∷◌, ◌++◌, Bytes, codes, eq_bytes,
}
use gobuild.Strings.{cut}
use gobuild.Build.Command.{base_env, Host, make_command, target_env}

abbrev value_if : Bytes → Option (Bytes × Bytes) → Option Bytes
value_if key none = none
value_if key (some (k, v)) = if eq_bytes k key then some v else none

abbrev or_value : Option Bytes → Option Bytes → Option Bytes
or_value (some v) other = some v
or_value none other = other

-- The value of a variable: os/exec uses the last one of several.
unfoldable pub env_value : Bytes → List Bytes → Option Bytes
env_value key [] = none
env_value key (e ∷ es) = or_value (env_value key es) (value_if key (cut b'=' e))

env_value-append :
    (key : Bytes) (before after : List Bytes) {v : Bytes}
    → env_value key after ≡ some v
    → env_value key (before ++ after) ≡ some v
unfolding env_value
env_value-append key [] after h = h
env_value-append key (e ∷ before) after h = rw (env_value-append key before after h) refl

target_env-goos :
    (goos goarch : Bytes) (more : List Bytes)
    → env_value (codes "GOOS") more ≡ none
    → env_value (codes "GOOS") (target_env goos goarch ++ more) ≡ some goos
unfolding env_value target_env cut eq_bytes
target_env-goos goos goarch more h = rw h refl

target_env-goarch :
    (goos goarch : Bytes) (more : List Bytes)
    → env_value (codes "GOARCH") more ≡ none
    → env_value (codes "GOARCH") (target_env goos goarch ++ more) ≡ some goarch
unfolding env_value target_env cut eq_bytes
target_env-goarch goos goarch more h = rw h refl

module _ (c : Host) (goversion : Bytes) (goproxy : Bool) (dir : Bytes) (cgo : Bool)
    (goos goarch : Bytes) (more argv : List Bytes) where
  -- A command that is made with the variables of a target is run for this target, whatever
  -- variables are configured, if the further variables are no other GOOS and GOARCH.
  pub make_command-runs_for_target :
      env_value (codes "GOOS") more ≡ none
      → env_value (codes "GOARCH") more ≡ none
      → (env_value
            (codes "GOOS")
            (make_command c goversion goproxy dir cgo (target_env goos goarch ++ more) argv).env
          ≡ some goos)
        × (env_value
              (codes "GOARCH")
              (make_command c goversion goproxy dir cgo (target_env goos goarch ++ more) argv).env
            ≡ some goarch)
  unfolding make_command
  make_command-runs_for_target no_os no_arch = (
    last (codes "GOOS") (target_env-goos goos goarch more no_os),
    last (codes "GOARCH") (target_env-goarch goos goarch more no_arch),
  )
    where
      last :
          (key : Bytes) {v : Bytes}
          → env_value key (target_env goos goarch ++ more) ≡ some v
          → env_value key (
              base_env c goversion goproxy cgo
              ++ (c.environment ++ (target_env goos goarch ++ more)))
            ≡ some v
      last key h =
          env_value-append key (base_env c goversion goproxy cgo) _
            (env_value-append key c.environment _ h)
