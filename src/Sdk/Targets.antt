-- ===== src/Sdk/Targets.antt =====
-- gosdk.go: the list of targets and its order by popularity.
pub mod Use
use Prim.Native.String.{String}
use gobuild.Common.{Bool, false, ◌||◌, List, [], ◌∷◌, ◌++◌, Bytes, codes, eq_bytes}

pub record Target : Type 0 where
  pub goos : Bytes
  pub goarch : Bytes

-- Target.osarch
unfoldable pub osarch : Target → Bytes
osarch t = t.goos ++ (b'/' ∷ t.goarch)

abbrev target : String → String → Target
target goos goarch = record { goos = codes goos; goarch = codes goarch }

-- The literal of `targets.list`.
abbrev pub initial_list : List Target
initial_list =
    target "aix" "ppc64"
    ∷ target "darwin" "386"
    ∷ target "darwin" "amd64"
    ∷ target "dragonfly" "amd64"
    ∷ target "freebsd" "386"
    ∷ target "freebsd" "amd64"
    ∷ target "freebsd" "arm"
    ∷ target "freebsd" "arm64"
    ∷ target "illumos" "amd64"
    ∷ target "js" "wasm"
    ∷ target "linux" "386"
    ∷ target "linux" "amd64"
    ∷ target "linux" "arm"
    ∷ target "linux" "arm64"
    ∷ target "linux" "mips"
    ∷ target "linux" "mips64"
    ∷ target "linux" "mips64le"
    ∷ target "linux" "mipsle"
    ∷ target "linux" "ppc64"
    ∷ target "linux" "ppc64le"
    ∷ target "linux" "riscv64"
    ∷ target "linux" "s390x"
    ∷ target "netbsd" "386"
    ∷ target "netbsd" "amd64"
    ∷ target "netbsd" "arm"
    ∷ target "netbsd" "arm64"
    ∷ target "openbsd" "386"
    ∷ target "openbsd" "amd64"
    ∷ target "openbsd" "arm"
    ∷ target "openbsd" "arm64"
    ∷ target "plan9" "386"
    ∷ target "plan9" "amd64"
    ∷ target "plan9" "arm"
    ∷ target "solaris" "amd64"
    ∷ target "windows" "386"
    ∷ target "windows" "amd64"
    ∷ target "windows" "arm"
    ∷ []

-- `_, ok := m[key]` on the keys that `init` puts into `available`.
unfoldable pub is_listed : Bytes → List Target → Bool
unfolding osarch eq_bytes
is_listed key [] = false
is_listed key (t ∷ ts) = eq_bytes (osarch t) key || is_listed key ts

unfoldable pub available : Bytes → Bool
unfolding is_listed
available key = is_listed key initial_list
