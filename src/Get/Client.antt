-- ===== src/Get/Client.antt =====
-- tlogclient.go: the client of the log, with its configuration files and its cache.
pub mod Pinned
use gobuild.Common.{
  List, ◌∷◌, ◌==◌, Bool, not, if◌then◌else◌, Option, none, some, [], ◌++◌, Bytes, codes, eq_bytes,
  Result, ok, err,
}
use gobuild.Build.Command.{PathRules}
use gobuild.Build.Verify.{Response}
use gobuild.Strings.{has_byte, has_suffix, trim_right}

-- clientOps
pub record ClientOps : Type 0 where
  pub local_dir : Bytes
  pub base_url : Bytes

-- The configuration files by name, and which calls on them fail.
pub record Configs : Type 0 where
  pub files : Bytes → Option Bytes
  pub read_fails : Bytes → Bool
  pub write_fails : Bytes → Bool

pub data ClientError : Type 0 where
  bad_verifier_key no_cache_dir not_read not_written write_conflict does_not_exist : ClientError
  different_key : Bytes → ClientError

-- clientOps.ReadConfig: a missing file of the latest tree is an empty one.
unfoldable pub read_config : Configs → Bytes → Result ClientError Bytes
unfolding has_suffix
read_config c file = if c.read_fails file then err not_read else elim (c.files file) [
  | some buf ↦ ok buf
  | none ↦ if has_suffix (codes "/latest") file then ok [] else err does_not_exist
]

abbrev put_config : Bytes → Bytes → Configs → Configs
put_config file buf c = record c { files = λ q. if eq_bytes q file then some buf else c.files q }

unfoldable pub write_file : Configs → Bytes → Bytes → Configs × Result ClientError (Unit {0})
write_file c file buf =
    if c.write_fails file then (c, err not_written) else (put_config file buf c, ok tt)

abbrev replace_if :
    Configs
    → Bytes
    → Bytes
    → Bytes
    → Result ClientError Bytes
    → Configs × Result ClientError (Unit {0})
replace_if c file old buf (err e) = (c, err not_read)
replace_if c file old buf (ok cur) =
    if not (eq_bytes cur old) then (c, err write_conflict) else write_file c file buf

-- clientOps.WriteConfig; `none` is a nil slice.
unfoldable pub write_config :
    Configs → Bytes → Option Bytes → Bytes → Configs × Result ClientError (Unit {0})
unfolding write_file
write_config c file none buf = write_file c file buf
write_config c file (some old) buf = replace_if c file old buf (read_config c file)

-- The URL of the log for the name of a verifier
unfoldable pub log_url : Bytes → Bytes → Bytes
unfolding has_byte trim_right eq_bytes
log_url name url = trim_right b'/' (
    if eq_bytes url []
    then if has_byte b'.' name
      then codes "https://" ++ (name ++ codes "/tlog")
      else codes "http://" ++ (name ++ codes ":8000/tlog")
    else url)

abbrev ops_of :
    Bytes
    → Configs × Result ClientError (Unit {0})
    → ClientOps
    → Configs × Result ClientError ClientOps
ops_of vkey (c, ok u) ops = (c, ok ops)
ops_of vkey (c, err e) ops = (c, err e)

-- A missing key is written, and another one refused.
abbrev with_key :
    Configs → Bytes → ClientOps → Result ClientError Bytes → Configs × Result ClientError ClientOps
with_key c vkey ops (ok old) =
    if not (eq_bytes vkey old) then (c, err (different_key old)) else (c, ok ops)
with_key c vkey ops (err does_not_exist) = ops_of vkey (write_config c (codes "key") none vkey) ops
with_key c vkey ops (err e) = (c, err not_read)

-- The directory for the files of the client of a log
abbrev pub local_dir_of : PathRules → Bytes → Bytes → Bytes
local_dir_of rules dir name =
    rules.join_path (dir ∷ codes "gobuild" ∷ codes "sumclient" ∷ name ∷ [])

-- newClient, from the name of the verifier, for the files in its directory; note.NewVerifier and
-- os.UserCacheDir answer `none` where they fail.
unfoldable pub new_client :
    PathRules
    → Configs
    → Bytes
    → Option Bytes
    → Option Bytes
    → Bytes
    → Configs × Result ClientError ClientOps
new_client rules c vkey none dir url = (c, err bad_verifier_key)
new_client rules c vkey (some name) none url = (c, err no_cache_dir)
new_client rules c vkey (some name) (some dir) url =
    with_key c vkey
      (record { local_dir = local_dir_of rules dir name; base_url = log_url name url })
      (read_config c (codes "key"))

-- clientOps.ReadRemote, from httpGet
unfoldable pub read_remote : (Bytes → Option Response) → ClientOps → Bytes → Option Bytes
read_remote http_get ops path = remote_body (http_get (ops.base_url ++ path))
  where
    remote_body : Option Response → Option Bytes
    remote_body none = none
    remote_body (some r) = if r.status == 200 then r.body else none

-- filepath.Join(c.localDir, "cache", file)
abbrev pub cache_path : PathRules → ClientOps → Bytes → Bytes
cache_path rules ops file = rules.join_path (ops.local_dir ∷ codes "cache" ∷ file ∷ [])

-- clientOps.ReadCache, from the files that can be read
unfoldable pub read_cache : PathRules → ClientOps → (Bytes → Option Bytes) → Bytes → Option Bytes
read_cache rules ops files file = files (cache_path rules ops file)

-- clientOps.WriteCache; `none` is the panic where the file cannot be written.
unfoldable pub write_cache :
    PathRules
    → ClientOps
    → Bool
    → Bytes
    → Bytes
    → (Bytes → Option Bytes)
    → Option (Bytes → Option Bytes)
write_cache rules ops write_fails file buf files =
    if write_fails
    then none
    else some (λ q. if eq_bytes q (cache_path rules ops file) then some buf else files q)
