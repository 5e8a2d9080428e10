-- ===== src/Get.antt =====
-- get.go: the get command, which looks up a result, downloads its binary and verifies its sum.
pub mod Verified
pub mod Client
use gobuild.Common.{
  ℕ, ◌==◌, Bool, true, false, not, ◌&&◌, ◌||◌, if◌then◌else◌, Option, none, some, List, [], ◌∷◌,
  ◌++◌, Bytes, codes, eq_bytes, Result, ok, err, ◌>>=◌, ◌>>◌, guard, or_fail,
}
use gobuild.Strings.{split, has_suffix, chop}
use gobuild.Spec.{BuildSpec, to_text, filename}
use gobuild.Spec.Parse.{GetError, parse_get_spec}
use gobuild.Record.{BuildResult, RecordError, parse_record}
use gobuild.Request.{download_gz_page, link}
use gobuild.Build.Command.{PathRules}
use gobuild.Get.Client.{ClientOps, ClientError, Configs, local_dir_of, new_client}

-- The contents of the files by path.
abbrev pub Files : Type 0
Files = Bytes → Option Bytes

-- The flags; an empty target is that of the host, an empty URL that of the verifier.
pub record Options : Type 0 where
  pub sum : Bytes
  pub bin_dir : Bytes
  pub target : Bytes
  pub goversion : Bytes
  pub download : Bool
  pub stripped : Bool
  pub verifier_key : Bytes
  pub url : Bytes

-- The response to a download: a call that fails, with what was written until then, or the
-- contents of the binary.
pub data Download : Type 0 where
  no_response not_gzip : Download
  bad_status : ℕ → Download
  cut_off not_closed contents : Bytes → Download

-- What the calls of the command answer. `verifier_name` is that of note.NewVerifier, `cache_dir`
-- os.UserCacheDir, `cannot_read` and `cannot_write` tell which files a call fails for, `lookup` is
-- sumdb.Client.Lookup of a key, which reads and writes files of the client, `temp_file`
-- os.CreateTemp, `sum_of` the hash of contents as text.
pub record Remote : Type 0 where
  pub host_goos : Bytes
  pub host_goarch : Bytes
  pub rules : PathRules
  pub verifier_name : Option Bytes
  pub cache_dir : Option Bytes
  pub cannot_read : Bytes → Bool
  pub cannot_write : Bytes → Bool
  pub lookup : ClientOps → Bytes → Files → Files × Option Bytes
  pub temp_file : Option Bytes
  pub http_get : Bytes → Download
  pub sum_of : Bytes → Bytes
  pub stat_fails : Bool
  pub close_fails : Bool
  pub rename_fails : Bool
  pub remove_fails : Bool

pub data GetFailure : Type 0 where
  bad_target not_found other_key other_sum destination_exists no_temp_file : GetFailure
  bad_arg : GetError → GetFailure
  not_a_record : RecordError → GetFailure
  no_client : ClientError → GetFailure
  request_failed no_gzip download_failed gzip_not_closed sum_differs not_stat not_closed_file
        not_renamed :
      GetFailure

abbrev or_bad_arg : Result GetError BuildSpec → Result GetFailure BuildSpec
or_bad_arg (ok bs) = ok bs
or_bad_arg (err e) = err (bad_arg e)

abbrev pub or_no_record : Result RecordError BuildResult → Result GetFailure BuildResult
or_no_record (ok br) = ok br
or_no_record (err e) = err (not_a_record e)

abbrev with_target : BuildSpec → List Bytes → Result GetFailure BuildSpec
with_target bs (goos ∷ goarch ∷ []) = ok (record bs { goos = goos; goarch = goarch })
with_target bs _ = err bad_target

-- The specification from the argument and the flags
unfoldable pub wanted_spec : Remote → Options → Bytes → Result GetFailure BuildSpec
unfolding eq_bytes
wanted_spec r o arg = do
  parsed ← or_bad_arg (parse_get_spec arg)
  bs ←
      if eq_bytes o.target []
      then ok (record parsed { goos = r.host_goos; goarch = r.host_goarch })
      else with_target parsed (split b'/' o.target)
  ok (record bs { goversion = o.goversion; stripped = if o.stripped then true else bs.stripped })

abbrev dir_of : PathRules → Option Bytes → Option Bytes → Bytes
dir_of rules (some name) (some dir) = local_dir_of rules dir name
dir_of rules name dir = []

-- The path of a configuration file of the client
unfoldable pub config_path : Remote → Bytes → Bytes
config_path r file =
    r.rules.join_path (dir_of r.rules r.verifier_name r.cache_dir ∷ codes "config" ∷ file ∷ [])

abbrev configs_of : Remote → Files → Configs
configs_of r f = record {
  files = λ file. f (config_path r file);
  read_fails = λ file. r.cannot_read (config_path r file);
  write_fails = λ file. r.cannot_write (config_path r file);
}

abbrev pub put_file : Bytes → Option Bytes → Files → Files
put_file p c f q = if eq_bytes q p then c else f q

-- newClient on the files, of which it writes the one of the key.
unfoldable pub make_client : Remote → Options → Files → Files × Result ClientError ClientOps
unfolding config_path
make_client r o f =
    let (c, x) =
      new_client r.rules (configs_of r f) o.verifier_key r.verifier_name r.cache_dir o.url in
    (put_file (config_path r (codes "key")) (c.files (codes "key")) f, x)

-- The checks of what Lookup has returned for the key of the specification
unfoldable pub checked_result : Options → BuildSpec → Option Bytes → Result GetFailure BuildResult
unfolding eq_bytes
checked_result o bs found = do
  data_of ← or_fail found not_found
  br ← or_no_record (parse_record data_of)
  guard (not (not (eq_bytes (to_text br.spec) (to_text bs)) && not (eq_bytes o.sum []))) other_key
  guard (not (not (eq_bytes o.sum []) && not (eq_bytes o.sum br.sum))) other_sum
  ok br

abbrev pub Fetched : Type 0
Fetched = Files × Result GetFailure (Unit {0})

-- The file is closed and renamed.
unfoldable pub put_in_dst : Remote → Bytes → Bytes → Bytes → Files → Fetched
put_in_dst r temp dst buf f =
    if r.stat_fails
    then (f, err not_stat)
    else if r.close_fails
    then (f, err not_closed_file)
    else if r.rename_fails
    then (f, err not_renamed)
    else (put_file dst (some buf) (put_file temp none f), ok tt)

abbrev pub save : Remote → BuildResult → Bytes → Bytes → Files → Download → Fetched
save r br temp dst f no_response = (f, err request_failed)
save r br temp dst f (bad_status n) = (f, err request_failed)
save r br temp dst f not_gzip = (f, err no_gzip)
save r br temp dst f (cut_off buf) = (put_file temp (some buf) f, err download_failed)
save r br temp dst f (not_closed buf) = (put_file temp (some buf) f, err gzip_not_closed)
save r br temp dst f (contents buf) =
    let f' = put_file temp (some buf) f in
    if not (eq_bytes (r.sum_of buf) br.sum)
    then (f', err sum_differs)
    else put_in_dst r temp dst buf f'

-- The URL of the server, without the "/tlog" of the log
unfoldable pub server_url : ClientOps → Bytes
unfolding has_suffix
server_url ops =
    if has_suffix (codes "/tlog") ops.base_url then chop 5 ops.base_url else ops.base_url

-- fetch
unfoldable pub fetch : Remote → ClientOps → BuildResult → Bytes → Bytes → Files → Fetched
unfolding server_url
fetch r ops br temp dst f = save r br temp dst f (
    r.http_get
      (server_url ops ++ link (record { spec = br.spec; sum = br.sum; page = download_gz_page })))

abbrev pub is_fatal : GetFailure → Bool
is_fatal not_stat = true
is_fatal e = false

-- A temporary file is removed after a failure, unless that fails too; a failed os.Stat ends the
-- process before.
abbrev pub clean_up : Remote → Bytes → Fetched → Fetched
clean_up r temp (f, ok u) = (f, ok u)
clean_up r temp (f, err e) =
    (if is_fatal e || r.remove_fails then f else put_file temp none f, err e)

abbrev is_there : Option Bytes → Bool
is_there none = false
is_there (some c) = true

abbrev pub with_temp : Remote → ClientOps → BuildResult → Bytes → Files → Option Bytes → Fetched
with_temp r ops br dst f none = (f, err no_temp_file)
with_temp r ops br dst f (some temp) =
    clean_up r temp (fetch r ops br temp dst (put_file temp (some []) f))

abbrev pub destination : Remote → Options → BuildResult → Bytes
destination r o br = r.rules.join_path (o.bin_dir ∷ filename br.spec ∷ [])

-- From the destination on
unfoldable pub download_result : Remote → Options → ClientOps → BuildResult → Files → Fetched
download_result r o ops br f =
    if is_there (f (destination r o br))
    then (f, err destination_exists)
    else with_temp r ops br (destination r o br) f r.temp_file

abbrev pub get_result :
    Remote → Options → ClientOps → Files → Result GetFailure BuildResult → Fetched
get_result r o ops f (err e) = (f, err e)
get_result r o ops f (ok br) = if not o.download then (f, ok tt) else download_result r o ops br f

abbrev pub with_data : Remote → Options → BuildSpec → ClientOps → Files × Option Bytes → Fetched
with_data r o bs ops (f, found) = get_result r o ops f (checked_result o bs found)

abbrev pub with_client :
    Remote → Options → BuildSpec → Files × Result ClientError ClientOps → Fetched
with_client r o bs (f, err e) = (f, err (no_client e))
with_client r o bs (f, ok ops) = with_data r o bs ops (r.lookup ops (to_text bs) f)

abbrev pub with_spec : Remote → Options → Files → Result GetFailure BuildSpec → Fetched
with_spec r o f (err e) = (f, err e)
with_spec r o f (ok bs) = with_client r o bs (make_client r o f)

-- get, with one argument
unfoldable pub get : Remote → Options → Bytes → Files → Fetched
get r o arg f = with_spec r o f (wanted_spec r o arg)
