-- ===== src/Build/Recent.antt =====
-- recentbuilds.go: the links and the use counts that are read from the log at startup.
pub mod Resumed
use gobuild.Common.{
  ℕ, ◌+◌, ◌-◌, ltb, ◌==◌, Bool, if◌then◌else◌, Option, none, some, List, [], ◌∷◌, ◌++◌, Bytes,
  length, Result, ok, err, ◌>>=◌, or_fail,
}
use gobuild.Common.Int.{pos}
use gobuild.Record.{BuildResult, RecordError, parse_record}
use gobuild.Request.{index_page, link}
use gobuild.Sdk.Targets.Use.{Targets, count_up, sort}
use gobuild.Tlog.{tree_size}
use gobuild.Tlog.Read.{ReadError, read_records}

-- The errors that end the process.
pub data Fatal : Type 0 where
  no_tree_size : Fatal
  not_read : ReadError → Fatal
  bad_record : RecordError → Fatal

-- The use counts, and the links of the last builds.
pub record Recent : Type 0 where
  pub use_counts : Bytes → Option ℕ
  pub links : List Bytes

unfoldable pub result_link : BuildResult → Bytes
result_link br = link (record { spec = br.spec; sum = br.sum; page = index_page })

abbrev pub or_fatal_record : Result RecordError BuildResult → Result Fatal BuildResult
or_fatal_record (ok br) = ok br
or_fatal_record (err e) = err (bad_record e)

abbrev or_fatal_read : Result ReadError (List Bytes) → Result Fatal (List Bytes)
or_fatal_read (ok rs) = ok rs
or_fatal_read (err e) = err (not_read e)

-- The loop over the records; the one at hand is number `i`, and links are kept from `keep_from` on.
unfoldable pub read_loop : ℕ → ℕ → List Bytes → Recent → Result Fatal Recent
read_loop keep_from i [] r = ok r
read_loop keep_from i (msg ∷ msgs) r = do
  br ← or_fatal_record (parse_record msg)
  read_loop keep_from (i + 1) msgs (record {
    use_counts = count_up (br.spec.goos ++ (b'/' ∷ br.spec.goarch)) r.use_counts;
    links = if ltb i keep_from then r.links else r.links ++ result_link br ∷ [];
  })

abbrev sorted : Targets → Result Fatal Recent → Result Fatal (Targets × List Bytes)
sorted t (ok r) = ok (sort (record t { use_counts = r.use_counts }), r.links)
sorted t (err e) = err e

-- From the records on
unfoldable pub use_records : Targets → List Bytes → Result Fatal (Targets × List Bytes)
use_records t msgs =
    sorted t
      (read_loop (length msgs - 10) 0 msgs (record { use_counts = t.use_counts; links = [] }))

abbrev pub read_last : Bytes → Targets → List Bytes → ℕ → ℕ → Result Fatal (Targets × List Bytes)
read_last file t links first n =
    if n == 0
    then ok (t, links)
    else (or_fatal_read (read_records file (pos first) (pos n)) >>= use_records t)

-- readRecentBuilds, from the records file
unfoldable pub read_recent_builds :
    Bytes → Targets → List Bytes → Result Fatal (Targets × List Bytes)
read_recent_builds file t links = do
  n ← or_fail (tree_size file) no_tree_size
  if ltb 1000 n then read_last file t links (n - 1000) 1000 else read_last file t links 0 n
