-- ===== src/Tlog/Server.antt =====
-- tlogserver.go: Lookup, which answers with the number of a record and builds what has none, and
-- lookupBuild, which waits for the build.
use gobuild.Common.{
  ℕ, ◌<◌, ◌^◌, ◌≡◌, ◌≢◌, refl, ap, ◌∙◌, Bool, true, false, if◌then◌else◌, Option, none, some, List,
  [], ◌∷◌, Bytes, codes, eq_bytes, eq_bytes_ne, eq_bytes_self, arith, Result, ok, err, ◌>>=◌, ◌>>◌,
  guard, or_fail,
}
use gobuild.Common.Int.{ℤ, pos}
use gobuild.Strings.{parse_int, format_nat, format_int}
use gobuild.Strings.Decimal.{parse_int-format_int}
use gobuild.Spec.{BuildSpec, to_text}
use gobuild.Spec.Parse.{SpecError, parse_build_spec, target_key}
use gobuild.Spec.Canonical.{IsCanonical}
use gobuild.Spec.RoundTrip.{parse_build_spec-to_text}
use gobuild.Record.{BuildResult}
use gobuild.Coordinate.{BuildUpdate, BuildError}
use gobuild.Tlog.{Dir, Store, HashTree, Disk, add_sum}
use gobuild.Tlog.Added.{add_sum-IsAdded}

pub data ServerError : Type 0 where
  not_exist resolving_failed reading_failed bad_number preparing_failed context_done : ServerError
  build_failed : Bytes → ServerError

-- prepareBuild: no error, one of the errors that are the fault of the request, or another one.
pub data Preparation : Type 0 where
  prepared bad_request other_error : Preparation

-- What the other parts answer: the newest toolchain of listSDK, the targets, the version that
-- the module proxy resolves to, whether the recordnumber file can be read, and prepareBuild.
pub record Answers : Type 0 where
  pub newest : Bytes
  pub is_target : Bytes → Bool
  pub resolved : Option Bytes
  pub read_fails : Bool
  pub preparation : Preparation

-- What reaches the loop of lookupBuild: the end of the request's context, or an update.
pub data Event : Type 0 where
  done : Event
  received : BuildUpdate → Event

abbrev pub or_not_exist : Result SpecError BuildSpec → Result ServerError BuildSpec
or_not_exist (ok bs) = ok bs
or_not_exist (err e) = err not_exist

unfoldable pub with_goversion : Answers → BuildSpec → BuildSpec
with_goversion a bs =
    if eq_bytes bs.goversion (codes "latest") then record bs { goversion = a.newest } else bs

-- The specification that is looked up.
unfoldable pub lookup_spec : Answers → Bytes → Result ServerError BuildSpec
lookup_spec a key = do
  bs ← or_not_exist (parse_build_spec key)
  guard (a.is_target (target_key bs.goos bs.goarch)) not_exist
  v ← or_fail a.resolved resolving_failed
  ok (record (with_goversion a bs) { version = v })

abbrev pub concluded : BuildUpdate → Option BuildError → Result ServerError ℤ
concluded u (some e) = err (build_failed e.text)
concluded u none = ok u.record_number

-- The loop of lookupBuild; `none` while no event ends it.
unfoldable pub wait_for : List Event → Option (Result ServerError ℤ)
wait_for [] = none
wait_for (done ∷ es) = some (err context_done)
wait_for (received u ∷ es) =
    let rest = wait_for es in if u.done then some (concluded u u.error) else rest

abbrev pub after_preparation : Preparation → List Event → Option (Result ServerError ℤ)
after_preparation prepared es = wait_for es
after_preparation bad_request es = some (err not_exist)
after_preparation other_error es = some (err preparing_failed)

abbrev pub has_failed : Option Dir → Bool
has_failed none = false
has_failed (some d) = d.has_log

-- lookupBuild
unfoldable pub lookup_build : Answers → Option Dir → List Event → Option (Result ServerError ℤ)
lookup_build a d es =
    if has_failed d then some (err not_exist) else after_preparation a.preparation es

abbrev pub number_file : Option Dir → Option Bytes
number_file none = none
number_file (some d) = d.record_number

abbrev pub numbered_or_built :
    Answers → Option Dir → List Event → Option Bytes → Option (Result ServerError ℤ)
numbered_or_built a d es (some text) = some (or_fail (parse_int 64 text) bad_number)
numbered_or_built a d es none = lookup_build a d es

abbrev pub looked_up :
    HashTree
    → Answers
    → List Event
    → Store
    → Result ServerError BuildSpec
    → Option (Result ServerError ℤ)
looked_up h a es s (err e) = some (err e)
looked_up h a es s (ok bs) =
    let d = s.dirs (h.store_dir bs) in
    if a.read_fails then some (err reading_failed) else numbered_or_built a d es (number_file d)

-- serverOps.Lookup
unfoldable pub lookup :
    HashTree → Answers → Bytes → List Event → Store → Option (Result ServerError ℤ)
lookup h a key es s = looked_up h a es s (lookup_spec a key)

lookup_spec-to_text :
    (a : Answers) (bs : BuildSpec)
    → IsCanonical bs
    → bs.goversion ≢ codes "latest"
    → a.resolved ≡ some bs.version
    → a.is_target (target_key bs.goos bs.goarch) ≡ true
    → lookup_spec a (to_text bs) ≡ ok bs
unfolding lookup_spec with_goversion
lookup_spec-to_text a bs c n v t =
    rw (parse_build_spec-to_text bs c, t, v, eq_bytes_ne bs.goversion (codes "latest") n) refl

looked_up-numbered :
    (h : HashTree) (a : Answers) (es : List Event) (s : Store) (bs : BuildSpec) (n : ℕ) (dir : Dir)
    → a.read_fails ≡ false
    → s.dirs (h.store_dir bs) ≡ some dir
    → dir.record_number ≡ some (format_nat n)
    → n < 2 ^ 63
    → looked_up h a es s (ok bs) ≡ some (ok (pos n))
looked_up-numbered h a es s bs n dir r e f m = rw (r, e, f, number_read) refl
  where
    number_read : parse_int 64 (format_nat n) ≡ some (pos n)
    number_read = unfold format_int in parse_int-format_int 64 (pos n) (omega arith)

-- Once addSum has added a result, Lookup of the text of its specification answers with the number
-- of its record and builds nothing: for a canonical specification with a fixed toolchain and a
-- version that resolves to itself, on a target that is known, where the number fits an int64 and
-- its file can be read.
pub lookup-add_sum :
    (h : HashTree) (d : Disk) (br : BuildResult) (n : ℕ) (s : Store) (a : Answers) (es : List Event)
    → (add_sum h d br s).1 ≡ ok n
    → n < 2 ^ 63
    → IsCanonical br.spec
    → br.spec.goversion ≢ codes "latest"
    → a.resolved ≡ some br.spec.version
    → a.is_target (target_key br.spec.goos br.spec.goarch) ≡ true
    → a.read_fails ≡ false
    → lookup h a (to_text br.spec) es (add_sum h d br s).0 ≡ some (ok (pos n))
lookup-add_sum h d br n s a es e m c g v t r =
    let s' = (add_sum h d br s).0 in
    let placed : Dir = record s.tmp_dir { record_number = some (format_nat n) } in
    let there : s'.dirs (h.store_dir br.spec) ≡ some placed =
      rw ((add_sum-IsAdded h d br n s e).dirs, eq_bytes_self (h.store_dir br.spec)) refl in
    unfold lookup in
    ap (looked_up h a es s') (lookup_spec-to_text a br.spec c g v t)
    ∙ looked_up-numbered h a es s' br.spec n placed r there refl m
