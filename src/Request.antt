-- ===== src/Request.antt =====
-- request.go: a request for a page of a build or of a result, its link and its parser.
pub mod Names
pub mod RoundTrip
pub mod Sound
pub mod Versionless
use gobuild.Common.{
  ℕ, ◌+◌, ◌-◌, ◌*◌, ◌/◌, ◌%◌, Bool, true, false, not, ◌&&◌, ◌||◌, ltb, leb, ◌==◌, if◌then◌else◌,
  Option, none, some, List, [], ◌∷◌, ◌++◌, Bytes, codes, eq_bytes, length, drop, Result, ok, err,
  ◌>>=◌, ◌>>◌, guard,
}
use gobuild.Strings.{has_prefix, split, join, last_part, init_parts, is_digit}
use gobuild.Spec.{BuildSpec, binary_name, extension, variant, to_text}
use gobuild.Spec.Parse.{SpecError, parse_build_spec}

pub data Page : Type 0 where
  index_page log_page download_redirect_page download_page : Page
  download_gz_page record_page events_page retry_page : Page

pub record Request : Type 0 where
  pub spec : BuildSpec
  pub sum : Bytes
  pub page : Page

-- page.String
unfoldable pub page_name : Page → Bytes
page_name index_page = codes "index"
page_name log_page = codes "log"
page_name download_redirect_page = codes "dlredir"
page_name download_page = codes "download"
page_name download_gz_page = codes "downloadgz"
page_name record_page = codes "record"
page_name events_page = codes "events"
page_name retry_page = codes "retry"

-- request.downloadFilename
unfoldable pub download_filename : BuildSpec → Bytes
unfolding binary_name variant extension
download_filename bs =
    binary_name bs
    ++ (b'-' ∷ (bs.version ++ (b'-' ∷ (bs.goversion ++ (variant bs ++ extension bs)))))

-- request.pagePart
unfoldable pub page_part : BuildSpec → Page → Bytes
unfolding download_filename
page_part bs index_page = []
page_part bs log_page = codes "log"
page_part bs download_redirect_page = codes "dl"
page_part bs download_page = download_filename bs
page_part bs download_gz_page = download_filename bs ++ codes ".gz"
page_part bs record_page = codes "record"
page_part bs events_page = codes "events"
page_part bs retry_page = codes "retry"

abbrev pub sum_part : Bytes → Bytes
sum_part [] = []
sum_part (c ∷ s) = c ∷ (s ++ codes "/")

-- request.link
unfoldable pub link : Request → Bytes
unfolding to_text page_part
link r = b'/' ∷ (to_text r.spec ++ (sum_part r.sum ++ page_part r.spec r.page))

unfoldable pub is_between : ℕ → ℕ → ℕ → Bool
is_between a z c = leb a c && leb c z

-- The alphabet of base64.RawURLEncoding
unfoldable pub is_base64 : ℕ → Bool
unfolding is_between
is_base64 c =
    is_between b'A' b'Z' c
    || is_between b'a' b'z' c
    || is_between b'0' b'9' c
    || c == b'-'
    || c == b'_'

-- The characters that base64.RawURLEncoding decodes: line ends are skipped, and any other
-- character outside the alphabet is an error.
unfoldable pub count_base64 : Bytes → Option ℕ
unfolding is_base64
count_base64 [] = some 0
count_base64 (c ∷ s) =
    let rest = count_base64 s in
    if c == b'\r' || c == b'\n'
    then rest
    else if is_base64 c
    then elim rest [ none ↦ none | some n ↦ some (n + 1) ]
    else none

-- The bytes that `n` characters decode to; a single character in the last group of four is an error.
unfoldable pub decoded_length : ℕ → Option ℕ
decoded_length n = if n % 4 == 1 then none else some (n * 6 / 8)

abbrev is_twenty : Option ℕ → Bool
is_twenty none = false
is_twenty (some n) = n == 20

abbrev decodes_to_twenty : Option ℕ → Bool
decodes_to_twenty none = false
decodes_to_twenty (some n) = is_twenty (decoded_length n)

unfoldable pub is_sum : Bytes → Bool
unfolding has_prefix count_base64 decoded_length
is_sum s = has_prefix (codes "0") s && decodes_to_twenty (count_base64 (drop 1 s))

pub data RequestError : Type 0 where
  no_path missing_target unknown_page : RequestError
  bad_spec : SpecError → RequestError
  no_endpoint : Bytes → RequestError

-- The switch on the last element of the path.
unfoldable pub page_of : BuildSpec → Bytes → Option Page
unfolding eq_bytes download_filename
page_of bs p =
    if eq_bytes p []
    then some index_page
    else if eq_bytes p (codes "log")
    then some log_page
    else if eq_bytes p (codes "dl")
    then some download_redirect_page
    else if eq_bytes p (codes "record")
    then some record_page
    else if eq_bytes p (codes "events")
    then some events_page
    else if eq_bytes p (codes "retry")
    then some retry_page
    else if eq_bytes p (download_filename bs)
    then some download_page
    else if eq_bytes p (download_filename bs ++ codes ".gz")
    then some download_gz_page
    else none

abbrev pub or_bad_spec : Result SpecError BuildSpec → Result RequestError BuildSpec
or_bad_spec (ok bs) = ok bs
or_bad_spec (err e) = err (bad_spec e)

-- The pages of a build that is not a result yet.
abbrev pub needs_build : Page → Bool
needs_build events_page = true
needs_build retry_page = true
needs_build p = false

abbrev or_unknown : Option Page → Result RequestError Page
or_unknown none = err unknown_page
or_unknown (some p) = ok p

-- From the elements of the path, the sum taken off, and the last element.
unfoldable pub parse_page : List Bytes → Bytes → Bytes → Result RequestError Request
parse_page t sum page = do
  guard (leb 2 (length t)) missing_target
  bs ← or_bad_spec (parse_build_spec (join b'/' t ++ codes "/"))
  p ← or_unknown (page_of bs page)
  guard (not (not (eq_bytes sum []) && needs_build p)) (no_endpoint (page_name p))
  ok (record { spec = bs; sum = sum; page = p })

-- The sum is taken off where the elements end in one.
unfoldable pub parse_elements : List Bytes → Bytes → Result RequestError Request
parse_elements t page =
    if ltb 2 (length t) && is_sum (last_part t)
    then parse_page (init_parts t) (last_part t) page
    else parse_page t [] page

-- parseRequest
unfoldable pub parse_request : Bytes → Result RequestError Request
parse_request [] = err no_path
parse_request (c ∷ s) = parse_elements (init_parts (split b'/' s)) (last_part (split b'/' s))
