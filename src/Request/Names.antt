-- ===== src/Request/Names.antt =====
-- What tells the last element of a request's path: names of pages, file names, targets and sums.
use gobuild.Common.{
  ℕ, ◌≡◌, ◌≢◌, refl, sym, ap, subst, Bool, true, false, not, ◌&&◌, if◌then◌else◌, Option, none,
  some, List, [], ◌∷◌, ◌++◌, inl, inr, Bytes, codes, eq_bytes, eq_bytes_iff, eq_bytes_ne,
  eq_bytes_self, length, length-append, All, All-append, Lacks, arith, Bool-cases, append_assoc,
}
use gobuild.Strings.{has_byte, has_prefix, contains}
use gobuild.Strings.Base.{base-Lacks}
use gobuild.Sdk.Targets.{Target, osarch, is_listed, available, initial_list}
use gobuild.Spec.{BuildSpec, binary_name, extension, variant, target_text}
use gobuild.Spec.Parse.{target_key}
use gobuild.Spec.Canonical.{IsCanonical}
use gobuild.Request.{
  Page, index_page, log_page, download_redirect_page, download_page, download_gz_page, record_page,
  events_page, retry_page, download_filename, page_part, page_of, is_sum, count_base64, is_base64,
  is_between,
}

has_byte-middle : (b : ℕ) (s t : Bytes) → has_byte b (s ++ b ∷ t) ≡ true
unfolding has_byte
has_byte-middle b [] t = ground arith
has_byte-middle b (c ∷ s) t = ground (arith, has_byte-middle b s t)

-- Texts differ where one has a byte that the other lacks.
eq_bytes-has_byte :
    (b : ℕ) (s t : Bytes) → has_byte b s ≡ true → has_byte b t ≡ false → eq_bytes s t ≡ false
eq_bytes-has_byte b s t h k = ground (arith, eq_bytes_iff s t)

module _ (bs : BuildSpec) where
  rest_of_name : Bytes
  rest_of_name = bs.version ++ (b'-' ∷ (bs.goversion ++ (variant bs ++ extension bs)))

  has_dash : has_byte b'-' (download_filename bs) ≡ true
  unfolding download_filename
  has_dash = has_byte-middle b'-' (binary_name bs) _

  gz_has_dash : has_byte b'-' (download_filename bs ++ codes ".gz") ≡ true
  unfolding download_filename
  gz_has_dash =
      rw (append_assoc (binary_name bs) _ (codes ".gz")) (has_byte-middle b'-' (binary_name bs) _)

  -- A text with a dash is none of the fixed page parts.
  not_fixed :
      (s : Bytes)
      → has_byte b'-' s ≡ true
      → (eq_bytes s [] ≡ false)
        × (eq_bytes s (codes "log") ≡ false)
        × (eq_bytes s (codes "dl") ≡ false)
        × (eq_bytes s (codes "record") ≡ false)
        × (eq_bytes s (codes "events") ≡ false)
        × (eq_bytes s (codes "retry") ≡ false)
  not_fixed s h = (
    differs [] (unfold has_byte in refl),
    differs (codes "log") (unfold has_byte in refl),
    differs (codes "dl") (unfold has_byte in refl),
    differs (codes "record") (unfold has_byte in refl),
    differs (codes "events") (unfold has_byte in refl),
    differs (codes "retry") (unfold has_byte in refl),
  )
    where
      differs : (w : Bytes) → has_byte b'-' w ≡ false → eq_bytes s w ≡ false
      differs w k = eq_bytes-has_byte b'-' s w h k

  gz_differs : eq_bytes (download_filename bs ++ codes ".gz") (download_filename bs) ≡ false
  gz_differs =
      eq_bytes_ne _ _
        (λ e. omega (arith, ap length e, length-append (download_filename bs) (codes ".gz")))

  -- The switch of parseRequest reads every page part back.
  pub page_of-page_part : (p : Page) → page_of bs (page_part bs p) ≡ some p
  unfolding page_of page_part
  page_of-page_part index_page = refl
  page_of-page_part log_page = refl
  page_of-page_part download_redirect_page = refl
  page_of-page_part record_page = refl
  page_of-page_part events_page = refl
  page_of-page_part retry_page = refl
  page_of-page_part download_page =
      ground
        (arith, not_fixed (download_filename bs) has_dash, eq_bytes_self (download_filename bs))
  page_of-page_part download_gz_page =
      let s = download_filename bs ++ codes ".gz" in
      ground (arith, not_fixed s gz_has_dash, gz_differs, eq_bytes_self s)

-- The first byte of a listed target is not '0'.
abbrev IsLettered : Bytes → Type 0
IsLettered [] = Unit
IsLettered (c ∷ s) = c ≢ b'0'

is_listed-IsLettered :
    (key : Bytes) (ts : List Target)
    → All (λ t. IsLettered (osarch t)) ts
    → is_listed key ts ≡ true
    → IsLettered key
unfolding is_listed
is_listed-IsLettered key [] h k = cc
is_listed-IsLettered key (t ∷ ts) (h, hs) k = elim (Bool-cases (eq_bytes (osarch t) key)) [
  | inl hit ↦ subst IsLettered ((eq_bytes_iff (osarch t) key).0 hit) h
  | inr other ↦ is_listed-IsLettered key ts hs (ground arith)
]

all_lettered : List Target → Bool
all_lettered [] = true
all_lettered (t ∷ ts) = not (has_prefix (codes "0") (osarch t)) && all_lettered ts

not_zero : (s : Bytes) → has_prefix (codes "0") s ≡ false → IsLettered s
unfolding has_prefix
not_zero [] h = tt
not_zero (c ∷ s) h = ground arith

all_lettered_sound :
    (ts : List Target) → all_lettered ts ≡ true → All (λ t. IsLettered (osarch t)) ts
unfolding all_lettered
all_lettered_sound [] h = tt
all_lettered_sound (t ∷ ts) h =
    (not_zero (osarch t) (ground arith), all_lettered_sound ts (ground arith))

available-IsLettered : (key : Bytes) → available key ≡ true → IsLettered key
unfolding available
available-IsLettered key h =
    is_listed-IsLettered key initial_list
      (all_lettered_sound initial_list (unfold all_lettered osarch has_prefix in refl)) h

-- The last element of the path of a build is not taken for a sum.
pub is_sum-target_text :
    (bs : BuildSpec)
    → available (target_key bs.goos bs.goarch) ≡ true
    → is_sum (target_text bs) ≡ false
is_sum-target_text bs h = go bs.goos refl
  where
    go : (os : Bytes) → bs.goos ≡ os → is_sum (target_text bs) ≡ false
    go [] e = unfold is_sum target_text has_prefix in rw e refl
    go (c ∷ os) e =
        let lettered : IsLettered (target_key (c ∷ os) bs.goarch) =
          available-IsLettered (target_key (c ∷ os) bs.goarch) (rw (sym e) h) in
        unfold is_sum target_text has_prefix target_key in rw e (ground arith)

count_base64-Lacks : (s : Bytes) (n : ℕ) → count_base64 s ≡ some n → Lacks b'/' s
unfolding count_base64 is_base64 is_between
count_base64-Lacks [] n h = tt
count_base64-Lacks (c ∷ s) n h = go (count_base64 s) refl (λ k e. count_base64-Lacks s k e)
  where
    go :
        (o : Option ℕ)
        → count_base64 s ≡ o
        → ((k : ℕ) → count_base64 s ≡ some k → Lacks b'/' s)
        → Lacks b'/' (c ∷ s)
    go none e ih = absurd (ground arith)
    go (some k) e ih = (ground arith, ih k e)

-- A sum has no slash.
pub is_sum-Lacks : (s : Bytes) → is_sum s ≡ true → Lacks b'/' s
unfolding is_sum has_prefix
is_sum-Lacks [] h = tt
is_sum-Lacks (c ∷ s) h = go (count_base64 s) refl
  where
    go : (o : Option ℕ) → count_base64 s ≡ o → Lacks b'/' (c ∷ s)
    go none e = absurd (ground arith)
    go (some k) e = (ground arith, count_base64-Lacks s k e)

has_dot : (s : Bytes) → contains (codes ".") s ≡ true → s ≢ codes "/"
unfolding contains has_prefix
has_dot s h e = cc

binary_name-Lacks : (bs : BuildSpec) → IsCanonical bs → Lacks b'/' (binary_name bs)
unfolding binary_name
binary_name-Lacks bs c = elim (Bool-cases (eq_bytes bs.dir (codes "/"))) [
  | inl root ↦
      rw root (base-Lacks bs.mod_path c.mod_ne_nil c.mod_clean (has_dot bs.mod_path c.mod_dot))
  | inr sub ↦
      rw sub
        (base-Lacks bs.dir (λ e. cc) c.dir_clean (ground (arith, eq_bytes_iff bs.dir (codes "/"))))
]

download_filename-Lacks : (bs : BuildSpec) → IsCanonical bs → Lacks b'/' (download_filename bs)
unfolding download_filename
download_filename-Lacks bs c = All-append _ (binary_name bs) _ (binary_name-Lacks bs c) (
  omega arith,
  All-append _ bs.version _ c.version_no_slash (
    omega arith,
    All-append _ bs.goversion _ c.no_slash.2 (
        All-append _ (variant bs) _ (plain_variant bs.stripped)
          (plain_extension (eq_bytes bs.goos (codes "windows")))),
  ),
)
  where
    plain_variant : (b : Bool) → Lacks b'/' (if b then codes "-stripped" else [])
    plain_variant true = ground arith
    plain_variant false = tt

    plain_extension : (b : Bool) → Lacks b'/' (if b then codes ".exe" else [])
    plain_extension true = ground arith
    plain_extension false = tt

-- Nor has a page part, for a canonical specification.
pub page_part-Lacks : (bs : BuildSpec) (p : Page) → IsCanonical bs → Lacks b'/' (page_part bs p)
unfolding page_part
page_part-Lacks bs index_page c = tt
page_part-Lacks bs log_page c = ground arith
page_part-Lacks bs download_redirect_page c = ground arith
page_part-Lacks bs download_page c = download_filename-Lacks bs c
page_part-Lacks bs download_gz_page c =
    All-append _ (download_filename bs) _ (download_filename-Lacks bs c) (ground arith)
page_part-Lacks bs record_page c = ground arith
page_part-Lacks bs events_page c = ground arith
page_part-Lacks bs retry_page c = ground arith
