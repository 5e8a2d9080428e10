-- ===== src/Sdk/Versions/RoundTrip.antt =====
-- parseGoVersion gives back a version from its text.
use gobuild.Common.{
  subst, ℕ, ◌≤◌, ◌<◌, ◌^◌, ◌≡◌, refl, sym, ap, ◌∙◌, Bool, true, false, if◌then◌else◌, none, some,
  [], ◌∷◌, ◌++◌, ◌⊎◌, inl, inr, append_assoc, append-nil, Bytes, codes, drop-append, length,
  All-append, All-mono, Lacks, subst, arith, Result, ok,
}
use gobuild.Common.Int.{ℤ, pos}
use gobuild.Strings.{digits, format_nat, has_prefix, cut_text, split, format_int}
use gobuild.Strings.Split.{split-Lacks, split-append}
use gobuild.Strings.Decimal.{all_digits-format_nat, all_digits-All, parse_int-format_int}
use gobuild.Sdk.Versions.{
  VersionError, has_patch, GoVersion, patch_text, version_text, strip_more, parse_numbers,
  parse_go_version, go_version, at_least_13,
}

has_prefix-append : (p s : Bytes) → has_prefix p (p ++ s) ≡ true
unfolding has_prefix
has_prefix-append [] s = refl
has_prefix-append (c ∷ p) s = ground (arith, has_prefix-append p s)

cut_text-Lacks : (c : ℕ) (p s : Bytes) → Lacks c s → cut_text (c ∷ p) s ≡ none
unfolding cut_text has_prefix
cut_text-Lacks c p [] h = refl
cut_text-Lacks c p (d ∷ s) (n, h) = ground (arith, cut_text-Lacks c p s h)

cut_text-append :
    (c : ℕ) (p a s : Bytes) → Lacks c a → cut_text (c ∷ p) (a ++ (c ∷ (p ++ s))) ≡ some (a, s)
unfolding cut_text has_prefix
cut_text-append c p [] s h = ground (arith, has_prefix-append p s, drop-append p s (length p) refl)
cut_text-append c p (d ∷ a) s (n, h) = ground (arith, cut_text-append c p a s h)

-- A version with the number of a release, which may have a suffix such as rc1.
pub record IsVersion (v : GoVersion) : Type 0 where
  pub minor_number : ℕ
  pub patch_number : ℕ
  pub suffix : (v.more ≡ []) ⊎ ((t : Bytes) × (v.more ≡ codes "rc" ++ t))
  pub major_one : v.major ≡ pos 1
  pub minor : v.minor ≡ pos minor_number
  pub patch : v.patch ≡ pos patch_number
  pub recent : 13 ≤ minor_number
  pub minor_fits : minor_number < 2 ^ 31
  pub patch_fits : patch_number < 2 ^ 31

digits_lack : (b n : ℕ) → (b < 48) ⊎ (57 < b) → Lacks b (format_int (pos n))
unfolding format_int
digits_lack b n h =
    All-mono (λ c k. ground arith) (format_nat n)
      (all_digits-All (format_nat n) (all_digits-format_nat n))

strip_more-plain : (s : Bytes) → Lacks b'r' s → Lacks b'b' s → strip_more s ≡ (s, [])
unfolding strip_more
strip_more-plain s h k =
    rw
      (
        cut_text-Lacks b'r' (codes "c") s h,
        strip_more,
        cut_text-Lacks b'b' (codes "eta") s k,
        strip_more,
      )
      refl

strip_more-rc :
    (s t : Bytes) → Lacks b'r' s → strip_more (s ++ (codes "rc" ++ t)) ≡ (s, codes "rc" ++ t)
unfolding strip_more
strip_more-rc s t h = rw (cut_text-append b'r' (codes "c") s t h, strip_more) refl

module _ (v : GoVersion) (w : IsVersion v) where
  -- What stands between "go1." and the suffix.
  number : Bytes
  number = format_int v.minor ++ patch_text v

  number-Lacks : (b : ℕ) → 57 < b → Lacks b number
  unfolding number patch_text
  number-Lacks b h =
      All-append _ (format_int v.minor) (patch_text v)
        (rw w.minor (digits_lack b w.minor_number (inr h))) (patch_part (has_patch v))
    where
      patch_part : (t : Bool) → Lacks b (if t then b'.' ∷ format_int v.patch else [])
      patch_part true = (omega arith, rw w.patch (digits_lack b w.patch_number (inr h)))
      patch_part false = tt

  strip_more-number : strip_more (number ++ v.more) ≡ (number, v.more)
  strip_more-number = elim w.suffix [
    | inl plain ↦
        subst (λ (m : Bytes). strip_more (number ++ m) ≡ (number, m)) (sym plain)
          (subst (λ (x : Bytes). strip_more x ≡ (number, [])) (sym (append-nil number))
            (strip_more-plain number (number-Lacks b'r' (omega arith))
              (number-Lacks b'b' (omega arith))))
    | inr (t, rc) ↦
        subst (λ (m : Bytes). strip_more (number ++ m) ≡ (number, m)) (sym rc)
          (strip_more-rc number t (number-Lacks b'r' (omega arith)))
  ]

  recent_b : at_least_13 (pos w.minor_number) ≡ true
  recent_b = ground (arith, w.recent)

  parsed : GoVersion
  parsed = go_version (pos w.minor_number) (pos w.patch_number) v.more

  read_parts :
      (t : Bool)
      → (t ≡ false → w.patch_number ≡ 0)
      → parse_numbers
          (split b'.' (
            format_int (pos w.minor_number)
            ++ (if t then b'.' ∷ format_int (pos w.patch_number) else [])))
          v.more
        ≡ ok parsed
  unfolding parsed
  read_parts true h =
      let first = parse_int-format_int 32 (pos w.minor_number) (omega (arith, w.minor_fits)) in
      let second = parse_int-format_int 32 (pos w.patch_number) (omega (arith, w.patch_fits)) in
      rw
        (
          split-append b'.' (format_int (pos w.minor_number)) (format_int (pos w.patch_number))
              (digits_lack b'.' w.minor_number (inl (omega arith))),
          split-Lacks b'.' (format_int (pos w.patch_number))
              (digits_lack b'.' w.patch_number (inl (omega arith))),
        )
        (unfold parse_numbers in rw (first, second, recent_b) refl)
  read_parts false h =
      let first = parse_int-format_int 32 (pos w.minor_number) (omega (arith, w.minor_fits)) in
      rw
        (
          append-nil (format_int (pos w.minor_number)),
          split-Lacks b'.' (format_int (pos w.minor_number))
              (digits_lack b'.' w.minor_number (inl (omega arith))),
          h refl,
        )
        (unfold parse_numbers in rw (first, recent_b) refl)

  same : Path (Result VersionError GoVersion) (ok parsed) (ok v)
  unfolding parsed
  same = ground (arith, w.major_one, w.minor, w.patch)

  abbrev number_text : ℤ → ℤ → Bool → Bytes
  number_text m p t = format_int m ++ (if t then b'.' ∷ format_int p else [])

  parse_numbers-number : parse_numbers (split b'.' number) v.more ≡ ok v
  unfolding number patch_text
  parse_numbers-number =
      let t = has_patch v in
      let digits_of : number_text v.minor v.patch t
          ≡ number_text (pos w.minor_number) (pos w.patch_number) t =
        ap (λ (m : ℤ). number_text m v.patch t) w.minor
        ∙ ap (λ (p : ℤ). number_text (pos w.minor_number) p t) w.patch in
      ap (λ (s : Bytes). parse_numbers (split b'.' s) v.more) digits_of
      ∙ read_parts t no_patch
      ∙ same
    where
      no_patch : has_patch v ≡ false → w.patch_number ≡ 0
      no_patch h = unfold has_patch in ground (arith, w.patch)

  version_text-number : version_text v ≡ codes "go1." ++ (number ++ v.more)
  unfolding version_text number format_int format_nat digits
  version_text-number =
      let rest = format_int v.minor ++ (patch_text v ++ v.more) in
      ap (λ (m : ℤ). codes "go" ++ (format_int m ++ (b'.' ∷ rest))) w.major_one
      ∙ ap (λ (s : Bytes). codes "go1." ++ s)
          (sym (append_assoc (format_int v.minor) (patch_text v) v.more))

  parse_go_version-prefix :
      (s n m : Bytes)
      → strip_more s ≡ (n, m)
      → parse_go_version (codes "go1." ++ s) ≡ parse_numbers (split b'.' n) m
  unfolding parse_go_version has_prefix
  parse_go_version-prefix s n m e = rw e refl

  -- parseGoVersion gives back a version from the text that String writes, for go1.13 and later
  -- with numbers that fit an int32, without a suffix or with one that starts with "rc".
  pub parse_go_version-version_text : parse_go_version (version_text v) ≡ ok v
  parse_go_version-version_text =
      rw
        (
          version_text-number,
          parse_go_version-prefix (number ++ v.more) number v.more strip_more-number,
        )
        parse_numbers-number
