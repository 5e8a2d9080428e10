-- ===== src/Record/RoundTrip.antt =====
-- Which results can be packed, and that a packed result is parsed back.
use gobuild.Common.{
  ℕ, ◌+◌, ◌<◌, ◌≡◌, ◌≢◌, ◌↔◌, refl, Bool, true, false, ◌⊎◌, inl, inr, if◌then◌else◌, List, [], ◌∷◌,
  ◌++◌, Bytes, codes, eq_bytes_iff, length, All, All-mono, Lacks, arith, ok,
}
use gobuild.Common.Int.{ℤ, pos, negsuc}
use gobuild.Strings.{join, format_int}
use gobuild.Strings.Split.{has_suffix-append, chop-append, split-join}
use gobuild.Strings.Decimal.{Fits, parse_int-format_int, format_int-All, format_int-ne-nil}
use gobuild.Record.{
  BuildResult, parse_variant, parse_fields, parse_record, no_blank, check_fields, fields, is_zero,
  pack_record,
}

-- Every byte is above the space.
abbrev pub IsVisible : Bytes → Type 0
IsVisible = All (λ c. b' ' < c)

no_blank_iff : (f : Bytes) → (no_blank f ≡ true) ↔ IsVisible f
unfolding no_blank
no_blank_iff [] = (λ _. tt, λ _. refl)
no_blank_iff (c ∷ f) = (
  λ h. (ground arith, (no_blank_iff f).0 (ground arith)),
  λ h. ground (arith, (no_blank_iff f).1 h.1),
)

-- The fields from index `i` on pass, where only the ninth may be empty.
abbrev pub ArePackable : ℕ → List Bytes → Type 0
ArePackable i [] = Unit
ArePackable i (f ∷ fs) = ((i ≡ 8) ⊎ (f ≢ [])) × IsVisible f × ArePackable (i + 1) fs

check_fields_sound : (i : ℕ) (fs : List Bytes) → check_fields i fs ≡ ok tt → ArePackable i fs
unfolding check_fields
check_fields_sound i [] h = tt
check_fields_sound i (f ∷ fs) h = (
  ground (arith, eq_bytes_iff f []),
  (no_blank_iff f).0 (ground arith),
  check_fields_sound (i + 1) fs (ground arith),
)

check_fields_complete : (i : ℕ) (fs : List Bytes) → ArePackable i fs → check_fields i fs ≡ ok tt
unfolding check_fields
check_fields_complete i [] h = refl
check_fields_complete i (f ∷ fs) (a, v, r) =
    ground (arith, eq_bytes_iff f [], (no_blank_iff f).1 v, check_fields_complete (i + 1) fs r)

abbrev IsField : Bytes → Type 0
IsField f = (f ≢ []) × IsVisible f

-- A result that can be packed: only the variant may be an empty field.
pub record IsPackable (br : BuildResult) : Type 0 where
  pub mod_path : IsField br.spec.mod_path
  pub version : IsField br.spec.version
  pub dir : IsField br.spec.dir
  pub goos : IsField br.spec.goos
  pub goarch : IsField br.spec.goarch
  pub goversion : IsField br.spec.goversion
  pub sum : IsVisible br.sum
  pub sum_length : length br.sum ≡ 28
  pub filesize_ne_zero : br.filesize ≢ pos 0

is_field : {i : ℕ} {f : Bytes} → (i ≡ 8) ⊎ (f ≢ []) → IsVisible f → i < 8 → IsField f
is_field (inl e) v h = absurd (omega arith)
is_field (inr n) v h = (n, v)

is_zero_iff : (z : ℤ) → (is_zero z ≡ false) ↔ (z ≢ pos 0)
unfolding is_zero
is_zero_iff (pos n) = (λ h. ground arith, λ h. ground arith)
is_zero_iff (negsuc n) = (λ h. ground arith, λ h. refl)

sum_ne_nil : (s : Bytes) → length s ≡ 28 → s ≢ []
sum_ne_nil [] h = absurd (omega arith)
sum_ne_nil (c ∷ s) h = ground arith

variant-IsVisible : (b : Bool) → IsVisible (if b then codes "stripped" else [])
variant-IsVisible true = omega arith
variant-IsVisible false = tt

module _ (br : BuildResult) where
  fields-ArePackable : IsPackable br → ArePackable 0 (fields br)
  unfolding fields
  fields-ArePackable p = (
    inr p.mod_path.0,
    p.mod_path.1,
    (
      inr p.version.0,
      p.version.1,
      (
        inr p.dir.0,
        p.dir.1,
        (
          inr p.goos.0,
          p.goos.1,
          (
            inr p.goarch.0,
            p.goarch.1,
            (
              inr p.goversion.0,
              p.goversion.1,
              (
                inr (format_int-ne-nil br.filesize),
                All-mono (λ c h. omega arith) (format_int br.filesize) (format_int-All br.filesize),
                (
                  inr (sum_ne_nil br.sum p.sum_length),
                  p.sum,
                  (inl refl, variant-IsVisible br.spec.stripped, tt),
                ),
              ),
            ),
          ),
        ),
      ),
    ),
  )

  IsPackable-intro :
      ArePackable 0 (fields br) → length br.sum ≡ 28 → br.filesize ≢ pos 0 → IsPackable br
  unfolding fields
  IsPackable-intro (m, mv, (v, vv, (d, dv, (o, ov, (a, av, (g, gv, (z, zv, (s, sv, w)))))))) l n =
      record {
        mod_path = is_field m mv (omega arith);
        version = is_field v vv (omega arith);
        dir = is_field d dv (omega arith);
        goos = is_field o ov (omega arith);
        goarch = is_field a av (omega arith);
        goversion = is_field g gv (omega arith);
        sum = sv;
        sum_length = l;
        filesize_ne_zero = n;
      }

  -- What packing writes.
  record_text : Bytes
  record_text = join b' ' (fields br) ++ codes "\n"

  pack_record-eq-ok : (msg : Bytes) → pack_record br ≡ ok msg → IsPackable br × (msg ≡ record_text)
  unfolding pack_record record_text
  pack_record-eq-ok msg h = (
    IsPackable-intro (check_fields_sound 0 (fields br) (ground arith)) (ground arith)
        ((is_zero_iff br.filesize).0 (ground arith)),
    ground arith,
  )

  pack_record_complete : IsPackable br → pack_record br ≡ ok record_text
  unfolding pack_record record_text
  pack_record_complete p = rw (
    check_fields_complete 0 (fields br) (fields-ArePackable p),
    p.sum_length,
    (is_zero_iff br.filesize).1 p.filesize_ne_zero,
  )

ArePackable-Lacks : (i : ℕ) (fs : List Bytes) → ArePackable i fs → All (Lacks b' ') fs
ArePackable-Lacks i [] h = tt
ArePackable-Lacks i (f ∷ fs) (a, v, r) =
    (All-mono (λ c h. omega arith) f v, ArePackable-Lacks (i + 1) fs r)

parse_variant_lem : (b : Bool) → parse_variant (if b then codes "stripped" else []) ≡ ok b
unfolding parse_variant
parse_variant_lem true = refl
parse_variant_lem false = refl

-- packRecord succeeds exactly on the results whose fields are not empty, the variant aside, and
-- hold no space or control character, whose sum has 28 bytes and whose size is not zero.
pub pack_record_iff :
    (br : BuildResult) → ((msg : Bytes) × (pack_record br ≡ ok msg)) ↔ IsPackable br
pack_record_iff br =
    (λ h. (pack_record-eq-ok br h.0 h.1).0, λ p. (record_text br, pack_record_complete br p))

parse_fields-fields : (br : BuildResult) → Fits 64 br.filesize → parse_fields (fields br) ≡ ok br
unfolding parse_fields fields
parse_fields-fields br h =
    rw (parse_int-format_int 64 br.filesize h, parse_variant_lem br.spec.stripped)

-- parseRecord gives back every result that packRecord has packed, if its size is an int64.
pub parse_record-pack_record :
    (br : BuildResult) (msg : Bytes)
    → Fits 64 br.filesize
    → pack_record br ≡ ok msg
    → parse_record msg ≡ ok br
unfolding parse_record
parse_record-pack_record br msg h e =
    let (p, text) = pack_record-eq-ok br msg e in
    rw text (
      unfold record_text in
      rw
        (
          has_suffix-append (join b' ' (fields br)) (codes "\n"),
          chop-append (join b' ' (fields br)) (codes "\n") 1 refl,
          split-join b' ' (fields br) (unfold fields in ground arith)
              (ArePackable-Lacks 0 (fields br) (fields-ArePackable br p)),
        )
        (parse_fields-fields br h))
